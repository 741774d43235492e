-- ===== src/Value/Laws.antt =====
-- What reading a map after a write gives.
use lura_p.Common.{
  ◌≡◌, refl, Bool-cases, inl, inr, String, none, some, arith, eq_iff, str_eq, if◌then◌else◌,
  eq_refl,
}
use lura_p.Value.{
  Value, null, obj, Dict, end, field, as_dict, get, set, delete, set_all, IsMap, IsMapped,
  IsMappedDict,
}

pub get-set :
    (k j : String) (v : Value) (d : Dict)
    → get j (set k v d) ≡ (if str_eq k j then some v else get j d)
unfolding get set
get-set k j v end = refl
get-set k j v (field i w d) = ground (arith, eq_iff k j, eq_iff i k, eq_iff i j, get-set k j v d)

pub get-delete :
    (k j : String) (d : Dict) → get j (delete k d) ≡ (if str_eq k j then none else get j d)
unfolding get delete
get-delete k j end = ground (arith, eq_iff k j)
get-delete k j (field i w d) = ground (arith, eq_iff k j, eq_iff i k, eq_iff i j, get-delete k j d)

pub get-set_self : (k : String) (v : Value) (d : Dict) → get k (set k v d) ≡ some v
get-set_self k v d = simp (get-set, eq_refl)

-- A loop of writes reads as the source, and where that has nothing as the target.
pub get-set_all :
    (j : String) (src dst : Dict)
    → IsMap src
    → get j (set_all src dst) ≡ elim (get j src) [ none ↦ get j dst | some v ↦ some v ]
unfolding set_all get IsMap
get-set_all j end dst h = refl
get-set_all j (field k v src) dst h = elim (Bool-cases (str_eq k j)) [
  | inl e ↦ ground (arith, eq_iff k j, get-set_all j src (set k v dst) h.1, get-set k j v dst)
  | inr e ↦ ground (arith, get-set_all j src (set k v dst) h.1, get-set k j v dst)
]

pub as_dict-eq_some : (v : Value) {d : Dict} → as_dict v ≡ some d → v ≡ obj d
as_dict-eq_some null e = cc
as_dict-eq_some (obj d) e = cc
as_dict-eq_some _ e = cc

pub IsMapped-get :
    (k : String) (d : Dict) {v : Value} → IsMappedDict d → get k d ≡ some v → IsMapped v
unfolding IsMapped get
IsMapped-get k end h e = cc
IsMapped-get k (field j w d) {v} h e = elim (Bool-cases (str_eq j k)) [
  | inl p ↦ let q : w ≡ v = ground arith in rw (← q) h.1
  | inr p ↦ IsMapped-get k d h.2 (ground arith)
]
