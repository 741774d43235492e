-- ===== src/Proxy/Filters/Count.antt =====
-- The count that lets a filter hand the request on unchanged: when it means that all names pass.
use lura_p.Common.{
  ℕ, suc, ◌≤◌, true, String, List, [], ◌∷◌, ◌≡◌, refl, some, str_eq, if◌then◌else◌, length,
  contains, nodup, arith, eq_iff, Bool-cases, inl, inr,
}
use lura_p.Proxy.Filters.{Values, lookup, num_to_pass}

-- How many entries of the map have a name of the list.
unfoldable pub num_named : List String → Values → ℕ
num_named to_pass [] = 0
num_named to_pass ((j, vs) ∷ m) =
    let rest : ℕ = num_named to_pass m in if contains to_pass j then suc rest else rest

-- An entry more is counted once at most, since no name is listed twice.
num_to_pass-cons :
    (to_pass : List String) (j : String) (vs : List String) (m : Values)
    → nodup to_pass ≡ true
    → num_to_pass to_pass ((j, vs) ∷ m)
      ≤ (if contains to_pass j then suc (num_to_pass to_pass m) else num_to_pass to_pass m)
unfolding num_to_pass lookup contains nodup
num_to_pass-cons [] j vs m h = omega arith
num_to_pass-cons (v ∷ to_pass) j vs m h =
    ground (arith, num_to_pass-cons to_pass j vs m, eq_iff v j, eq_iff j v)

num_to_pass-nil : (to_pass : List String) → num_to_pass to_pass [] ≡ 0
unfolding num_to_pass lookup
num_to_pass-nil [] = refl
num_to_pass-nil (v ∷ to_pass) = num_to_pass-nil to_pass

num_to_pass-le :
    (to_pass : List String) (m : Values)
    → nodup to_pass ≡ true
    → num_to_pass to_pass m ≤ num_named to_pass m
unfolding num_named
num_to_pass-le to_pass [] h = omega (arith, num_to_pass-nil to_pass)
num_to_pass-le to_pass ((j, vs) ∷ m) h =
    ground (arith, num_to_pass-cons to_pass j vs m h, num_to_pass-le to_pass m h)

num_named-le : (to_pass : List String) (m : Values) → num_named to_pass m ≤ length m
unfolding num_named
num_named-le to_pass [] = omega arith
num_named-le to_pass ((j, vs) ∷ m) = ground (arith, num_named-le to_pass m)

named_all :
    (to_pass : List String) (m : Values) (k : String) {vs : List String}
    → length m ≤ num_named to_pass m
    → lookup k m ≡ some vs
    → contains to_pass k ≡ true
unfolding num_named lookup
named_all to_pass [] k h e = cc
named_all to_pass ((j, us) ∷ m) k {vs} h e = elim (Bool-cases (str_eq j k)) [
  | inl same ↦ ground (arith, eq_iff j k, num_named-le to_pass m)
  | inr other ↦
      named_all to_pass m k {vs = vs} (ground (arith, num_named-le to_pass m)) (ground arith)
]

-- Where no name is listed twice and the count reaches the size of the map, each name of the map is
-- one that passes.
pub counted_all :
    (to_pass : List String) (m : Values) (k : String) {vs : List String}
    → nodup to_pass ≡ true
    → num_to_pass to_pass m ≡ length m
    → lookup k m ≡ some vs
    → contains to_pass k ≡ true
counted_all to_pass m k h e = named_all to_pass m k (omega (arith, num_to_pass-le to_pass m h))
