-- ===== src/Proxy/Formatter/DenyTree.antt =====
-- The tree that `buildDenyTree` builds, and the paths that it denies.
use lura_p.Common.{
  Bool, true, false, ◌||◌, ◌≡◌, refl, String, List, [], ◌∷◌, none, some, arith, eq_iff, str_eq,
  if◌then◌else◌, Option-cases, inl, inr, ◌⊎◌, Bool-cases, ◌∙◌, ap,
}
use lura_p.Value.{Value, null, obj, Dict, end, field, get, set}
use lura_p.Value.Laws.{get-set}
use lura_p.Value.Paths.{is_prefix}
use lura_p.Proxy.Formatter.{build_deny_tree}

-- What `buildDenyTree` keeps up: nodes are nil or maps, and no key has two entries.
unfoldable mutual
  pub IsNode : Value → Type 0
  IsNode null = Unit
  IsNode (obj t) = IsTree t
  IsNode _ = ⊥

  pub IsTree : Dict → Type 0
  IsTree end = Unit
  IsTree (field k v t) = (get k t ≡ none) × IsNode v × IsTree t

-- The tree has a nil node on the path.
unfoldable pub denied : List String → Value → Bool
denied p null = true
denied [] (obj t) = false
denied (k ∷ p) (obj t) = elim (get k t) [ none ↦ false | some n ↦ denied p n ]
denied p _ = false

IsNode-get : (k : String) (t : Dict) {v : Value} → IsTree t → get k t ≡ some v → IsNode v
unfolding IsTree get
IsNode-get k end h e = cc
IsNode-get k (field j w t) {v} h e = elim (Bool-cases (str_eq j k)) [
  | inl p ↦ let q : w ≡ v = ground arith in rw (← q) h.1
  | inr p ↦ IsNode-get k t h.2 (ground arith)
]

Node-cases : (v : Value) → IsNode v → (v ≡ null) ⊎ ((c : Dict) × (v ≡ obj c) × IsTree c)
unfolding IsNode
Node-cases null h = inl refl
Node-cases (obj c) h = inr (c, refl, h)
Node-cases _ h = absurd h

get-cases :
    (k : String) (t : Dict)
    → IsTree t
    → (get k t ≡ none)
      ⊎ ((get k t ≡ some null) ⊎ ((c : Dict) × (get k t ≡ some (obj c)) × IsTree c))
get-cases k t h = elim (Option-cases (get k t)) [
  | inl e ↦ inl e
  | inr (v, e) ↦ elim (Node-cases v (IsNode-get k t h e)) [
    | inl q ↦ inr (inl (e ∙ ap some q))
    | inr (c, q, hc) ↦ inr (inr (c, e ∙ ap some q, hc))
  ]
]

IsTree-set : (k : String) (v : Value) (t : Dict) → IsTree t → IsNode v → IsTree (set k v t)
unfolding IsTree set get
IsTree-set k v end h hv = (refl, hv, tt)
IsTree-set k v (field j w t) h hv = elim (Bool-cases (str_eq j k)) [
  | inl e ↦ rw e (h.0, hv, h.2)
  | inr e ↦
      rw e (ground (arith, get-set k j v t, eq_iff j k, eq_iff k j), h.1, IsTree-set k v t h.2 hv)
]

pub build_deny_tree-IsTree :
    (path : List String) (t : Dict) → IsTree t → IsTree (build_deny_tree path t)
unfolding build_deny_tree IsTree
build_deny_tree-IsTree [] t h = h
build_deny_tree-IsTree (n ∷ []) t h = IsTree-set n null t h tt
build_deny_tree-IsTree (n ∷ m ∷ path) t h = elim (get-cases n t h) [
  | inl e ↦ rw (e, build_deny_tree) (IsTree-set n _ t h (build_deny_tree-IsTree (m ∷ path) end tt))
  | inr (inl e) ↦ rw (e, build_deny_tree) h
  | inr (inr (c, e, hc)) ↦
      rw (e, build_deny_tree) (IsTree-set n _ t h (build_deny_tree-IsTree (m ∷ path) c hc))
]

pub denied-end : (p : List String) → denied p (obj end) ≡ false
unfolding denied get
denied-end [] = refl
denied-end (k ∷ p) = refl

pub denied-null : (p : List String) → denied p null ≡ true
unfolding denied
denied-null [] = refl
denied-null (k ∷ p) = refl

pub denied-get :
    (k : String) (p : List String) (t : Dict) {n : Value}
    → get k t ≡ some n
    → denied (k ∷ p) (obj t) ≡ denied p n
unfolding denied
denied-get k p t e = rw (e, denied)

pub denied-get-none :
    (k : String) (p : List String) (t : Dict) → get k t ≡ none → denied (k ∷ p) (obj t) ≡ false
unfolding denied
denied-get-none k p t e = rw (e, denied)

pub denied-field :
    (k j : String) (p : List String) (n : Value) (t : Dict)
    → denied (j ∷ p) (obj (field k n t))
      ≡ (if str_eq k j then denied p n else denied (j ∷ p) (obj t))
unfolding denied get
denied-field k j p n t = elim (Bool-cases (str_eq k j)) [
  | inl e ↦ rw (e, denied, get)
  | inr e ↦ rw (e, denied, get)
]

pub denied-set :
    (k j : String) (p : List String) (n : Value) (t : Dict)
    → denied (j ∷ p) (obj (set k n t)) ≡ (if str_eq k j then denied p n else denied (j ∷ p) (obj t))
unfolding denied
denied-set k j p n t = elim (Bool-cases (str_eq k j)) [
  | inl e ↦ rw (get-set, denied) (rw e)
  | inr e ↦ rw (get-set, denied) (rw e)
]

-- The tree denies one path more, and what stands below it.
pub denied-build_deny_tree :
    (n : String) (path p : List String) (t : Dict)
    → IsTree t
    → denied p (obj (build_deny_tree (n ∷ path) t)) ≡ (denied p (obj t) || is_prefix (n ∷ path) p)
unfolding build_deny_tree is_prefix IsTree
denied-build_deny_tree n [] [] t h = unfold denied in refl
denied-build_deny_tree n [] (j ∷ q) t h =
    ground (arith, eq_iff n j, denied-set n j q null t, denied-null q)
denied-build_deny_tree n (m ∷ path) [] t h = unfold denied in refl
denied-build_deny_tree n (m ∷ path) (j ∷ q) t h = elim (get-cases n t h) [
  | inl e ↦
      rw (e, build_deny_tree)
        (ground (
          arith,
          eq_iff n j,
          denied-set n j q (obj (build_deny_tree (m ∷ path) end)) t,
          denied-build_deny_tree m path q end tt,
          denied-end q,
          denied-get-none n q t,
        ))
  | inr (inl e) ↦
      rw (e, build_deny_tree) (ground (arith, eq_iff n j, denied-get n q t e, denied-null q))
  | inr (inr (c, e, hc)) ↦
      rw (e, build_deny_tree)
        (ground (
          arith,
          eq_iff n j,
          denied-set n j q (obj (build_deny_tree (m ∷ path) c)) t,
          denied-build_deny_tree m path q c hc,
          denied-get n q t e,
        ))
]
