-- ===== src/Value/Paths.antt =====
-- Reading a value along a path of keys.
use lura_p.Common.{
  Bool, true, false, ◌&&◌, String, List, [], ◌∷◌, Option, none, some, str_eq, any, split, ◌≡◌, refl,
  Bool-cases, inl, inr, if◌then◌else◌,
}
use lura_p.Value.{Value, null, obj, Dict, end, get, set, delete, as_dict}
use lura_p.Value.Laws.{get-set, get-delete}

-- What stands at the end of the path, if each step but the last leads to a map.
unfoldable pub value_at : List String → Value → Option Value
value_at [] v = some v
value_at (k ∷ p) (obj d) = elim (get k d) [ none ↦ none | some v ↦ value_at p v ]
value_at (k ∷ p) _ = none

-- The first path leads to the second one or above it.
unfoldable pub is_prefix : List String → List String → Bool
is_prefix [] q = true
is_prefix (k ∷ p) [] = false
is_prefix (k ∷ p) (j ∷ q) = str_eq k j && is_prefix p q

-- The path leads to one of the dotted keys of a list, or below one.
abbrev pub is_below : List String → List String → Bool
is_below keys p = any (λ key. is_prefix (split b'.' key) p) keys

pub value_at-get :
    {v : Value} (k : String) (p : List String) (d : Dict)
    → get k d ≡ some v
    → value_at (k ∷ p) (obj d) ≡ value_at p v
unfolding value_at
value_at-get k p d e = rw (e, value_at)

pub value_at-get-none :
    (k : String) (p : List String) (d : Dict) → get k d ≡ none → value_at (k ∷ p) (obj d) ≡ none
unfolding value_at
value_at-get-none k p d e = rw (e, value_at)

pub value_at-of_no_map :
    (k : String) (p : List String) (v : Value) → as_dict v ≡ none → value_at (k ∷ p) v ≡ none
unfolding value_at
value_at-of_no_map k p (obj d) h = cc
value_at-of_no_map k p null h = refl
value_at-of_no_map k p _ h = refl

-- A value with a map's entries left out: what a filter below it may change is gone.
abbrev pub outline : Value → Value
outline (obj d) = obj end
outline v = v

unfoldable pub outline_at : List String → Value → Option Value
outline_at [] v = some (outline v)
outline_at (k ∷ p) (obj d) = elim (get k d) [ none ↦ none | some v ↦ outline_at p v ]
outline_at (k ∷ p) _ = none

pub outline_at-get :
    {v : Value} (k : String) (p : List String) (d : Dict)
    → get k d ≡ some v
    → outline_at (k ∷ p) (obj d) ≡ outline_at p v
unfolding outline_at
outline_at-get k p d e = rw (e, outline_at)

pub outline_at-get-none :
    (k : String) (p : List String) (d : Dict) → get k d ≡ none → outline_at (k ∷ p) (obj d) ≡ none
unfolding outline_at
outline_at-get-none k p d e = rw (e, outline_at)

pub outline_at-set :
    (k j : String) (p : List String) (v : Value) (d : Dict)
    → outline_at (j ∷ p) (obj (set k v d))
      ≡ (if str_eq k j then outline_at p v else outline_at (j ∷ p) (obj d))
unfolding outline_at
outline_at-set k j p v d = elim (Bool-cases (str_eq k j)) [
  | inl e ↦ rw (get-set, outline_at) (rw e)
  | inr e ↦ rw (get-set, outline_at) (rw e)
]

pub outline_at-delete :
    (k j : String) (p : List String) (d : Dict)
    → outline_at (j ∷ p) (obj (delete k d))
      ≡ (if str_eq k j then none else outline_at (j ∷ p) (obj d))
unfolding outline_at
outline_at-delete k j p d = elim (Bool-cases (str_eq k j)) [
  | inl e ↦ rw (get-delete, outline_at) (rw e)
  | inr e ↦ rw (get-delete, outline_at) (rw e)
]

-- Below a value that is no map there is nothing.
pub outline_at-of_no_map :
    (k : String) (p : List String) (v : Value) → as_dict v ≡ none → outline_at (k ∷ p) v ≡ none
unfolding outline_at
outline_at-of_no_map k p (obj d) h = cc
outline_at-of_no_map k p null h = refl
outline_at-of_no_map k p _ h = refl
