-- ===== src/Graphql/Defaults.antt =====
-- How the body of a mutation is completed by the default variables.
use lura_p.Common.{
  ◌≡◌, refl, ap, sym, ◌∙◌, Bool, true, false, String, Option, none, some, str_eq, Bool-cases, inl,
  inr, if◌then◌else◌, eq_iff,
}
use lura_p.Value.{Value, Dict, end, field, get, set}
use lura_p.Value.Laws.{get-set}
use lura_p.Graphql.{add_defaults}

-- The first of two that is there.
abbrev pub or_else : Option Value → Option Value → Option Value
or_else none w = w
or_else (some v) w = some v

or_else-none : (o : Option Value) → or_else o none ≡ o
or_else-none none = refl
or_else-none (some v) = refl

or_else_if :
    (o w : Option Value) (b : Bool) (v : Value)
    → or_else (or_else o (if b then some v else none)) w ≡ or_else o (if b then some v else w)
or_else_if none w true v = refl
or_else_if none w false v = refl
or_else_if (some u) w b v = refl

-- A round of the loop: `o` is what the map has for the key `k`.
added :
    (j k : String) (v : Value) (vars : Dict) (o : Option Value)
    → get k vars ≡ o
    → get j (elim o [ none ↦ set k v vars | some w ↦ vars ])
      ≡ or_else (get j vars) (if str_eq k j then some v else none)
added j k v vars none e = elim (Bool-cases (str_eq k j)) [
  | inl s ↦
      let here : get j vars ≡ none = ap (λ (x : String). get x vars) (sym ((eq_iff k j).0 s)) ∙ e in
      get-set k j v vars ∙ rw (s, here) refl
  | inr s ↦ get-set k j v vars ∙ (rw s (sym (or_else-none (get j vars))))
]
added j k v vars (some w) e = elim (Bool-cases (str_eq k j)) [
  | inl s ↦ rw (s, ap (λ (x : String). get x vars) (sym ((eq_iff k j).0 s)) ∙ e) refl
  | inr s ↦ rw s (sym (or_else-none (get j vars)))
]

-- After the defaults are added, a variable has the value that it had, else its default.
pub get-add_defaults :
    (j : String) (defaults vars : Dict)
    → get j (add_defaults defaults vars) ≡ or_else (get j vars) (get j defaults)
unfolding add_defaults get
get-add_defaults j end vars = sym (or_else-none (get j vars))
get-add_defaults j (field k v d) vars =
    let w : Dict = elim (get k vars) [ none ↦ set k v vars | some w ↦ vars ] in
    get-add_defaults j d w
    ∙ ap (λ (o : Option Value). or_else o (get j d)) (added j k v vars (get k vars) refl)
    ∙ or_else_if (get j vars) (get j d) (str_eq k j) v
