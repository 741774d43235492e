-- ===== src/Graphql/Crashes.antt =====
-- When `New` and `fromBody` panic.
use Prim.Native.String.{[], ◌∷◌}
use Prim.Native.Char.{code}
use lura_p.Common.{
  ◌≡◌, refl, ◌↔◌, ◌⊎◌, String, List, [], ◌∷◌, Option, none, some, Bool-cases, inl, inr, ◌==◌, arith,
}
use lura_p.Value.{Dict, end, field}
use lura_p.Graphql.{
  Placeholder, named, plain, panicked, before_brace, name_of, placeholder, with_placeholder,
  with_text, text_of, replacements,
}

-- A placeholder that cannot be cut: the empty text, or a pair of braces with nothing between them.
abbrev pub IsBroken : String → Type 0
IsBroken [] = Unit
IsBroken (c ∷ s) = (code c ≡ 123) × (before_brace s ≡ some [])

abbrev pub IsBrokenText : Option String → Type 0
IsBrokenText none = ⊥
IsBrokenText (some s) = IsBroken s

-- A variable of the map is broken.
abbrev pub HasBroken : Dict → Type 0
HasBroken end = ⊥
HasBroken (field k v d) = IsBrokenText (text_of v) ⊎ HasBroken d

name_of-panicked :
    (title : String → String) (o : Option String) → (name_of title o ≡ panicked) ↔ (o ≡ some [])
name_of-panicked title none = (λ e. cc, λ e. cc)
name_of-panicked title (some []) = (λ e. refl, λ e. refl)
name_of-panicked title (some (c ∷ s)) = (λ e. cc, λ e. cc)

placeholder-panicked :
    (title : String → String) (s : String) → (placeholder title s ≡ panicked) ↔ IsBroken s
unfolding placeholder
placeholder-panicked title [] = (λ e. tt, λ h. refl)
placeholder-panicked title (c ∷ s) = elim (Bool-cases (code c == 123)) [
  | inl e ↦
      let inner = name_of-panicked title (before_brace s) in
      (λ h. (ground arith, inner.0 (rw e at h)), λ h. rw e (inner.1 h.1))
  | inr e ↦ (
    λ h. let q : Placeholder.plain ≡ panicked = rw e at h in cc,
    λ h. absurd (ground (arith, h.0)),
  )
]

module _ (title : String → String) where
  -- A round of the loop panics by its own text or by a later one.
  by_placeholder :
      (k : String) (p : Placeholder) (r : Option (List (String × String)))
      → (with_placeholder k p r ≡ none) ↔ ((p ≡ panicked) ⊎ (r ≡ none))
  by_placeholder k (named n) none = (λ e. inr refl, λ h. refl)
  by_placeholder k (named n) (some rs) = (λ e. cc, λ h. elim h [ inl a ↦ cc | inr b ↦ cc ])
  by_placeholder k plain r = (λ e. inr e, λ h. elim h [ inl a ↦ cc | inr b ↦ b ])
  by_placeholder k panicked r = (λ e. inl refl, λ h. refl)

  by_text :
      (k : String) (o : Option String) (r : Option (List (String × String)))
      → (with_text title k o r ≡ none) ↔ (IsBrokenText o ⊎ (r ≡ none))
  by_text k none r = (λ e. inr e, λ h. elim h [ inl a ↦ elim a [ ] | inr b ↦ b ])
  by_text k (some s) r =
      let whole = by_placeholder k (placeholder title s) r in
      let own = placeholder-panicked title s in
      (
        λ e. elim (whole.0 e) [ inl a ↦ inl (own.0 a) | inr b ↦ inr b ],
        λ h. elim h [ inl a ↦ whole.1 (inl (own.1 a)) | inr b ↦ whole.1 (inr b) ],
      )

-- `New` panics exactly where a default variable is the empty text or a pair of braces with nothing
-- between them.
pub replacements-HasBroken :
    (title : String → String) (d : Dict) → (replacements title d ≡ none) ↔ HasBroken d
unfolding replacements
replacements-HasBroken title end = (λ e. cc, λ h. elim h [ ])
replacements-HasBroken title (field k v d) =
    let here = by_text title k (text_of v) (replacements title d) in
    let later = replacements-HasBroken title d in
    (
      λ e. elim (here.0 e) [ inl a ↦ inl a | inr b ↦ inr (later.0 b) ],
      λ h. elim h [ inl a ↦ here.1 (inl a) | inr b ↦ here.1 (inr (later.1 b)) ],
    )
