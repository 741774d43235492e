-- ===== src/Proxy/Shadow/Split.antt =====
-- Which backends a shadow factory builds its two proxies from.
use lura_p.Common.{
  Bool, true, false, List, [], ◌∷◌, Option, none, some, ◌≡◌, refl, ap, String, if◌then◌else◌, arith,
  Option-cases, inl, inr, All,
}
use lura_p.Common.Int.{ℤ, pos, negsuc, ◌≤ℤ◌, lt_int}
use lura_p.Config.{Backend, EndpointConfig}
use lura_p.Proxy.{Error}
use lura_p.Proxy.Shadow.{shadow_duration, split, wrap, new_shadow}

-- The backends that are shadows or not, in order.
abbrev pub keep : (String → Option ℤ) → Bool → List Backend → List Backend
keep parse want [] = []
keep parse want (b ∷ bs) =
    let rest = keep parse want bs in
    elim (shadow_duration parse b) [
      | none ↦ if want then rest else b ∷ rest
      | some d ↦ if want then b ∷ rest else rest
    ]

split-regular :
    (parse : String → Option ℤ) (longest : ℤ) (bs : List Backend)
    → (split parse longest bs).regular ≡ keep parse false bs
unfolding split
split-regular parse longest [] = refl
split-regular parse longest (b ∷ bs) = elim (Option-cases (shadow_duration parse b)) [
  | inl e ↦ rw (e, keep, split) (ap (λ xs. b ∷ xs) (split-regular parse longest bs))
  | inr (d, e) ↦
      rw (e, keep, split) (split-regular parse (if lt_int longest d then d else longest) bs)
]

split-shadow :
    (parse : String → Option ℤ) (longest : ℤ) (bs : List Backend)
    → (split parse longest bs).shadow ≡ keep parse true bs
unfolding split
split-shadow parse longest [] = refl
split-shadow parse longest (b ∷ bs) = elim (Option-cases (shadow_duration parse b)) [
  | inl e ↦ rw (e, keep, split) (split-shadow parse longest bs)
  | inr (d, e) ↦
      rw (e, keep, split)
        (ap (λ xs. b ∷ xs) (split-shadow parse (if lt_int longest d then d else longest) bs))
]

-- A backend's shadow duration, where it has one, is not above `longest`.
abbrev pub IsWithin : ℤ → Option ℤ → Type 0
IsWithin longest none = Unit
IsWithin longest (some d) = d ≤ℤ longest

later : (a d : ℤ) → (a ≤ℤ (if lt_int a d then d else a)) × (d ≤ℤ (if lt_int a d then d else a))
later (pos a) (pos d) = (ground arith, ground arith)
later (pos a) (negsuc d) = (ground arith, ground arith)
later (negsuc a) (pos d) = (ground arith, ground arith)
later (negsuc a) (negsuc d) = (ground arith, ground arith)

le_int-trans : (a b c : ℤ) → a ≤ℤ b → b ≤ℤ c → a ≤ℤ c
le_int-trans a b c h k = omega (arith, h, k)

abbrev next_longest : ℤ → Option ℤ → ℤ
next_longest longest none = longest
next_longest longest (some d) = if lt_int longest d then d else longest

abbrev longest_of : (String → Option ℤ) → ℤ → List Backend → ℤ
longest_of parse longest [] = longest
longest_of parse longest (b ∷ bs) =
    longest_of parse (next_longest longest (shadow_duration parse b)) bs

split-longest_of :
    (parse : String → Option ℤ) (longest : ℤ) (bs : List Backend)
    → (split parse longest bs).longest ≡ longest_of parse longest bs
unfolding split
split-longest_of parse longest [] = refl
split-longest_of parse longest (b ∷ bs) = elim (Option-cases (shadow_duration parse b)) [
  | inl e ↦ rw (e, split) (split-longest_of parse longest bs)
  | inr (d, e) ↦ rw (e, split) (split-longest_of parse (if lt_int longest d then d else longest) bs)
]

next_longest_lem : (longest : ℤ) (o : Option ℤ) → longest ≤ℤ next_longest longest o
next_longest_lem longest none = omega arith
next_longest_lem longest (some d) = (later longest d).0

IsWithin-mono : (longest most : ℤ) (o : Option ℤ) → next_longest longest o ≤ℤ most → IsWithin most o
IsWithin-mono longest most none h = tt
IsWithin-mono longest most (some d) h =
    le_int-trans d (next_longest longest (some d)) most (later longest d).1 h

longest_of-IsWithin :
    (parse : String → Option ℤ) (longest : ℤ) (bs : List Backend)
    → (longest ≤ℤ longest_of parse longest bs)
      × All (λ b. IsWithin (longest_of parse longest bs) (shadow_duration parse b)) bs
longest_of-IsWithin parse longest [] = (omega arith, tt)
longest_of-IsWithin parse longest (b ∷ bs) =
    let o = shadow_duration parse b in
    let next = next_longest longest o in
    let most = longest_of parse next bs in
    let (least, rest) = longest_of-IsWithin parse next bs in
    (
      le_int-trans longest next most (next_longest_lem longest o) least,
      (IsWithin-mono longest most o least, rest),
    )

-- For an endpoint with backends, a shadow factory builds the answer's proxy from those that are no
-- shadows, in order, and, where there are shadows, a second proxy from them, with a timeout that is
-- not below the duration of any of them.
pub new_shadow_parts :
    {P : Type 0} (parse : String → Option ℤ) (f : EndpointConfig → Option P × Option Error)
    (cfg : EndpointConfig) (b : Backend) (bs : List Backend)
    → cfg.backend ≡ b ∷ bs
    → (longest : ℤ) × (new_shadow parse f cfg
        ≡ wrap f cfg longest
            (keep parse true (b ∷ bs))
            (f (record cfg { backend = keep parse false (b ∷ bs) })))
      × All (λ b. IsWithin longest (shadow_duration parse b)) (b ∷ bs)
unfolding new_shadow
new_shadow_parts parse f cfg b bs e =
    let bs' : List Backend = b ∷ bs in
    (
      longest_of parse (pos 0) bs',
      rw
          (
            e,
            split-regular parse (pos 0) bs',
            split-shadow parse (pos 0) bs',
            split-longest_of parse (pos 0) bs',
          )
          refl,
      (longest_of-IsWithin parse (pos 0) bs').1,
    )
