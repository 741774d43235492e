-- ===== src/Proxy/Cloning/Places.antt =====
-- Places of the store: what keeps them, and where the copies of a map stand.
use lura_p.Common.{
  ℕ, ◌≤◌, ◌<◌, ◌≡◌, refl, ◌∙◌, String, List, [], ◌∷◌, Option, none, some, map, All, arith,
}
use lura_p.Proxy.Cloning.{Store, update, slice_of, new_slice, new_lists, new_texts, new_url}

abbrev pub IsBelow : ℕ → Option ℕ → Type 0
IsBelow n none = Unit
IsBelow n (some p) = p < n

abbrev pub IsFrom : ℕ → Option ℕ → Type 0
IsFrom n none = Unit
IsFrom n (some p) = n ≤ p

-- All slices of a map of lists stand below `n`, or at `n` and above.
abbrev pub AreBelow : ℕ → List (String × ℕ) → Type 0
AreBelow n es = All (λ (e : String × ℕ). e.1 < n) es

abbrev pub AreFrom : ℕ → List (String × ℕ) → Type 0
AreFrom n es = All (λ (e : String × ℕ). n ≤ e.1) es

-- Nothing that stood in the store has changed but what readers have left.
abbrev pub IsKept : Store → Store → Type 0
IsKept s t =
    (s.next ≤ t.next)
    × ((p : ℕ) → p < s.next → t.slice p ≡ s.slice p)
    × ((p : ℕ) → p < s.next → t.lists p ≡ s.lists p)
    × ((p : ℕ) → p < s.next → t.texts p ≡ s.texts p)
    × ((p : ℕ) → p < s.next → t.url p ≡ s.url p)

pub IsKept-refl : (s : Store) → IsKept s s
IsKept-refl s = (omega arith, λ p h. refl, λ p h. refl, λ p h. refl, λ p h. refl)

pub IsKept-trans : (s t u : Store) → IsKept s t → IsKept t u → IsKept s u
IsKept-trans s t u (n, a, b, c, d) (m, e, f, g, h) = (
  omega (arith, n, m),
  λ p q. e p (omega (arith, n, q)) ∙ a p q,
  λ p q. f p (omega (arith, n, q)) ∙ b p q,
  λ p q. g p (omega (arith, n, q)) ∙ c p q,
  λ p q. h p (omega (arith, n, q)) ∙ d p q,
)

pub update-other : {A : Type 0} (f : ℕ → A) (p : ℕ) (v : A) (q : ℕ) → q < p → update f p v q ≡ f q
update-other f p v q h = ground arith

pub update-same : {A : Type 0} (f : ℕ → A) (p : ℕ) (v : A) → update f p v p ≡ v
update-same f p v = ground arith

module _ (s : Store) where
  pub IsKept-new_slice : (xs : List String) → IsKept s (new_slice xs s)
  IsKept-new_slice xs = (
    omega arith,
    λ p h. update-other s.slice s.next xs p h,
    λ p h. refl,
    λ p h. refl,
    λ p h. refl,
  )

  pub IsKept-new_lists : (es : List (String × ℕ)) → IsKept s (new_lists es s)
  IsKept-new_lists es = (
    omega arith,
    λ p h. refl,
    λ p h. update-other s.lists s.next es p h,
    λ p h. refl,
    λ p h. refl,
  )

  pub IsKept-new_texts : (es : List (String × String)) → IsKept s (new_texts es s)
  IsKept-new_texts es = (
    omega arith,
    λ p h. refl,
    λ p h. refl,
    λ p h. update-other s.texts s.next es p h,
    λ p h. refl,
  )

  pub IsKept-new_url : (u : String) → IsKept s (new_url u s)
  IsKept-new_url u =
      (omega arith, λ p h. refl, λ p h. refl, λ p h. refl, λ p h. update-other s.url s.next u p h)

-- The slices of a map are what they were.
pub map-slice_of :
    (f g : ℕ → List String) (n : ℕ) (es : List (String × ℕ))
    → ((p : ℕ) → p < n → g p ≡ f p)
    → AreBelow n es
    → map (slice_of g) es ≡ map (slice_of f) es
map-slice_of f g n [] k h = refl
map-slice_of f g n ((a, p) ∷ es) k h = λ i. (a, k p h.0 i) ∷ map-slice_of f g n es k h.1 i

pub slices_kept :
    (s t : Store) (es : List (String × ℕ))
    → IsKept s t
    → AreBelow s.next es
    → map (slice_of t.slice) es ≡ map (slice_of s.slice) es
slices_kept s t es k h = map-slice_of s.slice t.slice s.next es k.1 h

pub AreBelow-mono : (n m : ℕ) (es : List (String × ℕ)) → n ≤ m → AreBelow n es → AreBelow m es
AreBelow-mono n m [] le h = tt
AreBelow-mono n m (e ∷ es) le h = (omega (arith, h.0), AreBelow-mono n m es le h.1)

pub AreFrom-mono : (n m : ℕ) (es : List (String × ℕ)) → n ≤ m → AreFrom m es → AreFrom n es
AreFrom-mono n m [] le h = tt
AreFrom-mono n m (e ∷ es) le h = (omega (arith, h.0), AreFrom-mono n m es le h.1)
