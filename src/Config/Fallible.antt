-- ===== src/Config/Fallible.antt =====
-- The errors of config.go and the results that carry one.
use lura_p.Common.{ℕ, suc, String, List, [], ◌∷◌, ◌≡◌, refl, ap, subst, All, length}
use lura_p.Common.Int.{ℤ}

pub data ConfigError : Type 0 where
  unsupported_version : ℤ → ℤ → ConfigError
  invalid_address : String → ConfigError
  invalid_host : String → ConfigError
  invalid_noop_encoding : ConfigError
  endpoint_path : String → String → ConfigError
  no_backends : String → String → ConfigError
  wrong_number_of_params : String → String → ℕ → List String → List String → ConfigError
  undefined_output_param : String → String → String → ℕ → List String → List String → ConfigError

-- A result and an error of which one is nil. What a failed call leaves half changed is not kept.
pub data Result (A : Type 0) : Type 0 where
  failed : ConfigError → Result A
  done : A → Result A

infixl 5 ◌>>=◌
abbrev pub ◌>>=◌ : {A B : Type 0} → Result A → (A → Result B) → Result B
failed e >>= k = failed e
done a >>= k = k a

-- A loop over the list that returns at the first error; the loop's index goes with each element.
abbrev pub each : {A B : Type 0} → (ℕ → A → Result B) → ℕ → List A → Result (List B)
each f i [] = done []
each f i (x ∷ xs) = do y ← f i x; ys ← each f (suc i) xs; done (y ∷ ys)

-- What holds of the result, where there is one.
abbrev pub Ensures : {A : Type 0} → (A → Type 0) → Result A → Type 0
Ensures P (failed e) = Unit
Ensures P (done a) = P a

pub Ensures-bind :
    {A B : Type 0} (Q : A → Type 0) (P : B → Type 0) (r : Result A) (k : A → Result B)
    → Ensures Q r
    → ((a : A) → Q a → Ensures P (k a))
    → Ensures P (r >>= k)
Ensures-bind Q P (failed e) k q h = tt
Ensures-bind Q P (done a) k q h = h a q

pub Ensures-mono :
    {A : Type 0} (P Q : A → Type 0) (r : Result A)
    → Ensures P r
    → ((a : A) → P a → Q a)
    → Ensures Q r
Ensures-mono P Q (failed e) p h = tt
Ensures-mono P Q (done a) p h = h a p

pub Ensures-any : {A : Type 0} (r : Result A) → Ensures (λ _. Unit) r
Ensures-any (failed e) = tt
Ensures-any (done a) = tt

pub Ensures-done :
    {A : Type 0} (P : A → Type 0) (r : Result A) (a : A) → r ≡ done a → Ensures P r → P a
Ensures-done P r a e h = subst (Ensures P) e h

-- A loop keeps the number of elements, and each result has what the body ensures.
pub Ensures-each :
    {A B : Type 0} (P : B → Type 0) (f : ℕ → A → Result B) (i : ℕ) (xs : List A)
    → ((j : ℕ) (x : A) → Ensures P (f j x))
    → Ensures (λ ys. All P ys × (length ys ≡ length xs)) (each f i xs)
Ensures-each P f i [] h = (tt, refl)
Ensures-each P f i (x ∷ xs) h =
    Ensures-bind P (λ ys. All P ys × (length ys ≡ suc (length xs))) (f i x)
      (λ y. each f (suc i) xs >>= (λ ys. done (y ∷ ys))) (h i x)
      (λ y p.
        Ensures-bind (λ ys. All P ys × (length ys ≡ length xs))
          (λ ys. All P ys × (length ys ≡ suc (length xs))) (each f (suc i) xs) (λ ys. done (y ∷ ys))
          (Ensures-each P f (suc i) xs h) (λ ys q. ((p, q.0), ap suc q.1)))
