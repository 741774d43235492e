-- ===== src/Common/Decimal.antt =====
-- The decimal text of a number, as `%d` prints it.
use Prim.Native.Nat.{ℕ, zero, suc, ◌/◌, ◌%◌, ◌<◌}
use Prim.Native.String.{String, ◌++◌}
use mathlib.Core.Path.{◌≡◌, refl, ap}
use mathlib.Core.Logic.{inl, inr}
use mathlib.Core.List.{[], ◌∷◌}
use mathlib.Core.Option.{Option, none, some}
use native.Mathlib.Omega.{arith}
use lura_p.Common.Tests.{ltb, if◌then◌else◌, Bool-cases}
use lura_p.Common.Lists.{get_elem?}
use lura_p.Common.Int.{ℤ, pos, negsuc}

abbrev or_empty : Option String → String
or_empty none = ""
or_empty (some d) = d

abbrev pub digit : ℕ → String
digit n = or_empty (get_elem? ("0" ∷ "1" ∷ "2" ∷ "3" ∷ "4" ∷ "5" ∷ "6" ∷ "7" ∷ "8" ∷ "9" ∷ []) n)

-- The decimal digits of `n`, which are fewer than the fuel where `n` is below it.
unfoldable pub decimal : ℕ → ℕ → String
decimal zero n = ""
decimal (suc fuel) n =
    let rest = decimal fuel (n / 10) in if ltb n 10 then digit n else rest ++ digit (n % 10)

-- `%d` of an int.
unfoldable pub decimal_int : ℤ → String
unfolding decimal
decimal_int (pos n) = decimal (suc n) n
decimal_int (negsuc n) = "-" ++ decimal (suc (suc n)) (suc n)

decimal_same : (f g n : ℕ) → n < f → n < g → decimal f n ≡ decimal g n
unfolding decimal
decimal_same zero g n hf hg = absurd (omega (arith, hf))
decimal_same (suc f) zero n hf hg = absurd (omega (arith, hg))
decimal_same (suc f) (suc g) n hf hg = elim (Bool-cases (ltb n 10)) [
  | inl e ↦ rw e refl
  | inr e ↦ rw e (
      ap (λ (s : String). s ++ digit (n % 10))
        (decimal_same f g (n / 10) (ground arith) (ground arith)))
]

-- More fuel than `n` gives no more digits.
pub decimal_enough : (fuel n : ℕ) → n < fuel → decimal fuel n ≡ decimal (suc n) n
decimal_enough fuel n h = decimal_same fuel (suc n) n h (omega arith)
