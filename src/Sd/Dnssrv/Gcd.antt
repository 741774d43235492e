-- ===== src/Sd/Dnssrv/Gcd.antt =====
-- The greatest common divisor that `gcd` computes divides every weight.
use native.Mathlib.Nat.{div-add-mod', mod-lt, mul_assoc, add-mul}
use lura_p.Common.{
  ℕ, zero, suc, ◌+◌, ◌*◌, ◌/◌, ◌%◌, ◌<◌, ◌≡◌, ◌∙◌, sym, ap, arith, List, [], ◌∷◌, All,
}
use lura_p.Sd.Dnssrv.{local_gcd, gcd_from, gcd}

abbrev pub Divides : ℕ → ℕ → Type 0
Divides d n = (k : ℕ) × (n ≡ k * d)

Divides-combine : (d q b r : ℕ) → Divides d b → Divides d r → Divides d (q * b + r)
Divides-combine d q b r (k, e) (l, e') =
    (q * k + l, rw (e, e') (sym (add-mul (q * k) l d ∙ ap (λ x. x + l * d) (mul_assoc q k d))))

pub Divides-trans : (c d n : ℕ) → Divides c d → Divides d n → Divides c n
Divides-trans c d n (k, e) (l, e') = (l * k, rw (e', e) (sym (mul_assoc l k c)))

local_gcd-Divides :
    (fuel a b : ℕ) → b < fuel → Divides (local_gcd fuel a b) a × Divides (local_gcd fuel a b) b
unfolding local_gcd
local_gcd-Divides zero a b h = ground arith
local_gcd-Divides (suc fuel) a zero h = ((1, omega arith), (0, omega arith))
local_gcd-Divides (suc fuel) a (suc b) h =
    let d = local_gcd fuel (suc b) (a % suc b) in
    let (whole, part) =
      local_gcd-Divides fuel (suc b) (a % suc b)
        (omega (arith, h, mod-lt a {m = suc b} (omega arith))) in
    let split : Divides d (a / suc b * suc b + a % suc b) =
      Divides-combine d (a / suc b) (suc b) (a % suc b) whole part in
    ((split.0, sym (div-add-mod' a (suc b)) ∙ split.1), whole)

gcd_from-Divides :
    (result : ℕ) (ws : List ℕ)
    → Divides (gcd_from result ws) result × All (Divides (gcd_from result ws)) ws
unfolding gcd_from
gcd_from-Divides result [] = ((1, omega arith), tt)
gcd_from-Divides result (w ∷ ws) =
    let g = local_gcd (suc w) result w in
    let (left, right) = local_gcd-Divides (suc w) result w (omega arith) in
    let (head, rest) = gcd_from-Divides g ws in
    let d = gcd_from g ws in
    (Divides-trans d g result head left, (Divides-trans d g w head right, rest))

-- `gcd` divides every weight.
pub gcd-Divides : (ws : List ℕ) → All (Divides (gcd ws)) ws
unfolding gcd
gcd-Divides [] = tt
gcd-Divides (w ∷ ws) = gcd_from-Divides w ws
