-- ===== src/Sd/Dnssrv/Weights.antt =====
-- The weights that `compact` returns: as many as it is given, in the proportions of the normalised
-- ones, and together no more than the scale.
use native.Mathlib.Nat.{
  mul-div_cancel, div-mul-le_self, add-mul, le_trans, mod-le, le-div_iff_mul-le,
  mul-div_cancel_left, div-le_self,
}
use lura_p.Common.{
  ℕ, suc, ◌*◌, ◌/◌, ◌^◌, ◌≤◌, ◌<◌, ◌≡◌, refl, ap, ◌∙◌, arith, inl, inr, List, [], ◌∷◌, map, All,
  length, ltb, leb, Bool-cases, leb→le,
}
use lura_p.Sd.Dnssrv.{sum, u16, scale_of, scaled, normalize, gcd, compact}
use lura_p.Sd.Dnssrv.Gcd.{Divides, gcd-Divides}

length-scaled : (scale total : ℕ) (ws : List ℕ) → length (scaled scale total ws) ≡ length ws
length-scaled scale total [] = refl
length-scaled scale total (w ∷ ws) = ap suc (length-scaled scale total ws)

length-normalize : (ws : List ℕ) → length (normalize ws) ≡ length ws
unfolding normalize
length-normalize ws = elim (Bool-cases (leb (sum ws) (scale_of ws))) [
  | inl e ↦ simp e
  | inr e ↦ simp (e, length-scaled (scale_of ws) (sum ws) ws)
]

length-div : (d : ℕ) (ws : List ℕ) → length (map (λ w. w / d) ws) ≡ length ws
length-div d [] = refl
length-div d (w ∷ ws) = ap suc (length-div d ws)

-- The parts of a total, each rounded down, add up to no more than the scale.
sum-scaled : (scale total : ℕ) (ws : List ℕ) → sum (scaled scale total ws) * total ≤ sum ws * scale
sum-scaled scale total [] = omega arith
sum-scaled scale total (w ∷ ws) =
    let part = w * scale / total in
    let small : u16 part ≤ part = mod-le part (2 ^ 16) in
    let rest = sum-scaled scale total ws in
    let below : u16 part * total ≤ part * total = grind (arith, small) in
    let whole : part * total ≤ w * scale = div-mul-le_self (w * scale) total in
    rw (add-mul (u16 part) (sum (scaled scale total ws)) total, add-mul w (sum ws) scale)
      (omega (arith, below, whole, rest))

cancel : (x s total : ℕ) → 0 < total → x * total ≤ total * s → x ≤ s
cancel x s total p h =
    let q : x ≤ total * s / total = (le-div_iff_mul-le {k = total} {x = x} {y = total * s} p).1 h in
    rw (mul-div_cancel_left s p) at q

sum-normalize : (ws : List ℕ) → sum (normalize ws) ≤ scale_of ws
unfolding normalize
sum-normalize ws = elim (Bool-cases (leb (sum ws) (scale_of ws))) [
  | inl e ↦ simp e (leb→le (sum ws) (scale_of ws) e)
  | inr e ↦
      let positive : 0 < sum ws = ground (arith, e) in
      let small : sum (scaled (scale_of ws) (sum ws) ws) ≤ scale_of ws =
        cancel (sum (scaled (scale_of ws) (sum ws) ws)) (scale_of ws) (sum ws) positive
          (sum-scaled (scale_of ws) (sum ws) ws) in
      simp e small
]

sum-div : (d : ℕ) (ws : List ℕ) → sum (map (λ w. w / d) ws) ≤ sum ws
sum-div d [] = omega arith
sum-div d (w ∷ ws) = omega (arith, sum-div d ws, div-le_self w d)

-- Division by a positive divisor of every weight is undone by multiplication.
map-div-mul :
    (d : ℕ) (ws : List ℕ) → 0 < d → All (Divides d) ws → map (λ w. w * d) (map (λ w. w / d) ws) ≡ ws
map-div-mul d [] p h = refl
map-div-mul d (w ∷ ws) p ((k, e), h) =
    let head : w / d * d ≡ w = rw (e, mul-div_cancel k p) refl in
    rw (head, map-div-mul d ws p h) refl

map-one : (ws : List ℕ) → map (λ w. w * 1) ws ≡ ws
map-one [] = refl
map-one (w ∷ ws) = let one : w * 1 ≡ w = omega arith in rw (one, map-one ws) refl

-- As many weights as it is given come back from `compact`, and together they are no more than the
-- scale: 100, or the number of the weights if that is larger.
pub compact_small :
    (ws : List ℕ) → (length (compact ws) ≡ length ws) × (sum (compact ws) ≤ scale_of ws)
unfolding compact
compact_small ws =
    let tmp = normalize ws in
    elim (Bool-cases (ltb (gcd tmp) 2)) [
      | inl e ↦ simp e (length-normalize ws, sum-normalize ws)
      | inr e ↦ simp e (
        length-div (gcd tmp) tmp ∙ length-normalize ws,
        le_trans (sum-div (gcd tmp) tmp) (sum-normalize ws),
      )
    ]

-- The weights of `compact` are in the proportions of the normalised ones: there is a positive factor
-- by which they all are multiplied to give those.
pub compact_proportions :
    (ws : List ℕ) → (d : ℕ) × (0 < d) × (map (λ w. w * d) (compact ws) ≡ normalize ws)
unfolding compact
compact_proportions ws =
    let tmp = normalize ws in
    elim (Bool-cases (ltb (gcd tmp) 2)) [
      | inl e ↦ (1, omega arith, simp e (map-one tmp))
      | inr e ↦
          let positive : 0 < gcd tmp = ground (arith, e) in
          (gcd tmp, positive, simp e (map-div-mul (gcd tmp) tmp positive (gcd-Divides tmp)))
    ]
