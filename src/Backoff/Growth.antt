-- ===== src/Backoff/Growth.antt =====
-- How the exponential strategy grows, and where its int64 stops it.
use native.Mathlib.Nat.{pow-suc, pow-le-pow_right, one-le-pow}
use lura_p.Common.{ℕ, zero, suc, ◌+◌, ◌*◌, ◌^◌, ◌≤◌, ◌<◌, ◌≡◌, refl, arith}
use lura_p.Common.Int.{pos, ◌<ℤ◌}
use lura_p.Backoff.{int64, second, exponential_backoff, linear_backoff}

-- An int64 holds every number below 2 ^ 63.
pub int64_fits : (n : ℕ) → n < 2 ^ 63 → int64 n ≡ pos n
unfolding int64
int64_fits n h = ground arith

-- 2 ^ 55 seconds are a multiple of 2 ^ 64 nanoseconds.
wraps : (k : ℕ) → (m : ℕ) × (2 ^ (k + 55) * second ≡ m * 2 ^ 64)
wraps zero = (1953125, refl)
wraps (suc k) =
    let (m, e) : (m : ℕ) × (2 ^ (k + 55) * second ≡ m * 2 ^ 64) = wraps k in
    let double : 2 ^ suc (k + 55) ≡ 2 ^ (k + 55) * 2 = pow-suc 2 (k + 55) in
    let wrapped : 2 ^ suc (k + 55) * second ≡ m * 2 * 2 ^ 64 = omega (arith, e, double) in
    let shift : suc k + 55 ≡ suc (k + 55) = omega arith in (m * 2, rw shift wrapped)

small : (i : ℕ) → i ≤ 33 → 2 ^ i * second < 2 ^ 63
small i h =
    let m : 2 ^ i ≤ 2 ^ 33 = pow-le-pow_right {n = 2} (omega arith) {i = i} {j = 33} h in
    omega (arith, m)

-- Below attempt 33 the exponential strategy waits exactly 2 ^ i seconds, and longer at the next
-- attempt; from attempt 55 on it waits 0.
pub exponential_backoff_wait :
    (i k : ℕ)
    → suc i ≤ 33
    → (exponential_backoff i ≡ pos (2 ^ i * second))
      × (exponential_backoff i <ℤ exponential_backoff (suc i))
      × (exponential_backoff (k + 55) ≡ pos 0)
unfolding exponential_backoff int64
exponential_backoff_wait i k h =
    let here = int64_fits (2 ^ i * second) (small i (omega arith)) in
    let next = int64_fits (2 ^ suc i * second) (small (suc i) h) in
    let (m, e) = wraps k in
    let positive : 1 ≤ 2 ^ i = one-le-pow i 2 (omega arith) in
    let double : 2 ^ suc i ≡ 2 ^ i * 2 = pow-suc 2 i in
    (here, rw (here, next) (omega (arith, positive, double)), rw e (ground arith))

-- Below attempt 9,223,372,036, the linear strategy waits exactly i seconds, and longer at the next
-- attempt.
pub linear_backoff_wait :
    (i : ℕ)
    → i < 9_223_372_036
    → (linear_backoff i ≡ pos (i * second)) × (linear_backoff i <ℤ linear_backoff (suc i))
unfolding linear_backoff
linear_backoff_wait i h =
    let here = int64_fits (i * second) (omega arith) in
    let next = int64_fits (suc i * second) (omega arith) in (here, rw (here, next) (omega arith))
