-- ===== src/Backoff/Jitter.antt =====
-- The bounds of the strategies with jitter.
use lura_p.Common.{ℕ, ◌+◌, ◌*◌, ◌/◌, ◌-◌, ◌≤◌, ◌<◌, ◌≡◌, arith, ◌==◌, if◌then◌else◌}
use lura_p.Common.Int.{pos}
use lura_p.Backoff.{millisecond, jitter}
use lura_p.Backoff.Growth.{int64_fits}

-- The milliseconds that `jitter` waits.
abbrev waited : (ℕ → ℕ) → ℕ → ℕ
waited drawn i =
    let moved = i * 1000 + drawn (2 * (i * 1000 / 3 + 1)) - (i * 1000 / 3 + 1) in
    if moved == 0 then 1 else moved

waited_bounds :
    (drawn : ℕ → ℕ) (i : ℕ)
    → drawn (2 * (i * 1000 / 3 + 1)) < 2 * (i * 1000 / 3 + 1)
    → (1 ≤ waited drawn i)
      × (2 * (i * 1000) ≤ 3 * waited drawn i + 3)
      × (3 * waited drawn i ≤ 4 * (i * 1000) + 3)
waited_bounds drawn i h = (ground arith, ground arith, ground arith)

-- Where the random source draws below the bound that it is given and the milliseconds fit, the wait
-- is positive, at least two thirds of i seconds less 1 ms and at most four thirds of them and 1 ms.
pub jitter_bounds :
    (drawn : ℕ → ℕ) (i : ℕ)
    → drawn (2 * (i * 1000 / 3 + 1)) < 2 * (i * 1000 / 3 + 1)
    → i ≤ 6_000_000_000
    → (n : ℕ) × (jitter drawn i ≡ pos (n * millisecond))
      × (1 ≤ n)
      × (2 * (i * 1000) ≤ 3 * n + 3)
      × (3 * n ≤ 4 * (i * 1000) + 3)
unfolding jitter
jitter_bounds drawn i h b =
    let (least, low, high) = waited_bounds drawn i h in
    (
      waited drawn i,
      int64_fits (waited drawn i * millisecond) (omega (arith, high)),
      least,
      low,
      high,
    )
