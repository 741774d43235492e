-- ===== src/Backoff.antt =====
-- backoff/backoff.go: the time to wait before a retry, by the name of a strategy. An attempt's number
-- is not negative. A time.Duration is an int64 of nanoseconds, and wraps. `strings.ToLower` and the
-- number that the random source draws are arguments.
pub mod Growth
pub mod Jitter
use lura_p.Common.{
  ℕ, zero, suc, ◌+◌, ◌-◌, ◌*◌, ◌/◌, ◌%◌, ◌^◌, ltb, ◌==◌, if◌then◌else◌, String, str_eq,
}
use lura_p.Common.Int.{ℤ, pos, negsuc}

-- The int64 whose bits are those of `n`.
unfoldable pub int64 : ℕ → ℤ
int64 n = let low = n % 2 ^ 64 in if ltb low (2 ^ 63) then pos low else negsuc (2 ^ 64 - 1 - low)

abbrev pub second : ℕ
second = 1_000_000_000

abbrev pub millisecond : ℕ
millisecond = 1_000_000

-- `DefaultBackoff(i)`, with DefaultBackoffDuration as it is initialised.
unfoldable pub default_backoff : ℕ → ℤ
default_backoff i = pos second

-- `ExponentialBackoff(i)`
unfoldable pub exponential_backoff : ℕ → ℤ
exponential_backoff i = int64 (2 ^ i * second)

-- `LinearBackoff(i)`
unfoldable pub linear_backoff : ℕ → ℤ
linear_backoff i = int64 (i * second)

-- `jitter(i)` for an `i` whose milliseconds fit an int; `drawn` is what `random.Intn` returns for
-- its bound. The milliseconds are 0 here where the source has a number that is not positive.
unfoldable pub jitter : (ℕ → ℕ) → ℕ → ℤ
jitter drawn i =
    let ms = i * 1000 in
    let max_jitter = ms / 3 + 1 in
    let moved = ms + drawn (2 * max_jitter) - max_jitter in
    int64 ((if moved == 0 then 1 else moved) * millisecond)

-- `LinearJitterBackoff(i)`
unfoldable pub linear_jitter_backoff : (ℕ → ℕ) → ℕ → ℤ
unfolding jitter
linear_jitter_backoff drawn i = jitter drawn i

-- `ExponentialJitterBackoff(i)`
unfoldable pub exponential_jitter_backoff : (ℕ → ℕ) → ℕ → ℤ
unfolding jitter
exponential_jitter_backoff drawn i = jitter drawn (2 ^ i)

-- `GetByName(strategy)`
unfoldable pub get_by_name : (String → String) → (ℕ → ℕ) → String → ℕ → ℤ
get_by_name to_lower drawn strategy =
    let name = to_lower strategy in
    if str_eq name "linear"
    then linear_backoff
    else if str_eq name "linear-jitter"
    then linear_jitter_backoff drawn
    else if str_eq name "exponential"
    then exponential_backoff
    else if str_eq name "exponential-jitter"
    then exponential_jitter_backoff drawn
    else default_backoff
