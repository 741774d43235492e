-- ===== src/Sd/Balancer/Choice.antt =====
-- What a balancer answers, whichever it is.
use native.Mathlib.Nat.{mod-lt}
use lura_p.Common.{
  ℕ, zero, suc, ◌+◌, ◌-◌, ◌%◌, ◌^◌, ◌<◌, String, List, [], ◌∷◌, none, some, ◌≡◌, refl, length,
  get_elem?, arith,
}
use lura_p.Sd.{Hosts, Subscriber, fixed, dynamic, hosts_of, err_no_hosts}
use lura_p.Sd.Balancer.{
  Balancer, nop, round_robin, random, Answer, host, failed, u32, u64, at_index, checked_hosts,
  round_robin_host, random_host, host_of, new_round_robin, new_random, new_balancer,
}

-- `fastrand.Uint32n(maxN)` returns a number in the range [0..maxN).
abbrev pub IsBelow : (ℕ → ℕ) → Type 0
IsBelow rand = (n : ℕ) → 0 < n → rand n < n

at_index_below :
    (hs : List String) (i : ℕ)
    → i < length hs
    → (x : String) × (at_index hs i ≡ host x) × (get_elem? hs i ≡ some x)
at_index_below [] i h = absurd (omega arith)
at_index_below (x ∷ hs) zero h = (x, refl, refl)
at_index_below (x ∷ hs) (suc i) h = at_index_below hs i (omega arith)

-- The answer is a host of the list, or the error of the subscriber, or that there are no hosts.
abbrev pub Chosen : Hosts → Answer → Type 0
Chosen (hs, some err) a = a ≡ failed err
Chosen ([], none) a = a ≡ failed err_no_hosts
Chosen (h ∷ hs, none) a = (i : ℕ) × (x : String) × (a ≡ host x) × (get_elem? (h ∷ hs) i ≡ some x)

round_robin-Chosen :
    (hosts : Hosts) (c : ℕ) → Chosen hosts (round_robin_host (checked_hosts hosts) c).0
unfolding round_robin_host checked_hosts
round_robin-Chosen (hs, some err) c = refl
round_robin-Chosen ([], none) c = refl
round_robin-Chosen (h ∷ hs, none) c =
    let i = u64 (u64 (c + 1) + 2 ^ 64 - 1) % length (h ∷ hs) in
    let (x, e, q) = at_index_below (h ∷ hs) i (mod-lt _ (omega arith)) in (i, x, e, q)

random-Chosen :
    (rand : ℕ → ℕ) (hosts : Hosts)
    → IsBelow rand
    → length hosts.0 < 2 ^ 32
    → Chosen hosts (random_host rand (checked_hosts hosts))
unfolding random_host checked_hosts
random-Chosen rand (hs, some err) below fits = refl
random-Chosen rand ([], none) below fits = refl
random-Chosen rand (h ∷ hs, none) below fits =
    let n = u32 (length (h ∷ hs)) in
    let (x, e, q) = at_index_below (h ∷ hs) (rand n) (omega (arith, below n (omega arith))) in
    (rand n, x, e, q)

-- The hosts that a balancer chooses from.
abbrev pub hosts_for : Hosts → Balancer → Hosts
hosts_for answer (nop h) = (h ∷ [], none)
hosts_for answer (round_robin s c) = hosts_of s answer
hosts_for answer (random s) = hosts_of s answer

-- A balancer never panics: it answers with a host of its subscriber's list, with the subscriber's
-- error, or with ErrNoHosts where the list is empty, if `fastrand.Uint32n` keeps to its range and the
-- list has fewer than 2^32 hosts.
pub host_of-Chosen :
    (rand : ℕ → ℕ) (answer : Hosts) (b : Balancer)
    → IsBelow rand
    → length (hosts_for answer b).0 < 2 ^ 32
    → Chosen (hosts_for answer b) (host_of rand answer b).0
unfolding host_of
host_of-Chosen rand answer (nop h) below fits = (0, h, refl, refl)
host_of-Chosen rand answer (round_robin s c) below fits = round_robin-Chosen (hosts_of s answer) c
host_of-Chosen rand answer (random s) below fits = random-Chosen rand (hosts_of s answer) below fits

-- The balancer that is built for a subscriber chooses from the hosts of that subscriber.
pub new_balancer_hosts :
    (procs : ℕ) (rand : ℕ → ℕ) (answer : Hosts) (s : Subscriber)
    → hosts_for answer (new_balancer procs rand s) ≡ hosts_of s answer
unfolding new_balancer new_round_robin new_random hosts_of
new_balancer_hosts procs rand answer dynamic = ground arith
new_balancer_hosts procs rand answer (fixed []) = ground arith
new_balancer_hosts procs rand answer (fixed (h ∷ [])) = ground arith
new_balancer_hosts procs rand answer (fixed (h ∷ k ∷ hs)) = ground arith
