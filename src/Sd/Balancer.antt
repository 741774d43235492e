-- ===== src/Sd/Balancer.antt =====
-- sd/loadbalancing.go: the balancers. The generator of valyala/fastrand is a parameter: what
-- `fastrand.Uint32n` answers for each bound.
pub mod RoundRobin
pub mod Choice
use lura_p.Common.{
  ℕ, suc, ◌+◌, ◌-◌, ◌%◌, ◌^◌, String, List, [], ◌∷◌, Option, none, some, ◌==◌, if◌then◌else◌,
  length, get_elem?,
}
use lura_p.Sd.{SdError, err_no_hosts, Hosts, Subscriber, fixed, dynamic, hosts_of}

pub data Balancer : Type 0 where
  nop : String → Balancer
  round_robin : Subscriber → ℕ → Balancer
  random : Subscriber → Balancer

-- What `Host()` comes to; a panic is an index out of range.
pub data Answer : Type 0 where
  host : String → Answer
  failed : SdError → Answer
  panicked : Answer

abbrev pub u32 : ℕ → ℕ
u32 n = n % 2 ^ 32

abbrev pub u64 : ℕ → ℕ
u64 n = n % 2 ^ 64

-- `NewRoundRobinLB(subscriber)`
unfoldable pub new_round_robin : (ℕ → ℕ) → Subscriber → Balancer
new_round_robin rand (fixed []) = round_robin (fixed []) 0
new_round_robin rand (fixed (h ∷ [])) = nop h
new_round_robin rand (fixed (h ∷ k ∷ hs)) =
    round_robin (fixed (h ∷ k ∷ hs)) (rand (u32 (length (h ∷ k ∷ hs))))
new_round_robin rand dynamic = round_robin dynamic 0

-- `NewRandomLB(subscriber)`
unfoldable pub new_random : Subscriber → Balancer
new_random (fixed (h ∷ [])) = nop h
new_random s = random s

-- `NewBalancer(subscriber)`, with the value of GOMAXPROCS.
unfoldable pub new_balancer : ℕ → (ℕ → ℕ) → Subscriber → Balancer
new_balancer procs rand s = if procs == 1 then new_round_robin rand s else new_random s

-- `b.hosts()`
unfoldable pub checked_hosts : Hosts → Hosts
checked_hosts (hs, some err) = (hs, some err)
checked_hosts ([], none) = ([], some err_no_hosts)
checked_hosts (h ∷ hs, none) = (h ∷ hs, none)

abbrev pub at_index : List String → ℕ → Answer
at_index hs i = elim (get_elem? hs i) [ none ↦ panicked | some h ↦ host h ]

-- `Host()` of a roundRobinLB: the answer and the counter after it. `atomic.AddUint64` wraps, and so
-- does the subtraction.
unfoldable pub round_robin_host : Hosts → ℕ → Answer × ℕ
round_robin_host (hs, some err) counter = (failed err, counter)
round_robin_host (hs, none) counter =
    let counter' = u64 (counter + 1) in
    (at_index hs (u64 (counter' + 2 ^ 64 - 1) % length hs), counter')

-- `Host()` of a randomLB.
unfoldable pub random_host : (ℕ → ℕ) → Hosts → Answer
random_host rand (hs, some err) = failed err
random_host rand (hs, none) = at_index hs (rand (u32 (length hs)))

-- `Host()`
unfoldable pub host_of : (ℕ → ℕ) → Hosts → Balancer → Answer × Balancer
host_of rand answer (nop h) = (host h, nop h)
host_of rand answer (round_robin s counter) =
    let (a, counter') = round_robin_host (checked_hosts (hosts_of s answer)) counter in
    (a, round_robin s counter')
host_of rand answer (random s) = (random_host rand (checked_hosts (hosts_of s answer)), random s)
