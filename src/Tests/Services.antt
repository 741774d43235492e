-- ===== src/Tests/Services.antt =====
-- Balancers, records, registers, status handlers and backoffs.
use lura_p.Common.{
  ℕ, ◌*◌, ◌≤◌, ◌<◌, List, [], ◌∷◌, none, some, ◌≡◌, refl, String, arith, length, get_elem?, All,
  map,
}
use lura_p.Common.Int.{pos, ◌<ℤ◌}
use lura_p.Sd.{fixed, Hosts}
use lura_p.Sd.Balancer.{round_robin, random, host, host_of}
use lura_p.Sd.Balancer.RoundRobin.{serve, round_robin_serves}
use lura_p.Sd.Balancer.Choice.{IsBelow, Chosen, host_of-Chosen}
use lura_p.Sd.Dnssrv.{Srv, records, compact, normalize, resolve}
use lura_p.Sd.Dnssrv.Weights.{compact_proportions}
use lura_p.Sd.Dnssrv.Resolve.{IsBest, resolve-IsBest}
use lura_p.Register.{Namespaced, Untyped}
use lura_p.Client.{HttpResponse}
use lura_p.Backoff.{exponential_backoff}
use lura_p.Backoff.Growth.{exponential_backoff_wait}

abbrev hosts : List String
hosts = "a" ∷ "b" ∷ "c" ∷ []

-- A generator that keeps to its range.
abbrev lowest : ℕ → ℕ
lowest n = 0

lowest-IsBelow : IsBelow lowest
lowest-IsBelow n h = h

round_robin_serves_example :
    (i : ℕ) × (i < 3)
    × (get_elem? (serve lowest 3 (round_robin (fixed hosts) 7)) i ≡ some (host "c"))
round_robin_serves_example =
    round_robin_serves lowest "a" ("b" ∷ "c" ∷ []) 7 2 "c" (omega arith) (omega arith) refl

host_of-Chosen_example : Chosen (hosts, none) (host_of lowest ([], none) (random (fixed hosts))).0
unfolding lura_p.Sd.hosts_of
host_of-Chosen_example =
    host_of-Chosen lowest ([], none) (random (fixed hosts)) lowest-IsBelow (omega arith)

abbrev weights : List ℕ
weights = 200 ∷ 100 ∷ 100 ∷ []

compact_proportions_example :
    (d : ℕ) × (0 < d) × (map (λ w. w * d) (compact weights) ≡ 50 ∷ 25 ∷ 25 ∷ [])
unfolding normalize
compact_proportions_example = compact_proportions weights

abbrev srvs : List Srv
srvs =
    record { target = "x"; port = 80; priority = 2; weight = 1 }
    ∷ record { target = "y"; port = 80; priority = 1; weight = 1 }
    ∷ []

abbrev join : String → ℕ → String
join target port = target

resolve-IsBest_example :
    (hs : List String) × (resolve join "http" (records srvs) ≡ some hs)
    × All (IsBest (λ a. a.port ≡ 80) join "http" srvs) hs
    × (length hs ≤ 100)
resolve-IsBest_example = resolve-IsBest (λ a. a.port ≡ 80) join "http" srvs (refl, (refl, tt))

abbrev stored : Namespaced ℕ
stored = ("n", ("k", 1) ∷ []) ∷ []

abbrev entries : Untyped ℕ
entries = ("k", 1) ∷ ("j", 2) ∷ []

abbrev response : ℕ → HttpResponse
response code = record {
  status_code = code;
  body = some "text";
  content_type = "text/plain";
  path = "/";
}

exponential_backoff_wait_example :
    (exponential_backoff 3 ≡ pos 8_000_000_000)
    × (exponential_backoff 3 <ℤ exponential_backoff 4)
    × (exponential_backoff 57 ≡ pos 0)
exponential_backoff_wait_example = exponential_backoff_wait 3 2 (omega arith)
