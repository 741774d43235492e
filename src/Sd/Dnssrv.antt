-- ===== src/Sd/Dnssrv.antt =====
-- sd/dnssrv/subscriber.go: the hosts that the SRV records of a name give, as often as their weights
-- say. `net.LookupSRV` (its records or an error), `net.JoinHostPort` with the port printed, and the
-- permutation that rand.Perm draws are arguments.
pub mod Gcd
pub mod Weights
pub mod Sorted
pub mod Resolve
use Prim.Native.String
use lura_p.Common.{
  ℕ, zero, suc, ◌+◌, ◌*◌, ◌/◌, ◌%◌, ◌^◌, Bool, true, false, String, List, [], ◌∷◌, ◌++◌, Option,
  none, some, map, ltb, leb, ◌==◌, if◌then◌else◌, length, replicate, str_eq, string_lt,
}
use lura_p.Sd.{SdError}

-- net.SRV
pub record Srv : Type 0 where
  pub target : String
  pub port : ℕ
  pub priority : ℕ
  pub weight : ℕ

-- The order that `resolve` sorts the records by.
unfoldable pub less : Srv → Srv → Bool
less a b =
    if a.priority == b.priority
    then (if a.weight == b.weight
        then (if str_eq a.target b.target then ltb a.port b.port else string_lt a.target b.target)
        else ltb b.weight a.weight)
    else ltb a.priority b.priority

-- `sort.Slice(srvs, less)`: records that no test tells apart are equal, so the order is the only one.
unfoldable pub insert : Srv → List Srv → List Srv
unfolding less
insert a [] = a ∷ []
insert a (b ∷ bs) = let rest = insert a bs in if less b a then b ∷ rest else a ∷ b ∷ bs

unfoldable pub sort : List Srv → List Srv
unfolding insert
sort [] = []
sort (a ∷ rest) = insert a (sort rest)

-- The records before the first whose priority is above `least`.
unfoldable pub best : ℕ → List Srv → List Srv
best least [] = []
best least (a ∷ srvs) =
    let more : List Srv = a ∷ best least srvs in if ltb least a.priority then [] else more

abbrev pub sum : List ℕ → ℕ
sum [] = 0
sum (w ∷ ws) = w + sum ws

abbrev pub u16 : ℕ → ℕ
u16 n = n % 2 ^ 16

-- `scale` of `normalize`
abbrev pub scale_of : List ℕ → ℕ
scale_of ws = if ltb 100 (length ws) then length ws else 100

abbrev pub scaled : ℕ → ℕ → List ℕ → List ℕ
scaled scale total [] = []
scaled scale total (w ∷ ws) = u16 (w * scale / total) ∷ scaled scale total ws

-- `normalize(ws)`
unfoldable pub normalize : List ℕ → List ℕ
normalize ws = if leb (sum ws) (scale_of ws) then ws else scaled (scale_of ws) (sum ws) ws

-- `localGCD`, on fuel: one more than `b` is enough.
unfoldable pub local_gcd : ℕ → ℕ → ℕ → ℕ
local_gcd zero a b = a
local_gcd (suc fuel) a zero = a
local_gcd (suc fuel) a (suc b) = local_gcd fuel (suc b) (a % suc b)

unfoldable pub gcd_from : ℕ → List ℕ → ℕ
unfolding local_gcd
gcd_from result [] = result
gcd_from result (w ∷ ws) = gcd_from (local_gcd (suc w) result w) ws

-- `gcd(ws)`
unfoldable pub gcd : List ℕ → ℕ
unfolding gcd_from
gcd [] = 0
gcd (w ∷ ws) = gcd_from w ws

-- `compact(ws)`
unfoldable pub compact : List ℕ → List ℕ
unfolding normalize gcd
compact ws =
    let tmp = normalize ws in let div = gcd tmp in if ltb div 2 then tmp else map (λ w. w / div) tmp

-- Each host as many times as its weight says.
unfoldable pub repeat : List ℕ → List String → List String
repeat (w ∷ ws) (h ∷ hs) = replicate w h ++ repeat ws hs
repeat _ _ = []

-- What a lookup answers.
pub data Lookup : Type 0 where
  records : List Srv → Lookup
  failed : String → Lookup

-- `a.scheme + "://" + net.JoinHostPort(a.Target, a.Port)`
abbrev pub address : (String → ℕ → String) → String → Srv → String
address join scheme a = String.◌++◌ scheme (String.◌++◌ "://" (join a.target a.port))

-- The instances of the sorted records.
unfoldable pub instances : (String → ℕ → String) → String → List Srv → List String
unfolding best compact repeat
instances join scheme [] = []
instances join scheme (a ∷ srvs) =
    let kept = best a.priority (a ∷ srvs) in
    repeat (compact (map (λ b. b.weight) kept)) (map (address join scheme) kept)

-- `s.resolve()`: the instances, or none where the lookup failed.
unfoldable pub resolve : (String → ℕ → String) → String → Lookup → Option (List String)
unfolding instances sort
resolve join scheme (failed err) = none
resolve join scheme (records srvs) = some (instances join scheme (sort srvs))

-- `s.update()`, on the cached hosts.
unfoldable pub update :
    (List String → List String)
    → (String → ℕ → String)
    → String
    → Lookup
    → List String
    → List String
unfolding resolve
update shuffle join scheme answer cache = elim (resolve join scheme answer) [
  | none ↦ cache
  | some hosts ↦ if ltb 100 (length hosts) then shuffle hosts else hosts
]

-- `SetTTL(d)`, on the package's TTL; a duration below a second is left out.
unfoldable pub set_ttl : ℕ → ℕ → ℕ
set_ttl d ttl = if ltb d 1_000_000_000 then ttl else d

-- The scheme of `NewDetailedWithScheme`.
unfoldable pub scheme_or_http : String → String
scheme_or_http scheme = if str_eq scheme "" then "http" else scheme
