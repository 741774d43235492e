-- ===== src/Proxy/Modifiers.antt =====
-- proxy/plugin.go: the middleware that hands requests and responses to the modifiers of plugins. A
-- modifier is external code; a wrapper stands for what its methods answer, and a modifier that writes
-- into the maps it is handed is not modelled. The calls of a proxy are numbered, and what an outside
-- part answers goes with the number.
pub mod Loading
pub mod Applied
pub mod Loaded
use lura_p.Common.{ℕ, String, List, [], ◌∷◌, Option, none, some, ◌>>=◌}
use lura_p.Value.{Value, text, array, Items, nil, item, Dict, get, as_dict}
use lura_p.Config.{ExtraConfig}
use lura_p.Proxy.{Request, Response, Error, err_other}
use lura_p.Register.{Namespaced, get_in}

-- How a call of a proxy ends: `(*Response, error)`, or a panic, which nothing in the pipe recovers.
pub data Outcome : Type 0 where
  returned : Option Response → Option Error → Outcome
  crashed : Outcome

-- A Proxy at its calls.
abbrev pub Proxy : Type 0
Proxy = ℕ → Request → Outcome

-- A proxy with what it leaves in the request that it is handed, which it may change in place.
abbrev pub Next : Type 0
Next = ℕ → Request → Outcome × Request

-- A response with the request that it answers, where a plugin can ask for it.
abbrev pub Told : Type 0
Told = Response × Option Request

-- A `RequestWrapper` or a `ResponseWrapper`.
pub data Wrapper : Type 0 where
  of_request : Request → Wrapper
  of_response : Told → Wrapper

-- What a modifier answers: an error, or a value, with what it is as a `RequestWrapper` and as a
-- `ResponseWrapper`.
pub data Answer : Type 0 where
  failed : String → Answer
  answered : Option Request → Option Told → Answer

abbrev pub Modifier : Type 0
Modifier = ℕ → Wrapper → Answer

-- `ModifierFactory`; `none` is nil.
abbrev pub Factory : Type 0
Factory = Dict → Option Modifier

-- An error, or what the modifiers have left.
pub data Modified (A : Type 0) : Type 0 where
  stopped : String → Modified A
  through : A → Modified A

-- One turn of the loop over the modifiers: an answer of another type leaves the wrapper as it is.
abbrev pub go_on : {A : Type 0} → (A → Modified A) → A → Modified (Option A) → Modified A
go_on next x (stopped e) = stopped e
go_on next x (through none) = next x
go_on next x (through (some y)) = next y

unfoldable pub apply_all :
    {A : Type 0} → (Modifier → A → Modified (Option A)) → List Modifier → A → Modified A
apply_all step [] x = through x
apply_all step (f ∷ fs) x = go_on (λ y. apply_all step fs y) x (step f x)

-- `res.(RequestWrapper)` and `res.(ResponseWrapper)`
abbrev pub as_request : Answer → Modified (Option Request)
as_request (failed e) = stopped e
as_request (answered r t) = through r

abbrev pub as_response : Answer → Modified (Option Told)
as_response (failed e) = stopped e
as_response (answered r t) = through t

abbrev pub on_request : ℕ → Modifier → Request → Modified (Option Request)
on_request call f r = as_request (f call (of_request r))

abbrev pub on_response : ℕ → Modifier → Told → Modified (Option Told)
on_response call f t = as_response (f call (of_response t))

-- `executeRequestModifiers(ctx, reqModifiers, r)`
unfoldable pub execute_request_modifiers : ℕ → List Modifier → Request → Modified Request
unfolding apply_all
execute_request_modifiers call fs r = apply_all (on_request call) fs r

-- `executeResponseModifiers(ctx, respModifiers, r, req)`
unfoldable pub execute_response_modifiers : ℕ → List Modifier → Response → Request → Modified Told
unfolding apply_all
execute_response_modifiers call gs a r = apply_all (on_response call) gs (a, some r)

abbrev pub refused : String → Outcome
refused e = returned none (some (err_other e))

-- What goes back to the client.
abbrev pub given_back : Modified Told → Outcome
given_back (stopped e) = refused e
given_back (through t) = returned (some t.0) none

-- What happens to what the next proxy answered, when it has left `r` in the request; a nil response is
-- read, which is a panic.
abbrev pub replied : ℕ → List Modifier → Request → Outcome → Outcome
replied call gs r crashed = crashed
replied call gs r (returned resp (some e)) = returned resp (some e)
replied call gs r (returned none none) = crashed
replied call gs r (returned (some a) none) = given_back (execute_response_modifiers call gs a r)

abbrev pub asking : (Request → Outcome) → Modified Request → Outcome
asking next (stopped e) = refused e
asking next (through r) = next r

-- The call of the next proxy, and then the response modifiers.
abbrev pub asked_then : ℕ → List Modifier → Next → Request → Outcome
asked_then call gs next x = let o : Outcome × Request = next call x in replied call gs o.1 o.0

-- The proxy that the middleware makes of `next`, given the modifiers.
unfoldable pub around : List Modifier → List Modifier → Next → Proxy
unfolding execute_request_modifiers execute_response_modifiers
around [] [] next call r = (next call r).0
around [] (g ∷ gs) next call r = asked_then call (g ∷ gs) next r
around (f ∷ fs) [] next call r =
    asking (λ x. (next call x).0) (execute_request_modifiers call (f ∷ fs) r)
around (f ∷ fs) (g ∷ gs) next call r =
    asking (λ x. asked_then call (g ∷ gs) next x) (execute_request_modifiers call (f ∷ fs) r)

pub record Modifiers : Type 0 where
  pub requests : List Modifier
  pub responses : List Modifier

abbrev pub no_modifiers : Modifiers
no_modifiers = record { requests = []; responses = [] }

abbrev pub before_requests : Option Modifier → Modifiers → Modifiers
before_requests none ms = ms
before_requests (some f) ms = record ms { requests = f ∷ ms.requests }

abbrev pub before_responses : Option Modifier → Modifiers → Modifiers
before_responses none ms = ms
before_responses (some f) ms = record ms { responses = f ∷ ms.responses }

abbrev pub request_namespace : String
request_namespace = "github.com/devopsfaith/krakend/proxy/plugin/request"

abbrev pub response_namespace : String
response_namespace = "github.com/devopsfaith/krakend/proxy/plugin/response"

-- The factories under a name: the one for requests is preferred.
abbrev pub with_factory : Dict → Option Factory → Option Factory → Modifiers → Modifiers
with_factory cfg (some mf) o ms = before_requests (mf cfg) ms
with_factory cfg none (some mf) ms = before_responses (mf cfg) ms
with_factory cfg none none ms = ms

abbrev pub with_plugin : Namespaced Factory → Dict → Value → Modifiers → Modifiers
with_plugin reg cfg (text name) ms =
    with_factory cfg (get_in reg request_namespace name) (get_in reg response_namespace name) ms
with_plugin reg cfg _ ms = ms

-- The loop over the names, in their order.
unfoldable pub collect : Namespaced Factory → Dict → Items → Modifiers
collect reg cfg nil = no_modifiers
collect reg cfg (item p ps) = with_plugin reg cfg p (collect reg cfg ps)

-- `v.([]interface{})`
abbrev pub as_items : Value → Option Items
as_items (array xs) = some xs
as_items _ = none

-- plugin.Namespace
abbrev pub namespace : String
namespace = "github.com/devopsfaith/krakend/proxy/plugin"

abbrev pub named : Namespaced Factory → Dict → Option Items → Modifiers
named reg cfg none = no_modifiers
named reg cfg (some ps) = collect reg cfg ps

abbrev pub configured : Namespaced Factory → Option Dict → Modifiers
configured reg none = no_modifiers
configured reg (some cfg) = named reg cfg (get "name" cfg >>= as_items)

-- The modifiers that a configuration names; without a list of names there are none.
unfoldable pub modifiers_of : Namespaced Factory → ExtraConfig → Modifiers
unfolding collect
modifiers_of reg extra = configured reg (get namespace extra >>= as_dict)

-- `NewPluginMiddleware` and `NewBackendPluginMiddleware`, of an endpoint's or a backend's extra
-- configuration.
unfoldable pub plugin_middleware : Namespaced Factory → ExtraConfig → Next → Proxy
unfolding around modifiers_of
plugin_middleware reg extra next call r =
    let ms = modifiers_of reg extra in around ms.requests ms.responses next call r
