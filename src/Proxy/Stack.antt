-- ===== src/Proxy/Stack.antt =====
-- proxy/factory.go, proxy/balancing.go and the request builder of proxy/http.go: the pipe of a backend.
-- The calls of a proxy are numbered, and what an outside part answers goes with the number. A request
-- that a layer changes in place is handed on changed; after the call no layer of the stack but the
-- plugins' looks at it again.
pub mod Asked
use Prim.Native.String
use mathlib.Core.Option
use lura_p.Common.{
  ℕ, zero, suc, Bool, true, false, not, String, List, [], ◌∷◌, Option, none, some, str_eq, ltb,
  length, map, if◌then◌else◌,
}
use lura_p.Common.Int.{ℤ, pos, lt_int}
use lura_p.Config.{Backend}
use lura_p.Config.Uri.{◌<>◌}
use lura_p.Proxy.{Request, Response, Error, err_other}
use lura_p.Proxy.Cloning.{replace_params}
use lura_p.Proxy.Concurrent.{Round, ended, context_done, concurrent}
use lura_p.Proxy.Filters.{Values, filter_headers, filter_query_strings}
use lura_p.Proxy.Http
use lura_p.Proxy.Http.{BackendError, Network, Reply, http_proxy, left_after}
use lura_p.Proxy.Modifiers.{Outcome, returned, crashed, Proxy, Next, Factory, plugin_middleware}
use lura_p.Register.{Namespaced}
use lura_p.Graphql.{Platform, Extracted, extracted}
use lura_p.Graphql.Middleware.{Middleware, new_graphql_middleware, send}
use lura_p.Sd.{SdError}
use lura_p.Sd.Balancer.{Answer, host, failed, panicked}

-- url.URL: the text before the query, the raw query, and the fragment with its sign.
pub record Url : Type 0 where
  pub base : String
  pub raw_query : String
  pub fragment : String

-- `u.String()`
abbrev pub url_text : Url → String
url_text u = u.base <> (if str_eq u.raw_query "" then "" else "?" <> u.raw_query) <> u.fragment

pub record Pipe : Type 0 where
  -- `lb.Host()` at a call.
  pub host_at : ℕ → Answer
  -- `url.Parse`; `none` is an error.
  pub parse_url : String → Option Url
  -- `r.Query.Encode()`
  pub encode : Values → String
  -- `bytes.ReplaceAll`
  pub replace_all : String → String → String → String
  -- The register of the plugins' modifiers.
  pub modifiers : Namespaced Factory
  -- What the GraphQL middleware asks of the standard library.
  pub platform : Platform
  -- The texts of the errors that are handed on.
  pub sd_message : SdError → String
  pub url_message : String
  pub graphql_message : String
  pub backend_message : BackendError → String
  -- The rounds of the loop of the concurrent middleware: the call that ended and whether its context was
  -- done then, or none where the request's context is done.
  pub rounds : List (Option (ℕ × Bool))

-- The query of the request, behind that of the path.
unfoldable pub with_query : (Values → String) → Values → Url → Url
with_query encode query u =
    if ltb 0 (length query)
    then record u {
      raw_query =
          if str_eq u.raw_query "" then encode query else u.raw_query <> "&" <> encode query;
    }
    else u

abbrev pub parsed : Pipe → Proxy → ℕ → Request → Option Url → Outcome
parsed env next call r none = returned none (some (err_other env.url_message))
parsed env next call r (some u) =
    next call (record r { url = some (url_text (with_query env.encode r.query u)) })

abbrev pub balanced : Pipe → Proxy → ℕ → Request → Answer → Outcome
balanced env next call r (failed e) = returned none (some (err_other (env.sd_message e)))
balanced env next call r panicked = crashed
balanced env next call r (host h) = parsed env next call r (env.parse_url (h <> r.path))

-- `newLoadBalancedMiddleware(l, lb)`
unfoldable pub load_balanced : Pipe → Proxy → Proxy
unfolding with_query
load_balanced env next call r = balanced env next call r (env.host_at call)

-- `newRequestBuilderMiddleware(l, remote)`
unfoldable pub request_builder : Pipe → Backend → Proxy → Proxy
unfolding replace_params
request_builder env remote next call r = next call (record r {
  path = replace_params env.replace_all r.params remote.url_pattern;
  method = remote.method;
})

-- A call of the concurrent middleware that has ended, in front of the later rounds; a panic of its
-- goroutine ends the process.
abbrev pub before_rounds : Outcome → Bool → Option (List Round) → Option (List Round)
before_rounds crashed cancelled rest = none
before_rounds (returned resp err) cancelled none = none
before_rounds (returned resp err) cancelled (some rs) = some (ended resp err cancelled ∷ rs)

abbrev pub before_done : Option (List Round) → Option (List Round)
before_done none = none
before_done (some rs) = some (context_done ∷ rs)

-- The rounds, or none where a call has panicked.
unfoldable pub rounds_of : Proxy → Request → List (Option (ℕ × Bool)) → Option (List Round)
rounds_of next r [] = some []
rounds_of next r (none ∷ os) = before_done (rounds_of next r os)
rounds_of next r (some (call, cancelled) ∷ os) =
    before_rounds (next call r) cancelled (rounds_of next r os)

abbrev pub concluded : Option (List Round) → Outcome
concluded none = crashed
concluded (some rs) = returned (concurrent rs).0 (concurrent rs).1

-- `NewConcurrentMiddlewareWithLogger(logger, remote)`
unfoldable pub concurrently : Pipe → Proxy → Proxy
unfolding concurrent rounds_of
concurrently env next call r = concluded (rounds_of next r env.rounds)

-- `NewFilterHeadersMiddleware` and `NewFilterQueryStringsMiddleware`
abbrev pub header_filter : Backend → Proxy → Proxy
header_filter remote next call r = next call (filter_headers remote.headers_to_pass r)

abbrev pub query_filter : Backend → Proxy → Proxy
query_filter remote next call r = next call (filter_query_strings remote.query_strings_to_pass r)

abbrev pub sent : Pipe → Proxy → ℕ → Extracted Request → Outcome
sent env next call (Extracted.failed) = returned none (some (err_other env.graphql_message))
sent env next call (Extracted.crashed) = crashed
sent env next call (extracted r) = next call r

-- `NewGraphQLMiddleware(logger, remote)`
unfoldable pub graphql_proxy : Pipe → Backend → Proxy → Proxy
unfolding new_graphql_middleware send
graphql_proxy env remote next call r =
    sent env next call
      (send env.platform (new_graphql_middleware env.platform remote.extra_config) r)

-- The proxies of `newStack` from the filter of the headers on, around `next`.
unfoldable pub outer_stack : Pipe → Backend → Proxy → Proxy
unfolding load_balanced request_builder concurrently filter_headers filter_query_strings
outer_stack env remote next =
    let single : Proxy = load_balanced env (header_filter remote next) in
    query_filter remote (
      request_builder env remote
        (if lt_int (pos 1) remote.concurrent_calls then concurrently env single else single))

-- An answer of the HTTP proxy, its error as a text.
abbrev pub as_outcome : Pipe → Reply → Outcome
as_outcome env (resp, some Http.panicked) = crashed
as_outcome env (resp, some e) = returned resp (some (err_other (env.backend_message e)))
as_outcome env (resp, none) = returned resp none

-- The proxy of a backend, with what it leaves in the request.
abbrev pub http_backend : {T : Type 0} → Pipe → Network T → Backend → Next
http_backend env net remote call r =
    (as_outcome env (http_proxy net remote call r), left_after net remote call r)

-- `pf.newStack(backend)`, of a factory of HTTP proxies.
unfoldable pub new_stack : {T : Type 0} → Pipe → Network T → Backend → Proxy
unfolding outer_stack graphql_proxy http_proxy plugin_middleware
new_stack env net remote =
    let with_plugins : Proxy =
      plugin_middleware env.modifiers remote.extra_config (http_backend env net remote) in
    outer_stack env remote (graphql_proxy env remote with_plugins)
