-- ===== src/Proxy/Merging/Choice.antt =====
-- proxy/merging.go NewMergeDataMiddleware: which merger, which combiner and which way of cloning the
-- configuration of an endpoint chooses. `strings.ToUpper` is an argument; a combiner's name that is no
-- text is a panic.
use lura_p.Common.{
  Bool, false, not, ◌&&◌, ◌||◌, String, List, Option, none, some, ◌>>=◌, contains, str_eq, any,
  if◌then◌else◌, length, ◌==◌,
}
use lura_p.Value.{Value, text, bool, Dict, get, as_dict}
use lura_p.Config.{ExtraConfig, Backend, EndpointConfig}
use lura_p.Proxy.{namespace}

-- `v.(bool)`, and `ok && c` of it
abbrev pub is_true : Option Value → Bool
is_true (some (bool b)) = b
is_true _ = false

-- The map under the namespace of the proxy.
abbrev pub settings : ExtraConfig → Option Dict
settings extra = get namespace extra >>= as_dict

-- What the strategy says, given the registered mergers.
abbrev pub merger_named : List String → Value → String
merger_named mergers (text t) = if contains mergers t then t else "parallel"
merger_named mergers _ = "parallel"

-- `getMergerFactory(cfg)`, as the name under which the factory is registered.
unfoldable pub get_merger_factory : List String → ExtraConfig → String
get_merger_factory mergers extra = elim (settings extra) [
  | none ↦ "parallel"
  | some m ↦ elim (get "strategy" m) [
    | none ↦ if is_true (get "sequential" m) then "sequential" else "parallel"
    | some v ↦ merger_named mergers v
  ]
]

-- `forceDeepClone(cfg)`
unfoldable pub force_deep_clone : ExtraConfig → Bool
force_deep_clone extra = elim (settings extra) [
  | none ↦ false
  | some e ↦ is_true (get "force_sandboxed_request" e)
]

-- `m != http.MethodGet && m != http.MethodHead`
abbrev pub is_unsafe : (String → String) → Backend → Bool
is_unsafe to_upper b =
    not (str_eq (to_upper b.method) "GET") && not (str_eq (to_upper b.method) "HEAD")

-- `hasUnsafeBackends(cfg)`
unfoldable pub has_unsafe_backends : (String → String) → List Backend → Bool
has_unsafe_backends to_upper backends =
    if length backends == 1 then false else any (is_unsafe to_upper) backends

-- Whether `reqClone` is CloneRequest.
unfoldable pub clones_deeply : (String → String) → EndpointConfig → Bool
unfolding has_unsafe_backends force_deep_clone
clones_deeply to_upper cfg =
    has_unsafe_backends to_upper cfg.backend || force_deep_clone cfg.extra_config

-- The name that the entry of the combiner says: a text that is registered.
abbrev pub combiner_named : List String → Value → Option String
combiner_named combiners (text t) = some (if contains combiners t then t else "default")
combiner_named combiners _ = none

-- `getResponseCombinerName(extra)`; `none` is a panic.
unfoldable pub get_response_combiner_name : List String → ExtraConfig → Option String
get_response_combiner_name combiners extra = elim (settings extra) [
  | none ↦ some "default"
  | some e ↦ elim (get "combiner" e) [ none ↦ some "default" | some v ↦ combiner_named combiners v ]
]
