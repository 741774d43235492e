-- ===== src/Config/Init.antt =====
-- config/config.go: `Init`, which checks a configuration and fills in what it leaves out. `sanitize` only
-- changes maps with keys that are not strings, of which `Value` has none, so it is not written; a
-- parsing error of the constant `invalidPattern` does not happen. A backend stands in one endpoint.
pub mod Params
pub mod Ready
pub mod Agents
use Prim.Native.String
use Prim.Native.String.{[], ◌∷◌}
use lura_p.Common.{
  ℕ, zero, suc, ◌+◌, ◌<◌, Bool, true, false, ◌&&◌, ◌||◌, not, String, List, [], ◌∷◌, Option, none,
  some, map, if◌then◌else◌, str_eq, string_lt, contains, ltb, leb, length, ◌==◌,
}
use lura_p.Common.Int.{ℤ, pos, negsuc, is_zero, lt_int}
use lura_p.Config.{
  ServiceConfig, EndpointConfig, Backend, AsyncAgent, Consumer, Connection, Decoder, second,
  default_timeout, default_max_idle_conns_per_host, config_version, default_port, noop, json,
}
use lura_p.Config.Fallible.{
  Result, failed, done, ◌>>=◌, each, unsupported_version, invalid_address, invalid_noop_encoding,
  endpoint_path, no_backends, wrong_number_of_params, undefined_output_param,
}
use lura_p.Config.Urls.{init_backend_url_mappings}
use lura_p.Config.Uri.{Platform, safe_clean_hosts, clean_path, get_endpoint_path, ◌<>◌}

-- `x` where it is given, else the default.
abbrev pub or_text : String → String → String
or_text x default = if str_eq x "" then default else x

abbrev pub or_number : ℤ → ℤ → ℤ
or_number n default = if is_zero n then default else n

-- `if s.X != 0 && e.X == 0 { e.X = s.X }`
abbrev pub inherit : ℤ → ℤ → ℤ
inherit outer n = if not (is_zero outer) && is_zero n then outer else n

-- `s.Version == ConfigVersion`
abbrev pub is_version : ℤ → Bool
is_version (pos n) = n == 3
is_version (negsuc n) = false

module _ (env : Platform) where
  -- What `initGlobalParams` assigns once it has the clean hosts.
  abbrev pub with_globals : ServiceConfig → List String → ServiceConfig
  with_globals s host = record s {
    port = or_number s.port default_port;
    max_idle_conns_per_host = or_number s.max_idle_conns_per_host default_max_idle_conns_per_host;
    timeout = or_number s.timeout default_timeout;
    host = host;
  }

  -- `s.initGlobalParams()`
  unfoldable pub init_global_params : ServiceConfig → Result ServiceConfig
  init_global_params s = do
    _ ←
        if not (str_eq s.address "") && not (env.is_address s.address)
        then failed (invalid_address s.address)
        else done s.address
    host ← safe_clean_hosts env s.host
    done (with_globals s host)

  -- The hosts of a backend: the service's where it has none, else its own, clean unless that is off.
  unfoldable pub backend_hosts : ServiceConfig → Backend → Result (List String)
  backend_hosts s b = elim b.host [
    | [] ↦ done s.host
    | (h ∷ hs) ↦
        if b.host_sanitization_disabled then done (h ∷ hs) else safe_clean_hosts env (h ∷ hs)
  ]

  -- `encoding.GetRegister().Get(strings.ToLower(b.Encoding))(b.IsCollection)`
  abbrev pub decoder_of : String → Bool → Option Decoder
  decoder_of encoding is_collection =
      some (record { name = env.to_lower encoding; is_collection = is_collection })

  -- `s.initAsyncAgentDefaults(e)`
  unfoldable pub init_async_agent_defaults : ServiceConfig → AsyncAgent → AsyncAgent
  init_async_agent_defaults s a = record a {
    consumer = record a.consumer {
      timeout = inherit s.timeout a.consumer.timeout;
      workers = if lt_int a.consumer.workers (pos 1) then pos 1 else a.consumer.workers;
    };
    connection = record a.connection {
      health_interval =
          if lt_int a.connection.health_interval (pos second)
          then pos second
          else a.connection.health_interval;
    };
  }

  -- What the inner loop of `initAsyncAgents` assigns once it has the hosts.
  abbrev pub with_agent_defaults : AsyncAgent → Backend → List String → Backend
  with_agent_defaults a b host = record b {
    host = host;
    method = or_text b.method "GET";
    timeout = a.consumer.timeout;
    decoder = decoder_of b.encoding b.is_collection;
  }

  -- The body of the inner loop of `initAsyncAgents`.
  unfoldable pub init_agent_backend : ServiceConfig → AsyncAgent → ℕ → Backend → Result Backend
  init_agent_backend s a i b = do host ← backend_hosts s b; done (with_agent_defaults a b host)

  unfoldable pub init_async_agent : ServiceConfig → ℕ → AsyncAgent → Result AsyncAgent
  init_async_agent s i a = do
    let agent = init_async_agent_defaults s a
    bs ← each (init_agent_backend s agent) 0 agent.backend
    done (record agent { backend = bs })

  -- `e.validate()`
  unfoldable pub validate : EndpointConfig → Result EndpointConfig
  validate e =
      if env.is_invalid e.endpoint
      then failed (endpoint_path e.endpoint e.method)
      else elim e.backend [ [] ↦ failed (no_backends e.endpoint e.method) | (_ ∷ _) ↦ done e ]

  -- `s.initEndpointDefaults(e)`
  unfoldable pub init_endpoint_defaults : ServiceConfig → EndpointConfig → EndpointConfig
  init_endpoint_defaults s e = record e {
    method = or_text e.method "GET";
    cache_ttl = inherit s.cache_ttl e.cache_ttl;
    timeout = inherit s.timeout e.timeout;
    concurrent_calls = or_number e.concurrent_calls (pos 1);
    output_encoding = or_text e.output_encoding (or_text s.output_encoding json);
  }

  -- What `initBackendDefaults` assigns once it has the hosts, after the two assignments that tell a
  -- backend its endpoint.
  abbrev pub with_defaults : EndpointConfig → Backend → List String → Backend
  with_defaults e b host =
      let encoding : String = if str_eq e.output_encoding noop then noop else b.encoding in
      record b {
        parent_endpoint = e.endpoint;
        parent_endpoint_method = e.method;
        host = host;
        method = or_text b.method e.method;
        encoding = encoding;
        timeout = e.timeout;
        concurrent_calls = e.concurrent_calls;
        decoder = decoder_of encoding b.is_collection;
        headers_to_pass = map env.canonical b.headers_to_pass;
        sd_scheme = or_text b.sd_scheme "http";
      }

  -- `s.initBackendDefaults(e, b)`
  unfoldable pub init_backend_defaults : ServiceConfig → EndpointConfig → Backend → Result Backend
  init_backend_defaults s e b = do host ← backend_hosts s b; done (with_defaults e b host)

  -- The body of the inner loop of `initEndpoints`.
  unfoldable pub init_backend :
      ServiceConfig → EndpointConfig → List String → ℕ → Backend → Result Backend
  init_backend s e inputs i b = do
    ready ← init_backend_defaults s e b
    init_backend_url_mappings env e i inputs ready

  -- The input parameters of a clean endpoint.
  abbrev pub inputs_of : ServiceConfig → EndpointConfig → List String
  inputs_of s e =
      if s.disable_strict_rest then env.simple_keys e.endpoint else env.endpoint_keys e.endpoint

  -- A checked endpoint with its pattern, headers and defaults.
  abbrev pub prepared : ServiceConfig → EndpointConfig → EndpointConfig
  prepared s e = init_endpoint_defaults s (record e {
    endpoint = get_endpoint_path env e.endpoint (inputs_of s e);
    headers_to_pass = map env.canonical e.headers_to_pass;
  })

  -- The rest of the loop's body, from the test of the encoding on.
  abbrev pub init_backends : ServiceConfig → EndpointConfig → List String → Result (List Backend)
  init_backends s e inputs =
      if str_eq e.output_encoding noop && ltb 1 (length e.backend)
      then failed invalid_noop_encoding
      else each (init_backend s e inputs) 0 e.backend

  -- The body of the loop of `initEndpoints`.
  unfoldable pub init_endpoint : ServiceConfig → ℕ → EndpointConfig → Result EndpointConfig
  init_endpoint s i e = do
    checked ← validate (record e { endpoint = clean_path e.endpoint })
    bs ← init_backends s (prepared s checked) (inputs_of s checked)
    done (record (prepared s checked) { backend = bs })

  -- `s.Init()`, with the loops of `initAsyncAgents` and `initEndpoints`.
  unfoldable pub init : ServiceConfig → Result ServiceConfig
  init s = do
    s0 ←
        if is_version s.version
        then init_global_params s
        else failed (unsupported_version s.version config_version)
    agents ← each (init_async_agent s0) 0 s0.async_agents
    endpoints ← each (init_endpoint s0) 0 s0.endpoints
    done (record s0 { async_agents = agents; endpoints = endpoints })
