-- ===== src/Config/Parser/Written.antt =====
-- That `normalize` loses nothing: `written` gives the struct of a configuration file for a
-- configuration, with a text of each duration.
use mathlib.Core.Option
use lura_p.Common.{
  ◌≡◌, refl, ap, sym, false, String, List, [], ◌∷◌, Option, none, some, map, All, str_eq,
}
use lura_p.Common.Int.{ℤ, pos}
use lura_p.Config.{
  TlsKeyPair, Tls, ClientTlsCert, ClientTls, Backend, EndpointConfig, AsyncAgent, ServiceConfig,
}
use lura_p.Config.Parser.Types.{
  ParseableTlsKeyPair, ParseableTls, ParseableClientTlsCert, ParseableClientTls, ParseableBackend,
  ParseableEndpointConfig, ParseableAsyncAgent, ParseableServiceConfig,
}
use lura_p.Config.Parser.Normalize.{
  key_pair, client_cert, normalize_tls, normalize_client_tls, normalize_backend, or_zero,
  parse_duration, normalize_endpoint, normalize_agent, normalize,
}

abbrev written_key : TlsKeyPair → ParseableTlsKeyPair
written_key k = record { public_key = k.public_key; private_key = k.private_key }

abbrev pub written_tls : Tls → ParseableTls
written_tls t = record {
  is_disabled = t.is_disabled;
  public_key = t.public_key;
  private_key = t.private_key;
  ca_certs = t.ca_certs;
  min_version = t.min_version;
  max_version = t.max_version;
  curve_preferences = t.curve_preferences;
  prefer_server_cipher_suites = t.prefer_server_cipher_suites;
  cipher_suites = t.cipher_suites;
  enable_mtls = t.enable_mtls;
  disable_system_ca_pool = t.disable_system_ca_pool;
  keys = map written_key t.keys;
}

abbrev written_cert : ClientTlsCert → ParseableClientTlsCert
written_cert c = record { certificate = c.certificate; private_key = c.private_key }

abbrev pub written_client_tls : ClientTls → ParseableClientTls
written_client_tls t = record {
  allow_insecure_connections = t.allow_insecure_connections;
  ca_certs = t.ca_certs;
  disable_system_ca_pool = t.disable_system_ca_pool;
  min_version = t.min_version;
  max_version = t.max_version;
  curve_preferences = t.curve_preferences;
  cipher_suites = t.cipher_suites;
  client_certs = map written_cert t.client_certs;
}

abbrev pub written_backend : Backend → ParseableBackend
written_backend b = record {
  group = b.group;
  method = b.method;
  host = b.host;
  host_sanitization_disabled = b.host_sanitization_disabled;
  url_pattern = b.url_pattern;
  allow_list = b.allow_list;
  deny_list = b.deny_list;
  mapping = b.mapping;
  encoding = b.encoding;
  is_collection = b.is_collection;
  target = b.target;
  extra_config = some b.extra_config;
  sd = b.sd;
  headers_to_pass = b.headers_to_pass;
  sd_scheme = b.sd_scheme;
  query_strings_to_pass = b.query_strings_to_pass;
}

module _ (show : ℤ → String) where
  abbrev pub written_endpoint : EndpointConfig → ParseableEndpointConfig
  written_endpoint e = record {
    endpoint = e.endpoint;
    method = e.method;
    backend = map written_backend e.backend;
    concurrent_calls = e.concurrent_calls;
    timeout = show e.timeout;
    cache_ttl = show e.cache_ttl;
    query_string = e.query_string;
    extra_config = some e.extra_config;
    headers_to_pass = e.headers_to_pass;
    output_encoding = e.output_encoding;
  }

  abbrev pub written_agent : AsyncAgent → ParseableAsyncAgent
  written_agent a = record {
    name = a.name;
    connection = record {
      max_retries = a.connection.max_retries;
      backoff_strategy = a.connection.backoff_strategy;
      health_interval = show a.connection.health_interval;
    };
    consumer = record {
      timeout = show a.consumer.timeout;
      workers = a.consumer.workers;
      topic = a.consumer.topic;
      max_rate = a.consumer.max_rate;
    };
    encoding = a.encoding;
    backend = map written_backend a.backend;
    extra_config = a.extra_config;
  }

  abbrev pub written : ServiceConfig → ParseableServiceConfig
  written s = record {
    name = s.name;
    endpoints = map written_endpoint s.endpoints;
    async_agents = map written_agent s.async_agents;
    timeout = show s.timeout;
    cache_ttl = show s.cache_ttl;
    host = s.host;
    port = s.port;
    address = s.address;
    version = s.version;
    extra_config = some s.extra_config;
    read_timeout = show s.read_timeout;
    write_timeout = show s.write_timeout;
    idle_timeout = show s.idle_timeout;
    read_header_timeout = show s.read_header_timeout;
    max_header_bytes = s.max_header_bytes;
    disable_keep_alives = s.disable_keep_alives;
    disable_compression = s.disable_compression;
    disable_strict_rest = s.disable_strict_rest;
    max_idle_conns = s.max_idle_conns;
    max_idle_conns_per_host = s.max_idle_conns_per_host;
    idle_conn_timeout = show s.idle_conn_timeout;
    response_header_timeout = show s.response_header_timeout;
    expect_continue_timeout = show s.expect_continue_timeout;
    output_encoding = s.output_encoding;
    dialer_timeout = show s.dialer_timeout;
    dialer_fallback_delay = show s.dialer_fallback_delay;
    dialer_keep_alive = show s.dialer_keep_alive;
    debug = s.debug;
    echo = s.echo;
    plugin = s.plugin;
    tls = Option.map written_tls s.tls;
    client_tls = Option.map written_client_tls s.client_tls;
    use_h2c = s.use_h2c;
    dns_cache_ttl = show s.dns_cache_ttl;
    max_shutdown_duration = show s.max_shutdown_duration;
  }

-- A backend with the zero value where a file says nothing, and a scheme.
abbrev pub IsFresh : Backend → Type 0
IsFresh b =
    (b.url_keys ≡ [])
    × (b.concurrent_calls ≡ pos 0)
    × (b.timeout ≡ pos 0)
    × (b.decoder ≡ none)
    × (b.parent_endpoint ≡ "")
    × (b.parent_endpoint_method ≡ "")
    × (str_eq b.sd_scheme "" ≡ false)

-- A configuration of which a file can say everything.
abbrev pub IsWritable : ServiceConfig → Type 0
IsWritable s =
    All (λ (e : EndpointConfig). All IsFresh e.backend) s.endpoints
    × All (λ (a : AsyncAgent). All IsFresh a.backend) s.async_agents
    × (s.sequential_start ≡ false)
    × (s.allow_insecure_connections ≡ false)

map_where_inverse :
    {A B : Type 0} (P : A → Type 0) (f : B → A) (g : A → B) (xs : List A)
    → ((x : A) → P x → f (g x) ≡ x)
    → All P xs
    → map f (map g xs) ≡ xs
map_where_inverse P f g [] h p = refl
map_where_inverse P f g (x ∷ xs) h p = λ i. h x p.0 i ∷ map_where_inverse P f g xs h p.1 i

map_inverse :
    {A B : Type 0} (f : B → A) (g : A → B) (xs : List A)
    → ((x : A) → f (g x) ≡ x)
    → map f (map g xs) ≡ xs
map_inverse f g [] h = refl
map_inverse f g (x ∷ xs) h = λ i. h x i ∷ map_inverse f g xs h i

normalize_tls-written : (t : Option Tls) → Option.map normalize_tls (Option.map written_tls t) ≡ t
normalize_tls-written none = refl
normalize_tls-written (some t) =
    λ i. some (record t { keys = map_inverse key_pair written_key t.keys (λ k. refl) i })

normalize_client_tls-written :
    (t : Option ClientTls) → Option.map normalize_client_tls (Option.map written_client_tls t) ≡ t
normalize_client_tls-written none = refl
normalize_client_tls-written (some t) = λ i.
    some (record t {
      client_certs = map_inverse client_cert written_cert t.client_certs (λ c. refl) i;
    })

normalize_backend-written : (b : Backend) → IsFresh b → normalize_backend (written_backend b) ≡ b
unfolding normalize_backend
normalize_backend-written b (keys, calls, time, dec, path, method, scheme) = simp scheme (λ i.
    record b {
      url_keys = sym keys i;
      concurrent_calls = sym calls i;
      timeout = sym time i;
      decoder = sym dec i;
      parent_endpoint = sym path i;
      parent_endpoint_method = sym method i;
    })

module _ (parse_text : String → Option ℤ) (show : ℤ → String)
    (law : (d : ℤ) → parse_text (show d) ≡ some d) where
  duration : (d : ℤ) → parse_duration parse_text (show d) ≡ d
  duration d = ap or_zero (law d)

  backends :
      (bs : List Backend) → All IsFresh bs → map normalize_backend (map written_backend bs) ≡ bs
  backends bs h =
      map_where_inverse IsFresh normalize_backend written_backend bs normalize_backend-written h

  normalize_endpoint-written :
      (e : EndpointConfig)
      → All IsFresh e.backend
      → normalize_endpoint parse_text (written_endpoint show e) ≡ e
  unfolding normalize_endpoint
  normalize_endpoint-written e h = λ i. record e {
    backend = backends e.backend h i;
    timeout = duration e.timeout i;
    cache_ttl = duration e.cache_ttl i;
  }

  normalize_agent-written :
      (a : AsyncAgent)
      → All IsFresh a.backend
      → normalize_agent parse_text (written_agent show a) ≡ a
  unfolding normalize_agent
  normalize_agent-written a h = λ i. record a {
    connection = record a.connection { health_interval = duration a.connection.health_interval i };
    consumer = record a.consumer { timeout = duration a.consumer.timeout i };
    backend = backends a.backend h i;
  }

  -- If a duration can be read from a text of it, then every configuration of which a file can say
  -- everything is what `normalize` makes of the file that says it: none of its fields is lost, down to
  -- the backends of its endpoints and agents and its certificates. A file can say everything of a
  -- configuration that starts its agents in parallel and does not allow insecure connections at the
  -- top level, and whose backends have a scheme and the zero values that `Init` fills in.
  pub normalize-written :
      (s : ServiceConfig) → IsWritable s → normalize parse_text (written show s) ≡ s
  unfolding normalize
  normalize-written s (es, ags, seq, insecure) = λ i. record s {
    endpoints =
        map_where_inverse (λ (e : EndpointConfig). All IsFresh e.backend)
          (normalize_endpoint parse_text) (written_endpoint show) s.endpoints
          normalize_endpoint-written es i;
    async_agents =
        map_where_inverse (λ (a : AsyncAgent). All IsFresh a.backend) (normalize_agent parse_text)
          (written_agent show) s.async_agents normalize_agent-written ags i;
    tls = normalize_tls-written s.tls i;
    client_tls = normalize_client_tls-written s.client_tls i;
    sequential_start = sym seq i;
    allow_insecure_connections = sym insecure i;
    timeout = duration s.timeout i;
    cache_ttl = duration s.cache_ttl i;
    read_timeout = duration s.read_timeout i;
    write_timeout = duration s.write_timeout i;
    idle_timeout = duration s.idle_timeout i;
    read_header_timeout = duration s.read_header_timeout i;
    idle_conn_timeout = duration s.idle_conn_timeout i;
    response_header_timeout = duration s.response_header_timeout i;
    expect_continue_timeout = duration s.expect_continue_timeout i;
    dialer_timeout = duration s.dialer_timeout i;
    dialer_fallback_delay = duration s.dialer_fallback_delay i;
    dialer_keep_alive = duration s.dialer_keep_alive i;
    dns_cache_ttl = duration s.dns_cache_ttl i;
    max_shutdown_duration = duration s.max_shutdown_duration i;
  }
