-- ===== src/Config/Parser/Normalize.antt =====
-- config/parser.go: `normalize`, which turns what was decoded into a configuration. What
-- `time.ParseDuration` answers is the argument `parse_text`; `none` is its error.
use mathlib.Core.Option
use lura_p.Common.{false, String, [], Option, none, some, map, str_eq, if◌then◌else◌}
use lura_p.Common.Int.{ℤ, pos}
use lura_p.Value.{end}
use lura_p.Config.{
  ExtraConfig, TlsKeyPair, Tls, ClientTlsCert, ClientTls, Backend, EndpointConfig, Consumer,
  Connection, AsyncAgent, ServiceConfig,
}
use lura_p.Config.Parser.Types.{
  ParseableTlsKeyPair, ParseableTls, ParseableClientTlsCert, ParseableClientTls, ParseableBackend,
  ParseableEndpointConfig, ParseableConnection, ParseableConsumer, ParseableAsyncAgent,
  ParseableServiceConfig,
}

-- `if p.ExtraConfig != nil { b.ExtraConfig = *p.ExtraConfig }`, over the nil map.
abbrev pub pointed : Option ExtraConfig → ExtraConfig
pointed none = end
pointed (some extra) = extra

abbrev pub key_pair : ParseableTlsKeyPair → TlsKeyPair
key_pair k = record { public_key = k.public_key; private_key = k.private_key }

abbrev pub normalize_tls : ParseableTls → Tls
normalize_tls p = record {
  is_disabled = p.is_disabled;
  public_key = p.public_key;
  private_key = p.private_key;
  ca_certs = p.ca_certs;
  min_version = p.min_version;
  max_version = p.max_version;
  curve_preferences = p.curve_preferences;
  prefer_server_cipher_suites = p.prefer_server_cipher_suites;
  cipher_suites = p.cipher_suites;
  enable_mtls = p.enable_mtls;
  disable_system_ca_pool = p.disable_system_ca_pool;
  keys = map key_pair p.keys;
}

abbrev pub client_cert : ParseableClientTlsCert → ClientTlsCert
client_cert c = record { certificate = c.certificate; private_key = c.private_key }

abbrev pub normalize_client_tls : ParseableClientTls → ClientTls
normalize_client_tls p = record {
  allow_insecure_connections = p.allow_insecure_connections;
  ca_certs = p.ca_certs;
  disable_system_ca_pool = p.disable_system_ca_pool;
  min_version = p.min_version;
  max_version = p.max_version;
  curve_preferences = p.curve_preferences;
  cipher_suites = p.cipher_suites;
  client_certs = map client_cert p.client_certs;
}

-- `p.normalize()` of a backend; the fields that it does not name have their zero values.
unfoldable pub normalize_backend : ParseableBackend → Backend
normalize_backend p = record {
  group = p.group;
  method = p.method;
  host = p.host;
  host_sanitization_disabled = p.host_sanitization_disabled;
  url_pattern = p.url_pattern;
  allow_list = p.allow_list;
  deny_list = p.deny_list;
  mapping = p.mapping;
  encoding = p.encoding;
  is_collection = p.is_collection;
  target = p.target;
  sd = p.sd;
  sd_scheme = if str_eq p.sd_scheme "" then "http" else p.sd_scheme;
  url_keys = [];
  concurrent_calls = pos 0;
  timeout = pos 0;
  decoder = none;
  extra_config = pointed p.extra_config;
  headers_to_pass = p.headers_to_pass;
  query_strings_to_pass = p.query_strings_to_pass;
  parent_endpoint = "";
  parent_endpoint_method = "";
}

-- `d`, or 0 after an error.
abbrev pub or_zero : Option ℤ → ℤ
or_zero none = pos 0
or_zero (some d) = d

module _ (parse_text : String → Option ℤ) where
  -- `parseDuration(v)`
  abbrev pub parse_duration : String → ℤ
  parse_duration v = or_zero (parse_text v)

  unfoldable pub normalize_endpoint : ParseableEndpointConfig → EndpointConfig
  unfolding normalize_backend
  normalize_endpoint p = record {
    endpoint = p.endpoint;
    method = p.method;
    backend = map normalize_backend p.backend;
    concurrent_calls = p.concurrent_calls;
    timeout = parse_duration p.timeout;
    cache_ttl = parse_duration p.cache_ttl;
    query_string = p.query_string;
    extra_config = pointed p.extra_config;
    headers_to_pass = p.headers_to_pass;
    output_encoding = p.output_encoding;
  }

  abbrev pub normalize_connection : ParseableConnection → Connection
  normalize_connection c = record {
    max_retries = c.max_retries;
    backoff_strategy = c.backoff_strategy;
    health_interval = parse_duration c.health_interval;
  }

  abbrev pub normalize_consumer : ParseableConsumer → Consumer
  normalize_consumer c = record {
    timeout = parse_duration c.timeout;
    workers = c.workers;
    topic = c.topic;
    max_rate = c.max_rate;
  }

  unfoldable pub normalize_agent : ParseableAsyncAgent → AsyncAgent
  unfolding normalize_backend
  normalize_agent p = record {
    name = p.name;
    connection = normalize_connection p.connection;
    consumer = normalize_consumer p.consumer;
    encoding = p.encoding;
    backend = map normalize_backend p.backend;
    extra_config = p.extra_config;
  }

  -- `p.normalize()` of a service.
  unfoldable pub normalize : ParseableServiceConfig → ServiceConfig
  unfolding normalize_endpoint normalize_agent
  normalize p = record {
    name = p.name;
    endpoints = map normalize_endpoint p.endpoints;
    async_agents = map normalize_agent p.async_agents;
    timeout = parse_duration p.timeout;
    cache_ttl = parse_duration p.cache_ttl;
    host = p.host;
    port = p.port;
    address = p.address;
    version = p.version;
    output_encoding = p.output_encoding;
    extra_config = pointed p.extra_config;
    read_timeout = parse_duration p.read_timeout;
    write_timeout = parse_duration p.write_timeout;
    idle_timeout = parse_duration p.idle_timeout;
    read_header_timeout = parse_duration p.read_header_timeout;
    max_header_bytes = p.max_header_bytes;
    disable_keep_alives = p.disable_keep_alives;
    disable_compression = p.disable_compression;
    max_idle_conns = p.max_idle_conns;
    max_idle_conns_per_host = p.max_idle_conns_per_host;
    idle_conn_timeout = parse_duration p.idle_conn_timeout;
    response_header_timeout = parse_duration p.response_header_timeout;
    expect_continue_timeout = parse_duration p.expect_continue_timeout;
    dialer_timeout = parse_duration p.dialer_timeout;
    dialer_fallback_delay = parse_duration p.dialer_fallback_delay;
    dialer_keep_alive = parse_duration p.dialer_keep_alive;
    disable_strict_rest = p.disable_strict_rest;
    plugin = p.plugin;
    tls = Option.map normalize_tls p.tls;
    use_h2c = p.use_h2c;
    debug = p.debug;
    echo = p.echo;
    sequential_start = false;
    allow_insecure_connections = false;
    client_tls = Option.map normalize_client_tls p.client_tls;
    dns_cache_ttl = parse_duration p.dns_cache_ttl;
    max_shutdown_duration = parse_duration p.max_shutdown_duration;
  }
