-- ===== src/Server/Transport.antt =====
-- transport/http/server/server.go: the transport of the HTTP clients. The client part of a configuration
-- stands behind a pointer, so the call changes what its caller sees.
use lura_p.Common.{◌*◌, Bool, true, false, [], Option, none, some}
use lura_p.Common.Int.{ℤ, pos}
use lura_p.Config.{ServiceConfig, ClientTls, second}
use lura_p.Server.{Machine, TlsConfig, parse_client_tls_config}

-- The fields of http.Transport, and of its dialer, that the source sets from the configuration.
pub record Transport (C : Type 0) : Type 0 where
  pub dialer_timeout : ℤ
  pub dialer_keep_alive : ℤ
  pub dialer_fallback_delay : ℤ
  pub dual_stack : Bool
  pub disable_compression : Bool
  pub disable_keep_alives : Bool
  pub max_idle_conns : ℤ
  pub max_idle_conns_per_host : ℤ
  pub idle_conn_timeout : ℤ
  pub response_header_timeout : ℤ
  pub expect_continue_timeout : ℤ
  pub tls_handshake_timeout : ℤ
  pub tls_client_config : Option (TlsConfig C)

-- `&config.ClientTLS{}`
abbrev pub empty_client_tls : ClientTls
empty_client_tls = record {
  allow_insecure_connections = false;
  ca_certs = [];
  disable_system_ca_pool = false;
  min_version = "";
  max_version = "";
  curve_preferences = [];
  cipher_suites = [];
  client_certs = [];
}

abbrev pub given_or_empty : Option ClientTls → ClientTls
given_or_empty none = empty_client_tls
given_or_empty (some t) = t

-- The client part after the test of `cfg.AllowInsecureConnections`.
abbrev pub insecure_client : Bool → Option ClientTls → Option ClientTls
insecure_client true t = some (record (given_or_empty t) { allow_insecure_connections = true })
insecure_client false t = t

-- The configuration after it.
unfoldable pub with_insecure : ServiceConfig → ServiceConfig
with_insecure cfg = record cfg {
  client_tls = insecure_client cfg.allow_insecure_connections cfg.client_tls;
}

module _ {C : Type 0} (env : Machine C) where
  -- `NewTransport(cfg, logger)`
  unfoldable pub new_transport : ServiceConfig → Transport C
  unfolding parse_client_tls_config
  new_transport cfg = record {
    dialer_timeout = cfg.dialer_timeout;
    dialer_keep_alive = cfg.dialer_keep_alive;
    dialer_fallback_delay = cfg.dialer_fallback_delay;
    dual_stack = true;
    disable_compression = cfg.disable_compression;
    disable_keep_alives = cfg.disable_keep_alives;
    max_idle_conns = cfg.max_idle_conns;
    max_idle_conns_per_host = cfg.max_idle_conns_per_host;
    idle_conn_timeout = cfg.idle_conn_timeout;
    response_header_timeout = cfg.response_header_timeout;
    expect_continue_timeout = cfg.expect_continue_timeout;
    tls_handshake_timeout = pos (10 * second);
    tls_client_config = parse_client_tls_config env cfg.client_tls;
  }

  -- `InitHTTPDefaultTransportWithLogger(cfg, logger)`; the state is what `onceTransportConfig` has set
  -- of `http.DefaultTransport`, `none` before.
  unfoldable pub init_http_default_transport :
      ServiceConfig → Option (Transport C) → Option (Transport C)
  unfolding new_transport with_insecure
  init_http_default_transport cfg none = some (new_transport (with_insecure cfg))
  init_http_default_transport cfg (some t) = some t
