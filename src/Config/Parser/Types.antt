-- ===== src/Config/Parser/Types.antt =====
-- config/parser.go: the structs that encoding/json fills. A nil pointer is `none`; a float is its literal.
use lura_p.Common.{ℕ, Bool, String, List, Option}
use lura_p.Common.Int.{ℤ}
use lura_p.Config.{ExtraConfig, Plugin}

pub record ParseableTlsKeyPair : Type 0 where
  pub public_key : String
  pub private_key : String

pub record ParseableTls : Type 0 where
  pub is_disabled : Bool
  pub public_key : String
  pub private_key : String
  pub ca_certs : List String
  pub min_version : String
  pub max_version : String
  pub curve_preferences : List ℕ
  pub prefer_server_cipher_suites : Bool
  pub cipher_suites : List ℕ
  pub enable_mtls : Bool
  pub disable_system_ca_pool : Bool
  pub keys : List ParseableTlsKeyPair

pub record ParseableClientTlsCert : Type 0 where
  pub certificate : String
  pub private_key : String

pub record ParseableClientTls : Type 0 where
  pub allow_insecure_connections : Bool
  pub ca_certs : List String
  pub disable_system_ca_pool : Bool
  pub min_version : String
  pub max_version : String
  pub curve_preferences : List ℕ
  pub cipher_suites : List ℕ
  pub client_certs : List ParseableClientTlsCert

pub record ParseableBackend : Type 0 where
  pub group : String
  pub method : String
  pub host : List String
  pub host_sanitization_disabled : Bool
  pub url_pattern : String
  pub allow_list : List String
  pub deny_list : List String
  pub mapping : List (String × String)
  pub encoding : String
  pub is_collection : Bool
  pub target : String
  pub extra_config : Option ExtraConfig
  pub sd : String
  pub headers_to_pass : List String
  pub sd_scheme : String
  pub query_strings_to_pass : List String

pub record ParseableEndpointConfig : Type 0 where
  pub endpoint : String
  pub method : String
  pub backend : List ParseableBackend
  pub concurrent_calls : ℤ
  pub timeout : String
  pub cache_ttl : String
  pub query_string : List String
  pub extra_config : Option ExtraConfig
  pub headers_to_pass : List String
  pub output_encoding : String

-- The two anonymous structs of `parseableAsyncAgent`.
pub record ParseableConnection : Type 0 where
  pub max_retries : ℤ
  pub backoff_strategy : String
  pub health_interval : String

pub record ParseableConsumer : Type 0 where
  pub timeout : String
  pub workers : ℤ
  pub topic : String
  pub max_rate : String

pub record ParseableAsyncAgent : Type 0 where
  pub name : String
  pub connection : ParseableConnection
  pub consumer : ParseableConsumer
  pub encoding : String
  pub backend : List ParseableBackend
  pub extra_config : ExtraConfig

pub record ParseableServiceConfig : Type 0 where
  pub name : String
  pub endpoints : List ParseableEndpointConfig
  pub async_agents : List ParseableAsyncAgent
  pub timeout : String
  pub cache_ttl : String
  pub host : List String
  pub port : ℤ
  pub address : String
  pub version : ℤ
  pub extra_config : Option ExtraConfig
  pub read_timeout : String
  pub write_timeout : String
  pub idle_timeout : String
  pub read_header_timeout : String
  pub max_header_bytes : ℤ
  pub disable_keep_alives : Bool
  pub disable_compression : Bool
  pub disable_strict_rest : Bool
  pub max_idle_conns : ℤ
  pub max_idle_conns_per_host : ℤ
  pub idle_conn_timeout : String
  pub response_header_timeout : String
  pub expect_continue_timeout : String
  pub output_encoding : String
  pub dialer_timeout : String
  pub dialer_fallback_delay : String
  pub dialer_keep_alive : String
  pub debug : Bool
  pub echo : Bool
  pub plugin : Option Plugin
  pub tls : Option ParseableTls
  pub client_tls : Option ParseableClientTls
  pub use_h2c : Bool
  pub dns_cache_ttl : String
  pub max_shutdown_duration : String
