-- ===== src/Config.antt =====
-- config/config.go: the configuration of a service. Durations are nanoseconds. `Decoder` is kept as
-- the name of the decoder and the collection flag that select it; the unexported `uriParser` is not
-- state, and stands where it is called. A float is kept as its literal.
pub mod Fallible
pub mod Uri
pub mod Urls
pub mod Init
pub mod Parser
use lura_p.Common.{ℕ, ◌*◌, Bool, String, List, Option}
use lura_p.Common.Int.{ℤ, pos}
use lura_p.Value.{Dict}

-- `ExtraConfig`, a map[string]interface{}; the nil map reads as the empty one.
abbrev pub ExtraConfig : Type 0
ExtraConfig = Dict

pub record Plugin : Type 0 where
  pub folder : String
  pub pattern : String

pub record TlsKeyPair : Type 0 where
  pub public_key : String
  pub private_key : String

pub record Tls : Type 0 where
  pub is_disabled : Bool
  pub public_key : String
  pub private_key : String
  pub ca_certs : List String
  pub min_version : String
  pub max_version : String
  pub curve_preferences : List ℕ
  pub prefer_server_cipher_suites : Bool
  pub cipher_suites : List ℕ
  pub enable_mtls : Bool
  pub disable_system_ca_pool : Bool
  pub keys : List TlsKeyPair

pub record ClientTlsCert : Type 0 where
  pub certificate : String
  pub private_key : String

pub record ClientTls : Type 0 where
  pub allow_insecure_connections : Bool
  pub ca_certs : List String
  pub disable_system_ca_pool : Bool
  pub min_version : String
  pub max_version : String
  pub curve_preferences : List ℕ
  pub cipher_suites : List ℕ
  pub client_certs : List ClientTlsCert

-- The key under which a decoder factory was looked up, and its argument.
pub record Decoder : Type 0 where
  pub name : String
  pub is_collection : Bool

pub record Backend : Type 0 where
  pub group : String
  pub method : String
  pub host : List String
  pub host_sanitization_disabled : Bool
  pub url_pattern : String
  pub allow_list : List String
  pub deny_list : List String
  pub mapping : List (String × String)
  pub encoding : String
  pub is_collection : Bool
  pub target : String
  pub sd : String
  pub sd_scheme : String
  pub url_keys : List String
  pub concurrent_calls : ℤ
  pub timeout : ℤ
  pub decoder : Option Decoder
  pub extra_config : ExtraConfig
  pub headers_to_pass : List String
  pub query_strings_to_pass : List String
  pub parent_endpoint : String
  pub parent_endpoint_method : String

pub record EndpointConfig : Type 0 where
  pub endpoint : String
  pub method : String
  pub backend : List Backend
  pub concurrent_calls : ℤ
  pub timeout : ℤ
  pub cache_ttl : ℤ
  pub query_string : List String
  pub extra_config : ExtraConfig
  pub headers_to_pass : List String
  pub output_encoding : String

pub record Consumer : Type 0 where
  pub timeout : ℤ
  pub workers : ℤ
  pub topic : String
  pub max_rate : String

pub record Connection : Type 0 where
  pub max_retries : ℤ
  pub backoff_strategy : String
  pub health_interval : ℤ

pub record AsyncAgent : Type 0 where
  pub name : String
  pub connection : Connection
  pub consumer : Consumer
  pub encoding : String
  pub backend : List Backend
  pub extra_config : ExtraConfig

pub record ServiceConfig : Type 0 where
  pub name : String
  pub endpoints : List EndpointConfig
  pub async_agents : List AsyncAgent
  pub timeout : ℤ
  pub cache_ttl : ℤ
  pub host : List String
  pub port : ℤ
  pub address : String
  pub version : ℤ
  pub output_encoding : String
  pub extra_config : ExtraConfig
  pub read_timeout : ℤ
  pub write_timeout : ℤ
  pub idle_timeout : ℤ
  pub read_header_timeout : ℤ
  pub max_header_bytes : ℤ
  pub disable_keep_alives : Bool
  pub disable_compression : Bool
  pub max_idle_conns : ℤ
  pub max_idle_conns_per_host : ℤ
  pub idle_conn_timeout : ℤ
  pub response_header_timeout : ℤ
  pub expect_continue_timeout : ℤ
  pub dialer_timeout : ℤ
  pub dialer_fallback_delay : ℤ
  pub dialer_keep_alive : ℤ
  pub disable_strict_rest : Bool
  pub plugin : Option Plugin
  pub tls : Option Tls
  pub use_h2c : Bool
  pub debug : Bool
  pub echo : Bool
  pub sequential_start : Bool
  pub allow_insecure_connections : Bool
  pub client_tls : Option ClientTls
  pub dns_cache_ttl : ℤ
  pub max_shutdown_duration : ℤ

abbrev pub second : ℕ
second = 1_000_000_000

abbrev pub default_timeout : ℤ
default_timeout = pos (2 * second)

abbrev pub default_max_idle_conns_per_host : ℤ
default_max_idle_conns_per_host = pos 250

abbrev pub config_version : ℤ
config_version = pos 3

abbrev pub default_port : ℤ
default_port = pos 8080

-- encoding.NOOP and encoding.JSON
abbrev pub noop : String
noop = "no-op"

abbrev pub json : String
json = "json"
