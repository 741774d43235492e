-- ===== src/Tests/Settings.antt =====
-- A service with one endpoint and one agent.
use lura_p.Common.{true, false, [], ◌∷◌, none, ◌≡◌, refl, str_eq, contains, string_lt}
use lura_p.Common.Int.{pos}
use lura_p.Value.{end}
use lura_p.Config.{ServiceConfig, AsyncAgent}
use lura_p.Config.Fallible.{Result, failed, done, Ensures}
use lura_p.Config.Uri.{Platform, safe_clean_host, safe_clean_hosts, clean_path, get_endpoint_path}
use lura_p.Config.Urls.{unique_from, unique_output, map_outputs, init_backend_url_mappings}
use lura_p.Config.Init.{
  init, init_global_params, backend_hosts, init_async_agent, init_agent_backend,
  init_async_agent_defaults, validate, init_endpoint_defaults, init_backend_defaults, init_backend,
  init_endpoint,
}
use lura_p.Config.Init.Params.{IsMapping, init_backend_url_mappings-IsMapping}
use lura_p.Config.Init.Agents.{IsInitialised, init-IsInitialised}
use lura_p.Tests.Pipe.{backend, endpoint}

abbrev pub platform : Platform
platform = record {
  host_matches = λ h. ("", h, "") ∷ [];
  endpoint_keys = λ s. "id" ∷ [];
  simple_keys = λ s. "id" ∷ [];
  is_sequential = λ s. str_eq s "resp0_id";
  is_invalid = λ s. str_eq s "/__debug";
  is_address = λ s. true;
  canonical = λ s. s;
  to_lower = λ s. s;
  title = λ s. s;
  replace_all = λ s old new. s;
  colon_pattern = false;
}

abbrev pub agent : AsyncAgent
agent = record {
  name = "a";
  connection = record { max_retries = pos 0; backoff_strategy = ""; health_interval = pos 0 };
  consumer = record { timeout = pos 0; workers = pos 0; topic = "t"; max_rate = "0" };
  encoding = "json";
  backend = backend end ∷ [];
  extra_config = end;
}

abbrev pub service : ServiceConfig
service = record {
  name = "s";
  endpoints = endpoint ∷ [];
  async_agents = agent ∷ [];
  timeout = pos 0;
  cache_ttl = pos 0;
  host = "localhost" ∷ [];
  port = pos 0;
  address = "";
  version = pos 3;
  output_encoding = "";
  extra_config = end;
  read_timeout = pos 0;
  write_timeout = pos 0;
  idle_timeout = pos 0;
  read_header_timeout = pos 0;
  max_header_bytes = pos 0;
  disable_keep_alives = false;
  disable_compression = false;
  max_idle_conns = pos 0;
  max_idle_conns_per_host = pos 0;
  idle_conn_timeout = pos 0;
  response_header_timeout = pos 0;
  expect_continue_timeout = pos 0;
  dialer_timeout = pos 0;
  dialer_fallback_delay = pos 0;
  dialer_keep_alive = pos 0;
  disable_strict_rest = false;
  plugin = none;
  tls = none;
  use_h2c = false;
  debug = false;
  echo = false;
  sequential_start = false;
  allow_insecure_connections = false;
  client_tls = none;
  dns_cache_ttl = pos 0;
  max_shutdown_duration = pos 0;
}

abbrev or_given : ServiceConfig → Result ServiceConfig → ServiceConfig
or_given s (failed e) = s
or_given s (done r) = r

abbrev accepted : ServiceConfig
accepted = or_given service (init platform service)

service-accepted : init platform service ≡ done accepted
unfolding init init_global_params backend_hosts init_async_agent init_agent_backend
    init_async_agent_defaults validate init_endpoint_defaults init_backend_defaults unique_from
    unique_output map_outputs init_backend_url_mappings init_backend init_endpoint safe_clean_host
    safe_clean_hosts clean_path get_endpoint_path contains string_lt
service-accepted = refl

init-IsInitialised_example : IsInitialised platform service accepted
init-IsInitialised_example = init-IsInitialised platform service accepted service-accepted

init_backend_url_mappings-IsMapping_example :
    Ensures
      (IsMapping platform ("id" ∷ []) (backend end))
      (init_backend_url_mappings platform endpoint 0 ("id" ∷ []) (backend end))
init_backend_url_mappings-IsMapping_example =
    init_backend_url_mappings-IsMapping platform endpoint 0 ("id" ∷ []) (backend end)
