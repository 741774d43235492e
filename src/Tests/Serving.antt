-- ===== src/Tests/Serving.antt =====
-- A server with mutual TLS, and the transport of a process that configures it twice.
use lura_p.Common.{true, false, ◌||◌, String, [], ◌∷◌, none, some, ◌≡◌, refl, str_eq, if◌then◌else◌}
use lura_p.Config.{ServiceConfig, Tls}
use lura_p.Server.{Machine, enabled_config, new_server, parse_tls_config}
use lura_p.Server.Run.{begin}
use lura_p.Server.Keys.{IsBegun, begin-IsBegun}
use lura_p.Server.Trusted.{IsGuarded, parse_tls_config-IsGuarded}
use lura_p.Server.Transport.{Transport, given_or_empty, with_insecure, new_transport}
use lura_p.Server.Skips.{skips, init_all, init_all-first}
use lura_p.Tests.Settings.{service}

-- One file cannot be read, and so no pair with it can be loaded.
abbrev machine : Machine String
machine = record {
  read_file = λ f. if str_eq f "lost.pem" then none else some f;
  load_key_pair = λ c k. if str_eq c "lost.pem" then none else some c;
  system_cert_pool = some ("root" ∷ []);
  certs_in = λ t. t ∷ [];
}

abbrev guarded_tls : Tls
guarded_tls = record {
  is_disabled = false;
  public_key = "own.pem";
  private_key = "own.key";
  ca_certs = "ca.pem" ∷ "lost.pem" ∷ [];
  min_version = "TLS12";
  max_version = "";
  curve_preferences = [];
  prefer_server_cipher_suites = false;
  cipher_suites = [];
  enable_mtls = true;
  disable_system_ca_pool = false;
  keys = record { public_key = "other.pem"; private_key = "other.key" } ∷ [];
}

abbrev secure : ServiceConfig
secure = record service { tls = some guarded_tls; allow_insecure_connections = true }

begin-IsBegun_example :
    IsBegun machine secure.tls (new_server machine secure) (begin machine secure)
begin-IsBegun_example = begin-IsBegun machine secure

parse_tls_config-IsGuarded_example :
    (guarded_tls.is_disabled ≡ false)
    × IsGuarded machine guarded_tls (enabled_config machine guarded_tls)
unfolding parse_tls_config
parse_tls_config-IsGuarded_example =
    parse_tls_config-IsGuarded machine guarded_tls (enabled_config machine guarded_tls) refl

init_all-first_example :
    (t : Transport String) × (init_all machine (secure ∷ service ∷ []) none ≡ some t)
    × (t ≡ new_transport machine (with_insecure secure))
    × (skips t.tls_client_config ≡ (
        secure.allow_insecure_connections
        || (given_or_empty secure.client_tls).allow_insecure_connections))
init_all-first_example = init_all-first machine secure (service ∷ [])
