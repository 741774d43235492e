-- ===== src/Server.antt =====
-- transport/http/server/server.go: the TLS configuration of servers and clients, the transport, and a
-- run of the server up to its end. What the file system, crypto/tls and crypto/x509 answer are the
-- fields of a `Machine`; logging is left out. A server's handler is told by whether it speaks h2c.
pub mod Run
pub mod Transport
pub mod Keys
pub mod Trusted
pub mod Skips
use Prim.Native.String
use Prim.Native.String.{[], ◌∷◌}
use Prim.Native.Char.{code}
use lura_p.Common.{
  ℕ, ◌*◌, Bool, true, false, ◌||◌, not, String, List, [], ◌∷◌, ◌++◌, Option, none, some, str_eq,
  ◌==◌, if◌then◌else◌,
}
use lura_p.Common.Int.{ℤ, pos, le_int}
use lura_p.Common.Decimal.{decimal_int}
use lura_p.Config.{ServiceConfig, Tls, TlsKeyPair, ClientTls, ClientTlsCert, second}
use lura_p.Config.Uri.{◌<>◌}

-- An x509.CertPool is the list of its certificates, each as a text; `C` is a tls.Certificate.
pub record Machine (C : Type 0) : Type 0 where
  -- `os.ReadFile`; `none` is an error.
  pub read_file : String → Option String
  -- `tls.LoadX509KeyPair`; `none` is an error.
  pub load_key_pair : String → String → Option C
  -- `x509.SystemCertPool`; `none` is an error.
  pub system_cert_pool : Option (List String)
  -- The certificates that `AppendCertsFromPEM` finds in a file.
  pub certs_in : String → List String

-- The fields of tls.Config that the source sets. `client_auth` is RequireAndVerifyClientCert, or
-- NoClientCert; a pool that is nil is `none`.
pub record TlsConfig (C : Type 0) : Type 0 where
  pub min_version : ℕ
  pub max_version : ℕ
  pub curve_preferences : List ℕ
  pub cipher_suites : List ℕ
  pub insecure_skip_verify : Bool
  pub root_cas : Option (List String)
  pub client_cas : Option (List String)
  pub client_auth : Bool
  pub certificates : List C

-- `versions` of the source, over the default.
abbrev pub tls_13 : ℕ
tls_13 = 772

-- `parseTLSVersion(key)`
unfoldable pub parse_tls_version : String → ℕ
parse_tls_version key =
    if str_eq key "SSL3.0"
    then 768
    else if str_eq key "TLS10"
    then 769
    else if str_eq key "TLS11"
    then 770
    else if str_eq key "TLS12"
    then 771
    else tls_13

-- CurveP521, CurveP384, CurveP256
abbrev pub default_curves : List ℕ
default_curves = 25 ∷ 24 ∷ 23 ∷ []

abbrev pub default_cipher_suites : List ℕ
default_cipher_suites = 49199 ∷ 49195 ∷ 49200 ∷ 49196 ∷ 52392 ∷ 52393 ∷ []

-- `parseCurveIDs(curvePreferences)`
unfoldable pub parse_curve_ids : List ℕ → List ℕ
parse_curve_ids [] = default_curves
parse_curve_ids (c ∷ cs) = c ∷ cs

-- `parseCipherSuites(cipherSuites)`
unfoldable pub parse_cipher_suites : List ℕ → List ℕ
parse_cipher_suites [] = default_cipher_suites
parse_cipher_suites (c ∷ cs) = c ∷ cs

-- The system's pool, or a new one.
abbrev pub pool_or_new : Option (List String) → List String
pool_or_new none = []
pool_or_new (some pool) = pool

-- The files of the loop over `cfg.Keys`.
abbrev pub public_keys : List TlsKeyPair → List String
public_keys [] = []
public_keys (k ∷ ks) = k.public_key ∷ public_keys ks

module _ {C : Type 0} (env : Machine C) where
  -- `if ca, err := os.ReadFile(path); err == nil { certPool.AppendCertsFromPEM(ca) }`
  unfoldable pub append_file : List String → Option String → List String
  append_file pool none = pool
  append_file pool (some ca) = pool ++ env.certs_in ca

  unfoldable pub append_files : List String → List String → List String
  unfolding append_file
  append_files pool [] = pool
  append_files pool (path ∷ paths) = append_files (append_file pool (env.read_file path)) paths

  -- `loadCertPool(disableSystemCaPool, caCerts, logger)`
  unfoldable pub load_cert_pool : Bool → List String → List String
  unfolding append_files
  load_cert_pool disable_system_ca_pool ca_certs =
      append_files (if not disable_system_ca_pool then pool_or_new env.system_cert_pool else [])
        ca_certs

  -- A round of the loop of `loadClientCerts`.
  abbrev pub append_cert : Option C → List C → List C
  append_cert none certs = certs
  append_cert (some c) certs = c ∷ certs

  -- `loadClientCerts(certFiles, logger)`
  unfoldable pub load_client_certs : List ClientTlsCert → List C
  load_client_certs [] = []
  load_client_certs (f ∷ fs) =
      append_cert (env.load_key_pair f.certificate f.private_key) (load_client_certs fs)

  -- The configuration before the test of `EnableMTLS`.
  abbrev pub base_config : Tls → TlsConfig C
  base_config cfg = record {
    min_version = parse_tls_version cfg.min_version;
    max_version = parse_tls_version cfg.max_version;
    curve_preferences = parse_curve_ids cfg.curve_preferences;
    cipher_suites = parse_cipher_suites cfg.cipher_suites;
    insecure_skip_verify = false;
    root_cas = none;
    client_cas = none;
    client_auth = false;
    certificates = [];
  }

  -- The configuration after it.
  abbrev pub mtls_config : Tls → TlsConfig C
  mtls_config cfg = record (base_config cfg) {
    client_cas = some (
        append_files (load_cert_pool cfg.disable_system_ca_pool cfg.ca_certs)
          (public_keys cfg.keys));
    client_auth = true;
  }

  -- `ParseTLSConfigWithLogger(cfg, logger)` of a configuration that is there and not disabled.
  unfoldable pub enabled_config : Tls → TlsConfig C
  unfolding parse_tls_version parse_curve_ids parse_cipher_suites load_cert_pool append_files
  enabled_config cfg = if not cfg.enable_mtls then base_config cfg else mtls_config cfg

  unfoldable pub parse_tls_config : Option Tls → Option (TlsConfig C)
  unfolding enabled_config
  parse_tls_config none = none
  parse_tls_config (some cfg) = if cfg.is_disabled then none else some (enabled_config cfg)

  -- `ParseClientTLSConfigWithLogger(cfg, logger)`
  unfoldable pub parse_client_tls_config : Option ClientTls → Option (TlsConfig C)
  unfolding parse_tls_version parse_curve_ids parse_cipher_suites load_cert_pool load_client_certs
  parse_client_tls_config none = none
  parse_client_tls_config (some cfg) = some (record {
    min_version = parse_tls_version cfg.min_version;
    max_version = parse_tls_version cfg.max_version;
    curve_preferences = parse_curve_ids cfg.curve_preferences;
    cipher_suites = parse_cipher_suites cfg.cipher_suites;
    insecure_skip_verify = cfg.allow_insecure_connections;
    root_cas = some (load_cert_pool cfg.disable_system_ca_pool cfg.ca_certs);
    client_cas = none;
    client_auth = false;
    certificates = load_client_certs cfg.client_certs;
  })

-- The fields of http.Server that the source sets.
pub record HttpServer (C : Type 0) : Type 0 where
  pub addr : String
  pub is_h2c : Bool
  pub read_timeout : ℤ
  pub write_timeout : ℤ
  pub read_header_timeout : ℤ
  pub idle_timeout : ℤ
  pub tls_config : Option (TlsConfig C)
  pub max_header_bytes : ℤ

-- A text has a colon.
unfoldable pub is_bracketed : String → Bool
is_bracketed [] = false
is_bracketed (c ∷ s) = code c == 58 || is_bracketed s

-- `net.JoinHostPort(host, port)`
unfoldable pub join_host_port : String → String → String
unfolding is_bracketed
join_host_port host port =
    if is_bracketed host then "[" <> host <> "]:" <> port else host <> ":" <> port

-- `NewServerWithLogger(cfg, handler, logger)`
unfoldable pub new_server : {C : Type 0} → Machine C → ServiceConfig → HttpServer C
unfolding parse_tls_config join_host_port decimal_int
new_server env cfg = record {
  addr = join_host_port cfg.address (decimal_int cfg.port);
  is_h2c = cfg.use_h2c;
  read_timeout = cfg.read_timeout;
  write_timeout = cfg.write_timeout;
  read_header_timeout = cfg.read_header_timeout;
  idle_timeout = cfg.idle_timeout;
  tls_config = parse_tls_config env cfg.tls;
  max_header_bytes = cfg.max_header_bytes;
}
