-- ===== src/Server/Skips.antt =====
-- When the default transport skips the verification of certificates.
use lura_p.Common.{◌≡◌, refl, ◌∙◌, Bool, true, false, ◌||◌, List, [], ◌∷◌, Option, none, some}
use lura_p.Config.{ServiceConfig, ClientTls}
use lura_p.Server.{Machine, TlsConfig, parse_client_tls_config}
use lura_p.Server.Transport.{
  Transport, given_or_empty, insecure_client, with_insecure, new_transport,
  init_http_default_transport,
}

abbrev pub skips : {C : Type 0} → Option (TlsConfig C) → Bool
skips none = false
skips (some config) = config.insecure_skip_verify

-- The calls of a process, one after the other.
abbrev pub init_all :
    {C : Type 0} → Machine C → List ServiceConfig → Option (Transport C) → Option (Transport C)
init_all env [] t = t
init_all env (cfg ∷ cfgs) t = init_all env cfgs (init_http_default_transport env cfg t)

module _ {C : Type 0} (env : Machine C) where
  skips-parse :
      (t : Option ClientTls)
      → skips (parse_client_tls_config env t) ≡ (given_or_empty t).allow_insecure_connections
  unfolding parse_client_tls_config
  skips-parse none = refl
  skips-parse (some t) = refl

  insecure_flag :
      (b : Bool) (t : Option ClientTls)
      → (given_or_empty (insecure_client b t)).allow_insecure_connections
        ≡ (b || (given_or_empty t).allow_insecure_connections)
  insecure_flag true t = refl
  insecure_flag false t = refl

  init_all-some :
      (cfgs : List ServiceConfig) (t : Transport C) → init_all env cfgs (some t) ≡ some t
  unfolding init_http_default_transport
  init_all-some [] t = refl
  init_all-some (cfg ∷ cfgs) t = init_all-some cfgs t

-- Of all calls that configure the default transport the first decides, whatever configurations the
-- later ones bring: the transport is the one that is made of its configuration, once that allows
-- insecure connections to its clients, and it skips the verification of certificates exactly where
-- the service or its client part allows insecure connections.
pub init_all-first :
    {C : Type 0} (env : Machine C) (cfg : ServiceConfig) (cfgs : List ServiceConfig)
    → (t : Transport C) × (init_all env (cfg ∷ cfgs) none ≡ some t)
      × (t ≡ new_transport env (with_insecure cfg))
      × (skips t.tls_client_config ≡ (
          cfg.allow_insecure_connections
          || (given_or_empty cfg.client_tls).allow_insecure_connections))
unfolding init_http_default_transport new_transport with_insecure
init_all-first env cfg cfgs =
    let t = new_transport env (with_insecure cfg) in
    let client = insecure_client cfg.allow_insecure_connections cfg.client_tls in
    (
      t,
      init_all-some env cfgs t,
      refl,
      skips-parse env client ∙ insecure_flag env cfg.allow_insecure_connections cfg.client_tls,
    )
