-- ===== src/Server/Keys.antt =====
-- When a server starts to listen, and with which certificates.
use lura_p.Common.{
  ◌≡◌, ◌≢◌, refl, ap, ◌⊎◌, inl, inr, Bool, true, false, List, [], ◌∷◌, ◌++◌, Option, none, some,
  str_eq, Bool-cases, not, if◌then◌else◌,
}
use lura_p.Config.{ServiceConfig, Tls, TlsKeyPair}
use lura_p.Config.Init.Ready.{IsGiven}
use lura_p.Server.{Machine, TlsConfig, HttpServer, enabled_config, parse_tls_config, new_server}
use lura_p.Server.Run.{
  RunError, err_public_key, err_private_key, not_loaded, Loaded, refused, loaded, followed,
  loaded_or, load_keys, keys_of, load_all, Begun, rejected, listen_and_serve, listen_and_serve_tls,
  with_certificates, begin_with, begin,
}

module _ {C : Type 0} (env : Machine C) where
  -- Each key names both files, and the certificates are what they hold, in order.
  abbrev pub AreUsable : List TlsKeyPair → List C → Type 0
  AreUsable [] cs = cs ≡ []
  AreUsable (k ∷ ks) cs =
      (c : C) × (rest : List C) × (cs ≡ c ∷ rest)
      × IsGiven k.public_key
      × IsGiven k.private_key
      × (env.load_key_pair k.public_key k.private_key ≡ some c)
      × AreUsable ks rest

  -- What is wrong with a key, by the error that tells it.
  abbrev pub IsBadKey : TlsKeyPair → RunError → Type 0
  IsBadKey k err_public_key = str_eq k.public_key "" ≡ true
  IsBadKey k err_private_key = IsGiven k.public_key × (str_eq k.private_key "" ≡ true)
  IsBadKey k not_loaded =
      IsGiven k.public_key
      × IsGiven k.private_key
      × (env.load_key_pair k.public_key k.private_key ≡ none)

  -- All keys are usable, or the error is that of the first bad one.
  abbrev pub IsLoaded : List TlsKeyPair → Loaded C → Type 0
  IsLoaded ks (loaded cs) = AreUsable ks cs
  IsLoaded ks (refused e) =
      (good : List TlsKeyPair) × (cs : List C) × (k : TlsKeyPair) × (rest : List TlsKeyPair) × (ks
        ≡ good ++ (k ∷ rest))
      × AreUsable good cs
      × IsBadKey k e

  followed-IsLoaded :
      (k : TlsKeyPair) (ks : List TlsKeyPair) (c : C) (r : Loaded C)
      → IsGiven k.public_key
      → IsGiven k.private_key
      → env.load_key_pair k.public_key k.private_key ≡ some c
      → IsLoaded ks r
      → IsLoaded (k ∷ ks) (followed c r)
  followed-IsLoaded k ks c (loaded cs) gp gk e h = (c, cs, refl, gp, gk, e, h)
  followed-IsLoaded k ks c (refused x) gp gk e (good, cs, bad, rest, split, usable, why) =
      (k ∷ good, c ∷ cs, bad, rest, ap (λ l. k ∷ l) split, (c, cs, refl, gp, gk, e, usable), why)

  loaded_or-IsLoaded :
      (k : TlsKeyPair) (ks : List TlsKeyPair) (o : Option C) (r : Loaded C)
      → IsGiven k.public_key
      → IsGiven k.private_key
      → env.load_key_pair k.public_key k.private_key ≡ o
      → IsLoaded ks r
      → IsLoaded (k ∷ ks) (loaded_or o r)
  loaded_or-IsLoaded k ks none r gp gk e h = ([], [], k, ks, refl, refl, (gp, gk, e))
  loaded_or-IsLoaded k ks (some c) r gp gk e h = followed-IsLoaded k ks c r gp gk e h

  load_keys-IsLoaded : (ks : List TlsKeyPair) → IsLoaded ks (load_keys env ks)
  unfolding load_keys
  load_keys-IsLoaded [] = refl
  load_keys-IsLoaded (k ∷ ks) = elim (Bool-cases (str_eq k.public_key "")) [
    | inl e ↦ rw (e, load_keys) ([], [], k, ks, refl, refl, e)
    | inr gp ↦ elim (Bool-cases (str_eq k.private_key "")) [
      | inl e ↦ rw (gp, e, load_keys) ([], [], k, ks, refl, refl, (gp, e))
      | inr gk ↦
          rw (gp, gk, load_keys)
            (loaded_or-IsLoaded k ks (env.load_key_pair k.public_key k.private_key)
              (load_keys env ks) gp gk refl (load_keys-IsLoaded ks))
    ]
  ]

  -- A configuration has TLS where it has one that is not disabled.
  abbrev pub IsSecure : Option Tls → Tls → Type 0
  IsSecure tls t = (tls ≡ some t) × (t.is_disabled ≡ false)

  abbrev pub IsPlain : Option Tls → Type 0
  IsPlain none = Unit
  IsPlain (some t) = t.is_disabled ≡ true

  -- The keys that count: those of the list, and behind them the pair that stands beside it, where one
  -- of its two names is given.
  abbrev pub AreKeys : Tls → List TlsKeyPair → Type 0
  AreKeys t ks =
      ((IsGiven t.public_key ⊎ IsGiven t.private_key)
        × (ks ≡ t.keys ++ (record { public_key = t.public_key; private_key = t.private_key } ∷ [])))
      ⊎ ((str_eq t.public_key "" ≡ true) × (str_eq t.private_key "" ≡ true) × (ks ≡ t.keys))

  keys_of-AreKeys : (t : Tls) → AreKeys t (keys_of t)
  unfolding keys_of
  keys_of-AreKeys t = elim (Bool-cases (str_eq t.public_key "")) [
    | inr p ↦ inl (inl p, rw p refl)
    | inl p ↦ elim (Bool-cases (str_eq t.private_key "")) [
      | inr q ↦ inl (inr q, rw (p, q) refl)
      | inl q ↦ inr (p, q, rw (p, q) refl)
    ]
  ]

  -- What each beginning of a run says of the configuration.
  abbrev pub IsBegun : Option Tls → HttpServer C → Begun C → Type 0
  IsBegun tls s (listen_and_serve s1) = IsPlain tls × (s1 ≡ s)
  IsBegun tls s (listen_and_serve_tls s1) =
      (t : Tls) × (config : TlsConfig C) × (ks : List TlsKeyPair) × (cs : List C) × IsSecure tls t
      × (s.tls_config ≡ some config)
      × AreKeys t ks
      × (ks ≢ [])
      × AreUsable ks cs
      × (s1 ≡ record s { tls_config = some (record config { certificates = cs }) })
  IsBegun tls s (rejected e) =
      (t : Tls) × (ks : List TlsKeyPair) × IsSecure tls t
      × AreKeys t ks
      × (((ks ≡ []) × (e ≡ err_public_key)) ⊎ IsLoaded ks (refused e))

  -- The keys with their certificates, or what is wrong with them.
  abbrev IsLoadedAll : List TlsKeyPair → Loaded C → Type 0
  IsLoadedAll ks (loaded cs) = (ks ≢ []) × AreUsable ks cs
  IsLoadedAll ks (refused e) = ((ks ≡ []) × (e ≡ err_public_key)) ⊎ IsLoaded ks (refused e)

  load_all-IsLoadedAll : (ks : List TlsKeyPair) → IsLoadedAll ks (load_all env ks)
  unfolding load_all
  load_all-IsLoadedAll [] = inl (refl, refl)
  load_all-IsLoadedAll (k ∷ ks) = some_key (load_keys env (k ∷ ks)) (load_keys-IsLoaded (k ∷ ks))
    where
      some_key : (r : Loaded C) → IsLoaded (k ∷ ks) r → IsLoadedAll (k ∷ ks) r
      some_key (loaded cs) h = (λ e. cc, h)
      some_key (refused e) h = inr h

  enabled_config_certificates : (t : Tls) → (enabled_config env t).certificates ≡ []
  unfolding enabled_config
  enabled_config_certificates t = elim (Bool-cases (not t.enable_mtls)) [
    | inl e ↦ rw e refl
    | inr e ↦ rw e refl
  ]

  with_certificates-IsBegun :
      (t : Tls) (s : HttpServer C) (config : TlsConfig C) (r : Loaded C)
      → t.is_disabled ≡ false
      → s.tls_config ≡ some config
      → config.certificates ≡ []
      → IsLoadedAll (keys_of t) r
      → IsBegun (some t) s (with_certificates s config r)
  with_certificates-IsBegun t s config (refused e) d h none_ k =
      (t, keys_of t, (refl, d), keys_of-AreKeys t, k)
  with_certificates-IsBegun t s config (loaded cs) d h none_ k = (
    t,
    config,
    keys_of t,
    cs,
    (refl, d),
    h,
    keys_of-AreKeys t,
    k.0,
    k.1,
    λ i. record s { tls_config = some (record config { certificates = none_ i ++ cs }) },
  )

  begin_with_tls :
      (t : Tls) (s : HttpServer C) (b : Bool)
      → t.is_disabled ≡ b
      → s.tls_config ≡ (if b then none else some (enabled_config env t))
      → IsBegun
          (some t)
          s
          (begin_with env (some t) s (if b then none else some (enabled_config env t)))
  begin_with_tls t s true d h = (d, refl)
  begin_with_tls t s false d h =
      with_certificates-IsBegun t s (enabled_config env t) (load_all env (keys_of t)) d h
        (enabled_config_certificates t) (load_all-IsLoadedAll (keys_of t))

  begin_with-IsBegun :
      (tls : Option Tls) (s : HttpServer C)
      → s.tls_config ≡ parse_tls_config env tls
      → IsBegun tls s (begin_with env tls s (parse_tls_config env tls))
  unfolding parse_tls_config
  begin_with-IsBegun none s h = (tt, refl)
  begin_with-IsBegun (some t) s h = begin_with_tls t s t.is_disabled refl h

-- A run listens without TLS exactly where the configuration has none or a disabled one, with the server
-- that was made. With TLS it listens only with one key or more, each naming both files, and has
-- exactly their certificates, in order, the pair beside the keys last. Else it is refused: for want
-- of a public key where there is no key at all, or by the first bad key, behind keys that are all
-- usable, for want of its public key, else of its private key, else since the pair cannot be loaded.
pub begin-IsBegun :
    {C : Type 0} (env : Machine C) (cfg : ServiceConfig)
    → IsBegun env cfg.tls (new_server env cfg) (begin env cfg)
unfolding begin new_server
begin-IsBegun env cfg = begin_with-IsBegun env cfg.tls (new_server env cfg) refl
