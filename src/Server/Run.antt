-- ===== src/Server/Run.antt =====
-- transport/http/server/server.go: `RunServerWithLoggerFactory`, from the server's making to its end.
use lura_p.Common.{
  ◌||◌, not, String, List, [], ◌∷◌, ◌++◌, Option, none, some, str_eq, if◌then◌else◌,
}
use lura_p.Common.Int.{ℤ, pos, le_int}
use lura_p.Config.{ServiceConfig, Tls, TlsKeyPair}
use lura_p.Server.{Machine, TlsConfig, HttpServer, new_server}

pub data RunError : Type 0 where
  err_public_key : RunError
  err_private_key : RunError
  -- The error of `tls.LoadX509KeyPair`.
  not_loaded : RunError

-- The certificates of the keys, or the first error.
pub data Loaded (C : Type 0) : Type 0 where
  refused : RunError → Loaded C
  loaded : List C → Loaded C

abbrev pub followed : {C : Type 0} → C → Loaded C → Loaded C
followed c (refused e) = refused e
followed c (loaded cs) = loaded (c ∷ cs)

abbrev pub loaded_or : {C : Type 0} → Option C → Loaded C → Loaded C
loaded_or none rest = refused not_loaded
loaded_or (some c) rest = followed c rest

-- The loop over `cfg.TLS.Keys`.
unfoldable pub load_keys : {C : Type 0} → Machine C → List TlsKeyPair → Loaded C
load_keys env [] = loaded []
load_keys env (k ∷ ks) =
    let rest = load_keys env ks in
    if str_eq k.public_key ""
    then refused err_public_key
    else if str_eq k.private_key ""
    then refused err_private_key
    else loaded_or (env.load_key_pair k.public_key k.private_key) rest

-- The keys with the pair that stands beside them, if one of its two names is given.
unfoldable pub keys_of : Tls → List TlsKeyPair
keys_of t =
    if not (str_eq t.public_key "") || not (str_eq t.private_key "")
    then t.keys ++ (record { public_key = t.public_key; private_key = t.private_key } ∷ [])
    else t.keys

-- `if len(cfg.TLS.Keys) == 0 { return ErrPublicKey }` and the loop.
unfoldable pub load_all : {C : Type 0} → Machine C → List TlsKeyPair → Loaded C
unfolding load_keys
load_all env [] = refused err_public_key
load_all env (k ∷ ks) = load_keys env (k ∷ ks)

-- How a run begins: refused, or listening with or without TLS.
pub data Begun (C : Type 0) : Type 0 where
  rejected : RunError → Begun C
  listen_and_serve : HttpServer C → Begun C
  listen_and_serve_tls : HttpServer C → Begun C

-- The server with its certificates.
abbrev pub with_certificates : {C : Type 0} → HttpServer C → TlsConfig C → Loaded C → Begun C
with_certificates s config (refused e) = rejected e
with_certificates s config (loaded cs) =
    listen_and_serve_tls
      (record s { tls_config = some (record config { certificates = config.certificates ++ cs }) })

-- The keys of a configuration; one without TLS is not asked for them.
abbrev pub keys_given : Option Tls → List TlsKeyPair
keys_given none = []
keys_given (some t) = keys_of t

abbrev pub begin_with :
    {C : Type 0} → Machine C → Option Tls → HttpServer C → Option (TlsConfig C) → Begun C
begin_with env tls s none = listen_and_serve s
begin_with env tls s (some config) = with_certificates s config (load_all env (keys_given tls))

-- The run up to the point where the server listens.
unfoldable pub begin : {C : Type 0} → Machine C → ServiceConfig → Begun C
unfolding new_server keys_of load_all
begin env cfg = let s = new_server env cfg in begin_with env cfg.tls s s.tls_config

-- What ends a server that listens: its own end, or that of the context.
pub data Stop : Type 0 where
  ended : String → Stop
  context_done : Stop

-- What the run does then: it returns what the server gave, or shuts it down, within a time if one is
-- given.
pub data Ending : Type 0 where
  returned : String → Ending
  shutdown : Ending
  shutdown_within : ℤ → Ending

unfoldable pub finish : ServiceConfig → Stop → Ending
finish cfg (ended e) = returned e
finish cfg context_done =
    if le_int cfg.max_shutdown_duration (pos 0)
    then shutdown
    else shutdown_within cfg.max_shutdown_duration
