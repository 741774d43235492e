-- ===== src/Proxy/Shadow.antt =====
-- proxy/shadow.go: the backends whose responses are dropped. The inner factory and
-- `time.ParseDuration` are arguments; a proxy is what the factory makes, of a type `P`.
pub mod Split
use lura_p.Common.{
  ℕ, Bool, true, false, String, List, [], ◌∷◌, Option, none, some, ◌>>=◌, if◌then◌else◌,
}
use lura_p.Common.Int.{ℤ, pos, lt_int}
use lura_p.Value.{Value, text, bool, get, as_dict}
use lura_p.Config.{Backend, EndpointConfig}
use lura_p.Proxy.{Error, err_no_backends, namespace}

-- `k.(bool)` and `v.(string)`
abbrev as_bool : Value → Option Bool
as_bool (bool b) = some b
as_bool _ = none

abbrev as_text : Value → Option String
as_text (text s) = some s
as_text _ = none

-- The duration of a shadow backend, given its timeout and the value of "shadow_timeout".
abbrev pub duration_of : (String → Option ℤ) → ℤ → Option String → ℤ
duration_of parse timeout none = timeout
duration_of parse timeout (some t) = elim (parse t) [ none ↦ timeout | some d ↦ d ]

-- `isShadowBackend(c)`: the duration, where it is one.
unfoldable pub shadow_duration : (String → Option ℤ) → Backend → Option ℤ
shadow_duration parse c = do
  v ← get namespace c.extra_config
  e ← as_dict v
  k ← get "shadow" e
  s ← as_bool k
  d ← if s then some (get "shadow_timeout" e >>= as_text) else none
  some (duration_of parse c.timeout d)

-- What the loop of `New` leaves: the regular backends, the shadow ones, and the longest duration.
pub record Parts : Type 0 where
  pub regular : List Backend
  pub shadow : List Backend
  pub longest : ℤ

-- The loop of `New`, from `longest` on.
unfoldable pub split : (String → Option ℤ) → ℤ → List Backend → Parts
split parse longest [] = record { regular = []; shadow = []; longest = longest }
split parse longest (b ∷ bs) = elim (shadow_duration parse b) [
  | none ↦ let parts = split parse longest bs in record parts { regular = b ∷ parts.regular }
  | some d ↦
      let parts = split parse (if lt_int longest d then d else longest) bs in
      record parts { shadow = b ∷ parts.shadow }
]

-- A proxy that may be nil, or the one that `NewShadowProxyWithTimeout` makes of two.
pub data Proxy (P : Type 0) : Type 0 where
  made : Option P → Proxy P
  shadowed : ℤ → Option P → Option P → Proxy P

-- The end of `New`: the shadow middleware where there are shadow backends.
unfoldable pub wrap :
    {P : Type 0}
    → (EndpointConfig → Option P × Option Error)
    → EndpointConfig
    → ℤ
    → List Backend
    → Option P × Option Error
    → Proxy P × Option Error
wrap f cfg longest [] (p, err) = (made p, err)
wrap f cfg longest (b ∷ bs) (p, err) =
    (shadowed longest p (f (record cfg { backend = b ∷ bs })).0, err)

-- `s.New(cfg)`, for a factory `f` of proxies and errors.
unfoldable pub new_shadow :
    {P : Type 0}
    → (String → Option ℤ)
    → (EndpointConfig → Option P × Option Error)
    → EndpointConfig
    → Proxy P × Option Error
new_shadow parse f cfg = elim cfg.backend [
  | [] ↦ (made none, some err_no_backends)
  | (b ∷ bs) ↦
      let parts = split parse (pos 0) (b ∷ bs) in
      wrap f cfg parts.longest parts.shadow (f (record cfg { backend = parts.regular }))
]
