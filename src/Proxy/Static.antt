-- ===== src/Proxy/Static.antt =====
-- proxy/static.go: static values added to the response of the pipe, as a strategy says.
use lura_p.Common.{
  Bool, true, false, ◌&&◌, not, String, [], Option, none, some, ◌>>=◌, ◌≡◌, refl, is_some, str_eq,
  if◌then◌else◌,
}
use lura_p.Value.{Value, text, Dict, end, get, set_all, as_dict, IsMap}
use lura_p.Value.Laws.{get-set_all}
use lura_p.Config.{ExtraConfig}
use lura_p.Proxy.{Response, Error, namespace}

pub data Strategy : Type 0 where
  always success errored complete incomplete : Strategy

pub record StaticConfig : Type 0 where
  pub payload : Dict
  pub strategy : String
  pub match : Strategy

-- `v.(string)`
abbrev as_text : Value → Option String
as_text (text s) = some s
as_text _ = none

-- The switch on the strategy's name, whose default is the first `Match`.
unfoldable pub strategy_of : String → Strategy
strategy_of name =
    if str_eq name "always"
    then always
    else if str_eq name "success"
    then success
    else if str_eq name "errored"
    then errored
    else if str_eq name "complete"
    then complete
    else if str_eq name "incomplete"
    then incomplete
    else always

-- `getStaticMiddlewareCfg(extra)`
unfoldable pub get_static_config : ExtraConfig → Option StaticConfig
get_static_config extra = do
  v ← get namespace extra
  e ← as_dict v
  s ← get "static" e
  tmp ← as_dict s
  d ← get "data" tmp
  payload ← as_dict d
  let name : String = elim (get "strategy" tmp >>= as_text) [ none ↦ "always" | some n ↦ n ]
  some (record { payload = payload; strategy = name; match = strategy_of name })

-- `cfg.Match(result, err)`
unfoldable pub matches : Strategy → Option Response → Option Error → Bool
matches always r err = true
matches success r err = not (is_some err)
matches errored r err = is_some err
matches complete none err = false
matches complete (some r) err = not (is_some err) && r.is_complete
matches incomplete none err = true
matches incomplete (some r) err = not r.is_complete

-- The map that the values are written into: a new one for the nil map.
abbrev pub writable : Option Dict → Dict
writable none = end
writable (some d) = d

-- The response that the values are written into: a new one where there is none.
abbrev pub base : Option Response → Response
base none = record {
  payload = some end;
  is_complete = false;
  metadata = record { headers = []; status_code = 0 };
  io = none;
}
base (some r) = record r { payload = some (writable r.payload) }

abbrev add_values : Dict → Response → Response
add_values values r = record r { payload = some (set_all values (writable r.payload)) }

-- The proxy of `NewStaticMiddleware`, after its call of `next`.
unfoldable pub static :
    StaticConfig → Option Response → Option Error → Option Response × Option Error
static cfg result err =
    if matches cfg.match result err
    then (some (add_values cfg.payload (base result)), err)
    else (result, err)

-- The value at `k`, of no response and of a response without a payload none.
abbrev pub read_payload : String → Option Dict → Option Value
read_payload k none = none
read_payload k (some d) = get k d

abbrev pub read : String → Option Response → Option Value
read k none = none
read k (some r) = read_payload k r.payload

payload_lem :
    (k : String) (payload : Dict) (p : Option Dict)
    → IsMap payload
    → get k (set_all payload (writable p))
      ≡ elim (get k payload) [ none ↦ read_payload k p | some v ↦ some v ]
unfolding get
payload_lem k payload none m = get-set_all k payload end m
payload_lem k payload (some d) m = get-set_all k payload d m

-- Where the strategy matches and the static values are a map, the response has the static values at their keys and its own values at
-- all others, and the error is handed on.
pub static_matched :
    (cfg : StaticConfig) (result : Option Response) (err : Option Error) (k : String)
    → IsMap cfg.payload
    → matches cfg.match result err ≡ true
    → (read k (static cfg result err).0
        ≡ elim (get k cfg.payload) [ none ↦ read k result | some v ↦ some v ])
      × ((static cfg result err).1 ≡ err)
unfolding static
static_matched cfg none err k m h = rw h (payload_lem k cfg.payload none m, refl)
static_matched cfg (some r) err k m h = rw h (payload_lem k cfg.payload r.payload m, refl)
