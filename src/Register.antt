-- ===== src/Register.antt =====
-- register/register.go, and the registers built on it: sd/register.go, encoding/register.go and
-- proxy/register.go. The locks that guard each call are not state: a call is one step.
pub mod Laws
use lura_p.Common.{
  Bool, true, false, String, List, [], ◌∷◌, Option, none, some, str_eq, if◌then◌else◌,
}

-- A map as the list of its entries.
abbrev pub Untyped : Type 0 → Type 0
Untyped A = List (String × A)

-- `u.Get(name)`
unfoldable pub get : {A : Type 0} → Untyped A → String → Option A
get [] name = none
get ((k, v) ∷ u) name = let rest = get u name in if str_eq k name then some v else rest

-- `u.Register(name, v)`
unfoldable pub register : {A : Type 0} → Untyped A → String → A → Untyped A
register [] name v = (name, v) ∷ []
register ((k, w) ∷ u) name v =
    let rest : Untyped _ = (k, w) ∷ register u name v in
    let here : Untyped _ = (k, v) ∷ u in if str_eq k name then here else rest

-- The loop of `Clone`, which registers the entries in a new map.
unfoldable pub copy : {A : Type 0} → Untyped A → Untyped A → Untyped A
unfolding register
copy [] res = res
copy ((k, v) ∷ u) res = copy u (register res k v)

-- `u.Clone()`
unfoldable pub clone : {A : Type 0} → Untyped A → Untyped A
unfolding copy
clone u = copy u []

-- A register of registers. Its data is only ever set to registers.
abbrev pub Namespaced : Type 0 → Type 0
Namespaced A = Untyped (Untyped A)

-- `n.Register(namespace, name, v)`
unfoldable pub register_in : {A : Type 0} → Namespaced A → String → String → A → Namespaced A
unfolding get register
register_in n namespace name v = elim (get n namespace) [
  | none ↦ register n namespace (register [] name v)
  | some u ↦ register n namespace (register u name v)
]

-- `n.AddNamespace(namespace)`
unfoldable pub add_namespace : {A : Type 0} → Namespaced A → String → Namespaced A
unfolding get register
add_namespace n namespace = elim (get n namespace) [ none ↦ register n namespace [] | some u ↦ n ]

-- `n.Get(namespace)` and then `Get(name)`
abbrev pub get_in : {A : Type 0} → Namespaced A → String → String → Option A
get_in n namespace name = elim (get n namespace) [ none ↦ none | some u ↦ get u name ]

-- `Get(name)` of the sd register: `fallback` is FixedSubscriberFactory.
unfoldable pub get_subscriber_factory : {F : Type 0} → F → Untyped F → String → F
unfolding get
get_subscriber_factory fallback r name = elim (get r name) [ none ↦ fallback | some f ↦ f ]

-- `Get(name)` of the decoder register: the name's, else the one of JSON, else NewJSONDecoder.
unfoldable pub get_decoder_factory : {F : Type 0} → F → Untyped F → String → F
unfolding get
get_decoder_factory json_decoder r name = elim (get r name) [
  | none ↦ elim (get r "json") [ none ↦ json_decoder | some f ↦ f ]
  | some f ↦ f
]

-- `GetResponseCombiner(name)`
unfoldable pub get_response_combiner : {F : Type 0} → F → Untyped F → String → F × Bool
unfolding get
get_response_combiner fallback r name = elim (get r name) [
  | none ↦ (fallback, false)
  | some f ↦ (f, true)
]
