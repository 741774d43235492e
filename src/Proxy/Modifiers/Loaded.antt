-- ===== src/Proxy/Modifiers/Loaded.antt =====
-- Which modifiers are registered after a load.
use lura_p.Common.{
  ℕ, suc, ◌+◌, ◌≡◌, refl, sym, ◌∙◌, ap, Bool, true, false, ◌&&◌, String, List, [], ◌∷◌, ◌++◌,
  Option, none, some, str_eq, if◌then◌else◌, Bool-cases, inl, inr, length, arith,
}
use lura_p.Register.{Namespaced, register_in, get_in}
use lura_p.Register.Laws.{get_in-register_in}
use lura_p.Proxy.Modifiers.{Factory, request_namespace, response_namespace}
use lura_p.Proxy.Modifiers.Loading.{
  Registration, Opened, unopened, no_symbol, unknown, registerer, register_modifier,
  register_modifiers, open_plugin, Loaded, counted, load_from, load,
}

-- The registrations of a plugin, and of all plugins in their order.
abbrev pub registrations : Opened → List Registration
registrations (unopened e) = []
registrations (no_symbol e) = []
registrations unknown = []
registrations (registerer cs e) = cs

abbrev pub registrations_of : (String → Opened) → List String → List Registration
registrations_of opener [] = []
registrations_of opener (name ∷ names) =
    registrations (opener name) ++ registrations_of opener names

-- Whether a plugin is loaded without an error, and how many are.
abbrev pub is_loaded : Opened → Bool
is_loaded (registerer cs none) = true
is_loaded _ = false

abbrev pub loaded_of : (String → Opened) → List String → ℕ
loaded_of opener [] = 0
loaded_of opener (name ∷ names) =
    let rest = loaded_of opener names in if is_loaded (opener name) then suc rest else rest

-- The factory of the last registration of a name, among those that apply.
unfoldable pub latest :
    (Registration → Bool) → String → List Registration → Option Factory → Option Factory
latest applies name [] before = before
latest applies name (c ∷ cs) before =
    let now = if applies c && str_eq c.name name then some c.factory else before in
    latest applies name cs now

module _ (name : String) where
  requests_lem :
      (c : Registration) (reg : Namespaced Factory)
      → get_in (register_modifier c reg) request_namespace name ≡ (
          if c.applies_to_request && str_eq c.name name
          then some c.factory
          else get_in reg request_namespace name)
  unfolding register_modifier
  requests_lem c reg = elim (Bool-cases c.applies_to_request) [
    | inl p ↦ elim (Bool-cases c.applies_to_response) [
      | inl q ↦
          rw
            (
              p,
              q,
              get_in-register_in (register_in reg request_namespace c.name c.factory)
                  response_namespace c.name c.factory request_namespace name,
              get_in-register_in reg request_namespace c.name c.factory request_namespace name,
            )
            refl
      | inr q ↦
          rw
            (p, q, get_in-register_in reg request_namespace c.name c.factory request_namespace name)
            refl
    ]
    | inr p ↦ elim (Bool-cases c.applies_to_response) [
      | inl q ↦
          rw
            (
              p,
              q,
              get_in-register_in reg response_namespace c.name c.factory request_namespace name,
            )
            refl
      | inr q ↦ rw (p, q) refl
    ]
  ]

  responses_lem :
      (c : Registration) (reg : Namespaced Factory)
      → get_in (register_modifier c reg) response_namespace name ≡ (
          if c.applies_to_response && str_eq c.name name
          then some c.factory
          else get_in reg response_namespace name)
  unfolding register_modifier
  responses_lem c reg = elim (Bool-cases c.applies_to_request) [
    | inl p ↦ elim (Bool-cases c.applies_to_response) [
      | inl q ↦
          rw
            (
              p,
              q,
              get_in-register_in (register_in reg request_namespace c.name c.factory)
                  response_namespace c.name c.factory response_namespace name,
              get_in-register_in reg request_namespace c.name c.factory response_namespace name,
            )
            refl
      | inr q ↦
          rw
            (
              p,
              q,
              get_in-register_in reg request_namespace c.name c.factory response_namespace name,
            )
            refl
    ]
    | inr p ↦ elim (Bool-cases c.applies_to_response) [
      | inl q ↦
          rw
            (
              p,
              q,
              get_in-register_in reg response_namespace c.name c.factory response_namespace name,
            )
            refl
      | inr q ↦ rw (p, q) refl
    ]
  ]

module _ (space : String) (applies : Registration → Bool) (name : String)
    (here : (c : Registration) (reg : Namespaced Factory)
      → get_in (register_modifier c reg) space name
        ≡ (if applies c && str_eq c.name name then some c.factory else get_in reg space name)) where
  get_in-register_modifiers :
      (cs : List Registration) (reg : Namespaced Factory)
      → get_in (register_modifiers cs reg) space name
        ≡ latest applies name cs (get_in reg space name)
  unfolding register_modifiers latest
  get_in-register_modifiers [] reg = refl
  get_in-register_modifiers (c ∷ cs) reg =
      get_in-register_modifiers cs (register_modifier c reg)
      ∙ ap (latest applies name cs) (here c reg)

  get_in-open_plugin :
      (o : Opened) (reg : Namespaced Factory)
      → get_in (open_plugin o reg).0 space name
        ≡ latest applies name (registrations o) (get_in reg space name)
  unfolding open_plugin latest
  get_in-open_plugin (unopened e) reg = refl
  get_in-open_plugin (no_symbol e) reg = refl
  get_in-open_plugin unknown reg = refl
  get_in-open_plugin (registerer cs e) reg = get_in-register_modifiers cs reg

latest-append :
    (applies : Registration → Bool) (name : String) (cs ds : List Registration) (b : Option Factory)
    → latest applies name (cs ++ ds) b ≡ latest applies name ds (latest applies name cs b)
unfolding latest
latest-append applies name [] ds b = refl
latest-append applies name (c ∷ cs) ds b =
    latest-append applies name cs ds (if applies c && str_eq c.name name then some c.factory else b)

register-counted :
    (k : ℕ) (name : String) (o : Option String) (l : Loaded)
    → (counted k name o l).register ≡ l.register
register-counted k name none l = refl
register-counted k name (some e) l = refl

module _ (space : String) (applies : Registration → Bool) (name : String)
    (here : (c : Registration) (reg : Namespaced Factory)
      → get_in (register_modifier c reg) space name
        ≡ (if applies c && str_eq c.name name then some c.factory else get_in reg space name))
    (opener : String → Opened) where
  get_in-load_from :
      (k : ℕ) (plugins : List String) (reg : Namespaced Factory)
      → get_in (load_from opener k plugins reg).register space name
        ≡ latest applies name (registrations_of opener plugins) (get_in reg space name)
  unfolding load_from latest
  get_in-load_from k [] reg = refl
  get_in-load_from k (p ∷ ps) reg =
      let o : Namespaced Factory × Option String = open_plugin (opener p) reg in
      ap (λ (n : Namespaced Factory). get_in n space name)
        (register-counted k p o.1 (load_from opener (suc k) ps o.0))
      ∙ get_in-load_from (suc k) ps o.0
      ∙ ap (latest applies name (registrations_of opener ps))
          (get_in-open_plugin space applies name here (opener p) reg)
      ∙ sym (
          latest-append applies name (registrations (opener p)) (registrations_of opener ps)
            (get_in reg space name))

-- The counts, after a plugin whose errors are `o`.
count_lem :
    (k : ℕ) (p : String) (o : Opened) (reg : Namespaced Factory) (l : Loaded) (n total : ℕ)
    → (l.loaded_plugins ≡ n) × (n + length l.errors ≡ total)
    → let c = counted k p (open_plugin o reg).1 l in
      let m = if is_loaded o then suc n else n in
      (c.loaded_plugins ≡ m) × (m + length c.errors ≡ suc total)
unfolding open_plugin
count_lem k p (unopened e) reg l n total (h, g) = (h, ground arith)
count_lem k p (no_symbol e) reg l n total (h, g) = (h, ground arith)
count_lem k p unknown reg l n total (h, g) = (h, ground arith)
count_lem k p (registerer cs (some e)) reg l n total (h, g) = (h, ground arith)
count_lem k p (registerer cs none) reg l n total (h, g) = (ap suc h, ground arith)

counts_lem :
    (opener : String → Opened) (k : ℕ) (plugins : List String) (reg : Namespaced Factory)
    → let l = load_from opener k plugins reg in
      (l.loaded_plugins ≡ loaded_of opener plugins)
      × (loaded_of opener plugins + length l.errors ≡ length plugins)
unfolding load_from
counts_lem opener k [] reg = (refl, refl)
counts_lem opener k (p ∷ ps) reg =
    let o : Namespaced Factory × Option String = open_plugin (opener p) reg in
    count_lem k p (opener p) reg (load_from opener (suc k) ps o.0) (loaded_of opener ps) (length ps)
      (counts_lem opener (suc k) ps o.0)

-- After a load, a name has among the request modifiers the factory of the last registration of that
-- name for requests, in the order of the plugins and of their calls, those of a plugin that fails
-- later included, and what it had before where there is none; so it is for the response modifiers.
-- The plugins that are counted as loaded are those that register without an error, and each of the
-- others has one error.
pub load-IsLatest :
    (opener : String → Opened) (plugins : List String) (reg : Namespaced Factory) (name : String)
    → let l = load opener plugins reg in
      let cs = registrations_of opener plugins in
      (get_in l.register request_namespace name
        ≡ latest
            (λ (c : Registration). c.applies_to_request)
            name
            cs
            (get_in reg request_namespace name))
      × (get_in l.register response_namespace name
          ≡ latest
              (λ (c : Registration). c.applies_to_response)
              name
              cs
              (get_in reg response_namespace name))
      × (l.loaded_plugins ≡ loaded_of opener plugins)
      × (loaded_of opener plugins + length l.errors ≡ length plugins)
unfolding load
load-IsLatest opener plugins reg name =
    let counts = counts_lem opener 0 plugins reg in
    (
      get_in-load_from request_namespace (λ (c : Registration). c.applies_to_request) name
          (requests_lem name) opener 0 plugins reg,
      get_in-load_from response_namespace (λ (c : Registration). c.applies_to_response) name
          (responses_lem name) opener 0 plugins reg,
      counts.0,
      counts.1,
    )
