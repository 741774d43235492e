-- ===== src/Mux/Router.antt =====
-- router/mux/router.go and router/mux/engine.go: which handler answers. A handler is an endpoint with its
-- proxy or one of the built-in ones; http.ServeMux finds the pattern of a request.
pub mod Routes
use lura_p.Common.{
  ℕ, Bool, true, false, ◌&&◌, not, String, List, [], ◌∷◌, Option, none, some, ◌>>=◌, str_eq, ltb,
  length, if◌then◌else◌,
}
use lura_p.Config.{ServiceConfig, EndpointConfig}

pub data Route (P : Type 0) : Type 0 where
  debug : Route P
  echo : Route P
  health : Route P
  endpoint : EndpointConfig → P → Route P

-- A map from texts, in the order of insertion.
abbrev pub Table : Type 0 → Type 0
Table A = List (String × A)

unfoldable pub look : {A : Type 0} → String → Table A → Option A
look k [] = none
look k ((j, a) ∷ t) = if str_eq j k then some a else look k t

-- `t[k] = a`
unfoldable pub put : {A : Type 0} → String → A → Table A → Table A
put k a [] = (k, a) ∷ []
put k a ((j, b) ∷ t) = if str_eq j k then (j, a) ∷ t else (j, b) ∷ put k a t

-- BasicEngine: `dict`.
abbrev pub Engine : Type 0 → Type 0
Engine H = Table (Table H)

abbrev pub table_or_new : {A : Type 0} → Option (Table A) → Table A
table_or_new none = []
table_or_new (some t) = t

-- `e.Handle(pattern, method, handler)`
unfoldable pub handle : {H : Type 0} → String → String → H → Engine H → Engine H
unfolding look put
handle pattern method handler e = put pattern (put method handler (table_or_new (look pattern e))) e

-- The handler of a request whose pattern is found; `none` is the answer 405 of `registrableHandler`,
-- with the header that tells an incomplete response.
unfoldable pub serve : {H : Type 0} → Engine H → String → String → Option H
unfolding look
serve e pattern method = look pattern e >>= look method

abbrev pub all_methods : List String
all_methods =
    "GET" ∷ "POST" ∷ "PUT" ∷ "PATCH" ∷ "DELETE" ∷ "HEAD" ∷ "OPTIONS" ∷ "CONNECT" ∷ "TRACE" ∷ []

-- The loop over the methods.
unfoldable pub handle_all : {H : Type 0} → String → List String → H → Engine H → Engine H
unfolding handle
handle_all pattern [] handler e = e
handle_all pattern (m ∷ ms) handler e = handle_all pattern ms handler (handle pattern m handler e)

-- `router.IsValidSequentialEndpoint(endpoint)`
abbrev pub is_valid_sequential_endpoint : EndpointConfig → Bool
is_valid_sequential_endpoint e = true

-- The switch over the methods.
abbrev pub is_supported : String → Bool
is_supported m =
    if str_eq m "GET"
    then true
    else if str_eq m "POST"
    then true
    else if str_eq m "PUT"
    then true
    else if str_eq m "PATCH"
    then true
    else str_eq m "DELETE"

-- The Config of the source, and the proxy factory; `none` is its error.
pub record Router (P : Type 0) : Type 0 where
  pub debug_pattern : String
  pub echo_pattern : String
  pub new_proxy : EndpointConfig → Option P
  pub to_title : String → String

module _ {P : Type 0} (r : Router P) where
  -- `r.registerKrakendEndpoint(method, endpoint, handler, totBackends)`
  unfoldable pub register_krakend_endpoint :
      EndpointConfig → P → Engine (Route P) → Engine (Route P)
  unfolding handle
  register_krakend_endpoint c p e =
      let method = r.to_title c.method in
      if not (str_eq method "GET")
        && ltb 1 (length c.backend)
        && not (is_valid_sequential_endpoint c)
      then e
      else if is_supported method
      then handle c.endpoint method (endpoint c p) e
      else e

  abbrev pub register_built : EndpointConfig → Option P → Engine (Route P) → Engine (Route P)
  register_built c none e = e
  register_built c (some p) e = register_krakend_endpoint c p e

  -- `r.registerKrakendEndpoints(endpoints)`
  unfoldable pub register_krakend_endpoints :
      List EndpointConfig → Engine (Route P) → Engine (Route P)
  unfolding register_krakend_endpoint
  register_krakend_endpoints [] e = e
  register_krakend_endpoints (c ∷ cs) e =
      register_krakend_endpoints cs (register_built c (r.new_proxy c) e)

  -- The engine when `r.Run(cfg)` starts the server.
  unfoldable pub run : ServiceConfig → Engine (Route P)
  unfolding handle handle_all register_krakend_endpoints
  run cfg =
      let e0 : Engine (Route P) =
        if cfg.debug then handle_all r.debug_pattern all_methods debug [] else [] in
      let e1 : Engine (Route P) =
        if cfg.echo then handle_all r.echo_pattern all_methods echo e0 else e0 in
      register_krakend_endpoints cfg.endpoints (handle "/__health" "GET" health e1)

-- `r.handler()`: the middlewares around the engine, each around those before it.
unfoldable pub decorated : {H : Type 0} → List (H → H) → H → H
decorated [] h = h
decorated (m ∷ ms) h = decorated ms (m h)
