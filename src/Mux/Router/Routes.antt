-- ===== src/Mux/Router/Routes.antt =====
-- Which handler answers a request once the router runs.
use lura_p.Common.{
  Bool, ◌&&◌, String, List, [], ◌∷◌, Option, none, some, str_eq, if◌then◌else◌, contains,
}
use lura_p.Config.{ServiceConfig, EndpointConfig}
use lura_p.Mux.Router.{Route, debug, echo, health, endpoint, all_methods, is_supported, Router}

module _ {H : Type 0} where
  -- A handler where both texts agree, else another.
  abbrev pub at_route : Bool → Bool → H → Option H → Option H
  at_route a b h w = if a then (if b then some h else w) else w

-- The first of two that is there.
abbrev pub or_else : {A : Type 0} → Option A → Option A → Option A
or_else (some a) w = some a
or_else none w = w

module _ {P : Type 0} (r : Router P) (path method : String) where
  -- The endpoint is the one for the path and the method, in capitals, and that is supported.
  abbrev pub answers : EndpointConfig → Bool
  answers c =
      is_supported (r.to_title c.method)
      && str_eq c.endpoint path
      && str_eq (r.to_title c.method) method

  abbrev pub route_of : EndpointConfig → Option P → Option (Route P)
  route_of c none = none
  route_of c (some p) = if answers c then some (endpoint c p) else none

  -- The last endpoint whose pipe can be built and that answers.
  abbrev pub last_route : List EndpointConfig → Option (Route P)
  last_route [] = none
  last_route (c ∷ cs) = or_else (last_route cs) (route_of c (r.new_proxy c))

  -- The handlers of the router's own: health before echo before debug.
  abbrev pub built_in : ServiceConfig → Option (Route P)
  built_in cfg = at_route (str_eq "/__health" path) (str_eq "GET" method) health (
      at_route (cfg.echo && str_eq r.echo_pattern path) (contains all_methods method) echo (
        at_route (cfg.debug && str_eq r.debug_pattern path) (contains all_methods method) debug
          none))
