-- ===== src/Tests/Router.antt =====
-- The handler of an endpoint.
use lura_p.Common.{String, true, false, [], ◌∷◌, none, some, ◌≡◌, refl, contains}
use lura_p.Value.{field, end, number}
use lura_p.Proxy.{Response}
use lura_p.Proxy.Merging.{bare}
use lura_p.Proxy.Filters.{lookup}
use lura_p.Mux.{Site, HttpRequest, completed_header, handle_endpoint, new_request}
use lura_p.Mux.Completed.{first, handle_endpoint-first}
use lura_p.Mux.Forwarded.{new_request-lookup}
use lura_p.Mux.Router.{Router}
use lura_p.Mux.Render.{noop_render, render}
use lura_p.Mux.Render.Told.{fresh, IsTold, render-IsTold}
use lura_p.Tests.Pipe.{endpoint}

abbrev site : Site
site = record {
  to_title = λ s. "GET";
  canonical = λ s. s;
  cache_value = λ n. "public, max-age=0";
  version = "Version undefined";
  user_agent = "KrakenD Version undefined";
  text_of = λ e. "error";
  status_of = λ e. none;
  error_status = λ e. 500;
}

abbrev whole : Response
whole = record (bare (field "id" (number "1") end) true) {
  metadata = record { headers = ("X-Krakend-Completed", "false" ∷ []) ∷ []; status_code = 200 };
}

handle_endpoint-first_example :
    first (
      lookup completed_header (handle_endpoint site endpoint "GET" (some whole) none false).headers)
    ≡ some "true"
unfolding lura_p.Value.len
handle_endpoint-first_example = handle_endpoint-first site endpoint "GET" (some whole) none false

abbrev incoming : HttpRequest
incoming = record {
  method = "GET";
  path = "/posts";
  host = "gateway";
  header = ("Accept", "*" ∷ []) ∷ ("Cookie", "c" ∷ []) ∷ [];
  query = ("Accept", []) ∷ ("page", "2" ∷ []) ∷ [];
  body = none;
}

new_request-lookup_example :
    (lookup "Accept" (new_request site incoming [] "1.2.3.4" ("Accept" ∷ []) ("Accept" ∷ [])).query
      ≡ none)
    × (lookup "Accept"
          (new_request site incoming [] "1.2.3.4" ("Accept" ∷ []) ("Accept" ∷ [])).headers
        ≡ some ("*" ∷ []))
unfolding contains lookup
new_request-lookup_example =
    new_request-lookup site incoming [] "1.2.3.4" ("Accept" ∷ []) ("Accept" ∷ []) "Accept" refl refl
      refl

abbrev router : Router String
router = record {
  debug_pattern = "/__debug/";
  echo_pattern = "/__echo/";
  new_proxy = λ e. some e.endpoint;
  to_title = λ s. s;
}

abbrev moved : Response
moved = record whole { metadata = record { headers = []; status_code = 302 } }

render-IsTold_example :
    IsTold noop_render (some moved) (("X-Krakend-Completed", "true" ∷ []) ∷ []) (
      render
        (λ v. "")
        (λ k. k)
        noop_render
        (some moved)
        (fresh (("X-Krakend-Completed", "true" ∷ []) ∷ [])))
render-IsTold_example =
    render-IsTold (λ v. "") (λ k. k) noop_render (some moved)
      (("X-Krakend-Completed", "true" ∷ []) ∷ [])
