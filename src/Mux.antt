-- ===== src/Mux.antt =====
-- router/mux/endpoint.go: the handler of an endpoint, and the request that it builds for the proxy.
-- Functions of the standard library and the answer of the proxy are arguments. With "*", the source
-- sets the forwarding headers in the incoming request's own map; the model returns the map.
pub mod Completed
pub mod Forwarded
pub mod Router
pub mod Render
use Prim.Native.String
use lura_p.Common.{
  ℕ, Bool, true, false, not, ◌&&◌, ◌||◌, String, List, [], ◌∷◌, ◌++◌, Option, none, some, ◌>>=◌,
  str_eq, ltb, if◌then◌else◌, is_some,
}
use lura_p.Common.Int.{ℤ, is_zero}
use lura_p.Value.{Dict, end, len}
use lura_p.Config.{EndpointConfig}
use lura_p.Proxy.{Response, Request, Error, err_other}
use lura_p.Proxy.Filters.{Values, lookup, insert}

pub record Site : Type 0 where
  -- `strings.ToTitle`, `textproto.CanonicalMIMEHeaderKey`
  pub to_title : String → String
  pub canonical : String → String
  -- The value of Cache-Control for a time to live.
  pub cache_value : ℤ → String
  -- `core.KrakendHeaderValue`, `core.KrakendUserAgent`
  pub version : String
  pub user_agent : String
  -- An error's text, its StatusCode where it has one, and what `errF` gives for it.
  pub text_of : Error → String
  pub status_of : Error → Option ℕ
  pub error_status : Error → ℕ

-- What is written after the headers: `http.Error`, or the render's output for a response.
pub data Body : Type 0 where
  refused : ℕ → String → Body
  rendered : Option Response → Body

pub record Reply : Type 0 where
  pub headers : Values
  pub body : Body

-- server.CompleteResponseHeaderName
abbrev pub completed_header : String
completed_header = "X-Krakend-Completed"

-- `h.Add(k, v)`
abbrev pub add_header : Site → String → String → Values → Values
add_header site k v h =
    let name : String = site.canonical k in
    elim (lookup name h) [ none ↦ insert name (v ∷ []) h | some vs ↦ insert name (vs ++ v ∷ []) h ]

-- The two loops over the headers of the metadata.
abbrev pub add_values : Site → String → List String → Values → Values
add_values site k [] h = h
add_values site k (v ∷ vs) h = add_values site k vs (add_header site k v h)

abbrev pub add_all : Site → Values → Values → Values
add_all site [] h = h
add_all site ((k, vs) ∷ m) h = add_all site m (add_values site k vs h)

-- `response != nil && len(response.Data) > 0`
abbrev pub has_data : Option Response → Bool
has_data none = false
has_data (some r) = elim r.payload [ none ↦ false | some d ↦ ltb 0 (len d) ]

-- The headers for a response with data.
abbrev pub with_response : Site → EndpointConfig → Response → Values → Values
with_response site cfg r h =
    let complete = insert completed_header ("true" ∷ []) h in
    add_all site r.metadata.headers (
      if r.is_complete
      then (if not (is_zero cfg.cache_ttl)
          then insert "Cache-Control" (site.cache_value cfg.cache_ttl ∷ []) complete
          else complete)
      else insert completed_header ("false" ∷ []) h)

-- The body for no data.
abbrev pub without_data : Site → Option Response → Option Error → Body
without_data site response none = rendered response
without_data site response (some err) =
    refused (elim (site.status_of err) [ none ↦ site.error_status err | some s ↦ s ])
      (site.text_of err)

-- The reply from the answer of the proxy on.
abbrev pub reply_with : Site → EndpointConfig → Option Response → Option Error → Values → Reply
reply_with site cfg none err h = record {
  headers = insert completed_header ("false" ∷ []) h;
  body = without_data site none err;
}
reply_with site cfg (some r) err h =
    if has_data (some r)
    then record { headers = with_response site cfg r h; body = rendered (some r) }
    else record {
      headers = insert completed_header ("false" ∷ []) h;
      body = without_data site (some r) err;
    }

-- The error after the `select`: server.ErrInternalError where the time is over and there was none.
abbrev pub late_error : Bool → Option Error → Option Error
late_error timed_out (some err) = some err
late_error timed_out none = if timed_out then some (err_other "internal server error") else none

-- The handler of `CustomEndpointHandlerWithHTTPError`, for a request with a method, what the proxy
-- answers, and whether the time is over then.
unfoldable pub handle_endpoint :
    Site → EndpointConfig → String → Option Response → Option Error → Bool → Reply
handle_endpoint site cfg method response err timed_out =
    let h : Values = insert "X-Krakend" (site.version ∷ []) [] in
    if str_eq method (site.to_title cfg.method)
    then reply_with site cfg response (late_error timed_out err) h
    else record { headers = insert completed_header ("false" ∷ []) h; body = refused 405 "" }

-- http.Request
pub record HttpRequest : Type 0 where
  pub method : String
  pub path : String
  pub host : String
  pub header : Values
  pub query : Values
  pub body : Option String

-- The headers to send: the endpoint's, or server.HeadersToSend where it has none.
abbrev pub headers_to_send : EndpointConfig → List String
headers_to_send cfg = elim cfg.headers_to_pass [ [] ↦ "Content-Type" ∷ [] | (h ∷ hs) ↦ h ∷ hs ]

-- The loop over the names to send: with "*" it takes all and stops.
unfoldable pub copy_named : (String → Option (List String)) → Values → List String → Values → Values
copy_named find every [] acc = acc
copy_named find every (k ∷ names) acc =
    let rest =
      copy_named find every names (elim (find k) [ none ↦ acc | some vs ↦ insert k vs acc ]) in
    if str_eq k "*" then every else rest

-- `ok && len(v) > 0`
abbrev pub nonempty : Option (List String) → Option (List String)
nonempty none = none
nonempty (some []) = none
nonempty (some (v ∷ vs)) = some (v ∷ vs)

-- The headers that are set after the loop.
abbrev pub forwarded : Site → String → String → Values → Values
forwarded site ip host h =
    let h' = insert "X-Forwarded-Host" (host ∷ []) (insert "X-Forwarded-For" (ip ∷ []) h) in
    if is_some (lookup "User-Agent" h')
    then insert "X-Forwarded-Via" (site.user_agent ∷ []) h'
    else insert "User-Agent" (site.user_agent ∷ []) h'

-- `NewRequestBuilder(paramExtractor)`, given the params it extracts and the client's address.
unfoldable pub new_request :
    Site → HttpRequest → List (String × String) → String → List String → List String → Request
unfolding copy_named
new_request site r params ip query_string to_send = record {
  method = r.method;
  url = none;
  query = copy_named (λ k. nonempty (lookup k r.query)) r.query query_string [];
  path = r.path;
  body = r.body;
  params = params;
  headers =
      forwarded site ip r.host
        (copy_named (λ k. lookup (site.canonical k) r.header) r.header to_send []);
}
