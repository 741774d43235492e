-- ===== src/Mux/Render.antt =====
-- router/mux/render.go and the HTTPErrorInterceptor of engine.go: what the renders write. `json.Marshal`
-- is an argument, which does not fail on values of JSON, and `textproto.CanonicalMIMEHeaderKey` another.
pub mod Told
use lura_p.Common.{
  ℕ, Bool, true, false, not, String, List, [], ◌∷◌, ◌++◌, Option, none, some, ◌>>=◌, str_eq, ◌==◌,
  if◌then◌else◌,
}
use lura_p.Config.Uri.{◌<>◌}
use lura_p.Value.{Value, bool, number, text, array, obj, Dict, end, get}
use lura_p.Config.{EndpointConfig, noop, json}
use lura_p.Proxy.{Response, Metadata}
use lura_p.Proxy.Filters.{Values, lookup, insert}
use lura_p.Mux.{completed_header}

-- An http.ResponseWriter: its headers, the status once it is written, and the text.
pub record Writer : Type 0 where
  pub headers : Values
  pub status : Option ℕ
  pub body : String

pub data Render : Type 0 where
  json_render : Render
  json_collection_render : Render
  string_render : Render
  noop_render : Render

-- `renderRegister`, as the package fills it.
unfoldable pub registered : String → Option Render
registered name =
    if str_eq name "string"
    then some string_render
    else if str_eq name json
    then some json_render
    else if str_eq name noop
    then some noop_render
    else if str_eq name "json-collection"
    then some json_collection_render
    else none

-- `getWithFallback(key, fallback)`
abbrev pub or_fallback : Render → Option Render → Render
or_fallback fallback none = fallback
or_fallback fallback (some r) = r

unfoldable pub get_with_fallback : String → Render → Render
unfolding registered
get_with_fallback key fallback = or_fallback fallback (registered key)

-- The fallback: the render of the only backend's encoding, else JSON.
unfoldable pub fallback_of : EndpointConfig → Render
unfolding get_with_fallback
fallback_of cfg = elim cfg.backend [
  | [] ↦ json_render
  | (b ∷ bs) ↦ elim bs [ [] ↦ get_with_fallback b.encoding json_render | (c ∷ cs) ↦ json_render ]
]

-- `getRender(cfg)`
unfoldable pub get_render : EndpointConfig → Render
unfolding fallback_of get_with_fallback
get_render cfg =
    if str_eq cfg.output_encoding ""
    then fallback_of cfg
    else get_with_fallback cfg.output_encoding (fallback_of cfg)

-- `i.WriteHeader(code)` of a HTTPErrorInterceptor, whose `once` has run where a status is written.
unfoldable pub write_header : ℕ → Writer → Writer
write_header code w = elim w.status [
  | some s ↦ w
  | none ↦ record w {
    status = some code;
    headers =
        if not (code == 200) then insert completed_header ("false" ∷ []) w.headers else w.headers;
  }
]

abbrev pub data_of : Option Dict → Dict
data_of none = end
data_of (some d) = d

abbrev pub status_or_ok : Option ℕ → Option ℕ
status_or_ok none = some 200
status_or_ok (some s) = some s

-- `w.Write(b)`, which writes the status 200 where there is none.
abbrev pub write : String → Writer → Writer
write b w = record w { status = status_or_ok w.status; body = w.body <> b }

abbrev pub set_header : String → String → Writer → Writer
set_header k v w = record w { headers = insert k (v ∷ []) w.headers }

-- `http.Error(w, text, code)`
abbrev pub http_error : String → ℕ → Writer → Writer
http_error t code w = write (t <> "\n") (
    write_header code (
      set_header "X-Content-Type-Options" "nosniff"
        (set_header "Content-Type" "text/plain; charset=utf-8" w)))

-- `jsonRender`
unfoldable pub render_json : (Value → String) → Option Response → Writer → Writer
render_json marshal none w = write "{}" (set_header "Content-Type" "application/json" w)
render_json marshal (some r) w =
    write (elim r.payload [ none ↦ "null" | some d ↦ marshal (obj d) ])
      (set_header "Content-Type" "application/json" w)

-- What is written of an entry, if it is there.
abbrev pub entry_or : (Value → String) → String → Option Value → String
entry_or shown empty none = empty
entry_or shown empty (some v) = shown v

-- `jsonCollectionRender`
unfoldable pub render_collection : (Value → String) → Option Response → Writer → Writer
unfolding get
render_collection marshal none w = write "[]" (set_header "Content-Type" "application/json" w)
render_collection marshal (some r) w =
    write (entry_or marshal "[]" (get "collection" (data_of r.payload)))
      (set_header "Content-Type" "application/json" w)

-- `msg, ok := d.(string)`
abbrev pub text_or_empty : Value → String
text_or_empty (text s) = s
text_or_empty _ = ""

-- `stringRender`
unfoldable pub render_string : Option Response → Writer → Writer
unfolding get
render_string none w = write "" (set_header "Content-Type" "text/plain" w)
render_string (some r) w =
    write (entry_or text_or_empty "" (get "content" (data_of r.payload)))
      (set_header "Content-Type" "text/plain" w)

-- The two loops over the headers of the metadata.
abbrev pub values_or_none : Option (List String) → List String
values_or_none none = []
values_or_none (some vs) = vs

-- `w.Header().Add(k, v)`, for a key in the spelling of headers.
abbrev pub add_one : String → String → Values → Values
add_one k v h = insert k (values_or_none (lookup k h) ++ v ∷ []) h

abbrev pub add_each : String → List String → Values → Values
add_each k [] h = h
add_each k (v ∷ vs) h = add_each k vs (add_one k v h)

unfoldable pub add_headers : (String → String) → Values → Values → Values
unfolding lookup insert
add_headers canonical [] h = h
add_headers canonical ((k, vs) ∷ m) h = add_headers canonical m (add_each (canonical k) vs h)

-- `io.Copy(w, response.Io)`, where it is there.
abbrev pub copy_io : Option String → Writer → Writer
copy_io none w = w
copy_io (some s) w = write s w

-- `noopRender`
unfoldable pub render_noop : (String → String) → Option Response → Writer → Writer
unfolding add_headers write_header
render_noop canonical none w = http_error "" 500 w
render_noop canonical (some r) w =
    let headed : Writer = record w {
      headers = add_headers canonical r.metadata.headers w.headers;
    } in
    copy_io r.io (
      if not (r.metadata.status_code == 0)
      then write_header r.metadata.status_code headed
      else headed)

unfoldable pub render :
    (Value → String) → (String → String) → Render → Option Response → Writer → Writer
unfolding render_json render_collection render_string render_noop
render marshal canonical json_render response w = render_json marshal response w
render marshal canonical json_collection_render response w = render_collection marshal response w
render marshal canonical string_render response w = render_string response w
render marshal canonical noop_render response w = render_noop canonical response w
