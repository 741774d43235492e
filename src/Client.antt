-- ===== src/Client.antt =====
-- transport/http/client/status.go: how the status of a backend's response becomes an error.
pub mod Status
use Prim.Native.String
use lura_p.Common.{
  ℕ, Bool, true, false, ◌||◌, not, ◌&&◌, String, Option, none, some, ◌==◌, str_eq, if◌then◌else◌,
  ◌>>=◌,
}
use lura_p.Value.{Value, text, bool, Dict, get, as_dict}
use lura_p.Config.{Backend}

-- client.Namespace
abbrev pub namespace : String
namespace = "github.com/devopsfaith/krakend/http"

-- http.Response: `body` is what is left to read, or none where reading fails; `path` is the text of its
-- request's URL, empty where it has none.
pub record HttpResponse : Type 0 where
  pub status_code : ℕ
  pub body : Option String
  pub content_type : String
  pub path : String

-- HTTPResponseError
pub record HttpResponseError : Type 0 where
  pub code : ℕ
  pub msg : String
  pub enc : String

pub data StatusError : Type 0 where
  invalid_status : ℕ → String → String → StatusError
  response_error : HttpResponseError → StatusError
  named_response_error : String → HttpResponseError → StatusError

-- HTTPStatusHandler, as the constructor that made it; each has the prefix of its errors.
pub data Handler : Type 0 where
  default_handler : String → Handler
  error_handler : String → Handler
  detailed_handler : String → String → Handler

-- `v.(string)` and `v.(bool)`
abbrev as_text : Value → Option String
as_text (text s) = some s
as_text _ = none

abbrev as_bool : Value → Option Bool
as_bool (bool b) = some b
as_bool _ = none

-- `fmt.Sprintf("[%s %s]:", remote.Method, remote.URLPattern)`
abbrev pub err_prefix : Backend → String
err_prefix remote =
    String.◌++◌ "["
      (String.◌++◌ remote.method (String.◌++◌ " " (String.◌++◌ remote.url_pattern "]:")))

-- The handler that the entries of the client's extra configuration choose.
abbrev pub choose : String → Option Dict → Handler
choose prefix none = default_handler prefix
choose prefix (some m) = elim (get "return_error_details" m) [
  | none ↦ elim (get "return_error_code" m >>= as_bool) [
    | none ↦ default_handler prefix
    | some v ↦ if v then error_handler prefix else default_handler prefix
  ]
  | some v ↦ elim (as_text v) [
    | none ↦ default_handler prefix
    | some b ↦ if str_eq b "" then default_handler prefix else detailed_handler b prefix
  ]
]

-- `GetHTTPStatusHandler(remote)`
unfoldable pub get_http_status_handler : Backend → Handler
get_http_status_handler remote =
    choose (err_prefix remote) (get namespace remote.extra_config >>= as_dict)

-- `resp.StatusCode != http.StatusOK && resp.StatusCode != http.StatusCreated`
abbrev pub is_invalid : HttpResponse → Bool
is_invalid resp = not (resp.status_code == 200) && not (resp.status_code == 201)

abbrev pub content : Option String → String
content none = ""
content (some s) = s

-- `newHTTPResponseError(resp)`: the error, and the response with a body that can be read again.
unfoldable pub new_http_response_error : HttpResponse → HttpResponseError × HttpResponse
new_http_response_error resp = (
  record { code = resp.status_code; msg = content resp.body; enc = resp.content_type },
  record resp { body = some (content resp.body) },
)

-- A handler's call: `(*http.Response, error)`.
unfoldable pub handle : Handler → HttpResponse → Option HttpResponse × Option StatusError
unfolding new_http_response_error
handle (default_handler prefix) resp =
    if is_invalid resp
    then (none, some (invalid_status resp.status_code prefix resp.path))
    else (some resp, none)
handle (error_handler prefix) resp =
    let (err, resp') = new_http_response_error resp in
    if is_invalid resp then (some resp', some (response_error err)) else (some resp, none)
handle (detailed_handler name prefix) resp =
    let (err, resp') = new_http_response_error resp in
    if is_invalid resp
    then (some resp', some (named_response_error name err))
    else (some resp, none)
