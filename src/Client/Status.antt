-- ===== src/Client/Status.antt =====
-- What a status handler answers, whatever the configuration chose.
use lura_p.Common.{ℕ, true, false, Option, none, some, ◌≡◌, ◌⊎◌, ◌≢◌, refl, arith}
use lura_p.Config.{Backend}
use lura_p.Client.{
  HttpResponse, StatusError, invalid_status, response_error, named_response_error, Handler,
  default_handler, error_handler, detailed_handler, get_http_status_handler, is_invalid, content,
  new_http_response_error, handle,
}

-- The status that an error tells of.
abbrev pub code_of : StatusError → ℕ
code_of (invalid_status code prefix path) = code
code_of (response_error err) = err.code
code_of (named_response_error name err) = err.code

-- The body of a response that is handed on is what could be read of it.
abbrev pub KeepsBody : HttpResponse → Option HttpResponse → Type 0
KeepsBody resp none = Unit
KeepsBody resp (some r) = r.body ≡ some (content resp.body)

handle_success :
    (h : Handler) (resp : HttpResponse)
    → is_invalid resp ≡ false
    → handle h resp ≡ (some resp, none)
unfolding handle
handle_success (default_handler prefix) resp e = rw e refl
handle_success (error_handler prefix) resp e = rw e refl
handle_success (detailed_handler name prefix) resp e = rw e refl

handle_invalid :
    (h : Handler) (resp : HttpResponse)
    → is_invalid resp ≡ true
    → (err : StatusError) × ((handle h resp).1 ≡ some err)
      × (code_of err ≡ resp.status_code)
      × KeepsBody resp (handle h resp).0
unfolding handle new_http_response_error
handle_invalid (default_handler prefix) resp e =
    rw e (invalid_status resp.status_code prefix resp.path, refl, refl, tt)
handle_invalid (error_handler prefix) resp e =
    let err = (new_http_response_error resp).0 in rw e (response_error err, refl, refl, refl)
handle_invalid (detailed_handler name prefix) resp e =
    let err = (new_http_response_error resp).0 in
    rw e (named_response_error name err, refl, refl, refl)

-- Whatever handler a backend's configuration chooses, a response with status 200 or 201 is handed on
-- as it is and with no error.
pub status_success :
    (remote : Backend) (resp : HttpResponse)
    → (resp.status_code ≡ 200) ⊎ (resp.status_code ≡ 201)
    → handle (get_http_status_handler remote) resp ≡ (some resp, none)
status_success remote resp s = handle_success (get_http_status_handler remote) resp (ground arith)

-- Whatever handler a backend's configuration chooses, a response with a status other than 200 and 201
-- gives an error with its status, and the response, where it is handed on with the error, has a body
-- that can still be read: what could be read of the backend's.
pub status_invalid :
    (remote : Backend) (resp : HttpResponse)
    → resp.status_code ≢ 200
    → resp.status_code ≢ 201
    → (err : StatusError) × ((handle (get_http_status_handler remote) resp).1 ≡ some err)
      × (code_of err ≡ resp.status_code)
      × KeepsBody resp (handle (get_http_status_handler remote) resp).0
status_invalid remote resp a b = handle_invalid (get_http_status_handler remote) resp (ground arith)
