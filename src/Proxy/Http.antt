-- ===== src/Proxy/Http.antt =====
-- proxy/http.go and proxy/http_response.go: the proxy that asks a backend over HTTP. A reply's
-- trailers, protocol and length are not used and left out.
pub mod Answered
use Prim.Native.String
use lura_p.Common.{
  ℕ, zero, suc, ◌&&◌, Bool, true, false, not, String, List, [], ◌∷◌, Option, none, some, ◌>>=◌,
  str_eq, ◌==◌, if◌then◌else◌, length, is_some,
}
use lura_p.Common.Int.{ℤ}
use lura_p.Value.{Value, bool, number, text, obj, Dict, end, field, get, as_dict}
use lura_p.Common.Decimal.{decimal}
use lura_p.Config.{Backend, Decoder, noop}
use lura_p.Config.Uri.{◌<>◌}
use lura_p.Encoding.{Decoded, run, decoder_named}
use lura_p.Client.{
  HttpResponse, HttpResponseError, StatusError, invalid_status, response_error,
  named_response_error, Handler, handle, get_http_status_handler,
}
use lura_p.Proxy.{Request, Response, Metadata}
use lura_p.Proxy.Filters.{Values, lookup}
use lura_p.Proxy.Formatter.Flatmap.{Trees, Formatter, new_entity_formatter, format_with}

-- http.Request, as the proxy makes it; `is_replayable` tells that its body can be read again.
pub record HttpRequest : Type 0 where
  pub method : String
  pub url : String
  pub headers : Values
  pub body : Option String
  pub content_length : Option ℤ
  pub is_replayable : Bool

-- http.Response; `body` is what is left to read, or none where reading fails.
pub record HttpReply : Type 0 where
  pub status_code : ℕ
  pub headers : Values
  pub body : Option String
  pub path : String

-- What the executor returns, and the error of the context after it, if that is done.
pub record Exchange : Type 0 where
  pub reply : HttpReply
  pub err : Option String
  pub ctx_err : Option String

pub data BackendError : Type 0 where
  bad_request : BackendError
  context_done : String → BackendError
  not_executed : String → BackendError
  status : StatusError → BackendError
  not_gzip : BackendError
  undecodable : BackendError
  panicked : BackendError

-- `(*Response, error)`
abbrev pub Reply : Type 0
Reply = Option Response × Option BackendError

-- What the proxy asks of the standard library and of its executor.
pub record Network (T : Type 0) : Type 0 where
  -- `http.NewRequest` gives no error for the method and the URL.
  pub is_request : String → String → Bool
  -- `strings.ToTitle` and `strconv.Atoi`
  pub to_title : String → String
  pub atoi : String → Option ℤ
  -- `gzip.NewReader`: an error, or what can be read of the reader.
  pub gunzip : String → Option (Option String)
  -- `json.Decoder`
  pub decode : String → Option Value
  -- The external trees of the flatmap formatter.
  pub trees : Trees T
  -- What the executor of a call leaves to read of the request's body.
  pub body_left : ℕ → Option String → Option String
  -- The executor of a call: the calls of a process are counted.
  pub execute : ℕ → HttpRequest → Exchange

-- `v.(bool)`
abbrev pub flag_of : Value → Option Bool
flag_of (bool b) = some b
flag_of _ = none

abbrev pub is_true : Option Bool → Bool
is_true none = false
is_true (some b) = b

-- `redirectPostReaderFactory(cfg)`: whether it reads the body ahead.
unfoldable pub sends_body_on_redirect : Dict → Bool
unfolding get
sends_body_on_redirect extra =
    is_true
      (get "backend/http/client" extra >>= as_dict >>= get "send_body_on_redirect" >>= flag_of)

-- A body that can be read again, where there is something to read.
abbrev pub has_content : Option String → Bool
has_content none = false
has_content (some s) = not (str_eq s "")

-- `if v, ok := request.Headers["Content-Length"]; ok && len(v) == 1 && v[0] != "chunked" { … }`
abbrev pub length_of : {T : Type 0} → Network T → Option (List String) → Option ℤ
length_of env (some (v ∷ [])) = if str_eq v "chunked" then none else env.atoi v
length_of env other = none

-- The request to the backend, whose URL is the text `url`.
unfoldable pub to_backend : {T : Type 0} → Network T → Backend → Request → String → HttpRequest
unfolding sends_body_on_redirect lookup
to_backend env cfg request url = record {
  method = env.to_title request.method;
  url = url;
  headers = request.headers;
  body = request.body;
  content_length =
      if is_some request.body
      then length_of env (lookup "Content-Length" request.headers)
      else none;
  is_replayable = sends_body_on_redirect cfg.extra_config && has_content request.body;
}

-- `h.Get(k)`
abbrev pub first_or_empty : Option (List String) → String
first_or_empty (some (v ∷ vs)) = v
first_or_empty other = ""

unfoldable pub header : String → Values → String
unfolding lookup
header k h = first_or_empty (lookup k h)

-- The part of a reply that the status handlers look at.
abbrev pub seen : HttpReply → HttpResponse
seen r = record {
  status_code = r.status_code;
  body = r.body;
  content_type = header "Content-Type" r.headers;
  path = r.path;
}

-- The error as the data of a response: the fields that encoding/json gives it.
abbrev pub error_fields : HttpResponseError → Dict
error_fields e =
    let enc : Dict = if str_eq e.enc "" then end else field "http_body_encoding" (text e.enc) end in
    let msg : Dict = if str_eq e.msg "" then enc else field "http_body" (text e.msg) enc in
    field "http_status_code" (number (decimal (suc e.code) e.code)) msg

-- What an error of the status handler comes to: a response, where it has a name.
abbrev pub failed_status : StatusError → Reply
failed_status (named_response_error name e) = (
  some (record {
    payload = some (field ("error_" <> name) (obj (error_fields e)) end);
    is_complete = false;
    metadata = record { headers = []; status_code = e.code };
    io = none;
  }),
  none,
)
failed_status (invalid_status code prefix path) =
    (none, some (status (invalid_status code prefix path)))
failed_status (response_error e) = (none, some (status (response_error e)))

-- The end of the parser: the decoded data, formatted.
abbrev pub formatted : Option Response → Reply
formatted none = (none, some panicked)
formatted (some r) = (some r, none)

abbrev pub complete : Option Dict → Response
complete d = record {
  payload = d;
  is_complete = true;
  metadata = record { headers = []; status_code = 0 };
  io = none;
}

abbrev pub decoded_or : {T : Type 0} → Network T → Formatter → Decoded → Reply
decoded_or env ef none = (none, some undecodable)
decoded_or env ef (some d) = formatted (format_with env.trees ef (complete d))

abbrev pub unzipped_or : (Option String → Reply) → Option (Option String) → Reply
unzipped_or k none = (none, some not_gzip)
unzipped_or k (some body) = k body

-- The call of the decoder, which panics where it is nil.
abbrev pub decode_body :
    {T : Type 0} → Network T → Option Decoder → Formatter → Option String → Reply
decode_body env none ef body = (none, some panicked)
decode_body env (some d) ef body =
    decoded_or env ef (run env.decode (decoder_named d.name d.is_collection) body)

-- `DefaultHTTPResponseParserFactory(cfg)` on a reply.
unfoldable pub parse_response :
    {T : Type 0} → Network T → Option Decoder → Formatter → HttpReply → Reply
unfolding header format_with run decoder_named
parse_response env decoder ef resp =
    if str_eq (header "Content-Encoding" resp.headers) "gzip"
    then unzipped_or (λ body. decode_body env decoder ef body) (resp.body >>= env.gunzip)
    else decode_body env decoder ef resp.body

-- `NoOpHTTPResponseParser(ctx, resp)`
unfoldable pub noop_response : HttpReply → Reply
noop_response resp = (
  some (record {
    payload = some end;
    is_complete = true;
    metadata = record { headers = resp.headers; status_code = resp.status_code };
    io = resp.body;
  }),
  none,
)

-- What follows the status handler.
abbrev pub after_status :
    {T : Type 0}
    → Network T
    → Backend
    → HttpReply
    → Option HttpResponse × Option StatusError
    → Reply
after_status env remote resp (r, some e) = failed_status e
after_status env remote resp (r, none) =
    parse_response env remote.decoder (new_entity_formatter remote) resp

-- The status handler and the parser, by the encoding of the backend: `NewHTTPProxyWithHTTPExecutor`.
unfoldable pub handle_reply : {T : Type 0} → Network T → Backend → HttpReply → Reply
unfolding handle get_http_status_handler parse_response noop_response new_entity_formatter
handle_reply env remote resp =
    if str_eq remote.encoding noop
    then noop_response resp
    else after_status env remote resp (handle (get_http_status_handler remote) (seen resp))

-- What follows the executor: the context's error goes first, then its own.
abbrev pub after_exchange : (HttpReply → Reply) → Option String → Option String → HttpReply → Reply
after_exchange k (some e) err reply = (none, some (context_done e))
after_exchange k none (some e) reply = (none, some (not_executed e))
after_exchange k none none reply = k reply

abbrev pub exchanged : {T : Type 0} → Network T → Backend → Exchange → Reply
exchanged env remote x = after_exchange (handle_reply env remote) x.ctx_err x.err x.reply

-- The proxy after `request.URL.String()`, which panics on a nil URL.
unfoldable pub execute : {T : Type 0} → Network T → Backend → ℕ → Request → Option String → Reply
unfolding to_backend handle_reply
execute env remote call request none = (none, some panicked)
execute env remote call request (some url) =
    let asked = to_backend env remote request url in
    if env.is_request asked.method asked.url
    then exchanged env remote (env.execute call asked)
    else (none, some bad_request)

-- The proxy of `NewHTTPProxyDetailed`, at its call with the number `call`.
unfoldable pub http_proxy : {T : Type 0} → Network T → Backend → ℕ → Request → Reply
unfolding execute
http_proxy env remote call request = execute env remote call request request.url

-- What it leaves in the request: of its body what the executor has not read, and nothing where it is
-- read ahead.
abbrev pub left_after : {T : Type 0} → Network T → Backend → ℕ → Request → Request
left_after env remote call request = record request {
  body =
      if sends_body_on_redirect remote.extra_config && is_some request.body
      then some ""
      else env.body_left call request.body;
}
