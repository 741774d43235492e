-- ===== src/Proxy/Http/Answered.antt =====
-- What the proxy of a backend answers.
use lura_p.Common.{
  ℕ, ◌≡◌, refl, sym, ap, subst, ◌⊎◌, true, false, String, Option, none, some, ◌>>=◌, str_eq,
  Bool-cases, inl, inr,
}
use lura_p.Value.{Dict}
use lura_p.Config.{Backend, Decoder, noop}
use lura_p.Encoding.{Decoded, run, decoder_named}
use lura_p.Client.{
  Handler, StatusError, default_handler, error_handler, detailed_handler, handle,
  get_http_status_handler, is_invalid, new_http_response_error,
}
use lura_p.Proxy.{Request, Response}
use lura_p.Proxy.Formatter.Entity.{new_plain_formatter}
use lura_p.Proxy.Formatter.Flatmap.{
  FlatmapFormatter, Formatter, flat, plain, flat_or_plain, new_flatmap_formatter,
  new_entity_formatter, format_flat, format_with,
}
use lura_p.Proxy.Formatter.Flatmap.Short.{HasShort, IsKept, format_flat-HasShort}
use lura_p.Proxy.Formatter.Target.{format_total}
use lura_p.Proxy.Http.{
  HttpRequest, HttpReply, Exchange, BackendError, bad_request, context_done, not_executed, status,
  not_gzip, undecodable, panicked, Reply, Network, to_backend, header, seen, formatted, complete,
  decoded_or, decode_body, unzipped_or, parse_response, noop_response, after_status, handle_reply,
  after_exchange, execute, http_proxy,
}

-- A backend whose replies may panic: it has no decoder, or a flatmap filter with an operation that has
-- too few arguments.
abbrev pub IsFaulty : Backend → Type 0
IsFaulty remote =
    (remote.decoder ≡ none)
    ⊎ ((e : FlatmapFormatter) × (new_flatmap_formatter remote.extra_config remote.target
            remote.group
          ≡ some e)
        × HasShort e.ops)

-- An error of a body that cannot be read; a panic has a reason `F`.
abbrev pub IsUnread : Type 0 → BackendError → Type 0
IsUnread F panicked = F
IsUnread F not_gzip = Unit
IsUnread F undecodable = Unit
IsUnread F _ = ⊥

-- A reply that is decoded: an error, or a complete response.
abbrev IsParsed : Type 0 → Reply → Type 0
IsParsed F (none, none) = ⊥
IsParsed F (some r, some e) = ⊥
IsParsed F (none, some e) = IsUnread F e
IsParsed F (some r, none) = r.is_complete ≡ true

module _ {T : Type 0} (env : Network T) (F : Type 0) where
  flat_lem :
      (e : FlatmapFormatter) (d : Option Dict) (o : Option Response)
      → (HasShort e.ops → F)
      → format_flat env.trees e (complete d) ≡ o
      → IsParsed F (formatted o)
  flat_lem e d none short q = short ((format_flat-HasShort env.trees e (complete d)).0.0 q).2
  flat_lem e d (some r) short q =
      let kept : IsKept (complete d) (some r) =
        subst (IsKept (complete d)) q (format_flat-HasShort env.trees e (complete d)).1 in
      kept.0

  format_with-IsParsed :
      (ef : Formatter) (d : Option Dict)
      → ((e : FlatmapFormatter) → ef ≡ flat e → HasShort e.ops → F)
      → IsParsed F (formatted (format_with env.trees ef (complete d)))
  unfolding format_with
  format_with-IsParsed (flat e) d short =
      flat_lem e d (format_flat env.trees e (complete d)) (short e refl) refl
  format_with-IsParsed (plain e) d short =
      let (r, kept, done, filtered, payload, whole, metadata, io) = format_total e (complete d) in
      subst (λ (o : Option Response). IsParsed F (formatted o)) (sym done) whole

  decoded_or-IsParsed :
      (ef : Formatter) (d : Decoded)
      → ((e : FlatmapFormatter) → ef ≡ flat e → HasShort e.ops → F)
      → IsParsed F (decoded_or env ef d)
  decoded_or-IsParsed ef none short = tt
  decoded_or-IsParsed ef (some d) short = format_with-IsParsed ef d short

  decode_body-IsParsed :
      (decoder : Option Decoder) (ef : Formatter) (body : Option String)
      → (decoder ≡ none → F)
      → ((e : FlatmapFormatter) → ef ≡ flat e → HasShort e.ops → F)
      → IsParsed F (decode_body env decoder ef body)
  decode_body-IsParsed none ef body nil_ short = nil_ refl
  decode_body-IsParsed (some d) ef body nil_ short =
      decoded_or-IsParsed ef (run env.decode (decoder_named d.name d.is_collection) body) short

  unzipped-IsParsed :
      (k : Option String → Reply) (o : Option (Option String))
      → ((body : Option String) → IsParsed F (k body))
      → IsParsed F (unzipped_or k o)
  unzipped-IsParsed k none h = tt
  unzipped-IsParsed k (some body) h = h body

  parse_response-IsParsed :
      (decoder : Option Decoder) (ef : Formatter) (resp : HttpReply)
      → (decoder ≡ none → F)
      → ((e : FlatmapFormatter) → ef ≡ flat e → HasShort e.ops → F)
      → IsParsed F (parse_response env decoder ef resp)
  unfolding parse_response
  parse_response-IsParsed decoder ef resp nil_ short =
      let each = λ (body : Option String). decode_body-IsParsed decoder ef body nil_ short in
      elim (Bool-cases (str_eq (header "Content-Encoding" resp.headers) "gzip")) [
        | inl z ↦ rw z (
            unzipped-IsParsed (λ body. decode_body env decoder ef body) (resp.body >>= env.gunzip)
              each)
        | inr p ↦ rw p (each resp.body)
      ]

-- The formatter of a backend that is a flatmap one is that of its configuration.
configured_lem :
    (remote : Backend) (o : Option FlatmapFormatter) (e : FlatmapFormatter)
    → flat_or_plain remote o ≡ flat e
    → o ≡ some e
configured_lem remote none e q =
    absurd (let x : plain (new_plain_formatter remote) ≡ flat e = q in cc)
configured_lem remote (some x) e q = let same : x ≡ e = cc in ap some same

-- What is wrong with a reply: its status, else its body.
abbrev pub IsRejected : Backend → HttpReply → BackendError → Type 0
IsRejected remote resp e =
    ((is_invalid (seen resp) ≡ true) × ((s : StatusError) × (e ≡ status s)))
    ⊎ ((is_invalid (seen resp) ≡ false) × IsUnread (IsFaulty remote) e)

-- What a reply with this status and encoding comes to.
abbrev pub IsHandled : Backend → HttpReply → Reply → Type 0
IsHandled remote resp (none, none) = ⊥
IsHandled remote resp (some r, some e) = ⊥
IsHandled remote resp (none, some e) =
    (str_eq remote.encoding noop ≡ false) × IsRejected remote resp e
IsHandled remote resp (some r, none) =
    ((r.is_complete ≡ true)
      × ((str_eq remote.encoding noop ≡ true) ⊎ (is_invalid (seen resp) ≡ false)))
    ⊎ ((r.is_complete ≡ false)
        × (is_invalid (seen resp) ≡ true)
        × (r.metadata.status_code ≡ resp.status_code))

valid :
    (remote : Backend) (resp : HttpReply) (a : Reply)
    → str_eq remote.encoding noop ≡ false
    → is_invalid (seen resp) ≡ false
    → IsParsed (IsFaulty remote) a
    → IsHandled remote resp a
valid remote resp (none, none) n v h = h
valid remote resp (some r, some e) n v h = h
valid remote resp (none, some e) n v h = (n, inr (v, h))
valid remote resp (some r, none) n v h = inl (h, inr v)

module _ {T : Type 0} (env : Network T) (remote : Backend) (resp : HttpReply) where
  -- A reply with status 200 or 201 is decoded.
  decoded :
      str_eq remote.encoding noop ≡ false
      → is_invalid (seen resp) ≡ false
      → IsHandled remote resp (after_status env remote resp (some (seen resp), none))
  unfolding new_entity_formatter
  decoded n v =
      let found = new_flatmap_formatter remote.extra_config remote.target remote.group in
      valid remote resp (parse_response env remote.decoder (new_entity_formatter remote) resp) n v (
        parse_response-IsParsed env (IsFaulty remote) remote.decoder (new_entity_formatter remote)
          resp (λ d. inl d) (λ e q h. inr (e, configured_lem remote found e q, h)))

  after_status-IsHandled :
      str_eq remote.encoding noop ≡ false
      → (h : Handler) → IsHandled remote resp (after_status env remote resp (handle h (seen resp)))
  unfolding handle new_http_response_error
  after_status-IsHandled n (default_handler prefix) = elim (Bool-cases (is_invalid (seen resp))) [
    | inl e ↦ rw (e, handle) (n, inl (e, (_, refl)))
    | inr v ↦ rw (v, handle) (decoded n v)
  ]
  after_status-IsHandled n (error_handler prefix) = elim (Bool-cases (is_invalid (seen resp))) [
    | inl e ↦ rw (e, handle) (n, inl (e, (_, refl)))
    | inr v ↦ rw (v, handle) (decoded n v)
  ]
  after_status-IsHandled n (detailed_handler name prefix) =
      elim (Bool-cases (is_invalid (seen resp))) [
        | inl e ↦ rw (e, handle) (inr (refl, e, refl))
        | inr v ↦ rw (v, handle) (decoded n v)
      ]

  handle_reply-IsHandled : IsHandled remote resp (handle_reply env remote resp)
  unfolding handle_reply noop_response
  handle_reply-IsHandled = elim (Bool-cases (str_eq remote.encoding noop)) [
    | inl n ↦ rw (n, handle_reply) (inl (refl, inl n))
    | inr d ↦ rw (d, handle_reply) (after_status-IsHandled d (get_http_status_handler remote))
  ]

-- The error of an exchange: that of the context, else of the executor, else of the reply.
abbrev pub IsFailed : Backend → Exchange → BackendError → Type 0
IsFailed remote x e =
    ((t : String) × (x.ctx_err ≡ some t) × (e ≡ context_done t))
    ⊎ (((t : String) × (x.ctx_err ≡ none) × (x.err ≡ some t) × (e ≡ not_executed t))
        ⊎ ((x.ctx_err ≡ none) × (x.err ≡ none) × IsHandled remote x.reply (none, some e)))

-- What the proxy says of an exchange: nothing went wrong before it answers with a response.
abbrev pub IsAnswered : Backend → Exchange → Reply → Type 0
IsAnswered remote x (none, none) = ⊥
IsAnswered remote x (some r, some e) = ⊥
IsAnswered remote x (none, some e) = IsFailed remote x e
IsAnswered remote x (some r, none) =
    (x.ctx_err ≡ none) × (x.err ≡ none) × IsHandled remote x.reply (some r, none)

answered :
    (remote : Backend) (x : Exchange) (a : Reply)
    → x.ctx_err ≡ none
    → x.err ≡ none
    → IsHandled remote x.reply a
    → IsAnswered remote x a
answered remote x (none, none) c e h = h
answered remote x (some r, some b) c e h = h
answered remote x (none, some b) c e h = inr (inr (c, e, h))
answered remote x (some r, none) c e h = (c, e, h)

after_exchange-IsAnswered :
    {T : Type 0} (env : Network T) (remote : Backend) (x : Exchange) (c e : Option String)
    → x.ctx_err ≡ c
    → x.err ≡ e
    → IsAnswered remote x (after_exchange (handle_reply env remote) c e x.reply)
after_exchange-IsAnswered env remote x (some t) e hc he = inl (t, hc, refl)
after_exchange-IsAnswered env remote x none (some t) hc he = inr (inl (t, hc, he, refl))
after_exchange-IsAnswered env remote x none none hc he =
    answered remote x (handle_reply env remote x.reply) hc he
      (handle_reply-IsHandled env remote x.reply)

-- What becomes of a request to the backend, whose URL is a text.
abbrev pub IsExecuted : {T : Type 0} → Network T → Backend → ℕ → HttpRequest → Reply → Type 0
IsExecuted env remote call asked o =
    ((env.is_request asked.method asked.url ≡ false) × (o ≡ (none, some bad_request)))
    ⊎ ((env.is_request asked.method asked.url ≡ true)
        × IsAnswered remote (env.execute call asked) o)

-- What becomes of a request, whose URL may be nil.
abbrev pub IsProxied :
    {T : Type 0} → Network T → Backend → ℕ → Request → Option String → Reply → Type 0
IsProxied env remote call request none o = o ≡ (none, some panicked)
IsProxied env remote call request (some url) o =
    IsExecuted env remote call (to_backend env remote request url) o

execute-IsProxied :
    {T : Type 0} (env : Network T) (remote : Backend) (call : ℕ) (request : Request)
    (url : Option String)
    → IsProxied env remote call request url (execute env remote call request url)
unfolding execute
execute-IsProxied env remote call request none = refl
execute-IsProxied env remote call request (some url) =
    let asked = to_backend env remote request url in
    elim (Bool-cases (env.is_request asked.method asked.url)) [
      | inl ok ↦
          let x = env.execute call asked in
          inr (ok, rw ok (after_exchange-IsAnswered env remote x x.ctx_err x.err refl refl))
      | inr bad ↦ inl (bad, rw bad refl)
    ]

-- The proxy of a backend panics on a request without a URL. On another it answers with a response or
-- with an error, never with both or neither. It answers with the error of a bad request, and does not
-- execute it, exactly where `http.NewRequest` refuses its method and URL. Otherwise its error is that
-- of the context, where there is one, else that of the executor; without both, an error means that the
-- backend is to be decoded, and it is one of the status where that is neither 200 nor 201, else one of
-- a body that cannot be unzipped or decoded, or a panic, which is possible only where the backend has
-- no decoder, or a flatmap filter with an operation that has too few arguments. A response means that
-- neither the context nor the executor had an error. It is complete only where the reply had status
-- 200 or 201, or the backend is not to be decoded; else the reply had another status, which is the
-- response's.
pub http_proxy-IsAnswered :
    {T : Type 0} (env : Network T) (remote : Backend) (call : ℕ) (request : Request)
    → IsProxied env remote call request request.url (http_proxy env remote call request)
unfolding http_proxy
http_proxy-IsAnswered env remote call request =
    execute-IsProxied env remote call request request.url
