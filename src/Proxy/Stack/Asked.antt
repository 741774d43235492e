-- ===== src/Proxy/Stack/Asked.antt =====
-- Which requests the pipe of a backend makes, and what becomes of them.
use lura_p.Common.{
  ℕ, ◌≡◌, refl, ◌⊎◌, Bool, true, false, String, List, [], ◌∷◌, Option, none, some, str_eq,
  Bool-cases, inl, inr, ltb, length, arith,
}
use lura_p.Common.Int.{pos, lt_int}
use lura_p.Config.{Backend}
use lura_p.Config.Uri.{◌<>◌}
use lura_p.Proxy.{Request, Response, Error, err_other}
use lura_p.Proxy.Cloning.{replace_params}
use lura_p.Proxy.Concurrent.{Round, ended, context_done, concurrent}
use lura_p.Proxy.Filters.{Values, filter_headers, filter_query_strings}
use lura_p.Sd.Balancer.{Answer, host, failed, panicked}
use lura_p.Proxy.Modifiers.{Proxy, Outcome, returned, crashed}
use lura_p.Proxy.Stack.{
  Pipe, Url, url_text, with_query, parsed, balanced, load_balanced, request_builder, before_rounds,
  before_done, rounds_of, concluded, concurrently, header_filter, outer_stack,
}

-- `path` is the pattern with each parameter in turn put in the place of its name.
abbrev pub IsFilled :
    (String → String → String → String) → List (String × String) → String → String → Type 0
IsFilled replace_all [] pattern path = path ≡ pattern
IsFilled replace_all ((k, v) ∷ params) pattern path =
    IsFilled replace_all params (replace_all pattern ("{{." <> k <> "}}") v) path

-- The text of a URL with a query behind its own.
abbrev pub IsQueried : (Values → String) → Values → Url → String → Type 0
IsQueried encode [] u url = url ≡ url_text u
IsQueried encode (e ∷ query) u url =
    ((str_eq u.raw_query "" ≡ true)
      × (url ≡ url_text (record u { raw_query = encode (e ∷ query) })))
    ⊎ ((str_eq u.raw_query "" ≡ false)
        × (url ≡ url_text (record u { raw_query = u.raw_query <> "&" <> encode (e ∷ query) })))

module _ (env : Pipe) (remote : Backend) (p : Proxy) (r : Request) where
  -- The request with the query strings that the backend lists.
  abbrev pub listed : Request
  listed = filter_query_strings remote.query_strings_to_pass r

  -- The request of a call, for a path and the URL of a host with it: the backend's method, the URL with
  -- the query behind its own, the listed headers, and the rest of the request that came in.
  abbrev pub IsAsked : String → Url → Request → Type 0
  IsAsked path u x =
      (url : String) × IsQueried env.encode listed.query u url
      × (x
          ≡ filter_headers remote.headers_to_pass
              (record listed { path = path; method = remote.method; url = some url }))

  -- What a call comes to, by the parsed URL.
  abbrev pub IsReached : ℕ → String → Option Url → Outcome → Type 0
  IsReached call path none o = o ≡ returned none (some (err_other env.url_message))
  IsReached call path (some u) o = (x : Request) × IsAsked path u x × (o ≡ p call x)

  -- What a call comes to, by the host that the balancer gives.
  abbrev pub IsCalled : ℕ → Answer → Outcome → Type 0
  IsCalled call (failed e) o = o ≡ returned none (some (err_other (env.sd_message e)))
  IsCalled call panicked o = o ≡ crashed
  IsCalled call (host h) o =
      (path : String) × IsFilled env.replace_all listed.params remote.url_pattern path
      × IsReached call path (env.parse_url (h <> path)) o

  -- The rounds of concurrent calls, none of which panics.
  abbrev pub AreRounds : List (Option (ℕ × Bool)) → List Round → Type 0
  AreRounds [] rs = rs ≡ []
  AreRounds (none ∷ os) rs = (rest : List Round) × (rs ≡ context_done ∷ rest) × AreRounds os rest
  AreRounds (some (call, cancelled) ∷ os) rs =
      (resp : Option Response) × (err : Option Error) × (rest : List Round) × IsCalled call
        (env.host_at call) (returned resp err)
      × (rs ≡ ended resp err cancelled ∷ rest)
      × AreRounds os rest

  -- One of them panics.
  abbrev pub HasCrash : List (Option (ℕ × Bool)) → Type 0
  HasCrash [] = ⊥
  HasCrash (none ∷ os) = HasCrash os
  HasCrash (some (call, cancelled) ∷ os) = IsCalled call (env.host_at call) crashed ⊎ HasCrash os

  -- What the pipe answers.
  abbrev pub IsPiped : ℕ → Outcome → Type 0
  IsPiped call o =
      ((lt_int (pos 1) remote.concurrent_calls ≡ false) × IsCalled call (env.host_at call) o)
      ⊎ ((lt_int (pos 1) remote.concurrent_calls ≡ true)
          × (((rs : List Round) × AreRounds env.rounds rs
                × (o ≡ returned (concurrent rs).0 (concurrent rs).1))
              ⊎ (HasCrash env.rounds × (o ≡ crashed))))

  replace_params-IsFilled :
      (params : List (String × String)) (pattern : String)
      → IsFilled env.replace_all params pattern (replace_params env.replace_all params pattern)
  unfolding replace_params
  replace_params-IsFilled [] pattern = refl
  replace_params-IsFilled ((k, v) ∷ params) pattern =
      replace_params-IsFilled params (env.replace_all pattern ("{{." <> k <> "}}") v)

  with_query-IsQueried :
      (query : Values) (u : Url)
      → IsQueried env.encode query u (url_text (with_query env.encode query u))
  unfolding with_query
  with_query-IsQueried [] u = refl
  with_query-IsQueried (e ∷ query) u =
      let longer : ltb 0 (length (e ∷ query)) ≡ true = ground arith in
      elim (Bool-cases (str_eq u.raw_query "")) [
        | inl empty ↦ inl (empty, rw (longer, empty) refl)
        | inr full ↦ inr (full, rw (longer, full) refl)
      ]

  abbrev built : Request
  built = record listed {
    path = replace_params env.replace_all listed.params remote.url_pattern;
    method = remote.method;
  }

  parsed-IsReached :
      (call : ℕ) (o : Option Url)
      → IsReached call built.path o (parsed env (header_filter remote p) call built o)
  parsed-IsReached call none = refl
  parsed-IsReached call (some u) =
      let url = url_text (with_query env.encode listed.query u) in
      (
        filter_headers remote.headers_to_pass (record built { url = some url }),
        (url, with_query-IsQueried listed.query u, refl),
        refl,
      )

  balanced-IsCalled :
      (call : ℕ) (a : Answer) → IsCalled call a (balanced env (header_filter remote p) call built a)
  balanced-IsCalled call (failed e) = refl
  balanced-IsCalled call panicked = refl
  balanced-IsCalled call (host h) = (
    built.path,
    replace_params-IsFilled listed.params remote.url_pattern,
    parsed-IsReached call (env.parse_url (h <> built.path)),
  )

  abbrev single : Proxy
  single = load_balanced env (header_filter remote p)

  single-IsCalled : (call : ℕ) → IsCalled call (env.host_at call) (single call built)
  unfolding load_balanced
  single-IsCalled call = balanced-IsCalled call (env.host_at call)

  -- What the rounds come to: they all end, or one panics.
  abbrev AreEnded : List (Option (ℕ × Bool)) → Option (List Round) → Type 0
  AreEnded os none = HasCrash os
  AreEnded os (some rs) = AreRounds os rs

  before_done-AreEnded :
      (os : List (Option (ℕ × Bool))) (o : Option (List Round))
      → AreEnded os o
      → AreEnded (none ∷ os) (before_done o)
  before_done-AreEnded os none h = h
  before_done-AreEnded os (some rs) h = (rs, refl, h)

  before_rounds-AreEnded :
      (call : ℕ) (cancelled : Bool) (os : List (Option (ℕ × Bool))) (a : Outcome)
      (o : Option (List Round))
      → IsCalled call (env.host_at call) a
      → AreEnded os o
      → AreEnded (some (call, cancelled) ∷ os) (before_rounds a cancelled o)
  before_rounds-AreEnded call cancelled os crashed o c h = inl c
  before_rounds-AreEnded call cancelled os (returned resp err) none c h = inr h
  before_rounds-AreEnded call cancelled os (returned resp err) (some rs) c h =
      (resp, err, rs, c, refl, h)

  rounds_of-AreEnded : (os : List (Option (ℕ × Bool))) → AreEnded os (rounds_of single built os)
  unfolding rounds_of
  rounds_of-AreEnded [] = refl
  rounds_of-AreEnded (none ∷ os) =
      before_done-AreEnded os (rounds_of single built os) (rounds_of-AreEnded os)
  rounds_of-AreEnded (some (call, cancelled) ∷ os) =
      before_rounds-AreEnded call cancelled os (single call built) (rounds_of single built os)
        (single-IsCalled call) (rounds_of-AreEnded os)

  concluded-AreEnded :
      (o : Option (List Round))
      → AreEnded env.rounds o
      → ((rs : List Round) × AreRounds env.rounds rs
          × (concluded o ≡ returned (concurrent rs).0 (concurrent rs).1))
        ⊎ (HasCrash env.rounds × (concluded o ≡ crashed))
  concluded-AreEnded none h = inr (h, refl)
  concluded-AreEnded (some rs) h = inl (rs, h, refl)

  -- The pipe of a backend, around any proxy `p`, makes of a request only these calls: one with its own
  -- number, or where more than one concurrent call is configured those of its rounds, whose answers the
  -- concurrent middleware joins. A call asks the balancer for a host. Its error is that of the call,
  -- and its panic one. With a host, the URL is the host before the backend's pattern, with each
  -- parameter of the request filled in; where it cannot be parsed, that is the error. Else the call
  -- answers what `p` answers to a request with the backend's method, this URL with the listed query
  -- strings behind its own query, those query strings, the listed headers, and the rest of the request
  -- that came in. A panic of a concurrent call is a panic of the pipe.
  pub outer_stack-IsPiped : (call : ℕ) → IsPiped call (outer_stack env remote p call r)
  unfolding outer_stack request_builder concurrently
  outer_stack-IsPiped call = elim (Bool-cases (lt_int (pos 1) remote.concurrent_calls)) [
    | inl many ↦ inr (
      many,
      rw many
          (concluded-AreEnded (rounds_of single built env.rounds) (rounds_of-AreEnded env.rounds)),
    )
    | inr one ↦ inl (one, rw one (single-IsCalled call))
  ]
