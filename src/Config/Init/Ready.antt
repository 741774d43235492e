-- ===== src/Config/Init/Ready.antt =====
-- What `Init` ensures of the endpoints and their backends.
use lura_p.Common.{
  ℕ, ◌≡◌, refl, true, false, ◌&&◌, String, List, [], ◌∷◌, All, ltb, length, Bool-cases, inl, inr,
  str_eq, arith, subst, sym,
}
use lura_p.Common.Int.{ℤ, pos, is_zero}
use lura_p.Config.{ServiceConfig, EndpointConfig, Backend, noop, json}
use lura_p.Config.Fallible.{
  Result, failed, done, ◌>>=◌, each, Ensures, Ensures-bind, Ensures-any, Ensures-each, Ensures-mono,
  no_backends,
}
use lura_p.Config.Uri.{Platform, clean_path}
use lura_p.Config.Urls.{init_backend_url_mappings}
use lura_p.Config.Init.{
  or_text, or_number, inherit, backend_hosts, decoder_of, with_defaults, prepared, inputs_of,
  init_backends, init_backend_defaults, init_backend, validate, init_endpoint_defaults,
  init_endpoint,
}
use lura_p.Config.Init.Params.{IsMapping, init_backend_url_mappings-IsMapping}

abbrev pub IsGiven : String → Type 0
IsGiven x = str_eq x "" ≡ false

pub or_text-IsGiven : (x y : String) → IsGiven y → IsGiven (or_text x y)
or_text-IsGiven x y h = elim (Bool-cases (str_eq x "")) [ inl e ↦ rw e h | inr e ↦ simp e refl ]

abbrev pub IsNonzero : ℤ → Type 0
IsNonzero n = is_zero n ≡ false

pub or_number-IsNonzero : (n m : ℤ) → IsNonzero m → IsNonzero (or_number n m)
or_number-IsNonzero n m h = elim (Bool-cases (is_zero n)) [ inl e ↦ rw e h | inr e ↦ simp e refl ]

pub inherit-IsNonzero : (outer n : ℤ) → IsNonzero outer → IsNonzero (inherit outer n)
inherit-IsNonzero outer n h = elim (Bool-cases (is_zero n)) [
  | inl e ↦ simp (h, e) refl
  | inr e ↦ simp (h, e) refl
]

module _ (env : Platform) where
  -- A backend that knows its endpoint, and has its method, limits, scheme and decoder.
  abbrev pub IsReadyBackend : EndpointConfig → Backend → Type 0
  IsReadyBackend e b =
      (b.parent_endpoint ≡ e.endpoint)
      × (b.parent_endpoint_method ≡ e.method)
      × (b.timeout ≡ e.timeout)
      × (b.concurrent_calls ≡ e.concurrent_calls)
      × (b.decoder ≡ decoder_of env b.encoding b.is_collection)
      × IsGiven b.method
      × IsGiven b.sd_scheme

  -- An endpoint that has its method, limits and encoding, one backend or more, and only one where it
  -- does not encode.
  abbrev pub IsReady : EndpointConfig → Type 0
  IsReady e =
      IsGiven e.method
      × IsGiven e.output_encoding
      × IsNonzero e.timeout
      × IsNonzero e.concurrent_calls
      × (ltb 0 (length e.backend) ≡ true)
      × ((str_eq e.output_encoding noop && ltb 1 (length e.backend)) ≡ false)
      × All (IsReadyBackend e) e.backend

  init_backend_defaults-IsReadyBackend :
      (s : ServiceConfig) (e : EndpointConfig) (b : Backend)
      → IsGiven e.method
      → Ensures (IsReadyBackend e) (init_backend_defaults env s e b)
  unfolding init_backend_defaults
  init_backend_defaults-IsReadyBackend s e b m =
      Ensures-bind (λ _. Unit) (IsReadyBackend e) (backend_hosts env s b)
        (λ host. done (with_defaults env e b host)) (Ensures-any (backend_hosts env s b))
        (λ host _. (
          refl,
          refl,
          refl,
          refl,
          refl,
          or_text-IsGiven b.method e.method m,
          or_text-IsGiven b.sd_scheme "http" refl,
        ))

  mapped-IsReady :
      (e : EndpointConfig) (inputs : List String) (b r : Backend)
      → IsReadyBackend e b
      → IsMapping env inputs b r
      → IsReadyBackend e r
  mapped-IsReady e inputs b r ready (defined, keys, same) =
      let mapped : Backend = record b { url_pattern = r.url_pattern; url_keys = r.url_keys } in
      let kept : IsReadyBackend e mapped = ready in subst (IsReadyBackend e) (sym same) kept

  init_backend-IsReady :
      (s : ServiceConfig) (e : EndpointConfig) (inputs : List String) (i : ℕ) (b : Backend)
      → IsGiven e.method
      → Ensures (IsReadyBackend e) (init_backend env s e inputs i b)
  unfolding init_backend
  init_backend-IsReady s e inputs i b m =
      Ensures-bind (IsReadyBackend e) (IsReadyBackend e) (init_backend_defaults env s e b)
        (λ ready. init_backend_url_mappings env e i inputs ready)
        (init_backend_defaults-IsReadyBackend s e b m)
        (λ ready d.
          Ensures-mono (IsMapping env inputs ready) (IsReadyBackend e)
            (init_backend_url_mappings env e i inputs ready)
            (init_backend_url_mappings-IsMapping env e i inputs ready)
            (λ r h. mapped-IsReady e inputs ready r d h))

  -- A checked endpoint has a backend.
  validate-backend :
      (e : EndpointConfig) → Ensures (λ c. ltb 0 (length c.backend) ≡ true) (validate env e)
  unfolding validate
  validate-backend e = elim (Bool-cases (env.is_invalid e.endpoint)) [
    | inl h ↦ simp h tt
    | inr h ↦ simp h (some_backend e.backend refl)
  ]
    where
      some_backend :
          (bs : List Backend)
          → e.backend ≡ bs
          → Ensures
              (λ c. ltb 0 (length c.backend) ≡ true)
              (elim bs as (λ _. Result EndpointConfig) [
                | [] ↦ failed (no_backends e.endpoint e.method)
                | (_ ∷ _) ↦ done e
              ])
      some_backend [] h = tt
      some_backend (b ∷ bs) h = rw h (ground arith)

  -- What the tests and the loop of the backends ensure.
  abbrev AreReady : EndpointConfig → List Backend → Type 0
  AreReady e bs =
      ((str_eq e.output_encoding noop && ltb 1 (length e.backend)) ≡ false)
      × (All (IsReadyBackend e) bs × (length bs ≡ length e.backend))

  init_backends-AreReady :
      (s : ServiceConfig) (e : EndpointConfig) (inputs : List String)
      → IsGiven e.method
      → Ensures (AreReady e) (init_backends env s e inputs)
  init_backends-AreReady s e inputs m =
      elim (Bool-cases (str_eq e.output_encoding noop && ltb 1 (length e.backend))) [
        | inl h ↦ rw h tt
        | inr h ↦ rw h (
            Ensures-mono (λ bs. All (IsReadyBackend e) bs × (length bs ≡ length e.backend))
              (AreReady e) (each (init_backend env s e inputs) 0 e.backend)
              (Ensures-each (IsReadyBackend e) (init_backend env s e inputs) 0 e.backend
                (λ i b. init_backend-IsReady s e inputs i b m))
              (λ bs whole. (h, whole)))
      ]

  -- Every endpoint that the loop of `initEndpoints` lets through is ready, given that the service
  -- has a timeout by then.
  pub init_endpoint-IsReady :
      (s : ServiceConfig) (i : ℕ) (e : EndpointConfig)
      → IsNonzero s.timeout
      → Ensures IsReady (init_endpoint env s i e)
  unfolding init_endpoint init_endpoint_defaults
  init_endpoint-IsReady s i e t =
      Ensures-bind (λ c. ltb 0 (length c.backend) ≡ true) IsReady
        (validate env (record e { endpoint = clean_path e.endpoint }))
        (λ c.
          init_backends env s (prepared env s c) (inputs_of env s c)
          >>= (λ bs. done (record (prepared env s c) { backend = bs })))
        (validate-backend (record e { endpoint = clean_path e.endpoint }))
        (λ c some.
          let ready = prepared env s c in
          let method = or_text-IsGiven c.method "GET" refl in
          Ensures-bind (AreReady ready) IsReady (init_backends env s ready (inputs_of env s c))
            (λ bs. done (record ready { backend = bs }))
            (init_backends-AreReady s ready (inputs_of env s c) method)
            (λ bs h. (
              method,
              or_text-IsGiven c.output_encoding (or_text s.output_encoding json)
                  (or_text-IsGiven s.output_encoding json refl),
              inherit-IsNonzero s.timeout c.timeout t,
              or_number-IsNonzero c.concurrent_calls (pos 1) refl,
              rw (h.1.1) some,
              rw (h.1.1) h.0,
              h.1.0,
            )))
