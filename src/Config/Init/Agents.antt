-- ===== src/Config/Init/Agents.antt =====
-- `Init` as a whole: the globals, the async agents and the endpoints.
use lura_p.Common.{
  ℕ, ◌≡◌, refl, String, All, if◌then◌else◌, Bool-cases, inl, inr, arith, length, not, ◌&&◌, str_eq,
  ap, ◌∙◌,
}
use lura_p.Common.Int.{ℤ, pos, negsuc, ◌≤ℤ◌, lt_int}
use lura_p.Config.{
  ServiceConfig, AsyncAgent, Backend, second, default_timeout, default_port,
  default_max_idle_conns_per_host, config_version,
}
use lura_p.Config.Fallible.{
  Result, failed, done, ◌>>=◌, each, Ensures, Ensures-bind, Ensures-any, Ensures-each, Ensures-done,
  invalid_address, unsupported_version,
}
use lura_p.Config.Uri.{Platform, safe_clean_hosts}
use lura_p.Config.Init.{
  is_version, init_global_params, init_agent_backend, init_async_agent, init_async_agent_defaults,
  backend_hosts, with_globals, with_agent_defaults, init_endpoint, init,
}
use lura_p.Config.Init.Ready.{
  IsGiven, IsNonzero, IsReady, or_text-IsGiven, or_number-IsNonzero, inherit-IsNonzero,
  init_endpoint-IsReady,
}

-- An async agent with a timeout, a worker and a second between two checks, whose backends have its
-- timeout and a method.
abbrev pub IsReadyAgent : AsyncAgent → Type 0
IsReadyAgent a =
    IsNonzero a.consumer.timeout
    × (pos 1 ≤ℤ a.consumer.workers)
    × (pos second ≤ℤ a.connection.health_interval)
    × All (λ b. (b.timeout ≡ a.consumer.timeout) × IsGiven b.method) a.backend

at_least : (n m : ℤ) → n ≤ℤ (if lt_int m n then n else m)
at_least (pos a) (pos b) = ground arith
at_least (pos a) (negsuc b) = ground arith
at_least (negsuc a) (pos b) = ground arith
at_least (negsuc a) (negsuc b) = ground arith

module _ (env : Platform) where
  init_agent_backend_lem :
      (s : ServiceConfig) (a : AsyncAgent) (i : ℕ) (b : Backend)
      → Ensures
          (λ b. (b.timeout ≡ a.consumer.timeout) × IsGiven b.method)
          (init_agent_backend env s a i b)
  unfolding init_agent_backend
  init_agent_backend_lem s a i b =
      Ensures-bind (λ _. Unit) (λ b. (b.timeout ≡ a.consumer.timeout) × IsGiven b.method)
        (backend_hosts env s b) (λ host. done (with_agent_defaults env a b host))
        (Ensures-any (backend_hosts env s b))
        (λ host _. (refl, or_text-IsGiven b.method "GET" refl))

  init_async_agent-IsReadyAgent :
      (s : ServiceConfig) (i : ℕ) (a : AsyncAgent)
      → IsNonzero s.timeout
      → Ensures IsReadyAgent (init_async_agent env s i a)
  unfolding init_async_agent init_async_agent_defaults
  init_async_agent-IsReadyAgent s i a t =
      let agent = init_async_agent_defaults env s a in
      Ensures-bind
        (λ bs.
          All (λ b. (b.timeout ≡ agent.consumer.timeout) × IsGiven b.method) bs
          × (length bs ≡ length agent.backend))
        IsReadyAgent (each (init_agent_backend env s agent) 0 agent.backend)
        (λ bs. done (record agent { backend = bs }))
        (Ensures-each (λ b. (b.timeout ≡ agent.consumer.timeout) × IsGiven b.method)
          (init_agent_backend env s agent) 0 agent.backend
          (λ i b. init_agent_backend_lem s agent i b))
        (λ bs h. (
          inherit-IsNonzero s.timeout a.consumer.timeout t,
          at_least (pos 1) a.consumer.workers,
          at_least (pos second) a.connection.health_interval,
          h.0,
        ))

  -- What the globals are after `initGlobalParams`.
  abbrev IsGlobal : ServiceConfig → ServiceConfig → Type 0
  IsGlobal s r =
      IsNonzero r.timeout
      × IsNonzero r.port
      × IsNonzero r.max_idle_conns_per_host
      × (r.endpoints ≡ s.endpoints)
      × (r.async_agents ≡ s.async_agents)

  init_global_params-IsGlobal :
      (s : ServiceConfig) → Ensures (IsGlobal s) (init_global_params env s)
  unfolding init_global_params
  init_global_params-IsGlobal s =
      let tested : Result String =
        if not (str_eq s.address "") && not (env.is_address s.address)
        then failed (invalid_address s.address)
        else done s.address in
      Ensures-bind (λ _. Unit) (IsGlobal s) tested
        (λ _. safe_clean_hosts env s.host >>= (λ host. done (with_globals env s host)))
        (Ensures-any tested)
        (λ _ _.
          Ensures-bind (λ _. Unit) (IsGlobal s) (safe_clean_hosts env s.host)
            (λ host. done (with_globals env s host)) (Ensures-any (safe_clean_hosts env s.host))
            (λ host _. (
              or_number-IsNonzero s.timeout default_timeout refl,
              or_number-IsNonzero s.port default_port refl,
              or_number-IsNonzero s.max_idle_conns_per_host default_max_idle_conns_per_host refl,
              refl,
              refl,
            )))

  -- A configuration after `Init`.
  abbrev pub IsInitialised : ServiceConfig → ServiceConfig → Type 0
  IsInitialised s r =
      IsNonzero r.timeout
      × IsNonzero r.port
      × IsNonzero r.max_idle_conns_per_host
      × (All IsReadyAgent r.async_agents × (length r.async_agents ≡ length s.async_agents))
      × (All (IsReady env) r.endpoints × (length r.endpoints ≡ length s.endpoints))

  init-Ensures : (s : ServiceConfig) → Ensures (IsInitialised s) (init env s)
  unfolding init
  init-Ensures s =
      let tested : Result ServiceConfig =
        if is_version s.version
        then init_global_params env s
        else failed (unsupported_version s.version config_version) in
      let global : Ensures (IsGlobal s) tested = elim (Bool-cases (is_version s.version)) [
        | inl h ↦ rw h (init_global_params-IsGlobal s)
        | inr h ↦ rw h tt
      ] in
      Ensures-bind (IsGlobal s) (IsInitialised s) tested
        (λ r. each (init_async_agent env r) 0 r.async_agents >>= (λ agents.
          each (init_endpoint env r) 0 r.endpoints
          >>= (λ es. done (record r { async_agents = agents; endpoints = es }))))
        global (λ r g. initialised s r g)
    where
      initialised :
          (s r : ServiceConfig)
          → IsGlobal s r
          → Ensures (IsInitialised s) (
              each (init_async_agent env r) 0 r.async_agents >>= (λ agents.
                each (init_endpoint env r) 0 r.endpoints
                >>= (λ es. done (record r { async_agents = agents; endpoints = es }))))
      initialised s r (t, p, m, ee, ea) =
          Ensures-bind (λ agents. All IsReadyAgent agents × (length agents ≡ length r.async_agents))
            (IsInitialised s) (each (init_async_agent env r) 0 r.async_agents)
            (λ agents.
              each (init_endpoint env r) 0 r.endpoints
              >>= (λ es. done (record r { async_agents = agents; endpoints = es })))
            (Ensures-each IsReadyAgent (init_async_agent env r) 0 r.async_agents
              (λ i a. init_async_agent-IsReadyAgent r i a t))
            (λ agents ha.
              Ensures-bind (λ es. All (IsReady env) es × (length es ≡ length r.endpoints))
                (IsInitialised s) (each (init_endpoint env r) 0 r.endpoints)
                (λ es. done (record r { async_agents = agents; endpoints = es }))
                (Ensures-each (IsReady env) (init_endpoint env r) 0 r.endpoints
                  (λ i e. init_endpoint-IsReady env r i e t))
                (λ es he. (t, p, m, (ha.0, ha.1 ∙ ap length ea), (he.0, he.1 ∙ ap length ee))))

-- A configuration that `Init` accepts keeps the number of its agents and endpoints and has a timeout, a
-- port and a limit of idle connections. Each agent has a timeout, a worker or more and a second or
-- more between two checks, and its backends its timeout and a method. Each endpoint has a method, an
-- encoding, a timeout and a number of concurrent calls, one backend or more, and only one where it does
-- not encode; each of its backends knows its path and method, has its timeout and its number of
-- concurrent calls, a method, a scheme and the decoder of its encoding.
pub init-IsInitialised :
    (env : Platform) (s r : ServiceConfig) → init env s ≡ done r → IsInitialised env s r
init-IsInitialised env s r e =
    Ensures-done (IsInitialised env s) (init env s) r e (init-Ensures env s)
