-- ===== src/Async/Started.antt =====
-- Which agents `Start` starts, with what, and for how long they retry.
use lura_p.Common.{
  ℕ, suc, ◌≤◌, ◌≡◌, refl, ap, subst, ◌∙◌, ◌⊎◌, inl, inr, Bool, true, false, String, List, [], ◌∷◌,
  ◌++◌, Option, none, some, map, All, str_eq, str_eq-append_false, Bool-cases, arith, ltb, length,
  if◌then◌else◌,
}
use lura_p.Common.Int.{ℤ, pos, negsuc, ◌≤ℤ◌, le_int}
use lura_p.Common.Decimal.{digit, decimal}
use lura_p.Config.{AsyncAgent, Backend, Connection}
use lura_p.Config.Init.Ready.{IsGiven}
use lura_p.Config.Uri.{◌<>◌}
use lura_p.Async.{
  max_int, default_name, Options, named, endpoint_of, with_retries, offer, Environment, options_of,
  with_pipe, start_agent, start_from, start, if_any,
}

IsGiven-default_name : (i : ℕ) → IsGiven (default_name i)
unfolding default_name
IsGiven-default_name i =
    str_eq-append_false "A" "syncAgent-" (if ltb i 10 then "0" <> digit i else decimal (suc i) i)

-- The factories in the order of their calls, with what each is given: those that decline, and the
-- first that accepts, if there is one.
abbrev pub IsOffered :
    {F P : Type 0} → (F → Options P → Bool) → Options P → List F → List (F × Options P) → Type 0
IsOffered {F} accepts o fs calls =
    (declined : List F) × All (λ f. accepts f o ≡ false) declined
    × (((declined ≡ fs) × (calls ≡ map (λ f. (f, o)) declined))
        ⊎ ((f : F) × (rest : List F) × (fs ≡ declined ++ (f ∷ rest))
            × (accepts f o ≡ true)
            × (calls ≡ map (λ g. (g, o)) declined ++ ((f, o) ∷ []))))

offer-IsOffered :
    {F P : Type 0} (accepts : F → Options P → Bool) (o : Options P) (fs : List F)
    → IsOffered accepts o fs (offer accepts o fs)
unfolding offer
offer-IsOffered accepts o [] = ([], tt, inl (refl, refl))
offer-IsOffered {F} {P} accepts o (f ∷ fs) = elim (Bool-cases (accepts f o)) [
  | inl e ↦ rw e ([], tt, inr (f, fs, refl, e, refl))
  | inr e ↦ rw e (later e (offer-IsOffered accepts o fs))
]
  where
    later :
        accepts f o ≡ false
        → IsOffered accepts o fs (offer accepts o fs)
        → IsOffered accepts o (f ∷ fs) ((f, o) ∷ offer accepts o fs)
    later d (declined, no_, inl (all_, calls)) =
        (f ∷ declined, (d, no_), inl (ap (λ l. f ∷ l) all_, ap (λ l. (f, o) ∷ l) calls))
    later d (declined, no_, inr (g, rest, split, e, calls)) = (
      f ∷ declined,
      (d, no_),
      inr (g, rest, ap (λ l. f ∷ l) split, e, ap (λ l. (f, o) ∷ l) calls),
    )

-- A name and backends as `Start` leaves them.
abbrev IsNamed : AsyncAgent → AsyncAgent → Type 0
IsNamed a b =
    IsGiven b.name
    × (IsGiven a.name → b.name ≡ a.name)
    × All (λ (x : Backend). x.timeout ≡ b.consumer.timeout) b.backend
    × (length b.backend ≡ length a.backend)
    × (b.consumer ≡ a.consumer)

timeouts_set :
    (t : ℤ) (bs : List Backend)
    → All (λ (x : Backend). x.timeout ≡ t) (map (λ (b : Backend). record b { timeout = t }) bs)
timeouts_set t [] = tt
timeouts_set t (b ∷ bs) = (refl, timeouts_set t bs)

length-map : {A B : Type 0} (f : A → B) (xs : List A) → length (map f xs) ≡ length xs
length-map f [] = refl
length-map f (x ∷ xs) = ap suc (length-map f xs)

IsGiven-if : (x y : String) → IsGiven y → IsGiven (if str_eq x "" then y else x)
IsGiven-if x y h = elim (Bool-cases (str_eq x "")) [ inl e ↦ rw e h | inr e ↦ simp e refl ]

named-IsNamed : (i : ℕ) (a : AsyncAgent) → IsNamed a (named i a)
unfolding named
named-IsNamed i a = (
  IsGiven-if a.name (default_name i) (IsGiven-default_name i),
  λ h. simp h refl,
  timeouts_set a.consumer.timeout a.backend,
  length-map (λ (b : Backend). record b { timeout = a.consumer.timeout }) a.backend,
  refl,
)

-- The largest number of an attempt that an agent's options allow: its own number, where it has a
-- positive one, else the largest int.
abbrev pub IsRetrying : ℤ → (ℤ → Bool) → Type 0
IsRetrying n go_on =
    (pos 1 ≤ℤ n → (i : ℤ) → go_on i ≡ le_int i n)
    × (n ≤ℤ pos 0 → (i : ℕ) → i ≤ max_int → go_on (pos i) ≡ true)

module _ {F P : Type 0} (env : Environment F P) where
  options_of-IsRetrying :
      (a : AsyncAgent) (p : P)
      → IsRetrying a.connection.max_retries (options_of env a p).should_continue
  unfolding options_of with_retries
  options_of-IsRetrying a p = retrying a.connection.max_retries
    where
      retrying :
          (n : ℤ) → IsRetrying n (λ i. le_int i (if le_int n (pos 0) then pos max_int else n))
      retrying (pos n) = (λ h i. ground arith, λ h i le. ground arith)
      retrying (negsuc n) = (λ h i. absurd (omega (arith, h)), λ h i le. ground arith)

  named_connection : (i : ℕ) (a : AsyncAgent) → (named i a).connection ≡ a.connection
  unfolding named
  named_connection i a = refl

  options_agent : (a : AsyncAgent) (p : P) → (options_of env a p).agent ≡ with_retries a
  unfolding options_of
  options_agent a p = refl

  options_endpoint : (a : AsyncAgent) (p : P) → (options_of env a p).endpoint ≡ endpoint_of a
  unfolding options_of
  options_endpoint a p = refl

  options_proxy : (a : AsyncAgent) (p : P) → p ≡ (options_of env a p).proxy
  unfolding options_of
  options_proxy a p = refl

  -- An agent `a` that has become `b`: it has a name, and its backends its timeout. If its pipe cannot be
  -- built no factory is called, else the factories are offered the agent with its pipe.
  abbrev pub IsStarted : AsyncAgent → AsyncAgent × List (F × Options P) → Type 0
  IsStarted a (b, calls) =
      IsNamed a b
      × (((env.new_pipe (endpoint_of b) ≡ none) × (calls ≡ []))
          ⊎ ((o : Options P) × (o.agent ≡ b)
              × (o.endpoint ≡ endpoint_of b)
              × (env.new_pipe (endpoint_of b) ≡ some o.proxy)
              × IsRetrying a.connection.max_retries o.should_continue
              × IsOffered env.accepts o env.factories calls))

  with_pipe-IsStarted :
      (a b : AsyncAgent) (pipe : Option P)
      → IsNamed a b
      → (b.connection ≡ a.connection)
      → env.new_pipe (endpoint_of b) ≡ pipe
      → IsStarted a (with_pipe env b pipe)
  unfolding with_pipe with_retries endpoint_of
  with_pipe-IsStarted a b none h c e = (h, inl (e, refl))
  with_pipe-IsStarted a b (some p) h c e =
      let o = options_of env b p in
      (
        h,
        inr (
          o,
          options_agent b p,
          options_endpoint b p,
          e ∙ ap some (options_proxy b p),
          subst (λ (x : Connection). IsRetrying x.max_retries o.should_continue) c
              (options_of-IsRetrying b p),
          offer-IsOffered env.accepts o env.factories,
        ),
      )

  start_agent-IsStarted : (i : ℕ) (a : AsyncAgent) → IsStarted a (start_agent env i a)
  unfolding start_agent
  start_agent-IsStarted i a =
      with_pipe-IsStarted a (named i a) (env.new_pipe (endpoint_of (named i a))) (named-IsNamed i a)
        (named_connection i a) refl

  -- What becomes of the agents, one after the other.
  abbrev pub AreStarted : List AsyncAgent → List AsyncAgent → List (F × Options P) → Type 0
  AreStarted [] ended calls = (ended ≡ []) × (calls ≡ [])
  AreStarted (a ∷ agents) ended calls =
      (b : AsyncAgent) × (later : List AsyncAgent) × (mine : List (F × Options P)) × (others : List
        (F × Options P))
      × (ended ≡ b ∷ later)
      × (calls ≡ mine ++ others)
      × IsStarted a (b, mine)
      × AreStarted agents later others

  start_from-AreStarted :
      (i : ℕ) (agents : List AsyncAgent)
      → AreStarted agents (start_from env i agents).0 (start_from env i agents).1
  unfolding start_from
  start_from-AreStarted i [] = (refl, refl)
  start_from-AreStarted i (a ∷ agents) =
      let here = start_agent env i a in
      let later = start_from env (suc i) agents in
      (
        here.0,
        later.0,
        here.1,
        later.1,
        refl,
        refl,
        start_agent-IsStarted i a,
        start_from-AreStarted (suc i) agents,
      )

-- With a factory or more, `Start` goes through all agents in order. Each gets a name, its own if it has
-- one, and its backends its timeout. If its pipe cannot be built no factory is called for it, and the
-- other agents are started nevertheless. Else it is offered with its pipe, on the same options, to the
-- factories in order up to the first that accepts it. An agent with a positive number of retries
-- continues at exactly the attempts up to that number, and any other at every attempt that an int
-- can count.
pub start-AreStarted :
    {F P : Type 0} (env : Environment F P) (f : F) (fs : List F) (agents : List AsyncAgent)
    → env.factories ≡ f ∷ fs
    → (ended : List AsyncAgent) × (calls : List (F × Options P)) × (start env agents
        ≡ some (ended, calls))
      × AreStarted env agents ended calls
unfolding start
start-AreStarted env f fs agents h =
    let all = start_from env 0 agents in
    (all.0, all.1, ap (λ l. if_any l all) h, start_from-AreStarted env 0 agents)
