-- ===== src/Async.antt =====
-- async/asyncagent.go: `Start`, which builds a pipe for each async agent and hands it to the first
-- factory that takes it. The factory of the pipes and the agents' factories are arguments; the
-- context, the ping channel, the error group and the logger go with the options unchanged and are
-- left out. An agent's pointer stands in the list once.
pub mod Started
use lura_p.Common.{
  ℕ, zero, suc, ◌+◌, ◌/◌, ◌%◌, Bool, true, false, String, List, [], ◌∷◌, ◌++◌, Option, none, some,
  map, str_eq, ltb, if◌then◌else◌, get_elem?,
}
use lura_p.Common.Int.{ℤ, pos, le_int}
use lura_p.Common.Decimal.{digit, decimal}
use lura_p.Config.{AsyncAgent, Backend, EndpointConfig, Connection}
use lura_p.Config.Uri.{◌<>◌}
use lura_p.Value.{end}
use lura_p.Backoff.{get_by_name}

-- math.MaxInt
abbrev pub max_int : ℕ
max_int = 9_223_372_036_854_775_807

-- `fmt.Sprintf("AsyncAgent-%02d", i)`
unfoldable pub default_name : ℕ → String
unfolding decimal
default_name i = "AsyncAgent-" <> (if ltb i 10 then "0" <> digit i else decimal (suc i) i)

-- The Options of the source.
pub record Options (P : Type 0) : Type 0 where
  pub agent : AsyncAgent
  pub endpoint : EndpointConfig
  pub proxy : P
  pub should_continue : ℤ → Bool
  pub backoff_f : ℕ → ℤ

-- The agent with its name and the timeouts of its backends.
unfoldable pub named : ℕ → AsyncAgent → AsyncAgent
unfolding default_name
named i a = record a {
  name = if str_eq a.name "" then default_name i else a.name;
  backend = map (λ (b : Backend). record b { timeout = a.consumer.timeout }) a.backend;
}

-- The endpoint of the agent's pipe; what the source does not name has its zero value.
unfoldable pub endpoint_of : AsyncAgent → EndpointConfig
endpoint_of a = record {
  endpoint = a.name;
  method = "";
  backend = a.backend;
  concurrent_calls = pos 0;
  timeout = a.consumer.timeout;
  cache_ttl = pos 0;
  query_string = [];
  extra_config = a.extra_config;
  headers_to_pass = [];
  output_encoding = "";
}

-- `if agent.Connection.MaxRetries <= 0 { agent.Connection.MaxRetries = math.MaxInt }`
unfoldable pub with_retries : AsyncAgent → AsyncAgent
with_retries a = record a {
  connection = record a.connection {
    max_retries =
        if le_int a.connection.max_retries (pos 0) then pos max_int else a.connection.max_retries;
  };
}

-- What `Start` is given beside the agents.
pub record Environment (F P : Type 0) : Type 0 where
  pub factories : List F
  pub accepts : F → Options P → Bool
  -- `pf.New`; `none` is an error.
  pub new_pipe : EndpointConfig → Option P
  pub to_lower : String → String
  pub drawn : ℕ → ℕ

-- `if len(a) == 0 { return … }`
abbrev pub if_any : {F A : Type 0} → List F → A → Option A
if_any [] a = none
if_any (f ∷ fs) a = some a

module _ {F P : Type 0} where
  -- The calls of the loop over the factories.
  unfoldable pub offer : (F → Options P → Bool) → Options P → List F → List (F × Options P)
  offer accepts o [] = []
  offer accepts o (f ∷ fs) =
      let rest = offer accepts o fs in (f, o) ∷ (if accepts f o then [] else rest)

  unfoldable pub options_of : Environment F P → AsyncAgent → P → Options P
  unfolding with_retries endpoint_of
  options_of env a p = record {
    agent = with_retries a;
    endpoint = endpoint_of a;
    proxy = p;
    should_continue = λ i. le_int i (with_retries a).connection.max_retries;
    backoff_f = get_by_name env.to_lower env.drawn a.connection.backoff_strategy;
  }

  -- The rest of a round, once the pipe is built or not.
  unfoldable pub with_pipe :
      Environment F P → AsyncAgent → Option P → AsyncAgent × List (F × Options P)
  unfolding with_retries options_of offer
  with_pipe env a none = (a, [])
  with_pipe env a (some p) = (with_retries a, offer env.accepts (options_of env a p) env.factories)

  -- One round of the loop: the agent after it, and the calls of factories.
  unfoldable pub start_agent : Environment F P → ℕ → AsyncAgent → AsyncAgent × List (F × Options P)
  unfolding named endpoint_of with_pipe
  start_agent env i a = with_pipe env (named i a) (env.new_pipe (endpoint_of (named i a)))

  unfoldable pub start_from :
      Environment F P → ℕ → List AsyncAgent → List AsyncAgent × List (F × Options P)
  unfolding start_agent
  start_from env i [] = ([], [])
  start_from env i (a ∷ agents) =
      let here : AsyncAgent × List (F × Options P) = start_agent env i a in
      let later : List AsyncAgent × List (F × Options P) = start_from env (suc i) agents in
      (here.0 ∷ later.0, here.1 ++ later.1)

  -- `a.Start(…)`: `none` is ErrNoAgents.
  unfoldable pub start :
      Environment F P → List AsyncAgent → Option (List AsyncAgent × List (F × Options P))
  unfolding start_from
  start env agents = if_any env.factories (start_from env 0 agents)
