-- ===== src/Tests/Agents.antt =====
-- Two agents and two factories, the second of which accepts; a request that is cloned.
use lura_p.Common.{
  ℕ, String, List, [], ◌∷◌, none, some, ◌≡◌, refl, ◌==◌, str_eq, if◌then◌else◌, arith,
}
use lura_p.Config.{AsyncAgent}
use lura_p.Async.{Environment, Options, start}
use lura_p.Async.Started.{AreStarted, start-AreStarted}
use lura_p.Proxy.Cloning.{Store, RequestRef, view, clone_request}
use lura_p.Proxy.Cloning.Shown.{clone_request-view}
use lura_p.Proxy.Cloning.Apart.{
  Change, set_header, edit_header, set_param, read_body, change_all, clone_request-change_all,
}
use lura_p.Tests.Settings.{agent}

-- The second agent's pipe cannot be built.
abbrev environment : Environment ℕ String
environment = record {
  factories = 1 ∷ 2 ∷ [];
  accepts = λ f o. f == 2;
  new_pipe = λ e. if str_eq e.endpoint "broken" then none else some e.endpoint;
  to_lower = λ s. s;
  drawn = λ n. 0;
}

abbrev agents : List AsyncAgent
agents = agent ∷ record agent { name = "broken" } ∷ []

start-AreStarted_example :
    (ended : List AsyncAgent) × (calls : List (ℕ × Options String)) × (start environment agents
      ≡ some (ended, calls))
    × AreStarted environment agents ended calls
start-AreStarted_example = start-AreStarted environment 1 (2 ∷ []) agents refl

abbrev store : Store
store = record {
  next = 5;
  slice = λ p. "json" ∷ [];
  lists = λ p. if p == 1 then ("Accept", 0) ∷ [] else [];
  texts = λ p. ("id", "7") ∷ [];
  reader = λ p. "body";
  url = λ p. "/posts";
}

abbrev request : RequestRef
request = record {
  method = "GET";
  url = some 4;
  query = none;
  path = "/posts";
  body = some 3;
  params = some 2;
  headers = some 1;
}

clone_request-view_example :
    (view (clone_request some request store).0 (clone_request some request store).1.0
      ≡ view store request)
    × (view (clone_request some request store).0 (clone_request some request store).1.1
        ≡ view store request)
clone_request-view_example =
    clone_request-view some request store
      (omega arith, tt, omega arith, omega arith, tt, (omega arith, tt)) refl

abbrev changes : List Change
changes =
    edit_header "Accept" ("xml" ∷ [])
    ∷ set_param "id" "8"
    ∷ read_body ""
    ∷ set_header "Accept" []
    ∷ []

clone_request-change_all_example :
    let done = clone_request some request store in
    view (change_all done.1.1 changes done.0) done.1.0 ≡ view store request
clone_request-change_all_example =
    clone_request-change_all some request store changes
      (omega arith, tt, omega arith, omega arith, tt, (omega arith, tt)) refl
