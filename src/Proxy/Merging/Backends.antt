-- ===== src/Proxy/Merging/Backends.antt =====
-- proxy/merging.go parallelMerge over the pipes of the backends, as newMulti of proxy/factory.go hands
-- them over, with the default combiner and filterer factory. A panic of a goroutine ends the process.
pub mod Whole
use lura_p.Common.{ℕ, Bool, String, List, [], ◌∷◌, Option, none, some}
use lura_p.Config.{Backend}
use lura_p.Proxy.{Request, Response, Error, err_other}
use lura_p.Proxy.Http.{Network}
use lura_p.Proxy.Merging.{combine_data, request_part, parallel_merge, Outcome as Sent}
use lura_p.Proxy.Modifiers.{Outcome, returned, crashed, Proxy}
use lura_p.Proxy.Stack.{Pipe, new_stack}

pub record Service (T : Type 0) : Type 0 where
  -- What the pipe of a backend asks of the outside.
  pub pipe_of : Backend → Pipe
  pub network_of : Backend → Network T
  -- Whether the merge's context is done when the answer of a backend is to be handed over.
  pub is_done : Backend → Bool
  -- The order in which the outcomes arrive.
  pub arrivals : List Sent → List Sent
  -- The text of a merge's errors.
  pub message : List Error → String

module _ {T : Type 0} (env : Service T) where
  -- `pf.newStack(backend)`
  abbrev pub backend_stack : Backend → Proxy
  backend_stack b = new_stack (env.pipe_of b) (env.network_of b) b

  -- What the goroutine of a backend sends, in front of the others; none where one panics.
  abbrev pub before_sent : Bool → Outcome → Option (List Sent) → Option (List Sent)
  before_sent done crashed rest = none
  before_sent done (returned res err) none = none
  before_sent done (returned res err) (some sent) = some (request_part res err done ∷ sent)

  -- The goroutines of the backends, at a call and for a request.
  unfoldable pub sent_by : ℕ → Request → List Backend → Option (List Sent)
  unfolding new_stack
  sent_by call r [] = some []
  sent_by call r (b ∷ bs) = before_sent (env.is_done b) (backend_stack b call r) (sent_by call r bs)

  -- The merge's errors as one error.
  abbrev pub joined : Option (List Error) → Option Error
  joined none = none
  joined (some errs) = some (err_other (env.message errs))

  abbrev pub merged_all : Option (List Sent) → Outcome
  merged_all none = crashed
  merged_all (some sent) =
      let o = parallel_merge combine_data (env.arrivals sent) in returned o.0 (joined o.1)

  -- `parallelMerge` of the backends' pipes.
  unfoldable pub parallel : List Backend → Proxy
  unfolding sent_by parallel_merge
  parallel backends call r = merged_all (sent_by call r backends)
