-- ===== src/Proxy/Merging/Sequential.antt =====
-- proxy/merging.go sequentialMerge, with the default combiner: the backends one after the other, each
-- request with parameters taken from the responses before. `sprint` is `fmt.Sprintf("%v", v)`, and
-- `read_all` what `io.ReadAll` gives for what is left of a body.
pub mod Keeps
pub mod Ends
pub mod Registry
pub mod Owner
use Prim.Native.String
use lura_p.Common.{
  ℕ, zero, suc, ◌-◌, Bool, true, false, not, String, List, [], ◌∷◌, ◌++◌, Option, none, some, ◌>>=◌,
  ◌==◌, leb, str_eq, if◌then◌else◌, length, get_elem?,
}
use lura_p.Value.{
  Value, null, bool, number, text, array, obj, Items, nil, item, Dict, end, get, as_dict,
}
use lura_p.Register.{register, get as find}
use lura_p.Proxy.{Response, Request, Error}
use lura_p.Proxy.Merging.Progress.{
  Progress, Replacement, assign, data_of, descend, drained, found_in, last_key, owner_from,
  param_of, payload_of, set_param,
}
use lura_p.Proxy.Merging.{
  bare, combine_data, Accumulator, new_accumulator, merge, result, Outcome, failed, part, Filterer,
}

-- What stands at one index of the replacements, the filters and the proxies; a proxy is what
-- `sequentialRequestPart` sends for a request.
pub record Stage : Type 0 where
  pub replacements : List Replacement
  pub filter : Option Filterer
  pub proxy : Request → Outcome

-- How the loop ends: a return at the first backend, a break, or after the last backend.
pub data End : Type 0 where
  aborted : Error → End
  broken : Accumulator → End
  finished : Accumulator → End

-- The error of the merge: the first backend's own, or the accumulator's.
pub data SequentialError : Type 0 where
  own : Error → SequentialError
  merged : List Error → SequentialError

abbrev pub result_of : Accumulator → Option Response × Option SequentialError
result_of acc =
    ((result acc).0, elim (result acc).1 [ none ↦ none | some errs ↦ some (merged errs) ])

abbrev pub conclude : End → Option Response × Option SequentialError
conclude (aborted err) = (none, some (own err))
conclude (broken acc) = result_of acc
conclude (finished acc) = result_of acc

module _ (sprint : Value → String) (read_all : String → Option String) where
  -- What a replacement does with the response it refers to.
  unfoldable pub replace_from : Replacement → Response → Progress → Progress
  replace_from r p st =
      let found = found_in st.registry r.destination in
      let from_body : Progress = elim p.io [
        | none ↦ st
        | some content ↦ elim (read_all content) [
          | none ↦ st
          | some buf ↦ assign r.destination buf (drained r.backend_index st)
        ]
      ] in
      let d = descend r.source (data_of st r.backend_index p) in
      let from_data : Progress = elim (get (last_key r.source) d) [
        | none ↦ st
        | some v ↦ assign r.destination (param_of sprint v) st
      ] in
      if not (str_eq found "")
      then record st { request = set_param r.destination found st.request }
      else if r.full_response
      then from_body
      else from_data

  -- One round of the loop over the replacements of backend `i`.
  unfoldable pub replace : ℕ → Replacement → Progress → Progress
  unfolding replace_from
  replace i r st =
      if leb i r.backend_index then st else elim (get_elem? st.parts r.backend_index >>= (λ p. p)) [
        | none ↦ st
        | some p ↦ replace_from r p st
      ]

  -- The loop over the replacements.
  unfoldable pub propagate : ℕ → List Replacement → Progress → Progress
  unfolding replace
  propagate i [] st = st
  propagate i (r ∷ rs) st = propagate i rs (replace i r st)

  -- A backend that its filter leaves out.
  abbrev pub skip : Progress → Progress
  skip st = record st {
    parts = st.parts ++ some (bare end true) ∷ [];
    acc = record st.acc { pending = st.acc.pending - 1 };
  }

  abbrev pub owner_after : ℕ → Progress → Response → Option ℕ
  owner_after i st res = owner_from i st.owner (payload_of st.acc.partial) res.payload

  abbrev pub shared_after : ℕ → Progress → Option ℕ
  shared_after i st = elim st.acc.partial [ none ↦ some i | some r ↦ none ]

  -- `acc.Merge(response, nil)` and `parts[i] = response`
  abbrev pub receive : ℕ → Response → Progress → Progress
  receive i res st = record st {
    acc = merge combine_data st.acc (some res) none;
    parts = st.parts ++ some res ∷ [];
    owner = owner_after i st res;
    shared = shared_after i st;
  }

  abbrev pub is_left_out : Stage → Request → Bool
  is_left_out s request = elim s.filter [ none ↦ false | some keeps ↦ not (keeps request) ]

  -- The loop over the backends, from `i` on.
  unfoldable pub run : ℕ → List Stage → Progress → End
  unfolding propagate
  run i [] st = finished st.acc
  run i (s ∷ stages) st =
      let ready = if i == 0 then st else propagate i s.replacements st in
      let skipped = run (suc i) stages (skip ready) in
      let called : End = elim (s.proxy ready.request) [
        | failed err ↦
            if i == 0 then aborted err else broken (merge combine_data ready.acc none (some err))
        | part res ↦
            let next = receive i res ready in
            let rest = run (suc i) stages next in if res.is_complete then rest else broken next.acc
      ] in
      if is_left_out s ready.request then skipped else called

  abbrev pub start : ℕ → Request → Progress
  start total request = record {
    acc = new_accumulator total;
    parts = [];
    owner = none;
    shared = none;
    registry = [];
    request = request;
  }

  -- `sequentialMerge`
  unfoldable pub sequential_merge : List Stage → Request → Option Response × Option SequentialError
  unfolding run new_accumulator result
  sequential_merge stages request = conclude (run 0 stages (start (length stages) request))
