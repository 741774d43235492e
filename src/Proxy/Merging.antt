-- ===== src/Proxy/Merging.antt =====
-- proxy/merging.go: the accumulator of partial responses, the default combiner, and the parallel
-- merge over an order of arrivals.
pub mod Accumulate
pub mod Parallel
pub mod Order
pub mod Progress
pub mod Sequential
pub mod Backends
pub mod Choice
use lura_p.Common.{
  ℕ, suc, ◌-◌, Bool, true, false, ◌&&◌, ◌||◌, not, String, List, [], ◌∷◌, ◌++◌, Option, none, some,
  ◌==◌, ltb, if◌then◌else◌, length,
}
use lura_p.Value.{Dict, end, set_all}
use lura_p.Proxy.{Response, Request, Metadata, Error, err_null_result, err_context_done}

-- `func(int, []*Response) *Response`
abbrev pub ResponseCombiner : Type 0
ResponseCombiner = ℕ → List (Option Response) → Response

-- A `&Response{Data: …, IsComplete: …}` with no metadata and no reader.
abbrev pub bare : Dict → Bool → Response
bare d complete = record {
  payload = some d;
  is_complete = complete;
  metadata = record { headers = []; status_code = 0 };
  io = none;
}

-- The loop of `combineData`: the flag and the response so far. The loop writes into the map of the
-- first part; the model returns the map.
unfoldable pub combine_parts : Bool → Option Dict → List (Option Response) → Bool × Option Dict
combine_parts complete found [] = (complete, found)
combine_parts complete found (none ∷ parts) = combine_parts false found parts
combine_parts complete found (some part ∷ parts) = elim part.payload [
  | none ↦ combine_parts false found parts
  | some d ↦
      combine_parts (complete && part.is_complete)
        (some (elim found [ none ↦ d | some base ↦ set_all d base ])) parts
]

-- `combineData(total, parts)`
unfoldable pub combine_data : ResponseCombiner
combine_data total parts =
    let (complete, found) = combine_parts (length parts == total) none parts in
    elim found [ none ↦ bare end complete | some d ↦ bare d complete ]

pub record Accumulator : Type 0 where
  pub pending : ℕ  -- an int; it is only compared with 0, so it stops there
  pub partial : Option Response
  pub errs : List Error

-- `newIncrementalMergeAccumulator(total, combiner)`
unfoldable pub new_accumulator : ℕ → Accumulator
new_accumulator total = record { pending = total; partial = none; errs = [] }

abbrev pub incomplete : Option Response → Option Response
incomplete none = none
incomplete (some r) = some (record r { is_complete = false })

-- `acc.Merge(res, err)`
unfoldable pub merge : ResponseCombiner → Accumulator → Option Response → Option Error → Accumulator
merge rc acc res (some err) = record acc {
  pending = acc.pending - 1;
  errs = acc.errs ++ err ∷ [];
  partial = incomplete acc.partial;
}
merge rc acc none none = record acc {
  pending = acc.pending - 1;
  errs = acc.errs ++ err_null_result ∷ [];
}
merge rc acc (some res) none = record acc {
  pending = acc.pending - 1;
  partial = elim acc.partial [
    | none ↦ some res
    | some base ↦ some (rc 2 (some base ∷ some res ∷ []))
  ];
}

-- `newMergeError(errs)`: nil, or the errors themselves.
unfoldable pub new_merge_error : List Error → Option (List Error)
new_merge_error [] = none
new_merge_error (e ∷ errs) = some (e ∷ errs)

abbrev pub is_nil {ℓ} : {A : Type ℓ} → List A → Bool
is_nil [] = true
is_nil (x ∷ xs) = false

-- `acc.Result()`
unfoldable pub result : Accumulator → Option Response × Option (List Error)
result acc = (
  elim acc.partial [
    | none ↦ none
    | some r ↦
        if ltb 0 acc.pending || not (is_nil acc.errs)
        then some (record r { is_complete = false })
        else some r
  ],
  new_merge_error acc.errs,
)

-- What `requestPart` sends, on `failed` or on `out`.
pub data Outcome : Type 0 where
  failed : Error → Outcome
  part : Response → Outcome

-- `requestPart`, given what `next` returned and which way the final `select` went.
unfoldable pub request_part : Option Response → Option Error → Bool → Outcome
request_part res (some err) done = failed err
request_part none none done = failed err_null_result
request_part (some res) none done = if done then failed err_context_done else part res

abbrev pub Filterer : Type 0
Filterer = Request → Bool

-- `(i < filterCount) && (filters[i] != nil) && !filters[i](request)`, over the filters from `i` on
abbrev pub is_skipped : List (Option Filterer) → Request → Bool
is_skipped [] request = false
is_skipped (none ∷ filters) request = false
is_skipped (some keeps ∷ filters) request = not (keeps request)

abbrev pub rest_of : List (Option Filterer) → List (Option Filterer)
rest_of [] = []
rest_of (f ∷ filters) = filters

-- The first loop of `parallelMerge`: the outcomes of the backends that are not skipped, one of each
-- goroutine, in the order of the backends.
unfoldable pub launched {ℓ} :
    {P : Type ℓ} → (P → Outcome) → List (Option Filterer) → Request → List P → List Outcome
launched run filters request [] = []
launched run filters request (n ∷ next) =
    let rest : List Outcome = launched run (rest_of filters) request next in
    if is_skipped filters request then rest else run n ∷ rest

-- The second loop: one round for each arrival.
unfoldable pub merge_arrivals : ResponseCombiner → Accumulator → List Outcome → Accumulator
merge_arrivals rc acc [] = acc
merge_arrivals rc acc (failed err ∷ arrivals) =
    merge_arrivals rc (merge rc acc none (some err)) arrivals
merge_arrivals rc acc (part res ∷ arrivals) =
    merge_arrivals rc (merge rc acc (some res) none) arrivals

-- `parallelMerge` after the launch: the outcomes of `proxyCount` goroutines, in the order in which
-- the `select` receives them.
unfoldable pub parallel_merge :
    ResponseCombiner → List Outcome → Option Response × Option (List Error)
unfolding new_accumulator
parallel_merge rc arrivals = result (merge_arrivals rc (new_accumulator (length arrivals)) arrivals)
