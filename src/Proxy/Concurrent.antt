-- ===== src/Proxy/Concurrent.antt =====
-- proxy/concurrent.go: the same request sent several times, the first complete response wins.
use lura_p.Common.{
  Bool, false, List, [], ◌∷◌, Option, none, some, ◌≡◌, refl, if◌then◌else◌, Bool-cases, inl, inr,
  map,
}
use lura_p.Proxy.{Response, Error, err_null_result, err_context_done}

-- What one round of the loop receives.
pub data Event : Type 0 where
  received : Option Response → Event
  failed : Error → Event
  done : Event

-- `processConcurrentCall`, given what `next` returned and which way its last `select` went.
unfoldable pub process_concurrent_call : Option Response → Option Error → Bool → Event
process_concurrent_call result (some err) cancelled = failed err
process_concurrent_call none none cancelled = failed err_null_result
process_concurrent_call (some r) none cancelled =
    if cancelled then failed err_context_done else received (some r)

-- `response != nil && response.IsComplete`
abbrev pub is_complete : Option Response → Bool
is_complete none = false
is_complete (some r) = r.is_complete

-- The loop over the rounds, with the `response` and `err` that the rounds before have left.
unfoldable pub collect :
    Option Response → Option Error → List Event → Option Response × Option Error
collect response err [] = (response, err)
collect response err (received r ∷ events) =
    let rest = collect r err events in if is_complete r then (r, none) else rest
collect response err (failed e ∷ events) = collect response (some e) events
collect response err (done ∷ events) = collect response err events

-- A round of the loop: a call ended, with what `next` returned and which way its last `select` went,
-- or the context of the request is done.
pub data Round : Type 0 where
  ended : Option Response → Option Error → Bool → Round
  context_done : Round

abbrev pub event_of : Round → Event
event_of (ended result err cancelled) = process_concurrent_call result err cancelled
event_of context_done = done

-- The proxy of `NewConcurrentMiddleware`, over its `ConcurrentCalls` rounds.
unfoldable pub concurrent : List Round → Option Response × Option Error
unfolding collect
concurrent rounds = collect none none (map event_of rounds)

-- The first complete response.
abbrev pub first_complete : List Event → Option Response
first_complete [] = none
first_complete (received r ∷ events) = if is_complete r then r else first_complete events
first_complete (failed e ∷ events) = first_complete events
first_complete (done ∷ events) = first_complete events

-- The last response and the last error, and what stands where there is none.
abbrev pub last_response : Option Response → List Event → Option Response
last_response r [] = r
last_response r (received q ∷ events) = last_response q events
last_response r (failed e ∷ events) = last_response r events
last_response r (done ∷ events) = last_response r events

abbrev pub last_error : Option Error → List Event → Option Error
last_error err [] = err
last_error err (received q ∷ events) = last_error err events
last_error err (failed e ∷ events) = last_error (some e) events
last_error err (done ∷ events) = last_error err events

collect_lem :
    (response : Option Response) (err : Option Error) (events : List Event)
    → collect response err events ≡ elim (first_complete events) [
      | none ↦ (last_response response events, last_error err events)
      | some r ↦ (some r, none)
    ]
unfolding collect
collect_lem response err [] = refl
collect_lem response err (received none ∷ events) = collect_lem none err events
collect_lem response err (received (some r) ∷ events) = elim (Bool-cases r.is_complete) [
  | inl whole ↦ simp whole
  | inr partial ↦ simp (partial, collect_lem (some r) err events)
]
collect_lem response err (failed e ∷ events) = collect_lem response (some e) events
collect_lem response err (done ∷ events) = collect_lem response err events

-- The first complete response is returned with no error; where no round receives one, the last
-- response received and the last error are, each if there was one.
pub concurrent-first_complete :
    (rounds : List Round)
    → let events : List Event = map event_of rounds in
      concurrent rounds ≡ elim (first_complete events) [
        | none ↦ (last_response none events, last_error none events)
        | some r ↦ (some r, none)
      ]
unfolding concurrent
concurrent-first_complete rounds = collect_lem none none (map event_of rounds)
