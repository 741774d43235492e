-- ===== src/Proxy/Merging/Sequential/Ends.antt =====
-- How the loop of the sequential merge ends, and what the result tells of it.
use lura_p.Common.{
  ℕ, suc, ◌-◌, Bool, true, false, not, ◌||◌, String, List, [], ◌∷◌, ◌++◌, Option, none, some, ◌≡◌,
  refl, if◌then◌else◌, Bool-cases, Option-cases, inl, inr, arith, length, ltb, ◌==◌, subst,
}
use lura_p.Value.{Value}
use lura_p.Proxy.{Response, Request, Error}
use lura_p.Proxy.Merging.{
  combine_data, combine_parts, Accumulator, incomplete, new_accumulator, new_merge_error, is_nil,
  merge, result, Outcome, failed, part,
}
use lura_p.Proxy.Merging.Sequential.Keeps.{propagate-keeps}
use lura_p.Proxy.Merging.Progress.{Progress, Replacement}
use lura_p.Proxy.Merging.Sequential.{
  Stage, End, aborted, broken, finished, propagate, skip, receive, is_left_out, run, start,
  result_of, conclude, sequential_merge,
}

-- Not a complete response.
abbrev pub IsPartial : Option Response → Type 0
IsPartial none = Unit
IsPartial (some r) = r.is_complete ≡ false

-- A break leaves an accumulator whose result is not complete; the loop's own end leaves none pending
-- and no error.
abbrev IsEnd : End → Type 0
IsEnd (aborted err) = Unit
IsEnd (broken acc) = IsPartial (result acc).0
IsEnd (finished acc) = (acc.pending ≡ 0) × (acc.errs ≡ [])

-- A loop's head has one pending for each backend to come, and no error.
abbrev IsHead : List Stage → Accumulator → Type 0
IsHead stages acc = (acc.pending ≡ length stages) × (acc.errs ≡ [])

result-error :
    (pending : ℕ) (p : Option Response) (es : List Error)
    → is_nil es ≡ false
    → IsPartial (result (record { pending = pending; partial = p; errs = es })).0
unfolding result
result-error pending none es h = tt
result-error pending (some r) es h = elim (Bool-cases (ltb 0 pending)) [
  | inl e ↦ rw e refl
  | inr e ↦ rw (e, h) refl
]

result-partial :
    (pending : ℕ) (p : Option Response) (es : List Error)
    → IsPartial p
    → IsPartial (result (record { pending = pending; partial = p; errs = es })).0
unfolding result
result-partial pending none es h = tt
result-partial pending (some r) es h = elim (Bool-cases (ltb 0 pending || not (is_nil es))) [
  | inl e ↦ rw e refl
  | inr e ↦ simp e h
]

combine_data-partial :
    (base res : Response)
    → res.is_complete ≡ false
    → (combine_data 2 (some base ∷ some res ∷ [])).is_complete ≡ false
unfolding combine_data combine_parts
combine_data-partial base res h = ground (arith, h)

-- A partial response makes the accumulator's partial.
merge-partial :
    (acc : Accumulator) (res : Response)
    → res.is_complete ≡ false
    → IsPartial (merge combine_data acc (some res) none).partial
unfolding merge
merge-partial acc res h = elim (Option-cases acc.partial) [
  | inl e ↦ simp e h
  | inr (base, e) ↦ simp e (combine_data-partial base res h)
]

if-IsEnd : (b : Bool) (x y : End) → IsEnd x → IsEnd y → IsEnd (if b then x else y)
if-IsEnd true x y hx hy = hx
if-IsEnd false x y hx hy = hy

is_nil-append : (es : List Error) (e : Error) → is_nil (es ++ e ∷ []) ≡ false
is_nil-append [] e = refl
is_nil-append (x ∷ es) e = refl

broken-IsEnd : (acc : Accumulator) → IsPartial acc.partial → IsEnd (broken acc)
broken-IsEnd acc h = result-partial acc.pending acc.partial acc.errs h

module _ (sprint : Value → String) (read_all : String → Option String) where
  propagate-IsHead :
      (i : ℕ) (rs : List Replacement) (st : Progress) (stages : List Stage)
      → IsHead stages st.acc
      → IsHead stages (propagate sprint read_all i rs st).acc
  propagate-IsHead i rs st stages h =
      propagate-keeps sprint read_all (λ st. IsHead stages st.acc) (λ q st h. h) (λ k v st h. h)
        (λ j st h. h) i rs st h

  error-IsEnd :
      (i : ℕ) (acc : Accumulator) (err : Error)
      → IsEnd (if i == 0 then aborted err else broken (merge combine_data acc none (some err)))
  unfolding merge
  error-IsEnd i acc err = elim (Bool-cases (i == 0)) [
    | inl e ↦ rw e tt
    | inr e ↦ rw e (
        result-error (acc.pending - 1) (incomplete acc.partial) (acc.errs ++ err ∷ [])
          (is_nil-append acc.errs err))
  ]

  part-IsEnd :
      (i : ℕ) (res : Response) (st : Progress) (rest : End)
      → IsEnd rest
      → IsEnd (if res.is_complete then rest else broken (receive sprint read_all i res st).acc)
  part-IsEnd i res st rest h = elim (Bool-cases res.is_complete) [
    | inl e ↦ simp e h
    | inr e ↦
        simp e
          (broken-IsEnd (merge combine_data st.acc (some res) none) (merge-partial st.acc res e))
  ]

  called-IsEnd :
      (i : ℕ) (o : Outcome) (st : Progress) (rest : Response → End)
      → ((res : Response) → IsEnd (rest res))
      → IsEnd (elim o as (λ _. End) [
        | failed err ↦
            if i == 0 then aborted err else broken (merge combine_data st.acc none (some err))
        | part res ↦
            if res.is_complete then rest res else broken (receive sprint read_all i res st).acc
      ])
  called-IsEnd i (failed err) st rest h = error-IsEnd i st.acc err
  called-IsEnd i (part res) st rest h = part-IsEnd i res st (rest res) (h res)

  receive-IsHead :
      (i : ℕ) (s : Stage) (stages : List Stage) (res : Response) (st : Progress)
      → IsHead (s ∷ stages) st.acc
      → IsHead stages (receive sprint read_all i res st).acc
  unfolding merge
  receive-IsHead i s stages res st h = (omega (arith, h.0), h.1)

  run-IsEnd :
      (i : ℕ) (stages : List Stage) (st : Progress)
      → IsHead stages st.acc
      → IsEnd (run sprint read_all i stages st)
  unfolding run
  run-IsEnd i [] st h = h
  run-IsEnd i (s ∷ stages) st h =
      let ready = if i == 0 then st else propagate sprint read_all i s.replacements st in
      let head : IsHead (s ∷ stages) ready.acc = elim (Bool-cases (i == 0)) [
        | inl e ↦ rw e h
        | inr e ↦ rw e (propagate-IsHead i s.replacements st (s ∷ stages) h)
      ] in
      let skipped : IsEnd (run sprint read_all (suc i) stages (skip sprint read_all ready)) =
        run-IsEnd (suc i) stages (skip sprint read_all ready) (omega (arith, head.0), head.1) in
      let called =
        called-IsEnd i (s.proxy ready.request) ready
          (λ res. run sprint read_all (suc i) stages (receive sprint read_all i res ready))
          (λ res.
            run-IsEnd (suc i) stages (receive sprint read_all i res ready)
              (receive-IsHead i s stages res ready head)) in
      if-IsEnd (is_left_out sprint read_all s ready.request) _ _ skipped called

-- The loop's own end, with nothing pending and no error.
abbrev pub IsThrough : End → Type 0
IsThrough e = (acc : Accumulator) × (e ≡ finished acc) × (acc.pending ≡ 0) × (acc.errs ≡ [])

IsPartial-some :
    (o : Option Response) (r : Response) → o ≡ some r → IsPartial o → r.is_complete ≡ false
IsPartial-some o r e h = subst IsPartial e h

no_error : (acc : Accumulator) → acc.errs ≡ [] → (result_of acc).1 ≡ none
unfolding result new_merge_error
no_error acc e = rw e refl

conclude-IsThrough :
    (e : End) (r : Response)
    → IsEnd e
    → (conclude e).0 ≡ some r
    → r.is_complete ≡ true
    → IsThrough e × ((conclude e).1 ≡ none)
conclude-IsThrough (aborted err) r h q c = ground (arith, q)
conclude-IsThrough (broken acc) r h q c =
    let partial : r.is_complete ≡ false = IsPartial-some (result acc).0 r q h in
    ground (arith, partial, c)
conclude-IsThrough (finished acc) r h q c = ((acc, refl, h.0, h.1), no_error acc h.1)

-- Where the sequential merge gives a complete response, its loop went through all the backends, with
-- none left pending and no error, and it returns no error.
pub sequential_merge-IsThrough :
    (sprint : Value → String) (read_all : String → Option String) (stages : List Stage)
    (request : Request) (r : Response)
    → (sequential_merge sprint read_all stages request).0 ≡ some r
    → r.is_complete ≡ true
    → IsThrough (run sprint read_all 0 stages (start sprint read_all (length stages) request))
      × ((sequential_merge sprint read_all stages request).1 ≡ none)
unfolding sequential_merge
sequential_merge-IsThrough sprint read_all stages request r e c =
    conclude-IsThrough
      (run sprint read_all 0 stages (start sprint read_all (length stages) request)) r
      (run-IsEnd sprint read_all 0 stages (start sprint read_all (length stages) request)
        (unfold new_accumulator in (refl, refl)))
      e c
