-- ===== src/Proxy/Merging/Parallel.antt =====
-- The response that the parallel merge makes of its arrivals, in whatever order they come.
use lura_p.Common.{
  ℕ, String, List, [], ◌∷◌, Option, none, some, length, all, any, ◌≡◌, refl, All, is_some, ap, ◌∙◌,
  arith, ◌>>=◌,
}
use lura_p.Value.{Value}
use lura_p.Proxy.{Response, Error}
use lura_p.Proxy.Merging.{
  combine_data, Accumulator, new_accumulator, new_merge_error, result, Outcome, merge_arrivals,
  parallel_merge,
}
use lura_p.Proxy.Merging.Accumulate.{
  IsGood, is_complete_part, is_part, errors, latest, get_payload, held, flag, state, or_else,
  Summary, merge_arrivals-Summary,
}

-- `Result` once all arrivals are in.
result_some :
    (n : ℕ) (p : Option Response) (es : List Error)
    → n ≡ 0
    → is_some (result (state n p es)).0 ≡ is_some p
unfolding result
result_some n none es h = refl
result_some n (some r) es h = ground arith

result_complete :
    (n : ℕ) (p : Option Response) (es : List Error) (r : Response)
    → n ≡ 0
    → (result (state n p es)).0 ≡ some r
    → (r.is_complete ≡ flag (state n p es)) × (r.payload ≡ (p >>= λ q. q.payload))
unfolding result
result_complete n none es r h e = cc
result_complete n (some base) [] r h e = ground arith
result_complete n (some base) (x ∷ es) r h e = ground arith

held_payload : (k : String) (p : Option Response) → get_payload k (p >>= λ q. q.payload) ≡ held k p
held_payload k none = refl
held_payload k (some r) = refl

abbrev after : List Outcome → Accumulator
after os = merge_arrivals combine_data (new_accumulator (length os)) os

summary : (os : List Outcome) → All IsGood os → Summary (new_accumulator (length os)) (after os) os
unfolding new_accumulator
summary os g = merge_arrivals-Summary os (new_accumulator (length os)) tt g

or_none : (o : Option Value) → or_else o none ≡ o
or_none none = refl
or_none (some v) = refl

-- Where every response has data, the parallel merge gives a response exactly where a backend has sent
-- one, and the error lists the errors of the others in the order of arrival.
pub parallel_merge-errors :
    (os : List Outcome)
    → All IsGood os
    → (is_some (parallel_merge combine_data os).0 ≡ any is_part os)
      × ((parallel_merge combine_data os).1 ≡ new_merge_error (errors os))
unfolding parallel_merge
parallel_merge-errors os g =
    let s = summary os g in
    let end = after os in
    (
      result_some end.pending end.partial end.errs (pending_zero os g) ∙ s.parts,
      unfold result in ap new_merge_error s.errs,
    )
  where
    pending_zero : (os : List Outcome) → All IsGood os → (after os).pending ≡ 0
    pending_zero os g = omega (arith, (summary os g).pending)

-- Where every response has data, a merged response is complete exactly where every backend has sent a
-- complete one, and it has at each key the value of the last arrival that has the key.
pub parallel_merge-combined :
    (os : List Outcome) (r : Response)
    → All IsGood os
    → (parallel_merge combine_data os).0 ≡ some r
    → (r.is_complete ≡ all is_complete_part os)
      × ((k : String) → get_payload k r.payload ≡ latest k os)
unfolding parallel_merge
parallel_merge-combined os r g e =
    let s = summary os g in
    let end = after os in
    let (flags, payload) =
      result_complete end.pending end.partial end.errs r (omega (arith, s.pending)) e in
    (flags ∙ s.flags, λ k. rw payload (held_payload k end.partial ∙ s.held_at k ∙ or_none _))
