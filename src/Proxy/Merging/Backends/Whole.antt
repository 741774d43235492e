-- ===== src/Proxy/Merging/Backends/Whole.antt =====
-- When the merged proxy of several backends answers, and when wholly.
use mathlib.Core.List.{Permᴰ}
use lura_p.Common.{
  ℕ, Bool, true, false, ◌&&◌, ◌||◌, not, List, [], ◌∷◌, Option, none, some, ◌≡◌, refl, ap, ◌∙◌, All,
  all, any, if◌then◌else◌, arith, is_some,
}
use lura_p.Config.{Backend}
use lura_p.Proxy.{Request, Error}
use lura_p.Proxy.Merging.{
  combine_data, request_part, parallel_merge, new_merge_error, failed, part, Outcome as Sent,
}
use lura_p.Proxy.Merging.Parallel.{parallel_merge-errors}
use lura_p.Proxy.Merging.Accumulate.{IsGood, HasData, errors, is_complete_part, is_part}
use lura_p.Proxy.Merging.Order.{completeness, completeness-merge, all-perm, any-perm, All-perm}
use lura_p.Proxy.Modifiers.{Outcome, returned, crashed}
use lura_p.Proxy.Merging.Backends.{
  Service, backend_stack, before_sent, sent_by, joined, merged_all, parallel,
}

abbrev pub is_crash : Outcome → Bool
is_crash crashed = true
is_crash (returned res err) = false

-- A response without an error; and one that is complete.
abbrev pub is_answer : Outcome → Bool
is_answer (returned (some r) none) = true
is_answer _ = false

abbrev pub is_whole : Outcome → Bool
is_whole (returned (some r) none) = r.is_complete
is_whole _ = false

-- A response without an error has data.
abbrev pub IsFull : Outcome → Type 0
IsFull (returned (some r) none) = HasData r
IsFull _ = Unit

module _ {T : Type 0} (env : Service T) (call : ℕ) (r : Request) where
  -- What the pipe of a backend answers.
  abbrev pub answer_of : Backend → Outcome
  answer_of b = backend_stack env b call r

  -- The pipe of a backend answers before the context is done; and its answer is complete.
  abbrev pub answers : Backend → Bool
  answers b = is_answer (answer_of b) && not (env.is_done b)

  abbrev pub answers_wholly : Backend → Bool
  answers_wholly b = is_whole (answer_of b) && not (env.is_done b)

  -- The merged proxy answers as the backends do.
  abbrev pub IsMerged : List Backend → Outcome → Type 0
  IsMerged bs crashed = any (λ b. is_crash (answer_of b)) bs ≡ true
  IsMerged bs (returned res err) =
      (any (λ b. is_crash (answer_of b)) bs ≡ false)
      × (completeness res ≡ (if any answers bs then some (all answers_wholly bs) else none))
      × (is_some err ≡ not (all answers bs))

-- What is sent, by whether a backend crashes or answers, and whether all answer wholly or at all.
abbrev IsSent : Bool → Bool → Bool → Bool → Option (List Sent) → Type 0
IsSent crash some_part whole all_parts none = crash ≡ true
IsSent crash some_part whole all_parts (some sent) =
    (crash ≡ false)
    × (any is_part sent ≡ some_part)
    × (all is_complete_part sent ≡ whole)
    × (all is_part sent ≡ all_parts)
    × All IsGood sent

module _ {T : Type 0} (env : Service T) where
  before_sent-IsSent :
      (done : Bool) (o : Outcome) (c a w d : Bool) (rest : Option (List Sent))
      → IsFull o
      → IsSent c a w d rest
      → IsSent
          (is_crash o || c)
          ((is_answer o && not done) || a)
          ((is_whole o && not done) && w)
          ((is_answer o && not done) && d)
          (before_sent env done o rest)
  unfolding request_part
  before_sent-IsSent done crashed c a w d rest full h = refl
  before_sent-IsSent done (returned res err) c a w d none full h = h
  before_sent-IsSent true (returned (some r) none) c a w d (some sent) full (hc, ha, hw, hd, hg) =
      (hc, ha, ground arith, refl, (tt, hg))
  before_sent-IsSent false (returned (some r) none) c a w d (some sent) full (hc, ha, hw, hd, hg) =
      (hc, refl, rw (hw) (ground arith), hd, (full, hg))
  before_sent-IsSent done (returned none none) c a w d (some sent) full (hc, ha, hw, hd, hg) =
      (hc, ha, refl, refl, (tt, hg))
  before_sent-IsSent done (returned none (some e)) c a w d (some sent) full (hc, ha, hw, hd, hg) =
      (hc, ha, refl, refl, (tt, hg))
  before_sent-IsSent done (returned (some r) (some e)) c a w d (some sent) full
        (hc, ha, hw, hd, hg) =
      (hc, ha, refl, refl, (tt, hg))

is_some-errors : (os : List Sent) → is_some (new_merge_error (errors os)) ≡ not (all is_part os)
unfolding new_merge_error
is_some-errors [] = refl
is_some-errors (failed e ∷ os) = refl
is_some-errors (part r ∷ os) = is_some-errors os

module _ {T : Type 0} (env : Service T) (call : ℕ) (r : Request) where
  sent_by-IsSent :
      (bs : List Backend)
      → All (λ b. IsFull (answer_of env call r b)) bs
      → IsSent
          (any (λ b. is_crash (answer_of env call r b)) bs)
          (any (answers env call r) bs)
          (all (answers_wholly env call r) bs)
          (all (answers env call r) bs)
          (sent_by env call r bs)
  unfolding sent_by
  sent_by-IsSent [] h = (refl, refl, refl, refl, tt)
  sent_by-IsSent (b ∷ bs) (full, h) =
      before_sent-IsSent env (env.is_done b) (answer_of env call r b)
        (any (λ x. is_crash (answer_of env call r x)) bs) (any (answers env call r) bs)
        (all (answers_wholly env call r) bs) (all (answers env call r) bs) (sent_by env call r bs)
        full (sent_by-IsSent bs h)

  is_some-joined : (o : Option (List Error)) → is_some (joined env o) ≡ is_some o
  is_some-joined none = refl
  is_some-joined (some es) = refl

  merged_all-IsMerged :
      (bs : List Backend) (o : Option (List Sent))
      → ((sent : List Sent) → Permᴰ sent (env.arrivals sent))
      → IsSent
          (any (λ b. is_crash (answer_of env call r b)) bs)
          (any (answers env call r) bs)
          (all (answers_wholly env call r) bs)
          (all (answers env call r) bs)
          o
      → IsMerged env call r bs (merged_all env o)
  merged_all-IsMerged bs none perm h = h
  merged_all-IsMerged bs (some sent) perm (hc, ha, hw, hd, hg) =
      let p = perm sent in
      let good : All IsGood (env.arrivals sent) = All-perm IsGood p hg in
      (
        hc,
        completeness-merge (env.arrivals sent) good
            ∙ rw (← all-perm is_complete_part p, ← any-perm is_part p, ha, hw) refl,
        is_some-joined (parallel_merge combine_data (env.arrivals sent)).1
            ∙ ap is_some (parallel_merge-errors (env.arrivals sent) good).1
            ∙ is_some-errors (env.arrivals sent)
            ∙ rw (← all-perm is_part p, hd) refl,
      )

-- The merged proxy of several backends, where the outcomes of the goroutines arrive in any order and the
-- pipes' responses have data, panics exactly where the pipe of a backend does. Else it has a response
-- exactly where one of the pipes answers with a response, without an error and in time; that is
-- complete exactly where all of them answer so with a complete one; and it has an error exactly where
-- not all of them answer so.
pub parallel-IsMerged :
    {T : Type 0} (env : Service T) (bs : List Backend) (call : ℕ) (r : Request)
    → ((sent : List Sent) → Permᴰ sent (env.arrivals sent))
    → All (λ b. IsFull (answer_of env call r b)) bs
    → IsMerged env call r bs (parallel env bs call r)
unfolding parallel
parallel-IsMerged env bs call r perm full =
    merged_all-IsMerged env call r bs (sent_by env call r bs) perm
      (sent_by-IsSent env call r bs full)
