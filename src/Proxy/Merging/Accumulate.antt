-- ===== src/Proxy/Merging/Accumulate.antt =====
-- What the accumulator holds after any number of arrivals.
use lura_p.Common.{
  ℕ, ◌-◌, Bool, true, false, ◌&&◌, ◌||◌, String, List, [], ◌∷◌, ◌++◌, Option, none, some, length,
  all, any, ◌≡◌, refl, All, is_some, ◌∙◌, sym, arith,
}
use mathlib.Core.List.{append-nil, append_assoc}
use lura_p.Value.{Value, Dict, get, set_all, IsMap}
use lura_p.Value.Laws.{get-set_all}
use lura_p.Proxy.{Response, Error}
use lura_p.Proxy.Merging.{
  combine_parts, combine_data, Accumulator, merge, is_nil, Outcome, failed, part, merge_arrivals,
  bare,
}

-- A response with data, whose keys are distinct.
abbrev pub HasData : Response → Type 0
HasData r = (d : Dict) × (r.payload ≡ some d) × IsMap d

abbrev pub IsGood : Outcome → Type 0
IsGood (failed err) = Unit
IsGood (part r) = HasData r

abbrev pub is_complete_part : Outcome → Bool
is_complete_part (failed err) = false
is_complete_part (part r) = r.is_complete

abbrev pub errors : List Outcome → List Error
errors [] = []
errors (failed err ∷ os) = err ∷ errors os
errors (part r ∷ os) = errors os

abbrev pub get_payload : String → Option Dict → Option Value
get_payload k none = none
get_payload k (some d) = get k d

abbrev pub or_else : Option Value → Option Value → Option Value
or_else none w = w
or_else (some v) w = some v

-- The value of the last arrival that has the key.
abbrev pub latest : String → List Outcome → Option Value
latest k [] = none
latest k (failed err ∷ os) = latest k os
latest k (part r ∷ os) = or_else (latest k os) (get_payload k r.payload)

-- The key's value, and the completeness, that the accumulator stands for.
abbrev pub held : String → Option Response → Option Value
held k none = none
held k (some r) = get_payload k r.payload

abbrev pub complete : Option Response → Bool
complete none = true
complete (some r) = r.is_complete

abbrev pub flag : Accumulator → Bool
flag acc = complete acc.partial && is_nil acc.errs

right_none : (o : Option Value) → o ≡ or_else o none
right_none none = refl
right_none (some v) = refl

or_else_assoc : (a b c : Option Value) → or_else a (or_else b c) ≡ or_else (or_else a b) c
or_else_assoc none b c = refl
or_else_assoc (some v) b c = refl

or_else_elim : (o w : Option Value) → elim o [ none ↦ w | some v ↦ some v ] ≡ or_else o w
or_else_elim none w = refl
or_else_elim (some v) w = refl

errors-cons : (o : Outcome) (os : List Outcome) → errors (o ∷ os) ≡ errors (o ∷ []) ++ errors os
errors-cons (failed err) os = refl
errors-cons (part r) os = refl

latest-cons :
    (k : String) (o : Outcome) (os : List Outcome)
    → latest k (o ∷ os) ≡ or_else (latest k os) (latest k (o ∷ []))
latest-cons k (failed err) os = right_none (latest k os)
latest-cons k (part r) os = refl

and_chain : (a b c x y : Bool) → b ≡ (a && (x && true)) → c ≡ (b && y) → c ≡ (a && (x && y))
and_chain a b c x y p q = ground arith

or_chain : (a b c x y : Bool) → b ≡ (a || (x || false)) → c ≡ (b || y) → c ≡ (a || (x || y))
or_chain a b c x y p q = ground arith

combine_two :
    (base res : Response) (b d : Dict)
    → base.payload ≡ some b
    → res.payload ≡ some d
    → combine_data 2 (some base ∷ some res ∷ [])
      ≡ bare (set_all d b) (base.is_complete && res.is_complete)
unfolding combine_data combine_parts
combine_two base res b d p q = rw (p, q)

abbrev pub HasPayload : Option Response → Type 0
HasPayload none = Unit
HasPayload (some r) = (d : Dict) × (r.payload ≡ some d)

abbrev pub is_part : Outcome → Bool
is_part (failed err) = false
is_part (part r) = true

-- What a row of arrivals does to an accumulator.
pub record Summary (acc acc' : Accumulator) (os : List Outcome) : Type 0 where
  pub pending : acc'.pending ≡ acc.pending - length os
  pub errs : acc'.errs ≡ acc.errs ++ errors os
  pub flags : flag acc' ≡ (flag acc && all is_complete_part os)
  pub parts : is_some acc'.partial ≡ (is_some acc.partial || any is_part os)
  pub held_at : (k : String) → held k acc'.partial ≡ or_else (latest k os) (held k acc.partial)
  pub payload : HasPayload acc'.partial

-- One arrival.
abbrev receive : Accumulator → Outcome → Accumulator
receive acc (failed err) = merge combine_data acc none (some err)
receive acc (part r) = merge combine_data acc (some r) none

is_nil-concat : (es : List Error) (e : Error) → is_nil (es ++ e ∷ []) ≡ false
is_nil-concat [] e = refl
is_nil-concat (x ∷ es) e = refl

-- An accumulator by its fields.
abbrev pub state : ℕ → Option Response → List Error → Accumulator
state n p es = record { pending = n; partial = p; errs = es }

Summary-failed :
    (err : Error) (n : ℕ) (p : Option Response) (es : List Error)
    → HasPayload p
    → Summary (state n p es) (receive (state n p es) (failed err)) (failed err ∷ [])
unfolding merge
Summary-failed err n none es h = record {
  pending = refl;
  errs = refl;
  flags = rw is_nil-concat (ground arith);
  parts = refl;
  held_at = λ k. refl;
  payload = tt;
}
Summary-failed err n (some r) es h = record {
  pending = refl;
  errs = refl;
  flags = ground arith;
  parts = refl;
  held_at = λ k. refl;
  payload = h;
}

Summary-part :
    (r : Response) (n : ℕ) (p : Option Response) (es : List Error)
    → HasPayload p
    → HasData r
    → Summary (state n p es) (receive (state n p es) (part r)) (part r ∷ [])
unfolding merge
Summary-part r n none es h (d, q, m) = record {
  pending = refl;
  errs = sym (append-nil es);
  flags = ground arith;
  parts = refl;
  held_at = λ k. rw q (right_none _);
  payload = (d, q);
}
Summary-part r n (some base) es (b, h) (d, q, m) =
    let two = combine_two base r b d h q in
    record {
      pending = refl;
      errs = sym (append-nil es);
      flags = rw two (ground arith);
      parts = refl;
      held_at = λ k. rw two (rw (q, h) (get-set_all k d b m ∙ or_else_elim (get k d) (get k b)));
      payload = rw two (set_all d b, refl);
    }

Summary-append :
    {a b c : Accumulator} (o : Outcome) (os : List Outcome)
    → Summary a b (o ∷ [])
    → Summary b c os
    → Summary a c (o ∷ os)
Summary-append {a} {b} {c} o os f g = record {
  pending = omega (arith, f.pending, g.pending);
  errs = g.errs ∙ rw (f.errs, errors-cons o os) (append_assoc a.errs _ _);
  flags = and_chain (flag a) (flag b) (flag c) _ _ f.flags g.flags;
  parts = or_chain (is_some a.partial) _ _ (is_part o) (any is_part os) f.parts g.parts;
  held_at = λ k.
      g.held_at k
      ∙ rw (f.held_at k, latest-cons k o os)
          (or_else_assoc (latest k os) (latest k (o ∷ [])) (held k a.partial));
  payload = g.payload;
}

-- Any number of arrivals.
pub merge_arrivals-Summary :
    (os : List Outcome) (acc : Accumulator)
    → HasPayload acc.partial
    → All IsGood os
    → Summary acc (merge_arrivals combine_data acc os) os
unfolding merge_arrivals
merge_arrivals-Summary [] acc h g = record {
  pending = omega arith;
  errs = sym (append-nil acc.errs);
  flags = ground arith;
  parts = ground arith;
  held_at = λ k. refl;
  payload = h;
}
merge_arrivals-Summary (failed err ∷ os) acc h (g, gs) =
    let one = Summary-failed err acc.pending acc.partial acc.errs h in
    Summary-append (failed err) os one (merge_arrivals-Summary os _ one.payload gs)
merge_arrivals-Summary (part r ∷ os) acc h (g, gs) =
    let one = Summary-part r acc.pending acc.partial acc.errs h g in
    Summary-append (part r) os one (merge_arrivals-Summary os _ one.payload gs)
