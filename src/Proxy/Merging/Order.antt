-- ===== src/Proxy/Merging/Order.antt =====
-- That the order in which the goroutines answer does not decide whether the response is complete.
use mathlib.Core.List.{Permᴰ}
use mathlib.Core.Path.{subst}
use lura_p.Common.{
  Bool, true, false, ◌&&◌, ◌||◌, List, Option, none, some, if◌then◌else◌, all, any, ◌≡◌, refl, All,
  Option-cases, inl, inr, ◌∙◌, sym, arith, ◌>>=◌,
}
use lura_p.Proxy.{Response}
use lura_p.Proxy.Merging.{combine_data, Outcome, parallel_merge}
use lura_p.Proxy.Merging.Accumulate.{IsGood, is_complete_part, is_part}
use lura_p.Proxy.Merging.Parallel.{parallel_merge-errors, parallel_merge-combined}

-- No response, or whether it is complete.
abbrev pub completeness : Option Response → Option Bool
completeness p = p >>= λ r. some r.is_complete

and_swap : (a b c : Bool) → (a && (b && c)) ≡ (b && (a && c))
and_swap a b c = ground arith

or_swap : (a b c : Bool) → (a || (b || c)) ≡ (b || (a || c))
or_swap a b c = ground arith

pub all-perm {ℓ} : {A : Type ℓ} (p : A → Bool) {xs ys : List A} → Permᴰ xs ys → all p xs ≡ all p ys
all-perm p Permᴰ.nil = refl
all-perm p (Permᴰ.cons e d) = rw (e, all-perm p d)
all-perm p (Permᴰ.swap {l = l} e f) = rw (e, f) (and_swap _ _ (all p l))
all-perm p (Permᴰ.trans c d) = all-perm p c ∙ all-perm p d

pub any-perm {ℓ} : {A : Type ℓ} (p : A → Bool) {xs ys : List A} → Permᴰ xs ys → any p xs ≡ any p ys
any-perm p Permᴰ.nil = refl
any-perm p (Permᴰ.cons e d) = rw (e, any-perm p d)
any-perm p (Permᴰ.swap {l = l} e f) = rw (e, f) (or_swap _ _ (any p l))
any-perm p (Permᴰ.trans c d) = any-perm p c ∙ any-perm p d

pub All-perm {ℓ κ} :
    {A : Type ℓ} (P : A → Type κ) {xs ys : List A} → Permᴰ xs ys → All P xs → All P ys
All-perm P Permᴰ.nil h = h
All-perm P (Permᴰ.cons e d) (h, hs) = (subst P e h, All-perm P d hs)
All-perm P (Permᴰ.swap e f) (h, (g, hs)) = (subst P f g, (subst P e h, hs))
All-perm P (Permᴰ.trans c d) h = All-perm P d (All-perm P c h)

pub completeness-merge :
    (os : List Outcome)
    → All IsGood os
    → completeness (parallel_merge combine_data os).0
      ≡ (if any is_part os then some (all is_complete_part os) else none)
completeness-merge os g =
    let found = (parallel_merge-errors os g).0 in
    elim (Option-cases (parallel_merge combine_data os).0) [
      | inl e ↦ let absent : false ≡ any is_part os = rw e at found in rw (e, ← absent)
      | inr (r, e) ↦
          let present : true ≡ any is_part os = rw e at found in
          rw (e, ← present, (parallel_merge-combined os r g e).0)
    ]

-- Where every response has data, whether there is a merged response, and whether it is complete, is the
-- same for every order in which the outcomes arrive.
pub parallel_merge-perm :
    (os os' : List Outcome)
    → All IsGood os
    → Permᴰ os os'
    → completeness (parallel_merge combine_data os).0
      ≡ completeness (parallel_merge combine_data os').0
parallel_merge-perm os os' g d =
    completeness-merge os g
    ∙ rw (any-perm is_part d, all-perm is_complete_part d)
        (sym (completeness-merge os' (All-perm IsGood d g)))
