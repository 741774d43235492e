-- ===== src/Sd/Dnssrv/Resolve.antt =====
-- What the instances of a lookup are, and how many.
use lura_p.Common.{
  ℕ, zero, suc, ◌≤◌, ◌≡◌, refl, arith, inl, inr, String, List, [], ◌∷◌, map, All, All-append,
  length, length-append, length-replicate, replicate, some, Bool-cases, ltb, if◌then◌else◌, ap, ◌∙◌,
  sym, subst,
}
use lura_p.Sd.Dnssrv.{
  Srv, address, sum, best, compact, repeat, instances, sort, insert, less, records, resolve,
}
use lura_p.Sd.Dnssrv.Weights.{compact_small}
use lura_p.Sd.Dnssrv.Sorted.{
  IsLeast, IsOrdered, IsOrdered-sort, All-sort, All-sort_back, All-best, best-priority,
}

-- `h` is the address of a record that has the property `P` and no higher priority than any of `srvs`.
abbrev pub IsBest : (Srv → Type 0) → (String → ℕ → String) → String → List Srv → String → Type 0
IsBest P join scheme srvs h =
    (a : Srv) × P a × (h ≡ address join scheme a) × IsLeast srvs a.priority

module _ (Q : String → Type 0) where
  All-replicate : (n : ℕ) (h : String) → Q h → All Q (replicate n h)
  All-replicate zero h q = tt
  All-replicate (suc n) h q = (q, All-replicate n h q)

  All-repeat : (ws : List ℕ) (hs : List String) → All Q hs → All Q (repeat ws hs)
  unfolding repeat
  All-repeat [] hs q = tt
  All-repeat (w ∷ ws) [] q = tt
  All-repeat (w ∷ ws) (h ∷ hs) (q, qs) =
      All-append Q (replicate w h) (repeat ws hs) (All-replicate w h q) (All-repeat ws hs qs)

length-repeat : (ws : List ℕ) (hs : List String) → length (repeat ws hs) ≤ sum ws
unfolding repeat
length-repeat [] hs = omega arith
length-repeat (w ∷ ws) [] = omega arith
length-repeat (w ∷ ws) (h ∷ hs) =
    omega (
      arith,
      length-append (replicate w h) (repeat ws hs),
      length-replicate w h,
      length-repeat ws hs,
    )

IsLeast-below : (srvs : List Srv) (p q : ℕ) → p ≤ q → IsLeast srvs q → IsLeast srvs p
IsLeast-below [] p q h l = tt
IsLeast-below (b ∷ srvs) p q h (l, ls) = (omega (arith, h, l), IsLeast-below srvs p q h ls)

abbrev IsHeadLeast : List Srv → List Srv → Type 0
IsHeadLeast srvs [] = Unit
IsHeadLeast srvs (a ∷ sorted) = IsLeast srvs a.priority

IsHeadLeast-sort : (srvs sorted : List Srv) → sorted ≡ sort srvs → IsHeadLeast srvs sorted
IsHeadLeast-sort srvs [] e = tt
IsHeadLeast-sort srvs (a ∷ sorted) e =
    let (least, more) : IsOrdered (a ∷ sorted) = subst IsOrdered (sym e) (IsOrdered-sort srvs) in
    let whole : IsLeast (a ∷ sorted) a.priority = (omega arith, least) in
    All-sort_back (λ b. a.priority ≤ b.priority) srvs (subst (λ x. IsLeast x a.priority) e whole)

module _ (P : Srv → Type 0) (join : String → ℕ → String) (scheme : String) (srvs : List Srv) where
  IsBest-kept :
      (least : ℕ) (kept : List Srv)
      → IsLeast srvs least
      → All P kept
      → All (λ a. a.priority ≤ least) kept
      → All (IsBest P join scheme srvs) (map (address join scheme) kept)
  IsBest-kept least [] l h b = tt
  IsBest-kept least (a ∷ kept) l (pa, h) (below, b) =
      ((a, pa, refl, IsLeast-below srvs a.priority least below l), IsBest-kept least kept l h b)

  IsBest-instances :
      (sorted : List Srv)
      → All P sorted
      → IsHeadLeast srvs sorted
      → All (IsBest P join scheme srvs) (instances join scheme sorted)
  unfolding instances
  IsBest-instances [] h l = tt
  IsBest-instances (a ∷ sorted) h l =
      let kept = best a.priority (a ∷ sorted) in
      All-repeat (IsBest P join scheme srvs) (compact (map (λ b. b.weight) kept))
        (map (address join scheme) kept)
        (IsBest-kept a.priority kept l (All-best P a.priority (a ∷ sorted) h)
          (best-priority a.priority (a ∷ sorted)))

length-map : (f : Srv → ℕ) (srvs : List Srv) → length (map f srvs) ≡ length srvs
length-map f [] = refl
length-map f (a ∷ srvs) = ap suc (length-map f srvs)

length-best : (least : ℕ) (srvs : List Srv) → length (best least srvs) ≤ length srvs
unfolding best
length-best least [] = omega arith
length-best least (a ∷ srvs) = elim (Bool-cases (ltb least a.priority)) [
  | inl e ↦ simp e (omega arith)
  | inr e ↦ simp e (omega (arith, length-best least srvs))
]

length-insert : (a : Srv) (srvs : List Srv) → length (insert a srvs) ≡ suc (length srvs)
unfolding insert
length-insert a [] = refl
length-insert a (b ∷ srvs) = elim (Bool-cases (less b a)) [
  | inl e ↦ rw e (ap suc (length-insert a srvs))
  | inr e ↦ rw e refl
]

length-sort : (srvs : List Srv) → length (sort srvs) ≡ length srvs
unfolding sort
length-sort [] = refl
length-sort (a ∷ srvs) = length-insert a (sort srvs) ∙ ap suc (length-sort srvs)

abbrev pub capacity : ℕ → ℕ
capacity n = if ltb 100 n then n else 100

length-instances :
    (join : String → ℕ → String) (scheme : String) (sorted : List Srv)
    → length (instances join scheme sorted) ≤ capacity (length sorted)
unfolding instances
length-instances join scheme [] = ground arith
length-instances join scheme (a ∷ sorted) =
    let kept = best a.priority (a ∷ sorted) in
    let ws = map (λ b. b.weight) kept in
    let few = length-repeat (compact ws) (map (address join scheme) kept) in
    let (same, small) = compact_small ws in
    let fewer = length-best a.priority (a ∷ sorted) in
    let kept_length = length-map (λ b. b.weight) kept in
    ground (arith, few, small, fewer, kept_length)

-- The records of a lookup resolve to instances that are no more than 100, or than the records if those
-- are more; each is the address of a record that has any property `P` that all the records have,
-- and whose priority number is not above that of any record.
pub resolve-IsBest :
    (P : Srv → Type 0) (join : String → ℕ → String) (scheme : String) (srvs : List Srv)
    → All P srvs
    → (hosts : List String) × (resolve join scheme (records srvs) ≡ some hosts)
      × All (IsBest P join scheme srvs) hosts
      × (length hosts ≤ capacity (length srvs))
unfolding resolve
resolve-IsBest P join scheme srvs h =
    let sorted = sort srvs in
    let few : length (instances join scheme sorted) ≤ capacity (length sorted) =
      length-instances join scheme sorted in
    (
      instances join scheme sorted,
      refl,
      IsBest-instances P join scheme srvs sorted (All-sort P srvs h)
          (IsHeadLeast-sort srvs sorted refl),
      (rw (length-sort srvs) at few),
    )
