-- ===== src/Sd/Dnssrv/Sorted.antt =====
-- The records that `resolve` keeps of the sorted ones are those of the least priority.
use lura_p.Common.{ℕ, ◌≤◌, ◌≡◌, arith, inl, inr, true, false, List, [], ◌∷◌, All, ltb, Bool-cases}
use lura_p.Sd.Dnssrv.{Srv, less, insert, sort, best}

-- No record of the list has a lower priority.
abbrev pub IsLeast : List Srv → ℕ → Type 0
IsLeast srvs p = All (λ b. p ≤ b.priority) srvs

abbrev pub IsOrdered : List Srv → Type 0
IsOrdered [] = Unit
IsOrdered (a ∷ srvs) = IsLeast srvs a.priority × IsOrdered srvs

less-priority : (a b : Srv) → less a b ≡ true → a.priority ≤ b.priority
unfolding less
less-priority a b h = ground (arith, h)

less-priority_not : (a b : Srv) → less a b ≡ false → b.priority ≤ a.priority
unfolding less
less-priority_not a b h = ground (arith, h)

IsLeast-mono : (srvs : List Srv) (p q : ℕ) → p ≤ q → IsLeast srvs q → IsLeast srvs p
IsLeast-mono [] p q h l = tt
IsLeast-mono (b ∷ srvs) p q h (l, ls) = (omega (arith, h, l), IsLeast-mono srvs p q h ls)

module _ (P : Srv → Type 0) where
  All-insert : (a : Srv) (srvs : List Srv) → P a → All P srvs → All P (insert a srvs)
  unfolding insert
  All-insert a [] pa h = (pa, tt)
  All-insert a (b ∷ srvs) pa (pb, h) = elim (Bool-cases (less b a)) [
    | inl e ↦ rw e (pb, All-insert a srvs pa h)
    | inr e ↦ rw e (pa, (pb, h))
  ]

  All-insert_back : (a : Srv) (srvs : List Srv) → All P (insert a srvs) → P a × All P srvs
  unfolding insert
  All-insert_back a [] h = h
  All-insert_back a (b ∷ srvs) h = elim (Bool-cases (less b a)) [
    | inl e ↦
        let (pb, rest) : P b × All P (insert a srvs) = (rw e at h) in
        let (pa, more) = All-insert_back a srvs rest in (pa, (pb, more))
    | inr e ↦ rw e at h
  ]

  -- The sorted records are the given ones.
  pub All-sort : (srvs : List Srv) → All P srvs → All P (sort srvs)
  unfolding sort
  All-sort [] h = tt
  All-sort (a ∷ srvs) (pa, h) = All-insert a (sort srvs) pa (All-sort srvs h)

  pub All-sort_back : (srvs : List Srv) → All P (sort srvs) → All P srvs
  unfolding sort
  All-sort_back [] h = tt
  All-sort_back (a ∷ srvs) h =
      let (pa, rest) = All-insert_back a (sort srvs) h in (pa, All-sort_back srvs rest)

  pub All-best : (least : ℕ) (srvs : List Srv) → All P srvs → All P (best least srvs)
  unfolding best
  All-best least [] h = tt
  All-best least (a ∷ srvs) (pa, h) = elim (Bool-cases (ltb least a.priority)) [
    | inl e ↦ simp e tt
    | inr e ↦ simp e (pa, All-best least srvs h)
  ]

IsOrdered-insert : (a : Srv) (srvs : List Srv) → IsOrdered srvs → IsOrdered (insert a srvs)
unfolding insert
IsOrdered-insert a [] h = (tt, tt)
IsOrdered-insert a (b ∷ srvs) (l, h) = elim (Bool-cases (less b a)) [
  | inl e ↦ rw e (
    All-insert (λ c. b.priority ≤ c.priority) a srvs (less-priority b a e) l,
    IsOrdered-insert a srvs h,
  )
  | inr e ↦
      let below = less-priority_not b a e in
      rw e ((below, IsLeast-mono srvs a.priority b.priority below l), (l, h))
]

-- The priorities of the sorted records do not fall.
pub IsOrdered-sort : (srvs : List Srv) → IsOrdered (sort srvs)
unfolding sort
IsOrdered-sort [] = tt
IsOrdered-sort (a ∷ srvs) = IsOrdered-insert a (sort srvs) (IsOrdered-sort srvs)

-- What is kept has no higher priority than the first.
pub best-priority : (least : ℕ) (srvs : List Srv) → All (λ a. a.priority ≤ least) (best least srvs)
unfolding best
best-priority least [] = tt
best-priority least (a ∷ srvs) = elim (Bool-cases (ltb least a.priority)) [
  | inl e ↦ simp e tt
  | inr e ↦ simp e (ground (arith, e), best-priority least srvs)
]
