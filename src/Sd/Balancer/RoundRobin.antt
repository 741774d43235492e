-- ===== src/Sd/Balancer/RoundRobin.antt =====
-- The round robin order.
use native.Mathlib.Nat.{mod-lt, mod-eq_of_lt, mod-add-mod, add-mod_right}
use lura_p.Common.{
  ℕ, zero, suc, ◌+◌, ◌-◌, ◌%◌, ◌^◌, ◌<◌, String, List, [], ◌∷◌, none, some, ◌≡◌, leb, length,
  get_elem?, arith, Bool-cases, inl, inr, ◌∙◌, sym, ap,
}
use lura_p.Sd.{fixed, hosts_of}
use lura_p.Sd.Balancer.{
  Balancer, round_robin, Answer, host, u64, at_index, checked_hosts, round_robin_host, host_of,
}

-- The answers of `k` calls in a row, to a fixed list of hosts.
unfoldable pub serve : (ℕ → ℕ) → ℕ → Balancer → List Answer
serve rand zero b = []
serve rand (suc k) b = let (a, b') = host_of rand ([], none) b in a ∷ serve rand k b'

-- One call at a counter that fits a uint64.
round_robin_step :
    (rand : ℕ → ℕ) (h : String) (hs : List String) (c : ℕ)
    → c + 1 < 2 ^ 64
    → host_of rand ([], none) (round_robin (fixed (h ∷ hs)) c)
      ≡ (at_index (h ∷ hs) (c % length (h ∷ hs)), round_robin (fixed (h ∷ hs)) (c + 1))
unfolding host_of round_robin_host checked_hosts hosts_of
round_robin_step rand h hs c fits =
    let same : u64 (c + 1) ≡ c + 1 = omega arith in
    let back : u64 (u64 (c + 1) + 2 ^ 64 - 1) ≡ c = omega arith in rw back (rw same)

serve_at :
    (rand : ℕ → ℕ) (h : String) (hs : List String) (k i c : ℕ)
    → i < k
    → c + k < 2 ^ 64
    → get_elem? (serve rand k (round_robin (fixed (h ∷ hs)) c)) i
      ≡ some (at_index (h ∷ hs) ((c + i) % length (h ∷ hs)))
unfolding serve
serve_at rand h hs zero i c lt fits = absurd (omega arith)
serve_at rand h hs (suc k) zero c lt fits =
    rw (round_robin_step rand h hs c (omega arith)) (let same : c + 0 ≡ c = omega arith in rw same)
serve_at rand h hs (suc k) (suc i) c lt fits = rw (round_robin_step rand h hs c (omega arith)) (
    serve_at rand h hs k i (c + 1) (omega arith) (omega arith)
    ∙ (let same : c + 1 + i ≡ c + suc i = omega arith in rw same))

-- Any `n` counters in a row meet every index.
turn_of : (c n j : ℕ) → j < n → (i : ℕ) × (i < n) × ((c + i) % n ≡ j)
turn_of c n j lt =
    let bounded : c % n < n = mod-lt c (omega arith) in
    elim (Bool-cases (leb (c % n) j)) [
      | inl le ↦
          let gap : c % n + (j - c % n) ≡ j = ground arith in
          (
            j - c % n,
            ground arith,
            sym (mod-add-mod c n _) ∙ ap (λ (t : ℕ). t % n) gap ∙ mod-eq_of_lt lt,
          )
      | inr gt ↦
          let gap : c % n + (j + n - c % n) ≡ j + n = ground arith in
          (
            j + n - c % n,
            ground arith,
            sym (mod-add-mod c n _)
                ∙ ap (λ (t : ℕ). t % n) gap
                ∙ add-mod_right j n
                ∙ mod-eq_of_lt lt,
          )
    ]

-- Of a fixed list, any row of as many calls as there are hosts serves every host, if the counter does not
-- wrap.
pub round_robin_serves :
    (rand : ℕ → ℕ) (h : String) (hs : List String) (c j : ℕ) (x : String)
    → c + length (h ∷ hs) < 2 ^ 64
    → j < length (h ∷ hs)
    → get_elem? (h ∷ hs) j ≡ some x
    → (i : ℕ) × (i < length (h ∷ hs))
      × (get_elem? (serve rand (length (h ∷ hs)) (round_robin (fixed (h ∷ hs)) c)) i
          ≡ some (host x))
round_robin_serves rand h hs c j x fits lt found =
    let (i, before, turn) = turn_of c (length (h ∷ hs)) j lt in
    (
      i,
      before,
      serve_at rand h hs (length (h ∷ hs)) i c before fits ∙ rw turn (rw (found, at_index)),
    )
