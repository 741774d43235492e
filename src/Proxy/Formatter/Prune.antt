-- ===== src/Proxy/Formatter/Prune.antt =====
-- `AllowlistPrune` against the tree that it is given.
use lura_p.Common.{
  true, false, ◌≡◌, refl, String, List, [], ◌∷◌, Option, none, some, eq_iff, str_eq, Option-cases,
  inl, inr, Bool-cases, ◌∙◌, sym, ◌>>=◌, ◌≢◌,
}
use mathlib.Core.Bool.{false≢true}
use lura_p.Value.{Value, obj, Dict, end, field, get, IsMapped, IsMappedDict}
use lura_p.Value.Paths.{value_at, value_at-get, value_at-get-none}
use lura_p.Value.Laws.{IsMapped-get}
use lura_p.Proxy.Formatter.{allowlist_prune, prune_value}
use lura_p.Proxy.Formatter.AllowTree.{covered, covered-get, covered-get-none, covered_leaf}

-- All may go exactly when nothing is left.
pub prune_flag :
    (wl d : Dict)
    → ((allowlist_prune wl d).1 ≡ true → (allowlist_prune wl d).0 ≡ end)
      × ((allowlist_prune wl d).1 ≡ false → (allowlist_prune wl d).0 ≢ end)
unfolding allowlist_prune
prune_flag wl end = (λ h. refl, λ h. cc)
prune_flag wl (field k v d) = elim (Option-cases (prune_value (get k wl) v)) [
  | inl e ↦ rw (e, allowlist_prune) (prune_flag wl d)
  | inr (w, e) ↦ rw (e, allowlist_prune) (λ h. cc, λ h q. cc)
]

-- One key is treated like every other.
get-allowlist_prune :
    (k : String) (wl d : Dict)
    → IsMappedDict d
    → get k (allowlist_prune wl d).0 ≡ (get k d >>= prune_value (get k wl))
unfolding allowlist_prune get IsMappedDict
get-allowlist_prune k wl end h = refl
get-allowlist_prune k wl (field j v d) h = elim (Option-cases (prune_value (get j wl) v)) [
  | inl e ↦
      rw (e, allowlist_prune)
        (elim (Bool-cases (str_eq j k)) [
          | inl same ↦
              let q = (eq_iff j k).0 same in
              let absent : get k d ≡ none = rw (← q) h.0 in
              let dropped : prune_value (get k wl) v ≡ none = rw (← q) e in
              rw same (get-allowlist_prune k wl d h.2 ∙ rw absent (sym dropped))
          | inr other ↦ rw other (get-allowlist_prune k wl d h.2)
        ])
  | inr (w, e) ↦
      rw (e, allowlist_prune)
        (elim (Bool-cases (str_eq j k)) [
          | inl same ↦
              let q = (eq_iff j k).0 same in
              let kept : prune_value (get k wl) v ≡ some w = rw (← q) e in rw (same, get) (sym kept)
          | inr other ↦ rw (other, get) (get-allowlist_prune k wl d h.2)
        ])
]

-- What stands at the end of a path in the value that `prune_value` leaves.
abbrev left_at : List String → Option Value → Option Value
left_at p o = o >>= value_at p

value_at-allowlist_prune :
    (k : String) (p : List String) (wl d : Dict) {v : Value}
    → IsMappedDict d
    → get k d ≡ some v
    → value_at (k ∷ p) (obj (allowlist_prune wl d).0) ≡ left_at p (prune_value (get k wl) v)
value_at-allowlist_prune k p wl d {v} m e =
    let same : get k (allowlist_prune wl d).0 ≡ prune_value (get k wl) v =
      get-allowlist_prune k wl d m ∙ rw e in
    elim (Option-cases (prune_value (get k wl) v)) [
      | inl q ↦ value_at-get-none k p _ (same ∙ q) ∙ rw q
      | inr (w, q) ↦ value_at-get k p _ (same ∙ q) ∙ rw q
    ]

-- The statement for one path, as the induction passes it on.
abbrev pub Kept : List String → Type 0
Kept p =
    (wl d : Dict)
    → IsMappedDict d
    → covered p (obj wl) ≡ true
    → value_at p (obj (allowlist_prune wl d).0) ≡ value_at p (obj d)

prune_value-Kept :
    (p : List String)
    → Kept p
    → (n v : Value) → IsMapped v
    → covered p n ≡ true
    → left_at p (prune_value (some n) v) ≡ value_at p v
unfolding allowlist_prune IsMapped
prune_value-Kept [] ih (obj sub) v m h = absurd (false≢true (unfold covered in h))
prune_value-Kept (k ∷ p) ih (obj sub) (obj d) m h = elim (Bool-cases (allowlist_prune sub d).1) [
  | inl gone ↦ rw gone (
      sym (
        sym (ih sub d m h)
        ∙ rw ((prune_flag sub d).0 gone) (value_at-get-none k p end (unfold get in refl))))
  | inr some_left ↦ rw some_left (ih sub d m h)
]
prune_value-Kept (k ∷ p) ih (obj sub) v m h = unfold value_at in refl
prune_value-Kept p ih n v m h = refl

-- What the tree covers stays as it was.
pub allowlist_prune-Kept : (p : List String) → Kept p
allowlist_prune-Kept [] wl d m h = absurd (false≢true (unfold covered in h))
allowlist_prune-Kept (k ∷ p) wl d m h = elim (Option-cases (get k wl)) [
  | inl e ↦ absurd (false≢true (sym (covered-get-none k p wl e) ∙ h))
  | inr (n, e) ↦ elim (Option-cases (get k d)) [
    | inl q ↦
        value_at-get-none k p _ (get-allowlist_prune k wl d m ∙ rw q)
        ∙ sym (value_at-get-none k p d q)
    | inr (v, q) ↦
        value_at-allowlist_prune k p wl d m q
        ∙ rw e (
            prune_value-Kept p (allowlist_prune-Kept p) n v (IsMapped-get k d m q)
              (sym (covered-get k p wl e) ∙ h))
        ∙ sym (value_at-get k p d q)
  ]
]

-- A value that is no leaf of the list: what is left of it is a map, and not an empty one.
abbrev pub IsRemnant : Value → Type 0
IsRemnant w = (d : Dict) × (w ≡ obj d) × (d ≢ end)

abbrev pub Dropped : List String → Type 0
Dropped [] = Unit
Dropped (k ∷ p) =
    (wl d : Dict) (w : Value)
    → IsMappedDict d
    → covered (k ∷ p) (obj wl) ≡ false
    → value_at (k ∷ p) (obj (allowlist_prune wl d).0) ≡ some w
    → IsRemnant w

remnant :
    (p : List String)
    → Dropped p
    → (sub d : Dict) (w : Value) → IsMappedDict d
    → covered p (obj sub) ≡ false
    → (allowlist_prune sub d).1 ≡ false
    → value_at p (obj (allowlist_prune sub d).0) ≡ some w
    → IsRemnant w
remnant [] ih sub d w m h some_left e =
    ((allowlist_prune sub d).0, unfold value_at in cc, (prune_flag sub d).1 some_left)
remnant (k ∷ p) ih sub d w m h some_left e = ih sub d w m h e

prune_value-Dropped :
    (p : List String)
    → Dropped p
    → (n v w : Value) → IsMapped v
    → covered p n ≡ false
    → left_at p (prune_value (some n) v) ≡ some w
    → IsRemnant w
unfolding allowlist_prune IsMapped
prune_value-Dropped p ih (obj sub) (obj d) w m h e = elim (Bool-cases (allowlist_prune sub d).1) [
  | inl gone ↦ let nothing : ◌≡◌ {A = Option Value} none (some w) = rw gone at e in cc
  | inr some_left ↦ remnant p ih sub d w m h some_left (rw some_left at e)
]
prune_value-Dropped p ih (obj sub) v w m h e = cc
prune_value-Dropped p ih n v w m h e = absurd (false≢true (sym h ∙ covered_leaf p n refl))

Dropped-step : (k : String) (p : List String) → Dropped p → Dropped (k ∷ p)
unfolding prune_value
Dropped-step k p ih wl d w m h e = elim (Option-cases (get k d)) [
  | inl q ↦
      let nothing = value_at-get-none k p _ (get-allowlist_prune k wl d m ∙ rw q) in
      let clash : none ≡ some w = sym nothing ∙ e in cc
  | inr (v, q) ↦
      let left = sym (value_at-allowlist_prune k p wl d m q) ∙ e in
      elim (Option-cases (get k wl)) [
        | inl absent ↦ let clash : ◌≡◌ {A = Option Value} none (some w) = rw absent at left in cc
        | inr (n, present) ↦
            prune_value-Dropped p ih n v w (IsMapped-get k d m q)
              (sym (covered-get k p wl present) ∙ h) (rw present at left)
      ]
]

-- What the tree does not cover is dropped, but for the maps on the way to what is kept.
Dropped-all : (p : List String) → Dropped p
Dropped-all [] = tt
Dropped-all (k ∷ p) = λ wl d w m h e. Dropped-step k p (Dropped-all p) wl d w m h e

pub allowlist_prune-Dropped : (k : String) (p : List String) → Dropped (k ∷ p)
allowlist_prune-Dropped k p = Dropped-all (k ∷ p)
