-- ===== src/Proxy/Formatter/Flatmap/Short.antt =====
-- Where the operations of the flatmap formatter panic, and what they leave alone.
use lura_p.Common.{
  ◌<◌, ◌≡◌, ◌↔◌, ◌⊎◌, inl, inr, refl, true, ◌||◌, String, List, [], ◌∷◌, Option, none, some, ◌>>=◌,
  str_eq, length, Bool-cases, Option-cases, arith,
}
use lura_p.Value.{Dict}
use lura_p.Proxy.{Response}
use lura_p.Proxy.Formatter.Flatmap.{
  Trees, FlatmapOp, FlatmapFormatter, with_two, process_op, process_all, processed, process_ops,
  targeted, under_prefix, format_flat, del_all,
}

-- An operation on two paths that has fewer.
abbrev pub IsShort : FlatmapOp → Type 0
IsShort op = (str_eq op.kind "move" || str_eq op.kind "append" ≡ true) × (length op.args < 2)

abbrev pub HasShort : List FlatmapOp → Type 0
HasShort [] = ⊥
HasShort (op ∷ ops) = IsShort op ⊎ HasShort ops

-- A response differs from `entity` in its data only.
abbrev pub IsKept : Response → Option Response → Type 0
IsKept entity none = Unit
IsKept entity (some r) =
    (r.is_complete ≡ entity.is_complete) × (r.metadata ≡ entity.metadata) × (r.io ≡ entity.io)

module _ {T : Type 0} (trees : Trees T) where
  two_lem :
      (f : List String → List String → T → T) (args : List (List String)) (t : T)
      → (with_two trees f args t ≡ none) ↔ (length args < 2)
  two_lem f [] t = (λ e. omega arith, λ h. refl)
  two_lem f (a ∷ []) t = (λ e. omega arith, λ h. refl)
  two_lem f (a ∷ b ∷ args) t = (λ e. cc, λ h. absurd (omega (arith, h)))

  process_op-none : (op : FlatmapOp) (t : T) → (process_op trees op t ≡ none) ↔ IsShort op
  unfolding process_op
  process_op-none op t = elim (Bool-cases (str_eq op.kind "move")) [
    | inl p ↦
        let two = two_lem trees.move op.args t in
        (λ e. (rw p refl, two.0 (rw p at e)), λ h. rw p (two.1 h.1))
    | inr p ↦ elim (Bool-cases (str_eq op.kind "append")) [
      | inl q ↦
          let two = two_lem trees.append op.args t in
          (λ e. (rw (p, q) refl, two.0 (rw (p, q) at e)), λ h. rw (p, q) (two.1 h.1))
      | inr q ↦ elim (Bool-cases (str_eq op.kind "del")) [
        | inl s ↦ (
          λ e. let x : some (del_all trees op.args t) ≡ none = rw (p, q, s) at e in cc,
          λ h. absurd (ground (arith, p, q, h.0)),
        )
        | inr s ↦ (
          λ e. let x : some t ≡ none = rw (p, q, s) at e in cc,
          λ h. absurd (ground (arith, p, q, h.0)),
        )
      ]
    ]
  ]

  process_all-none :
      (ops : List FlatmapOp) (t : T) → (process_all trees ops t ≡ none) ↔ HasShort ops
  unfolding process_all
  process_all-none [] t = (λ e. cc, λ h. elim h [ ])
  process_all-none (op ∷ ops) t =
      let here = process_op-none op t in
      elim (Option-cases (process_op trees op t)) [
        | inl e ↦ (λ p. inl (here.0 e), λ h. rw e refl)
        | inr (u, e) ↦
            let later = process_all-none ops u in
            (
              λ p. inr (later.0 (rw e at p)),
              λ h. elim h [ inl s ↦ absurd (let x = here.1 s in cc) | inr l ↦ rw e (later.1 l) ],
            )
      ]

  after_process :
      (ops : List FlatmapOp) (d : Option Dict) (f : Option Dict → Response) (o : Option T)
      → (processed trees ops d o >>= (λ c. some (f c)) ≡ none)
        ↔ ((t : T) × (o ≡ some t) × HasShort ops)
  after_process ops d f none = (λ e. cc, λ h. let x = h.1 in cc)
  after_process ops d f (some t) =
      let all = process_all-none ops t in
      elim (Option-cases (process_all trees ops t)) [
        | inl e ↦ (λ p. (t, refl, all.0 e), λ h. rw e refl)
        | inr (u, e) ↦ (
          λ p. absurd (let x : some (f (trees.root u)) ≡ none = rw e at p in cc),
          λ h. absurd (let x = all.1 h.2 in cc),
        )
      ]

  kept_lem :
      (e : FlatmapFormatter) (entity : Response) (o : Option (Option Dict))
      → IsKept entity (o >>= (λ d. some (under_prefix trees e.prefix entity d)))
  kept_lem e entity none = tt
  kept_lem e entity (some d) = (refl, refl, refl)

-- The flatmap formatter panics exactly where the data that it formats make a tree and one of its
-- operations, a move or an append, has fewer than two arguments; and where it does not panic, it
-- leaves all but the data of the response as it was.
pub format_flat-HasShort :
    {T : Type 0} (trees : Trees T) (e : FlatmapFormatter) (entity : Response)
    → ((format_flat trees e entity ≡ none)
        ↔ ((t : T) × (trees.new_tree (targeted trees e entity) ≡ some t) × HasShort e.ops))
      × IsKept entity (format_flat trees e entity)
unfolding format_flat process_ops
format_flat-HasShort trees e entity =
    let d = targeted trees e entity in
    (
      after_process trees e.ops d (under_prefix trees e.prefix entity) (trees.new_tree d),
      kept_lem trees e entity (process_ops trees e.ops d),
    )
