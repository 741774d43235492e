-- ===== src/Proxy/Formatter/RecDelete.antt =====
-- `recDelete` removes what the tree denies, and nothing else; it does not panic on a tree that
-- `buildDenyTree` has built.
use lura_p.Common.{
  Bool, ◌&&◌, ◌≡◌, refl, String, List, [], ◌∷◌, none, some, arith, eq_iff, str_eq, if◌then◌else◌,
  Option-cases, inl, inr, ◌∙◌, ap,
}
use lura_p.Value.{Value, null, obj, Dict, end, field, get, set, delete, as_dict}
use lura_p.Value.Laws.{as_dict-eq_some}
use lura_p.Value.Paths.{
  outline_at, outline_at-get, outline_at-get-none, outline_at-set, outline_at-delete,
  outline_at-of_no_map,
}
use lura_p.Proxy.Formatter.{rec_delete, delete_at}
use lura_p.Proxy.Formatter.DenyTree.{
  IsNode, IsTree, denied, denied-end, denied-null, denied-get-none, denied-field,
}

-- What one round of `recDelete` does: it removes below the key, and elsewhere nothing.
abbrev Removes : (List String → Bool) → String → Dict → Dict → Type 0
Removes below rk m m' =
    (k : String) (p : List String)
    → outline_at (k ∷ p) (obj m')
      ≡ (if str_eq rk k && below p then none else outline_at (k ∷ p) (obj m))

Removes-none :
    (below : List String → Bool) (rk : String) (m : Dict) → get rk m ≡ none → Removes below rk m m
Removes-none below rk m e k p = ground (arith, eq_iff rk k, outline_at-get-none rk p m e)

Removes-delete : (rk : String) (m : Dict) → Removes (λ p. denied p null) rk m (delete rk m)
Removes-delete rk m k p = ground (arith, denied-null p, outline_at-delete rk k p m)

Removes-flat :
    (sub : Dict) (rk : String) (m : Dict) {dv : Value}
    → get rk m ≡ some dv
    → as_dict dv ≡ none
    → Removes (λ p. denied p (obj sub)) rk m m
unfolding denied
Removes-flat sub rk m e flat k [] = ground (arith, eq_iff rk k)
Removes-flat sub rk m {dv} e flat k (j ∷ p) =
    ground (arith, eq_iff rk k, outline_at-get rk (j ∷ p) m e, outline_at-of_no_map j p dv flat)

Removes-set :
    (sub : Dict) (rk : String) (m dm dm' : Dict)
    → get rk m ≡ some (obj dm)
    → ((p : List String)
        → outline_at p (obj dm') ≡ (if denied p (obj sub) then none else outline_at p (obj dm)))
    → Removes (λ p. denied p (obj sub)) rk m (set rk (obj dm') m)
Removes-set sub rk m dm dm' e below k p =
    ground (arith, eq_iff rk k, outline_at-set rk k p (obj dm') m, outline_at-get rk p m e, below p)

-- The rounds of the loop one after the other.
Removes-all :
    (rk : String) (rv : Value) (t m m₁ m₂ : Dict) (p : List String)
    → get rk t ≡ none
    → Removes (λ q. denied q rv) rk m m₁
    → outline_at p (obj m₂) ≡ (if denied p (obj t) then none else outline_at p (obj m₁))
    → outline_at p (obj m₂)
      ≡ (if denied p (obj (field rk rv t)) then none else outline_at p (obj m))
Removes-all rk rv t m m₁ m₂ [] fresh one rest = unfold denied outline_at in rest
Removes-all rk rv t m m₁ m₂ (k ∷ p) fresh one rest =
    ground (arith, eq_iff rk k, one k p, denied-field rk k p rv t, denied-get-none rk p t fresh)

mutual
  unfolding rec_delete IsTree

  delete_at_lem :
      (rv : Value) (rk : String) (m : Dict)
      → IsNode rv
      → (m' : Dict) × (delete_at rv rk m ≡ some m') × Removes (λ p. denied p rv) rk m m'
  delete_at_lem null rk m h = elim (Option-cases (get rk m)) [
    | inl e ↦ (m, rw (e, delete_at), Removes-none _ rk m e)
    | inr (dv, e) ↦ (delete rk m, rw (e, delete_at), Removes-delete rk m)
  ]
  delete_at_lem (obj sub) rk m h = elim (Option-cases (get rk m)) [
    | inl e ↦ (m, rw (e, delete_at), Removes-none _ rk m e)
    | inr (dv, e) ↦ elim (Option-cases (as_dict dv)) [
      | inl flat ↦ (m, rw (e, delete_at) (rw flat), Removes-flat sub rk m e flat)
      | inr (dm, q) ↦
          let (dm', done, below) = rec_delete_lem sub dm h in
          (
            set rk (obj dm') m,
            rw (e, delete_at) (rw q (rw done)),
            Removes-set sub rk m dm dm' (e ∙ ap some (as_dict-eq_some dv q)) below,
          )
    ]
  ]
  delete_at_lem _ rk m h = absurd h

  pub rec_delete_lem :
      (t m : Dict)
      → IsTree t
      → (m' : Dict) × (rec_delete t m ≡ some m')
        × ((p : List String)
            → outline_at p (obj m') ≡ (if denied p (obj t) then none else outline_at p (obj m)))
  rec_delete_lem end m h = (m, refl, λ p. rw (denied-end p))
  rec_delete_lem (field rk rv t) m h =
      let (m₁, done₁, one) = delete_at_lem rv rk m h.1 in
      let (m₂, done₂, rest) = rec_delete_lem t m₁ h.2 in
      (m₂, rw done₁ done₂, λ p. Removes-all rk rv t m m₁ m₂ p h.0 one (rest p))
