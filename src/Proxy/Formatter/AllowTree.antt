-- ===== src/Proxy/Formatter/AllowTree.antt =====
-- The tree of an allow list, and the paths that it covers.
use lura_p.Common.{
  Bool, true, false, ◌||◌, ◌≡◌, refl, String, List, [], ◌∷◌, none, some, arith, eq_iff, str_eq,
  if◌then◌else◌, Option-cases, inl, inr, ◌⊎◌, Bool-cases, ◌∙◌, ap, sym,
}
use mathlib.Core.Bool.{false≢true}
use lura_p.Value.{Value, bool, obj, Dict, end, get, set, as_dict}
use lura_p.Value.Laws.{get-set, as_dict-eq_some}
use lura_p.Value.Paths.{is_prefix}
use lura_p.Proxy.Formatter.{allow_path}

-- The path reaches a leaf of the tree, or goes on below one.
unfoldable pub covered : List String → Value → Bool
covered [] (obj t) = false
covered (k ∷ p) (obj t) = elim (get k t) [ none ↦ false | some n ↦ covered p n ]
covered p _ = true

pub covered-end : (p : List String) → covered p (obj end) ≡ false
unfolding covered get
covered-end [] = refl
covered-end (k ∷ p) = refl

covered-true : (p : List String) → covered p (bool true) ≡ true
unfolding covered
covered-true [] = refl
covered-true (k ∷ p) = refl

pub covered-get :
    (k : String) (p : List String) (t : Dict) {n : Value}
    → get k t ≡ some n
    → covered (k ∷ p) (obj t) ≡ covered p n
unfolding covered
covered-get k p t e = rw (e, covered)

pub covered-get-none :
    (k : String) (p : List String) (t : Dict) → get k t ≡ none → covered (k ∷ p) (obj t) ≡ false
unfolding covered
covered-get-none k p t e = rw (e, covered)

covered-set :
    (k j : String) (p : List String) (n : Value) (t : Dict)
    → covered (j ∷ p) (obj (set k n t))
      ≡ (if str_eq k j then covered p n else covered (j ∷ p) (obj t))
unfolding covered
covered-set k j p n t = elim (Bool-cases (str_eq k j)) [
  | inl e ↦ rw (get-set, covered) (rw e)
  | inr e ↦ rw (get-set, covered) (rw e)
]

-- Only a map is no leaf.
pub covered_leaf : (p : List String) (n : Value) → as_dict n ≡ none → covered p n ≡ true
unfolding covered
covered_leaf p (obj t) h = cc
covered_leaf [] _ h = refl
covered_leaf (k ∷ p) _ h = refl

-- A node that the tree does not cover is absent or a map.
node-cases :
    (k : String) (p : List String) (t : Dict)
    → covered (k ∷ p) (obj t) ≡ false
    → (get k t ≡ none) ⊎ ((c : Dict) × (get k t ≡ some (obj c)) × (covered p (obj c) ≡ false))
node-cases k p t h = elim (Option-cases (get k t)) [
  | inl e ↦ inl e
  | inr (n, e) ↦
      let low : covered p n ≡ false = sym (covered-get k p t e) ∙ h in
      elim (Option-cases (as_dict n)) [
        | inl leaf ↦ absurd (false≢true (sym low ∙ covered_leaf p n leaf))
        | inr (c, q) ↦ let same = as_dict-eq_some n q in inr (c, e ∙ ap some same, rw same at low)
      ]
]

-- The tree covers one path more, and what stands below it, if no leaf stood above.
pub covered-allow_path :
    (f : String) (fields p : List String) (t : Dict)
    → covered (f ∷ fields) (obj t) ≡ false
    → covered p (obj (allow_path (f ∷ fields) t)) ≡ (covered p (obj t) || is_prefix (f ∷ fields) p)
unfolding allow_path is_prefix
covered-allow_path f [] [] t h = unfold covered in refl
covered-allow_path f [] (j ∷ q) t h =
    ground (arith, eq_iff f j, covered-set f j q (bool true) t, covered-true q)
covered-allow_path f (g ∷ fields) [] t h = unfold covered in refl
covered-allow_path f (g ∷ fields) (j ∷ q) t h = elim (node-cases f (g ∷ fields) t h) [
  | inl e ↦
      rw (e, allow_path)
        (ground (
          arith,
          eq_iff f j,
          covered-set f j q (obj (allow_path (g ∷ fields) end)) t,
          covered-allow_path g fields q end (covered-end (g ∷ fields)),
          covered-end q,
          covered-get-none f q t,
        ))
  | inr (c, e, low) ↦
      rw (e, allow_path)
        (ground (
          arith,
          eq_iff f j,
          covered-set f j q (obj (allow_path (g ∷ fields) c)) t,
          covered-allow_path g fields q c low,
          covered-get f q t e,
        ))
]
