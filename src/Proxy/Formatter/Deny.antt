-- ===== src/Proxy/Formatter/Deny.antt =====
-- The denylisting filter against its meaning.
use lura_p.Common.{
  ◌||◌, ◌≡◌, String, List, [], ◌∷◌, none, some, if◌then◌else◌, split, split-eq-cons, ◌∙◌, sym,
}
use mathlib.Core.Bool.{or_assoc, or-false}
use lura_p.Value.{obj, Dict, end}
use lura_p.Value.Paths.{outline_at, is_prefix, is_below}
use lura_p.Proxy.Formatter.{build_deny_tree, deny_tree, denylisting_filter}
use lura_p.Proxy.Formatter.DenyTree.{
  IsTree, denied, denied-end, build_deny_tree-IsTree, denied-build_deny_tree,
}
use lura_p.Proxy.Formatter.RecDelete.{rec_delete_lem}

deny_tree-IsTree : (keys : List String) (t : Dict) → IsTree t → IsTree (deny_tree keys t)
unfolding deny_tree
deny_tree-IsTree [] t h = h
deny_tree-IsTree (key ∷ keys) t h =
    deny_tree-IsTree keys _ (build_deny_tree-IsTree (split b'.' key) t h)

denied-deny_tree :
    (keys : List String) (p : List String) (t : Dict)
    → IsTree t
    → denied p (obj (deny_tree keys t)) ≡ (denied p (obj t) || is_below keys p)
unfolding deny_tree
denied-deny_tree [] p t h = sym (or-false _)
denied-deny_tree (key ∷ keys) p t h =
    let (n, path, e) = split-eq-cons b'.' key in
    denied-deny_tree keys p (build_deny_tree (split b'.' key) t)
      (build_deny_tree-IsTree (split b'.' key) t h)
    ∙ rw e (
        rw (denied-build_deny_tree n path p t h)
          (or_assoc (denied p (obj t)) (is_prefix (n ∷ path) p) (is_below keys p)))

-- The filter of a deny list removes each path that a key of the list names and all that stands
-- below it, in whatever order the keys are listed, leaves every other path as it was, and does not
-- panic.
pub denylisting_filter-outline_at :
    (keys : List String) (d : Dict)
    → (d' : Dict) × (denylisting_filter keys d ≡ some d')
      × ((p : List String)
          → outline_at p (obj d') ≡ (if is_below keys p then none else outline_at p (obj d)))
unfolding denylisting_filter
denylisting_filter-outline_at keys d =
    let tree = deny_tree keys end in
    let (d', done, below) =
      rec_delete_lem tree d (deny_tree-IsTree keys end (unfold IsTree in tt)) in
    (d', done, λ p. below p ∙ rw (denied-deny_tree keys p end (unfold IsTree in tt), denied-end p))
