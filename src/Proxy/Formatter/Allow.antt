-- ===== src/Proxy/Formatter/Allow.antt =====
-- The allowlisting filter against its meaning.
use lura_p.Common.{
  Bool, true, false, ◌&&◌, ◌||◌, not, ◌≡◌, ◌≢◌, String, List, [], ◌∷◌, some, arith, split,
  split-eq-cons, ◌∙◌, sym, Bool-cases, inl, inr,
}
use mathlib.Core.Bool.{or_comm, or-false}
use lura_p.Value.{Value, obj, Dict, end, IsMappedDict}
use lura_p.Value.Paths.{value_at, is_prefix, is_below}
use lura_p.Proxy.Formatter.{allow_path, allow_tree, allowlist_prune, allowlisting_filter}
use lura_p.Proxy.Formatter.AllowTree.{covered, covered-end, covered-allow_path}
use lura_p.Proxy.Formatter.Prune.{prune_flag, allowlist_prune-Kept, allowlist_prune-Dropped}

-- No key of the list leads to a key that was listed before it, or below one: such a key would
-- replace the leaf of the earlier one.
abbrev pub unshadowed_from : List String → List String → Bool
unshadowed_from seen [] = true
unshadowed_from seen (key ∷ keys) =
    not (is_below seen (split b'.' key)) && unshadowed_from (key ∷ seen) keys

abbrev pub unshadowed : List String → Bool
unshadowed keys = unshadowed_from [] keys

regroup : (a b c : Bool) → ((b || a) || c) ≡ (a || (b || c))
regroup a b c = ground arith

covered-allow_tree :
    (keys seen : List String) (t : Dict)
    → ((p : List String) → covered p (obj t) ≡ is_below seen p)
    → unshadowed_from seen keys ≡ true
    → (p : List String) → covered p (obj (allow_tree keys t)) ≡ (is_below seen p || is_below keys p)
unfolding allow_tree
covered-allow_tree [] seen t inv h p = inv p ∙ sym (or-false _)
covered-allow_tree (key ∷ keys) seen t inv h p =
    let (n, path, e) = split-eq-cons b'.' key in
    let fresh : is_below seen (split b'.' key) ≡ false = ground arith in
    let low : covered (n ∷ path) (obj t) ≡ false = rw (← e) (inv (split b'.' key) ∙ fresh) in
    covered-allow_tree keys (key ∷ seen) (allow_path (split b'.' key) t)
      (λ q. rw e (
        covered-allow_path n path q t low
        ∙ rw (inv q) (or_comm (is_below seen q) (is_prefix (n ∷ path) q))))
      (ground arith) p
    ∙ regroup (is_below seen p) (is_prefix (split b'.' key) p) (is_below keys p)

allowlisting_filter-eq-prune :
    (keys : List String) (d : Dict)
    → allowlisting_filter keys d ≡ (allowlist_prune (allow_tree keys end) d).0
unfolding allowlisting_filter
allowlisting_filter-eq-prune keys d =
    let tree = allow_tree keys end in
    elim (Bool-cases (allowlist_prune (allow_tree keys end) d).1) [
      | inl gone ↦ rw gone (sym ((prune_flag tree d).0 gone))
      | inr some_left ↦ rw some_left
    ]

covered-filter :
    (keys : List String) (p : List String)
    → unshadowed keys ≡ true
    → covered p (obj (allow_tree keys end)) ≡ is_below keys p
covered-filter keys p h = covered-allow_tree keys [] end covered-end h p

-- Where no key of the allow list leads below an earlier one, the filter leaves every path that a key
-- names, and all that stands below it, as it was.
pub allowlisting_filter-kept :
    (keys : List String) (d : Dict) (p : List String)
    → IsMappedDict d
    → unshadowed keys ≡ true
    → is_below keys p ≡ true
    → value_at p (obj (allowlisting_filter keys d)) ≡ value_at p (obj d)
allowlisting_filter-kept keys d p m h b =
    rw (allowlisting_filter-eq-prune keys d)
      (allowlist_prune-Kept p (allow_tree keys end) d m (covered-filter keys p h ∙ b))

-- Where no key of the allow list leads below an earlier one, all that the filter leaves at a path
-- that no key names, at its end or above it, is a map that is not empty.
pub allowlisting_filter-dropped :
    (keys : List String) (d : Dict) (k : String) (p : List String) (w : Value)
    → IsMappedDict d
    → unshadowed keys ≡ true
    → is_below keys (k ∷ p) ≡ false
    → value_at (k ∷ p) (obj (allowlisting_filter keys d)) ≡ some w
    → (rest : Dict) × (w ≡ obj rest) × (rest ≢ end)
allowlisting_filter-dropped keys d k p w m h b e =
    allowlist_prune-Dropped k p (allow_tree keys end) d w m (covered-filter keys (k ∷ p) h ∙ b)
      (rw (allowlisting_filter-eq-prune keys d) at e)
