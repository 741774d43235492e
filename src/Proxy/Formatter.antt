-- ===== src/Proxy/Formatter.antt =====
-- proxy/formatter.go: the entity formatter and its parts. The map updates in place are functions
-- from the old map to the new one; `none` is a panic.
pub mod Entity
pub mod Flatmap
pub mod Target
pub mod Rename
pub mod DenyTree
pub mod RecDelete
pub mod Deny
pub mod AllowTree
pub mod Prune
pub mod Allow
use lura_p.Common.{
  Bool, true, false, ◌&&◌, not, String, List, [], ◌∷◌, Option, none, some, ◌>>=◌, str_eq,
  if◌then◌else◌, split,
}
use lura_p.Value.{
  Value, null, bool, number, text, array, obj, Dict, end, field, get, set, delete, as_dict,
}

-- The loop of `extractTarget` over the parts of the target.
unfoldable pub extract_parts : List String → Dict → Dict
extract_parts [] d = d
extract_parts (part ∷ parts) d = elim (get part d) [
  | none ↦ end
  | some tmp ↦ elim (as_dict tmp) [ none ↦ end | some sub ↦ extract_parts parts sub ]
]

-- `AllowlistPrune(wlDict, inDict)`: what is left of `inDict`, and whether all of it may go.
unfoldable mutual
  pub allowlist_prune : Dict → Dict → Dict × Bool
  allowlist_prune wl end = (end, true)
  allowlist_prune wl (field k v d) =
      let (rest, can_delete) = allowlist_prune wl d in
      elim (prune_value (get k wl) v) [
        | none ↦ (rest, can_delete)
        | some w ↦ (field k w rest, false)
      ]

  -- One round of the loop: the value that stays at the key, or `none` for `deleteSibling`.
  pub prune_value : Option Value → Value → Option Value
  prune_value none v = none
  prune_value (some (obj wl)) (obj d) =
      let (rest, can_delete) = allowlist_prune wl d in if can_delete then none else some (obj rest)
  prune_value (some (obj wl)) v = none
  prune_value (some _) v = some v

-- `buildDictPath(tree, fields[:len(fields)-1])` and the write of the leaf in the map that it returns:
-- the maps on the way are kept, and whatever else stands there is replaced.
unfoldable pub allow_path : List String → Dict → Dict
allow_path [] tree = tree
allow_path (f ∷ []) tree = set f (bool true) tree
allow_path (f ∷ g ∷ fields) tree = elim (get f tree >>= as_dict) [
  | none ↦ set f (obj (allow_path (g ∷ fields) end)) tree
  | some c ↦ set f (obj (allow_path (g ∷ fields) c)) tree
]

-- The loop of `newAllowlistingFilter` over the allow list.
unfoldable pub allow_tree : List String → Dict → Dict
allow_tree [] tree = tree
allow_tree (k ∷ allowlist) tree = allow_tree allowlist (allow_path (split b'.' k) tree)

-- The filter that `newAllowlistingFilter` returns. Where all may go, the entries that are left are
-- deleted one by one.
unfoldable pub allowlisting_filter : List String → Dict → Dict
allowlisting_filter allowlist d =
    let (rest, can_delete) = allowlist_prune (allow_tree allowlist end) d in
    if can_delete then end else rest

-- `buildDenyTree(path, tree)`
unfoldable pub build_deny_tree : List String → Dict → Dict
build_deny_tree [] tree = tree
build_deny_tree (n ∷ []) tree = set n null tree
build_deny_tree (n ∷ m ∷ path) tree = elim (get n tree) [
  | none ↦ set n (obj (build_deny_tree (m ∷ path) end)) tree
  | some null ↦ tree
  | some (obj child) ↦ set n (obj (build_deny_tree (m ∷ path) child)) tree
  | some _ ↦ set n null tree
]

-- The loop of `newDenylistingFilter` over the deny list.
unfoldable pub deny_tree : List String → Dict → Dict
deny_tree [] tree = tree
deny_tree (key ∷ blacklist) tree = deny_tree blacklist (build_deny_tree (split b'.' key) tree)

-- `recDelete(ref, v)` at a map `m`; anything else is left as it is.
unfoldable mutual
  pub rec_delete : Dict → Dict → Option Dict
  rec_delete end m = some m
  rec_delete (field rk rv ref) m = do m' ← delete_at rv rk m; rec_delete ref m'

  -- One round of the loop; the type assertion on `rv` panics.
  pub delete_at : Value → String → Dict → Option Dict
  delete_at null rk m = elim (get rk m) [ none ↦ some m | some dv ↦ some (delete rk m) ]
  delete_at (obj sub) rk m = elim (get rk m) [
    | none ↦ some m
    | some dv ↦ elim (as_dict dv) [
      | none ↦ some m
      | some dm ↦ do dm' ← rec_delete sub dm; some (set rk (obj dm') m)
    ]
  ]
  delete_at _ rk m = elim (get rk m) [ none ↦ some m | some dv ↦ none ]

-- The filter that `newDenylistingFilter` returns.
unfoldable pub denylisting_filter : List String → Dict → Option Dict
denylisting_filter blacklist d = rec_delete (deny_tree blacklist end) d
