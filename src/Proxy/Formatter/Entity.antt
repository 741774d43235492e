-- ===== src/Proxy/Formatter/Entity.antt =====
-- proxy/formatter.go entityFormatter: the chain of target, filter, renaming and prefix.
use lura_p.Common.{
  String, List, [], ◌∷◌, Option, none, some, ◌>>=◌, str_eq, ltb, if◌then◌else◌, split, length,
}
use lura_p.Config.{Backend}
use lura_p.Value.{Dict, end, field, obj, get, set, delete, len}
use lura_p.Proxy.{Response}
use lura_p.Proxy.Formatter.{extract_parts, allowlisting_filter, denylisting_filter}

-- `newAllowlistingFilter` and `newDenylistingFilter`, as data.
pub data PropertyFilter : Type 0 where
  allowlisting denylisting : List String → PropertyFilter

pub record EntityFormatter : Type 0 where
  pub target : String
  pub prefix : String
  pub property_filter : PropertyFilter
  pub mapping : List (String × String)

-- `strings.Split(m, ".")[0]`
abbrev first_part : String → String
first_part m = elim (split b'.' m) [ [] ↦ m | x ∷ xs ↦ x ]

unfoldable pub sanitize_mapping : List (String × String) → List (String × String)
sanitize_mapping [] = []
sanitize_mapping ((former, m) ∷ mapping) = (former, first_part m) ∷ sanitize_mapping mapping

-- What `NewEntityFormatter(remote)` makes where no flatmap filter is configured.
unfoldable pub new_plain_formatter : Backend → EntityFormatter
new_plain_formatter remote = record {
  target = remote.target;
  prefix = remote.group;
  property_filter =
      if ltb 0 (length remote.allow_list)
      then allowlisting remote.allow_list
      else denylisting remote.deny_list;
  mapping = sanitize_mapping remote.mapping;
}

unfoldable pub apply_filter : PropertyFilter → Dict → Option Dict
apply_filter (allowlisting allowlist) d = some (allowlisting_filter allowlist d)
apply_filter (denylisting blacklist) d = denylisting_filter blacklist d

-- The loop over the mapping, in the order of one iteration: the new key is written, then the former
-- one is deleted.
unfoldable pub rename_all : List (String × String) → Dict → Dict
rename_all [] d = d
rename_all ((former_key, new_key) ∷ mapping) d =
    rename_all mapping
      (elim (get former_key d) [ none ↦ d | some v ↦ delete former_key (set new_key v d) ])

-- The nil map has no entries.
abbrev pub entries : Option Dict → Dict
entries none = end
entries (some d) = d

-- `extractTarget(e.Target, &entity)`
unfoldable pub extract_target : String → Option Dict → Option Dict
extract_target target d = some (extract_parts (split b'.' target) (entries d))

-- The two steps that `Format` makes only where the map has entries.
unfoldable pub format_entries : EntityFormatter → Dict → Option Dict
format_entries e d = do
  kept ← (if ltb 0 (len d) then apply_filter e.property_filter d else some d)
  some (if ltb 0 (len kept) then rename_all e.mapping kept else kept)

-- A nil map stays nil: neither step looks into it.
unfoldable pub format_some : EntityFormatter → Option Dict → Option (Option Dict)
format_some e none = some none
format_some e (some d) = do kept ← format_entries e d; some (some kept)

-- `Format(entity)`; `none` is a panic.
unfoldable pub format : EntityFormatter → Response → Option Response
format e entity = do
  let found = if str_eq e.target "" then entity.payload else extract_target e.target entity.payload
  kept ← format_some e found
  some (record entity {
    payload = if str_eq e.prefix "" then kept else some (field e.prefix (obj (entries kept)) end);
  })
