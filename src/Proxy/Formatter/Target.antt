-- ===== src/Proxy/Formatter/Target.antt =====
-- What the target leads to, and that a formatter never panics.
use lura_p.Common.{
  ◌≡◌, refl, String, List, [], ◌∷◌, Option, none, some, ◌>>=◌, str_eq, ltb, if◌then◌else◌,
  Option-cases, Bool-cases, inl, inr, ◌∙◌,
}
use lura_p.Value.{Value, Dict, end, field, obj, get, as_dict, len}
use lura_p.Value.Paths.{value_at, value_at-get, value_at-get-none, value_at-of_no_map}
use lura_p.Value.Laws.{as_dict-eq_some}
use lura_p.Proxy.{Response}
use lura_p.Proxy.Formatter.{extract_parts}
use lura_p.Proxy.Formatter.Deny.{denylisting_filter-outline_at}
use lura_p.Proxy.Formatter.Entity.{
  EntityFormatter, PropertyFilter, allowlisting, denylisting, apply_filter, format_entries,
  format_some, format, extract_target, entries, rename_all,
}

-- The map that a value is, and the empty one for all that is none.
abbrev pub map_or_empty : Option Value → Dict
map_or_empty o = elim (o >>= as_dict) [ none ↦ end | some d ↦ d ]

-- The loop of `extractTarget` finds the map at the end of the path, and the empty map where the path
-- breaks off or ends in anything else.
pub extract_parts-value_at :
    (parts : List String) (d : Dict) → extract_parts parts d ≡ map_or_empty (value_at parts (obj d))
unfolding extract_parts
extract_parts-value_at [] d = unfold value_at in refl
extract_parts-value_at (k ∷ parts) d = elim (Option-cases (get k d)) [
  | inl e ↦ rw (e, extract_parts) (rw (value_at-get-none k parts d e))
  | inr (v, e) ↦
      rw (e, extract_parts)
        (rw (value_at-get k parts d e) (elim (Option-cases (as_dict v)) [
          | inl q ↦ rw q (broken parts v q)
          | inr (c, q) ↦ rw q (extract_parts-value_at parts c ∙ rw (as_dict-eq_some v q))
        ]))
]
  where
    broken :
        (parts : List String) (v : Value) → as_dict v ≡ none → end ≡ map_or_empty (value_at parts v)
    broken [] v q = unfold value_at in rw (q, map_or_empty)
    broken (j ∷ parts) v q = rw (value_at-of_no_map j parts v q)

apply_filter_total : (f : PropertyFilter) (d : Dict) → (d' : Dict) × (apply_filter f d ≡ some d')
unfolding apply_filter
apply_filter_total (allowlisting keys) d = (_, refl)
apply_filter_total (denylisting keys) d =
    let (d', done, rest) = denylisting_filter-outline_at keys d in (d', done)

format_entries_total :
    (e : EntityFormatter) (d : Dict) → (d' : Dict) × (format_entries e d ≡ some d')
unfolding format_entries
format_entries_total e d = elim (Bool-cases (ltb 0 (len d))) [
  | inl some_entries ↦
      let (d', done) = apply_filter_total e.property_filter d in
      (if ltb 0 (len d') then rename_all e.mapping d' else d', rw some_entries (rw done))
  | inr no_entries ↦ (d, rw no_entries (rw no_entries))
]

format_some_total :
    (e : EntityFormatter) (d : Option Dict) → (d' : Option Dict) × (format_some e d ≡ some d')
unfolding format_some
format_some_total e none = (none, refl)
format_some_total e (some d) = let (d', done) = format_entries_total e d in (some d', rw done)

-- What the formatter hands out: its data, under the prefix if there is one.
abbrev pub prefixed : String → Option Dict → Option Dict
prefixed prefix d = if str_eq prefix "" then d else some (field prefix (obj (entries d)) end)

-- Formatting does not panic, leaves all but the data as it was, and hands out under the prefix, if
-- there is one, what the filter and the renaming make of the target.
pub format_total :
    (e : EntityFormatter) (r : Response)
    → (r' : Response) × (kept : Option Dict) × (format e r ≡ some r')
      × (format_some e (if str_eq e.target "" then r.payload else extract_target e.target r.payload)
          ≡ some kept)
      × (r'.payload ≡ prefixed e.prefix kept)
      × (r'.is_complete ≡ r.is_complete)
      × (r'.metadata ≡ r.metadata)
      × (r'.io ≡ r.io)
unfolding format
format_total e r =
    let found = if str_eq e.target "" then r.payload else extract_target e.target r.payload in
    let (kept, done) = format_some_total e found in
    (record r { payload = prefixed e.prefix kept }, kept, rw done, done, refl, refl, refl, refl)
