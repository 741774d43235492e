-- ===== src/Tests/Formatter.antt =====
-- The formatter on a small map.
use mathlib.Core.List.{Permᴰ}
use lura_p.Common.{
  true, List, [], ◌∷◌, none, some, ◌≡◌, ◌≢◌, refl, String, if◌then◌else◌, nodup, contains, split,
  split_from,
}
use lura_p.Value.{
  Value, bool, number, text, obj, field, end, Dict, get, set, delete, IsMappedDict, IsMap,
}
use lura_p.Value.Paths.{is_below, is_prefix, value_at, outline_at}
use lura_p.Proxy.{Response}
use lura_p.Proxy.Merging.{bare}
use lura_p.Proxy.Formatter.{
  allowlisting_filter, allowlist_prune, prune_value, allow_tree, allow_path, denylisting_filter,
  extract_parts,
}
use lura_p.Proxy.Formatter.Entity.{EntityFormatter, denylisting, rename_all}
use lura_p.Proxy.Formatter.Deny.{denylisting_filter-outline_at}
use lura_p.Proxy.Formatter.Allow.{allowlisting_filter-kept, allowlisting_filter-dropped}
use lura_p.Proxy.Formatter.Rename.{renamed, rename_all-perm}
use lura_p.Proxy.Formatter.Target.{extract_parts-value_at}

abbrev home : Dict
home = field "city" (text "Oslo") (field "zip" (text "0150") end)

abbrev person : Dict
person = field "name" (text "Kari") (field "home" (obj home) end)

abbrev keys : List String
keys = "home.zip" ∷ []

denylisting_filter-outline_at_example :
    (d' : Dict) × (denylisting_filter keys person ≡ some d')
    × ((p : List String)
        → outline_at p (obj d') ≡ (if is_below keys p then none else outline_at p (obj person)))
denylisting_filter-outline_at_example = denylisting_filter-outline_at keys person

person-IsMappedDict : IsMappedDict person
unfolding IsMappedDict lura_p.Value.IsMapped get
person-IsMappedDict = (refl, tt, (refl, (refl, tt, (refl, tt, tt)), tt))

allowlisting_filter-kept_example :
    value_at ("home" ∷ "zip" ∷ []) (obj (allowlisting_filter keys person))
    ≡ value_at ("home" ∷ "zip" ∷ []) (obj person)
unfolding split split_from is_prefix
allowlisting_filter-kept_example =
    allowlisting_filter-kept keys person ("home" ∷ "zip" ∷ []) person-IsMappedDict refl refl

allowlisting_filter-dropped_example :
    (rest : Dict) × (obj (field "zip" (text "0150") end) ≡ obj rest) × (rest ≢ end)
unfolding split split_from is_prefix value_at allowlisting_filter allowlist_prune prune_value
    allow_tree allow_path set get
allowlisting_filter-dropped_example =
    allowlisting_filter-dropped keys person "home" [] (obj (field "zip" (text "0150") end))
      person-IsMappedDict refl refl refl

abbrev mapping : List (String × String)
mapping = ("name", "full_name") ∷ ("home", "address") ∷ []

rename_all-perm_example :
    (get "full_name" (rename_all (("home", "address") ∷ ("name", "full_name") ∷ []) person)
      ≡ get "full_name" (rename_all mapping person))
    × (get "full_name" (rename_all mapping person) ≡ some (text "Kari"))
unfolding nodup contains renamed get
rename_all-perm_example =
    rename_all-perm mapping (("home", "address") ∷ ("name", "full_name") ∷ []) person "full_name"
      refl (Permᴰ.swap refl refl)

extract_parts-value_at_example : extract_parts ("home" ∷ []) person ≡ home
unfolding value_at get
extract_parts-value_at_example = extract_parts-value_at ("home" ∷ []) person

abbrev formatter : EntityFormatter
formatter = record {
  target = "home";
  prefix = "place";
  property_filter = denylisting ("zip" ∷ []);
  mapping = ("city", "town") ∷ [];
}

abbrev answer : Response
answer = bare person true
