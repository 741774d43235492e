-- ===== src/Config/Urls.antt =====
-- config/config.go initBackendURLMappings: the placeholders of a backend's URL pattern and the
-- parameters that they stand for.
use Prim.Native.String.{[], ◌∷◌}
use lura_p.Common.{
  ℕ, suc, ◌||◌, String, List, [], ◌∷◌, if◌then◌else◌, str_eq, string_lt, contains, ltb, length,
}
use lura_p.Config.{EndpointConfig, Backend}
use lura_p.Config.Fallible.{
  Result, failed, done, ◌>>=◌, wrong_number_of_params, undefined_output_param,
}
use lura_p.Config.Uri.{Platform, clean_path, ◌<>◌}

-- `sort.Strings`
abbrev pub insert_text : String → List String → List String
insert_text x [] = x ∷ []
insert_text x (y ∷ ys) =
    let rest = insert_text x ys in if string_lt y x then y ∷ rest else x ∷ y ∷ ys

abbrev pub sort_texts : List String → List String
sort_texts [] = []
sort_texts (x ∷ xs) = insert_text x (sort_texts xs)

-- The set of the input parameters: a map's keys.
abbrev pub dedup : List String → List String
dedup [] = []
dedup (x ∷ xs) = let rest = dedup xs in if contains xs x then rest else x ∷ rest

module _ (env : Platform) where
  -- The loop of `uniqueOutput` from `cur` = output[j].
  unfoldable pub unique_from : String → List String → List String × ℕ
  unique_from cur [] = (cur ∷ [], 0)
  unique_from cur (x ∷ xs) =
      let same = unique_from cur xs in
      let (rest, size) = unique_from x xs in
      if str_eq cur x then same else (cur ∷ rest, if env.is_sequential cur then size else suc size)

  -- `uniqueOutput(output)`
  unfoldable pub unique_output : List String → List String × ℕ
  unfolding unique_from
  unique_output output = elim (sort_texts output) [ [] ↦ ([], 0) | (x ∷ xs) ↦ unique_from x xs ]

  -- `title.String(output[:1]) + output[1:]`, for a text of the patterns, whose characters are bytes.
  abbrev pub key_of : String → String
  key_of [] = ""
  key_of (c ∷ s) = env.title (c ∷ []) <> s

  -- The loop of `initBackendURLMappings`: the pattern so far and the keys of the rest.
  unfoldable pub map_outputs :
      EndpointConfig
      → ℕ
      → List String
      → List String
      → List String
      → String
      → Result (String × List String)
  map_outputs e i inputs outputs [] pattern = done (pattern, [])
  map_outputs e i inputs outputs (o ∷ os) pattern =
      let rest =
        map_outputs e i inputs outputs os
          (env.replace_all pattern ("{" <> o <> "}") ("{{." <> key_of o <> "}}")) in
      if env.is_sequential o || contains inputs o
      then (do (final, keys) ← rest; done (final, key_of o ∷ keys))
      else failed
          (undefined_output_param o e.endpoint e.method i (sort_texts (dedup inputs)) outputs)

  -- `s.initBackendURLMappings(e, b, inputParams)`
  unfoldable pub init_backend_url_mappings :
      EndpointConfig → ℕ → List String → Backend → Result Backend
  init_backend_url_mappings e i inputs b = do
    let pattern = clean_path b.url_pattern
    let (outputs, size) = unique_output (env.simple_keys pattern)
    let ip = sort_texts (dedup inputs)
    (final, keys) ←
        if ltb (length ip) size
        then failed (wrong_number_of_params e.endpoint e.method i ip outputs)
        else map_outputs e i inputs outputs outputs pattern
    done (record b { url_pattern = final; url_keys = keys })
