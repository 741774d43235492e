-- ===== src/Encoding.antt =====
-- encoding/encoding.go and the register of its decoders. What `json.Decoder` makes of a text, with
-- numbers kept as they are written, is the argument `decode`; `none` is its error. A body that
-- cannot be read is `none`.
use lura_p.Common.{Bool, String, Option, none, some, ◌>>=◌, [], ◌∷◌, if◌then◌else◌}
use lura_p.Value.{Value, null, text, array, obj, nil, Dict, end, field}
use lura_p.Register.{Untyped, get_decoder_factory}

-- A decoder's result: an error, or the map, which is still nil where nothing was decoded into it.
abbrev pub Decoded : Type 0
Decoded = Option (Option Dict)

-- The decoders of the package.
pub data Kind : Type 0 where
  no_op : Kind
  json_entity : Kind
  json_collection : Kind
  safe_json : Kind
  string : Kind

-- `d.Decode(v)` into a map.
abbrev pub into_map : Value → Decoded
into_map null = some none
into_map (obj d) = some (some d)
into_map v = none

-- `*(v) = map[string]interface{}{k: x}`
abbrev pub single : String → Value → Decoded
single k x = some (some (field k x end))

-- `d.Decode(&collection)` and the map that holds it; the nil slice reads as the empty one.
abbrev pub into_collection : Value → Decoded
into_collection null = single "collection" (array nil)
into_collection (array vs) = single "collection" (array vs)
into_collection v = none

-- The switch of `SafeJSONDecoder`.
abbrev pub into_any : Value → Decoded
into_any (obj d) = some (some d)
into_any (array vs) = single "collection" (array vs)
into_any v = single "content" v

module _ (decode : String → Option Value) where
  -- A decoder's call.
  unfoldable pub run : Kind → Option String → Decoded
  run no_op body = some none
  run json_entity body = (body >>= decode) >>= into_map
  run json_collection body = (body >>= decode) >>= into_collection
  run safe_json body = (body >>= decode) >>= into_any
  run string body = body >>= (λ s. single "content" (text s))

-- `NewJSONDecoder(isCollection)`
abbrev pub new_json_decoder : Bool → Kind
new_json_decoder is_collection = if is_collection then json_collection else json_entity

-- `defaultDecoders`
abbrev pub default_decoders : Untyped (Bool → Kind)
default_decoders =
    ("json", new_json_decoder)
    ∷ ("safejson", λ b. safe_json)
    ∷ ("string", λ b. string)
    ∷ ("no-op", λ b. no_op)
    ∷ []

-- `GetRegister().Get(name)(isCollection)`, where no other decoder has been registered.
unfoldable pub decoder_named : String → Bool → Kind
unfolding get_decoder_factory
decoder_named name is_collection =
    get_decoder_factory new_json_decoder default_decoders name is_collection
