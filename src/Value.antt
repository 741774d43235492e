-- ===== src/Value.antt =====
-- The values that decoders produce and that configuration holds: Go's `interface{}` with the dynamic
-- types of encoding/json, and `map[string]interface{}`.
--
-- A map is the list of its entries in the order of one iteration, which Go leaves open. A number is
-- the literal text that `json.Decoder.UseNumber` keeps. A nil map inside an `interface{}` does not
-- arise from a decoder and is not told apart from an empty one; a nil map at a struct's field is
-- `Option`.
pub mod Laws
pub mod Paths
use lura_p.Common.{
  ℕ, suc, Bool, true, false, String, List, [], ◌∷◌, Option, none, some, ◌≡◌, str_eq, if◌then◌else◌,
}

mutual
  pub data Value : Type 0 where
    null : Value
    bool : Bool → Value
    number : String → Value
    text : String → Value
    array : Items → Value
    obj : Dict → Value

  pub data Items : Type 0 where
    nil : Items
    item : Value → Items → Items

  pub data Dict : Type 0 where
    end : Dict
    field : String → Value → Dict → Dict

-- `v, ok := d[k]`
unfoldable pub get : String → Dict → Option Value
get k end = none
get k (field j v d) = if str_eq j k then some v else get k d

-- `d[k] = v`: in place, or a new entry.
unfoldable pub set : String → Value → Dict → Dict
set k v end = field k v end
set k v (field j w d) = if str_eq j k then field j v d else field j w (set k v d)

-- `delete(d, k)`
unfoldable pub delete : String → Dict → Dict
delete k end = end
delete k (field j w d) = if str_eq j k then delete k d else field j w (delete k d)

-- `len(d)`
unfoldable pub len : Dict → ℕ
len end = 0
len (field j v d) = suc (len d)

-- `for k, v := range src { dst[k] = v }`
unfoldable pub set_all : Dict → Dict → Dict
set_all end dst = dst
set_all (field k v src) dst = set_all src (set k v dst)

-- `v.(map[string]interface{})`
abbrev pub as_dict : Value → Option Dict
as_dict (obj d) = some d
as_dict _ = none

-- No key has two entries, which Go's maps give for free: here at the top level, ...
unfoldable pub IsMap : Dict → Type 0
unfolding get
IsMap end = Unit
IsMap (field k v d) = (get k d ≡ none) × IsMap d

-- ... and at every depth of a value.
unfoldable mutual
  pub IsMapped : Value → Type 0
  IsMapped null = Unit
  IsMapped (bool b) = Unit
  IsMapped (number s) = Unit
  IsMapped (text s) = Unit
  IsMapped (array xs) = Unit
  IsMapped (obj d) = IsMappedDict d

  pub IsMappedDict : Dict → Type 0
  IsMappedDict end = Unit
  IsMappedDict (field k v d) = (get k d ≡ none) × IsMapped v × IsMappedDict d
