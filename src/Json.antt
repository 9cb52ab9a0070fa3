-- ===== src/Json.antt =====
-- The values of rapidjson's documents, as trees, and the calls that the library makes of them. Where
-- rapidjson leaves a call undefined, `json_index` and the readers have some value, and what calls them
-- has `Common.requires` in front of the call. A number is the text that `std::to_string` prints of it.
pub mod Library
use cpp_oasvalidator.Prelude.{
  Bytes, equal, List, [], ◌∷◌, if◌then◌else◌, Bool, true, false, Option, none, some, ◌⊎◌,
}

mutual
  pub data Json : Type 0 where
    null : Json
    flag : Bool → Json
    number : Bytes → Json
    text : Bytes → Json
    array : Items → Json
    object : Members → Json

  pub data Items : Type 0 where
    end : Items
    item : Json → Items → Items

  pub data Members : Type 0 where
    nil : Members
    member : Bytes → Json → Members → Members

abbrev pub items : Items → List Json
items end = []
items (item v xs) = v ∷ items xs

abbrev pub members : Members → List (Bytes × Json)
members nil = []
members (member k v ms) = (k, v) ∷ members ms

abbrev pub has : Bytes → Members → Bool
has k nil = false
has k (member k' v ms) = if equal k' k then true else has k ms

abbrev pub get_member : Bytes → Members → Json
get_member k nil = null
get_member k (member k' v ms) = if equal k' k then v else get_member k ms

-- `FindMember`
unfoldable pub find_member : Bytes → Members → Option Json
find_member key nil = none
find_member key (member k v ms) = if equal k key then some v else find_member key ms

-- `IsObject`, `IsString`
abbrev pub json_is_object : Json → Bool
json_is_object (object ms) = true
json_is_object _ = false

abbrev pub json_is_text : Json → Bool
json_is_text (text s) = true
json_is_text _ = false

-- `IsArray`, `IsBool`
abbrev pub json_is_array : Json → Bool
json_is_array (array xs) = true
json_is_array _ = false

abbrev pub json_is_flag : Json → Bool
json_is_flag (flag b) = true
json_is_flag _ = false

-- `HasMember`, and `operator[]`
abbrev pub json_has : Json → Bytes → Bool
json_has (object ms) k = has k ms
json_has _ k = false

abbrev pub json_index : Json → Bytes → Json
json_index (object ms) k = get_member k ms
json_index _ k = null

-- `GetString`, `GetBool`, `GetObject`, `GetArray`
abbrev pub json_text : Json → Bytes
json_text (text s) = s
json_text _ = []

abbrev pub json_flag : Json → Bool
json_flag (flag b) = b
json_flag _ = false

abbrev pub json_object : Json → List (Bytes × Json)
json_object (object ms) = members ms
json_object _ = []

abbrev pub json_array : Json → List Json
json_array (array xs) = items xs
json_array _ = []
