-- ===== src/Validators/Param/Style.antt =====
-- The tables at the top of src/validators/param_validators.cpp: how the style of a parameter is
-- written.
use cpp_oasvalidator.Prelude.{
  ℕ, Bytes, codes, equal, List, [], ◌∷◌, if◌then◌else◌, Bool, true, false, not, ◌||◌,
}
use cpp_oasvalidator.Common.{
  ParamStyle, simple, label, matrix, form, space_delim, pipe_delim, deep_obj, content,
  PrimitiveType, ExtendedType,
}

-- `GetStartChar`; the byte 0 stands for none
unfoldable pub get_start_char : ParamStyle → ℕ
get_start_char label = b'.'
get_start_char matrix = b';'
get_start_char _ = 0

-- `ExtendedType::ARRAY != type && ExtendedType::OBJECT != type`
abbrev pub is_primitive : ExtendedType → Bool
is_primitive ExtendedType.array = false
is_primitive ExtendedType.object = false
is_primitive _ = true

-- `HasNameAtStart`
unfoldable pub has_name_at_start : Bytes → ParamStyle → Bool → ExtendedType → Bool
has_name_at_start location simple explode type = false
has_name_at_start location label explode type = false
has_name_at_start location content explode type = equal (codes "query") location
has_name_at_start location _ explode type = is_primitive type || not explode

-- The `switch` of `GetArrayItemsSeparator` for exploded values.
abbrev pub exploded_separator : ParamStyle → ℕ
exploded_separator label = b'.'
exploded_separator matrix = b';'
exploded_separator form = b'&'
exploded_separator space_delim = b'&'
exploded_separator pipe_delim = b'&'
exploded_separator _ = b','

abbrev pub joined_separator : ParamStyle → ℕ
joined_separator space_delim = b'%'
joined_separator pipe_delim = b'|'
joined_separator _ = b','

-- `GetArrayItemsSeparator`
unfoldable pub get_array_items_separator : ParamStyle → Bool → ℕ
get_array_items_separator style explode =
    if explode then exploded_separator style else joined_separator style

abbrev pub is_named_style : ParamStyle → Bool
is_named_style matrix = true
is_named_style form = true
is_named_style space_delim = true
is_named_style pipe_delim = true
is_named_style _ = false

-- `HasArrayRunningName`
unfoldable pub has_array_running_name : ParamStyle → Bool → Bool
has_array_running_name style explode = if explode then is_named_style style else false

-- `GetObjKVSep`
unfoldable pub get_obj_kv_sep : Bool → ℕ
get_obj_kv_sep explode = if explode then b'=' else b','

abbrev pub exploded_vk_sep : ParamStyle → ℕ
exploded_vk_sep label = b'.'
exploded_vk_sep matrix = b';'
exploded_vk_sep form = b'&'
exploded_vk_sep deep_obj = b'&'
exploded_vk_sep _ = b','

-- `GetObjVKSep`
unfoldable pub get_obj_vk_sep : ParamStyle → Bool → ℕ
get_obj_vk_sep style explode = if explode then exploded_vk_sep style else b','

-- `ParamStyle::X == style`, for the two styles that the code asks for
unfoldable pub is_style : ParamStyle → ParamStyle → Bool
is_style space_delim space_delim = true
is_style deep_obj deep_obj = true
is_style _ _ = false

-- `PARAM_STYLE_MAP`, `PRIMITIVE_TYPE_MAP` and `EXTENDED_TYPE_MAP`
unfoldable pub param_style_map : List (Bytes × ParamStyle)
param_style_map =
    (codes "simple", simple)
    ∷ (codes "label", label)
    ∷ (codes "matrix", matrix)
    ∷ (codes "form", form)
    ∷ (codes "spaceDelimited", space_delim)
    ∷ (codes "pipeDelimited", pipe_delim)
    ∷ (codes "deepObject", deep_obj)
    ∷ (codes "content", content)
    ∷ []

unfoldable pub primitive_type_map : List (Bytes × PrimitiveType)
primitive_type_map =
    (codes "boolean", PrimitiveType.boolean)
    ∷ (codes "integer", PrimitiveType.integer)
    ∷ (codes "number", PrimitiveType.number)
    ∷ (codes "string", PrimitiveType.string)
    ∷ []

unfoldable pub extended_type_map : List (Bytes × ExtendedType)
extended_type_map =
    (codes "boolean", ExtendedType.boolean)
    ∷ (codes "integer", ExtendedType.integer)
    ∷ (codes "number", ExtendedType.number)
    ∷ (codes "string", ExtendedType.string)
    ∷ (codes "array", ExtendedType.array)
    ∷ (codes "object", ExtendedType.object)
    ∷ []
