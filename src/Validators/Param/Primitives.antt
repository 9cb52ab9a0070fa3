-- ===== src/Validators/Param/Primitives.antt =====
-- An integer parameter that is serialized as OpenAPI says, and the deserializer that
-- `GetDeserializer` makes for it.
use cpp_oasvalidator.Prelude.{
  Bytes, codes, equal, List, [], ◌∷◌, ◌++◌, Bool, true, false, ◌↔◌, ◌≡◌, refl,
}
use cpp_oasvalidator.Common.{
  integer, ParamStyle, simple, label, matrix, form, space_delim, pipe_delim, deep_obj, content,
  ExtendedType, ok, ◌>>=◌,
}
use cpp_oasvalidator.Deserializer.Integer.{IsInteger}
use cpp_oasvalidator.Deserializer.Primitive.{PrimitiveDeserializer}
use cpp_oasvalidator.Deserializer.Primitive.Exact.{prefixed, primitive_deserialize_integer_iff}
use cpp_oasvalidator.Validators.{Rapidjson, lookup}
use cpp_oasvalidator.Validators.Param.{deserialize}
use cpp_oasvalidator.Validators.Param.Style.{get_start_char, has_name_at_start, primitive_type_map}
use cpp_oasvalidator.Validators.Param.Build.{Reading, base_of, type_switch}

-- The styles that OpenAPI has for primitive values.
abbrev pub is_primitive_style : ParamStyle → Bool
is_primitive_style simple = true
is_primitive_style label = true
is_primitive_style matrix = true
is_primitive_style form = true
is_primitive_style _ = false

-- The serialization of a primitive value in a style, by the tables of OpenAPI; exploded or not is
-- the same.
pub styled : ParamStyle → Bytes → Bytes → Bytes
styled simple name s = s
styled label name s = b'.' ∷ s
styled matrix name s = b';' ∷ (name ++ b'=' ∷ s)
styled form name s = name ++ b'=' ∷ s
styled _ name s = []

module _ (lib : Rapidjson) where
  abbrev for_integer : Reading lib → PrimitiveDeserializer
  for_integer r = record {
    base = base_of lib r (has_name_at_start r.location r.style r.explode ExtendedType.integer);
    param_type = integer;
  }

  prefixed-styled :
      (name location : Bytes) (style : ParamStyle) (explode : Bool) (s : Bytes)
      → is_primitive_style style ≡ true
      → prefixed
          (for_integer
            (record { param_name = name; location = location; style = style; explode = explode }))
          s
        ≡ styled style name s
  unfolding styled get_start_char has_name_at_start
  prefixed-styled name location simple explode s h = refl
  prefixed-styled name location label explode s h = refl
  prefixed-styled name location matrix explode s h = refl
  prefixed-styled name location form explode s h = refl
  prefixed-styled name location space_delim explode s h = cc
  prefixed-styled name location pipe_delim explode s h = cc
  prefixed-styled name location deep_obj explode s h = cc
  prefixed-styled name location content explode s h = cc

  -- The deserializer that the code makes for an integer parameter, whose style is simple, label,
  -- matrix or form, gives a text back exactly if the text is an integer, `-?[0-9]+`, and the
  -- parameter is its serialization in that style by the tables of OpenAPI.
  pub integer_deserialize_iff :
      (param_val : lib.Value) (ref_keys : List Bytes) (name location : Bytes) (style : ParamStyle)
      (explode : Bool) (within beyond out : Bytes)
      → is_primitive_style style ≡ true
      → ((type_switch lib param_val
              (record { param_name = name; location = location; style = style; explode = explode })
              (codes "integer")
              ExtendedType.integer
              ref_keys
            >>= λ d. deserialize d (record { within = within; beyond = beyond }))
          ≡ ok out)
        ↔ (IsInteger out × (within ≡ styled style name out))
  unfolding type_switch deserialize lookup equal primitive_type_map
  integer_deserialize_iff param_val ref_keys name location style explode within beyond out h =
      rw (← prefixed-styled name location style explode out h) (
        primitive_deserialize_integer_iff
          (for_integer
            (record { param_name = name; location = location; style = style; explode = explode }))
          within beyond out refl)
