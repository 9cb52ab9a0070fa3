-- ===== src/Validators/Param.antt =====
-- include/validators/param_validators.hpp and src/validators/param_validators.cpp
pub mod Style
pub mod Build
pub mod Returns
pub mod Arrays
pub mod Objects
pub mod Primitives
use cpp_oasvalidator.Prelude.{
  Bytes, codes, List, [], ◌∷◌, ◌++◌, ◌==◌, if◌then◌else◌, Bool, true, false, not, ◌&&◌, Option,
  none, some,
}
use cpp_oasvalidator.Common.{
  ValidationError, invalid_path_param, invalid_query_param, invalid_header_param, PrimitiveType,
  ParamStyle, content, deep_obj, space_delim, ExtendedType, Exception, deserialization,
  validator_init, Result, ok, throw, out_of_fuel,
}
use cpp_oasvalidator.Trie.{ParamRange}
use cpp_oasvalidator.Deserializer.{Base}
use cpp_oasvalidator.Deserializer.Primitive
use cpp_oasvalidator.Deserializer.Primitive.{PrimitiveDeserializer}
use cpp_oasvalidator.Deserializer.Array
use cpp_oasvalidator.Deserializer.Array.{ArrayDeserializer}
use cpp_oasvalidator.Deserializer.Object
use cpp_oasvalidator.Deserializer.Object.{ObjectDeserializer, ObjKtMap}
use cpp_oasvalidator.Deserializer.Content
use cpp_oasvalidator.Deserializer.Content.{ContentDeserializer}
use cpp_oasvalidator.Validators.{
  Report, BaseValidator, base_validator_at, lookup, emplace_key, Rapidjson, JsonValidator,
  validate_json,
}

-- `BaseDeserializer` with its four subclasses, and the virtual call.
pub data BaseDeserializer : Type 0 where
  of_primitive : PrimitiveDeserializer → BaseDeserializer
  of_array : ArrayDeserializer → BaseDeserializer
  of_object : ObjectDeserializer → BaseDeserializer
  of_content : ContentDeserializer → BaseDeserializer

unfoldable pub deserialize : BaseDeserializer → ParamRange → Result Bytes
deserialize (of_primitive d) range = Primitive.deserialize d range
deserialize (of_array d) range = Array.deserialize d range
deserialize (of_object d) range = Object.deserialize d range
deserialize (of_content d) range = Content.deserialize d range

-- `m.at(key)`
abbrev pub at_or_throw {ℓ} : {A : Type ℓ} → Bytes → List (Bytes × A) → Exception → Result A
at_or_throw key m exc = elim (lookup key m) [ some x ↦ ok x | none ↦ throw exc ]

pub record ParamValidator (lib : Rapidjson) : Type 0 where
  pub json : JsonValidator lib
  pub name : Bytes
  pub required : Bool
  pub deserializer : BaseDeserializer

module _ (lib : Rapidjson) where
  -- The `catch` of `ValidateParam`, with `exc.what()`: other exceptions pass through it.
  unfoldable pub caught_param : ParamValidator lib → Exception → Result Report
  caught_param v (deserialization message) = ok (
    v.json.base.code_on_error,
    v.json.base.err_header ++ (codes "\"description\":\"" ++ (message ++ codes "\"}}")),
  )
  caught_param v exc = throw exc

  -- `ValidateParam`
  unfoldable pub validate_param : ParamValidator lib → ParamRange → Bytes → Result Report
  validate_param v range error_msg = elim (deserialize v.deserializer range) [
    | ok ret ↦ ok (validate_json lib v.json ret error_msg)
    | throw exc ↦ caught_param v exc
    | out_of_fuel ↦ out_of_fuel
  ]

  -- `ErrorOnMissing`
  unfoldable pub error_on_missing : ParamValidator lib → Report
  error_on_missing v = (
    v.json.base.code_on_error,
    v.json.base.err_header
        ++ (codes "\"description\":\"Missing required parameter '" ++ (v.name ++ codes "'\"}}")),
  )
