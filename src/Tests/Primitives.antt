-- ===== src/Tests/Primitives.antt =====
-- Primitive parameters of the styles `label`, `form` and `matrix`.
use cpp_oasvalidator.Prelude.{codes, [], ◌∷◌, true, false, ◌↔◌, ◌≡◌, refl, arith}
use cpp_oasvalidator.Common.{integer, string, matrix, ExtendedType, ok, ◌>>=◌}
use cpp_oasvalidator.Deserializer.{no_terminator}
use cpp_oasvalidator.Deserializer.Decode.{encode, CanKeep}
use cpp_oasvalidator.Deserializer.Integer.{IsInteger}
use cpp_oasvalidator.Deserializer.Primitive
use cpp_oasvalidator.Deserializer.Primitive.{PrimitiveDeserializer}
use cpp_oasvalidator.Deserializer.Primitive.Exact.{prefixed, primitive_deserialize-encode}
use cpp_oasvalidator.Validators.Param.{deserialize}
use cpp_oasvalidator.Validators.Param.Build.{type_switch}
use cpp_oasvalidator.Validators.Param.Primitives.{styled, integer_deserialize_iff}
use cpp_oasvalidator.Json.{text}
use cpp_oasvalidator.Tests.Documents.{library}
use cpp_oasvalidator.Tests.Parameters.{is_lower}

abbrev form_page : PrimitiveDeserializer
form_page = record {
  base = record { param_name = codes "page"; start = 0; skip_name = true };
  param_type = integer;
}

abbrev label_name : PrimitiveDeserializer
label_name = record {
  base = record { param_name = codes "name"; start = b'.'; skip_name = false };
  param_type = string;
}

anywhere-CanKeep : CanKeep no_terminator is_lower
anywhere-CanKeep = record {
  no_percent = refl;
  no_plus = refl;
  no_stop = λ c h. refl;
  percent_goes_on = refl;
}

primitive_deserialize-encode_example :
    Primitive.deserialize label_name
      (record { within = prefixed label_name (encode is_lower (codes "a/b")); beyond = [] })
    ≡ ok (b'"' ∷ codes "a/b\"")
primitive_deserialize-encode_example =
    primitive_deserialize-encode label_name is_lower (codes "a/b") [] refl anywhere-CanKeep
      (omega arith) (λ e. cc)

integer_deserialize_iff_example :
    ((type_switch library
          (text [])
          (record {
            param_name = codes "id";
            location = codes "path";
            style = matrix;
            explode = true;
          })
          (codes "integer")
          ExtendedType.integer
          []
        >>= λ d. deserialize d (record { within = codes ";id=42"; beyond = codes "/posts" }))
      ≡ ok (codes "42"))
    ↔ (IsInteger (codes "42") × (codes ";id=42" ≡ styled matrix (codes "id") (codes "42")))
integer_deserialize_iff_example =
    integer_deserialize_iff library (text []) [] (codes "id") (codes "path") matrix true
      (codes ";id=42") (codes "/posts") (codes "42") refl
