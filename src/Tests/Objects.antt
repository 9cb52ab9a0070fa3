-- ===== src/Tests/Objects.antt =====
-- Object parameters on concrete texts.
use cpp_oasvalidator.Prelude.{
  codes, equal, String, ◌==◌, [], ◌∷◌, ◌++◌, true, false, ◌≡◌, refl, arith,
}
use cpp_oasvalidator.Common.{integer, string, deep_obj, ExtendedType, ok, ◌>>=◌}
use cpp_oasvalidator.Deserializer.{peek, terminator}
use cpp_oasvalidator.Deserializer.Integer.{unsigned}
use cpp_oasvalidator.Deserializer.Decode.{encode, CanKeep}
use cpp_oasvalidator.Deserializer.Object.{ObjKtMap, ObjectDeserializer, at_key}
use cpp_oasvalidator.Deserializer.Object.Written.{
  Member, quoted, listed, IsRead, integer-IsRead, string-IsRead,
}
use cpp_oasvalidator.Json.{Json, text, object, nil, member}
use cpp_oasvalidator.Validators.{lookup, emplace_key}
use cpp_oasvalidator.Validators.Param.{deserialize}
use cpp_oasvalidator.Validators.Param.Style.{is_style, get_obj_vk_sep, primitive_type_map}
use cpp_oasvalidator.Validators.Param.Build.{get_kt_map, kt_map_loop, type_switch}
use cpp_oasvalidator.Validators.Param.Objects.{
  for_object, serialized, object_deserialize-serialized,
}
use cpp_oasvalidator.Tests.Documents.{library}
use cpp_oasvalidator.Tests.Parameters.{is_lower}

-- `{"type": …}`
abbrev typed : String → Json
typed type = object (member (codes "type") (text (codes type)) nil)

abbrev filter_param : Json
filter_param = object (
    member (codes "schema")
      (object (
        member (codes "properties")
          (object
            (member (codes "age") (typed "integer") (member (codes "name") (typed "string") nil)))
          nil))
      nil)

abbrev types : ObjKtMap
types = (quoted (codes "age"), integer) ∷ (quoted (codes "name"), string) ∷ []

filter_types : get_kt_map library filter_param [] ≡ ok types
unfolding get_kt_map kt_map_loop equal primitive_type_map lookup emplace_key
filter_types = refl

-- `style=deepObject`
abbrev filter : ObjectDeserializer
filter = for_object library (codes "filter") (codes "query") deep_obj true types

-- `filter[age]=5`
abbrev age : Member
age = record { key = codes "age"; text = codes "5"; json = codes "5" }

-- `filter[name]=a%26b`
abbrev name : Member
name = record {
  key = codes "name";
  text = encode is_lower (codes "a&b");
  json = quoted (codes "a&b");
}

filter-CanKeep : CanKeep (terminator b'&') is_lower
filter-CanKeep = record {
  no_percent = refl;
  no_plus = refl;
  no_stop = λ c h. ground arith;
  percent_goes_on = refl;
}

age-IsRead : IsRead filter age
unfolding at_key equal is_style get_obj_vk_sep
age-IsRead =
    integer-IsRead filter (codes "age") (codes "5") refl (omega arith) refl
      (unsigned b'5' [] refl tt)

name-IsRead : IsRead filter name
unfolding at_key equal is_style get_obj_vk_sep
name-IsRead =
    string-IsRead filter is_lower (codes "name") (codes "a&b") refl (omega arith) filter-CanKeep
      (omega arith)

no_separator : peek [] [] == get_obj_vk_sep deep_obj true ≡ false
unfolding get_obj_vk_sep
no_separator = refl

object_deserialize-serialized_example :
    (type_switch library filter_param
        (record {
          param_name = codes "filter";
          location = codes "query";
          style = deep_obj;
          explode = true;
        })
        (codes "object")
        ExtendedType.object
        []
      >>= λ d. deserialize d (record {
        within = serialized deep_obj true (codes "filter") age (name ∷ []);
        beyond = [];
      }))
    ≡ ok (b'{' ∷ (listed age (name ∷ []) ++ b'}' ∷ []))
object_deserialize-serialized_example =
    object_deserialize-serialized library filter_param [] (codes "filter") (codes "query") deep_obj
      true types age (name ∷ []) [] filter_types refl age-IsRead (name-IsRead, tt) no_separator
