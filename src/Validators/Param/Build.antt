-- ===== src/Validators/Param/Build.antt =====
-- The construction of parameter validators in src/validators/param_validators.cpp: `GetKTMap`,
-- `GetDeserializer`, `GetParamInfo` and the three constructors.
use cpp_oasvalidator.Prelude.{
  Bytes, codes, List, [], ◌∷◌, ◌++◌, if◌then◌else◌, Bool, true, false, not, ◌&&◌,
}
use cpp_oasvalidator.Common.{
  ValidationError, PrimitiveType, invalid_path_param, invalid_query_param, invalid_header_param,
  ParamStyle, content, deep_obj, space_delim, ExtendedType, Exception, validator_init, Result, ok,
  throw, requires, ◌>>=◌, join_reference,
}
use cpp_oasvalidator.Deserializer.{Base}
use cpp_oasvalidator.Deserializer.Array.{ArrayDeserializer}
use cpp_oasvalidator.Deserializer.Object.{ObjKtMap}
use cpp_oasvalidator.Validators.{base_validator_at, emplace_key, Rapidjson, has_kind, may_have_kind}
use cpp_oasvalidator.Validators.Param.{
  BaseDeserializer, of_primitive, of_array, of_object, of_content, ParamValidator, at_or_throw,
}
use cpp_oasvalidator.Validators.Param.Style.{
  param_style_map, primitive_type_map, extended_type_map, get_start_char, has_name_at_start,
  get_array_items_separator, has_array_running_name, get_obj_kv_sep, get_obj_vk_sep, is_style,
}

module _ (lib : Rapidjson) where
  -- `GetKTMap`, over the properties that are left
  unfoldable pub kt_map_loop : List Bytes → List (Bytes × lib.Value) → ObjKtMap → Result ObjKtMap
  kt_map_loop ref_keys [] kt_map = ok kt_map
  kt_map_loop ref_keys ((prop_name, prop) ∷ props) kt_map =
      requires (may_have_kind lib lib.is_string prop (codes "type")) (
        if lib.has_member prop (codes "type")
        then (do
          let prop_type = lib.get_string (lib.index prop (codes "type"))
          t ← at_or_throw prop_type primitive_type_map (
              validator_init (
                codes "Type '"
                ++ (prop_type
                    ++ (codes "' of property '"
                        ++ (prop_name
                            ++ (codes "' of parameter '"
                                ++ (join_reference ref_keys ++ codes "' is not supported")))))))
          kt_map_loop ref_keys props (emplace_key (b'"' ∷ (prop_name ++ b'"' ∷ [])) t kt_map))
        else throw (
            validator_init (
              codes "Type id missing for property '"
              ++ (prop_name
                  ++ (codes "' of parameter '" ++ (join_reference ref_keys ++ codes "'"))))))

  unfoldable pub get_kt_map : lib.Value → List Bytes → Result ObjKtMap
  get_kt_map param_val ref_keys =
      requires
        (has_kind lib lib.is_object (lib.index param_val (codes "schema")) (codes "properties"))
        (kt_map_loop ref_keys
          (lib.get_object (lib.index (lib.index param_val (codes "schema")) (codes "properties")))
          [])

  -- What `GetDeserializer` reads first: the start byte, the style and `explode`.
  pub record Reading : Type 0 where
    pub param_name : Bytes
    pub location : Bytes
    pub style : ParamStyle
    pub explode : Bool

  abbrev pub base_of : Reading → Bool → Base
  base_of r skip_name = record {
    param_name = r.param_name;
    start = get_start_char r.style;
    skip_name = skip_name;
  }

  -- The arguments of `new ArrayDeserializer(…)`
  abbrev pub array_deserializer : Reading → Bool → PrimitiveType → ArrayDeserializer
  array_deserializer r skip_name items_type = record {
    base = base_of r skip_name;
    items_type = items_type;
    separator = get_array_items_separator r.style r.explode;
    has_running_name = has_array_running_name r.style r.explode;
    has_20_separator = is_style space_delim r.style && not r.explode;
  }

  -- `case ExtendedType::ARRAY`
  unfoldable pub array_case : lib.Value → Reading → Bool → List Bytes → Result BaseDeserializer
  array_case param_val r skip_name ref_keys =
      let schema = lib.index param_val (codes "schema") in
      let items = lib.index schema (codes "items") in
      let items_type_s = lib.get_string (lib.index items (codes "type")) in
      requires
        (may_have_kind lib (λ v. may_have_kind lib lib.is_string v (codes "type")) schema
          (codes "items"))
        (if lib.has_member schema (codes "items") && lib.has_member items (codes "type")
          then (do
            items_type ← at_or_throw items_type_s primitive_type_map (
                validator_init (
                  codes "Type '"
                  ++ (items_type_s
                      ++ (codes "' of items of array parameter '"
                          ++ (join_reference ref_keys ++ codes "' is not supported")))))
            ok (of_array (array_deserializer r skip_name items_type)))
          else throw (
              validator_init (
                codes "Array parameter '"
                ++ (join_reference ref_keys ++ codes "' does not have type of items"))))

  -- `case ExtendedType::OBJECT`
  unfoldable pub object_case : lib.Value → Reading → Bool → List Bytes → Result BaseDeserializer
  object_case param_val r skip_name ref_keys = do
    kt_map ← get_kt_map param_val ref_keys
    ok (
        of_object (record {
          base = base_of r skip_name;
          kv_separator = get_obj_kv_sep r.explode;
          vk_separator = get_obj_vk_sep r.style r.explode;
          is_deep_obj = is_style deep_obj r.style;
          kt_map = kt_map;
        }))

  -- The `switch` over the type; for a primitive type, `PRIMITIVE_TYPE_MAP.at(type)`.
  unfoldable pub type_switch :
      lib.Value → Reading → Bytes → ExtendedType → List Bytes → Result BaseDeserializer
  type_switch param_val r type t ref_keys =
      let skip_name = has_name_at_start r.location r.style r.explode t in
      elim t [
        | ExtendedType.array ↦ array_case param_val r skip_name ref_keys
        | ExtendedType.object ↦ object_case param_val r skip_name ref_keys
        | _ ↦ (do
          p ← at_or_throw type primitive_type_map Exception.out_of_range
          ok (of_primitive (record { base = base_of r skip_name; param_type = p })))
      ]

  -- `GetDeserializer`
  unfoldable pub get_deserializer : lib.Value → Bytes → Bool → List Bytes → Result BaseDeserializer
  get_deserializer param_val default_style default_explode ref_keys = do
    let schema = lib.index param_val (codes "schema")
    let type = lib.get_string (lib.index schema (codes "type"))
    style ←
        requires
          (has_kind lib lib.is_string param_val (codes "name")
            && (has_kind lib lib.is_string param_val (codes "in")
                && (may_have_kind lib lib.is_bool param_val (codes "explode")
                    && may_have_kind lib lib.is_string param_val (codes "style"))))
          (at_or_throw
            (if lib.has_member param_val (codes "style")
              then lib.get_string (lib.index param_val (codes "style"))
              else default_style)
            param_style_map Exception.out_of_range)
    let r : Reading = record {
      param_name = lib.get_string (lib.index param_val (codes "name"));
      location = lib.get_string (lib.index param_val (codes "in"));
      style = style;
      explode =
          if lib.has_member param_val (codes "explode")
          then lib.get_bool (lib.index param_val (codes "explode"))
          else default_explode;
    }
    requires
        (may_have_kind lib (λ v. may_have_kind lib lib.is_string v (codes "type")) param_val
          (codes "schema"))
        (if lib.has_member param_val (codes "schema") && lib.has_member schema (codes "type")
          then (do
            t ← at_or_throw type extended_type_map Exception.out_of_range
            type_switch param_val r type t ref_keys)
          else if lib.has_member param_val (codes "content")
          then ok (
              of_content (record {
                base =
                    base_of r (has_name_at_start r.location content r.explode ExtendedType.object);
              }))
          else throw
              (validator_init (codes "Invalid type of parameter: " ++ join_reference ref_keys)))

  -- `ParamInfo`
  pub record ParamInfo : Type 0 where
    pub name : Bytes
    pub required : Bool
    pub deserializer : BaseDeserializer
    pub schema : lib.Value

  -- `GetParamInfo`
  unfoldable pub get_param_info : lib.Value → Bytes → Bool → Bool → List Bytes → Result ParamInfo
  get_param_info param_val default_style default_explode default_required ref_keys =
      let required =
        if lib.has_member param_val (codes "required")
        then lib.get_bool (lib.index param_val (codes "required"))
        else default_required in
      let media = lib.index param_val (codes "content") in
      let json = lib.index media (codes "application/json") in
      let made : lib.Value → Result ParamInfo = λ schema. (do
        d ← get_deserializer param_val default_style default_explode ref_keys
        ok (record {
          name = lib.get_string (lib.index param_val (codes "name"));
          required = required;
          deserializer = d;
          schema = schema;
        })) in
      requires
        (has_kind lib lib.is_string param_val (codes "name")
          && may_have_kind lib lib.is_bool param_val (codes "required"))
        (if lib.has_member param_val (codes "schema")
          then made (lib.index param_val (codes "schema"))
          else requires
              (may_have_kind lib (λ v. may_have_kind lib lib.is_object v (codes "application/json"))
                param_val (codes "content"))
              (if lib.has_member param_val (codes "content")
                  && (lib.has_member media (codes "application/json")
                      && lib.has_member json (codes "schema"))
                then made (lib.index json (codes "schema"))
                else throw (
                    validator_init (
                      codes "Cannot generate deserializer for parameter: "
                      ++ join_reference ref_keys))))

  -- `ParamValidator::ParamValidator`
  abbrev pub param_validator : List Bytes → ValidationError → ParamInfo → ParamValidator lib
  param_validator ref_keys err_code info = record {
    json = record { base = base_validator_at ref_keys err_code; schema = info.schema };
    name = info.name;
    required = info.required;
    deserializer = info.deserializer;
  }

  -- The constructors of `PathParamValidator`, `QueryParamValidator` and `HeaderParamValidator`.
  unfoldable pub path_param_validator : lib.Value → List Bytes → Result (ParamValidator lib)
  path_param_validator param_val ref_keys = do
    info ← get_param_info param_val (codes "simple") false true ref_keys
    ok (param_validator ref_keys invalid_path_param info)

  unfoldable pub query_param_validator : lib.Value → List Bytes → Result (ParamValidator lib)
  query_param_validator param_val ref_keys = do
    info ← get_param_info param_val (codes "form") true false ref_keys
    requires (may_have_kind lib lib.is_bool param_val (codes "allowEmptyValue"))
        (ok (param_validator ref_keys invalid_query_param info))

  unfoldable pub header_param_validator : lib.Value → List Bytes → Result (ParamValidator lib)
  header_param_validator param_val ref_keys = do
    info ← get_param_info param_val (codes "simple") false false ref_keys
    ok (param_validator ref_keys invalid_header_param info)
