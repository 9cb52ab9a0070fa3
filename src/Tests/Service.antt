-- ===== src/Tests/Service.antt =====
-- A small service: the constructor on a document, and requests to it.
use cpp_oasvalidator.Prelude.{
  ℕ, ◌+◌, length, none, strip, codes, equal, [], ◌∷◌, true, some, ◌⊎◌, ◌≡◌, refl,
}
use cpp_oasvalidator.Common.{
  undefined_behaviour, none_error, invalid_query_param, PrimitiveType, length_error, Result, ok,
  throw, out_of_fuel,
}
use cpp_oasvalidator.Common.Fragments.{fragments, seek}
use cpp_oasvalidator.Trie.{search, insert, at_idx, emplace, pop_back}
use cpp_oasvalidator.Deserializer.{
  check_n_skip_name, check_n_skip_char, check_n_skip_start, skip_name_if, check_data, check_end,
  deserialize_integer,
}
use cpp_oasvalidator.Deserializer.Primitive
use cpp_oasvalidator.Deserializer.Primitive.{deserialize_primitive}
use cpp_oasvalidator.Validators.{
  Report, base_validator_at, lookup, emplace_key, contains, validate_method, validate_json,
}
use cpp_oasvalidator.Validators.Param.{ParamValidator, of_primitive, deserialize, validate_param}
use cpp_oasvalidator.Validators.Param.Style.{
  param_style_map, primitive_type_map, extended_type_map, get_start_char, has_name_at_start,
}
use cpp_oasvalidator.Validators.Param.Build.{
  path_param_validator, get_param_info, get_deserializer, type_switch,
}
use cpp_oasvalidator.Validators.Store.{
  Store, add_param_validators, add_params_loop, add_param_validator, get_path_param_indices,
  path_param_indices_loop, before_brace, braced_name, path_params_loop,
}
use cpp_oasvalidator.Validators.Store.Query.{
  validate_query_params, find_text, byte_before, emplace_start, next_start, sub_range,
  misplaced_name, scanned, scan_loop, query_params_loop,
}
use cpp_oasvalidator.Pipeline.{
  OasValidatorImp, Route, set_key, get_validators, get_mapped_validators, route_in, search_trie,
  route_at, write_query, after_first,
}
use cpp_oasvalidator.Pipeline.Spec.{
  construct, new_imp, paths_loop, process_path, methods_loop, process_method, process_in,
  process_parameters, add_parameters, process_request_body, has_body_schema, insert_template,
  has_byte,
}
use cpp_oasvalidator.Pipeline.Requests.{
  validate_request, with_validators, validate_request_all, validate_body_of, validate_headers,
  both_outs,
}
use cpp_oasvalidator.Pipeline.Tables.{AreConsistent, construct-AreConsistent}
use cpp_oasvalidator.Pipeline.Answers.{get_validators_total}
use cpp_oasvalidator.Pipeline.Stages.{then_code, validate_request_all_stages}
use cpp_oasvalidator.Validators.Store.Codes.{code_of}
use cpp_oasvalidator.Validators.Param.Returns.{validate_param_returns}
use cpp_oasvalidator.Validators.Store.QueryRanges.{
  IsCut, scan_loop-IsCut, validate_query_params_total,
}
use cpp_oasvalidator.Tests.Routing.{oldest_first}
use cpp_oasvalidator.Json.{Json, text, object, array, end, item, member, nil}
use cpp_oasvalidator.Tests.Documents.{library}

-- `GET /pets`, `GET /pets/{id}` and `POST /pets`
abbrev id_param : Json
id_param = object (
    member (codes "name") (text (codes "id")) (
      member (codes "in") (text (codes "path")) (
        member (codes "schema") (object (member (codes "type") (text (codes "integer")) nil)) nil)))

abbrev document : Json
document = object (
    member (codes "paths")
      (object (
        member (codes "/pets") (object (member (codes "get") (object nil) nil)) (
          member (codes "/pets/{id}")
            (object (
              member (codes "get")
                (object (member (codes "parameters") (array (item id_param end)) nil)) nil))
            nil)))
      nil)

abbrev service : OasValidatorImp library
service = elim (construct library document []) [
  | ok v ↦ v
  | throw exc ↦ new_imp library []
  | out_of_fuel ↦ new_imp library []
]

-- `doc["paths"]` of a document that has no paths
pathless : construct library (object nil) [] ≡ throw undefined_behaviour
unfolding construct
pathless = refl

service_built : construct library document [] ≡ ok service
unfolding construct paths_loop process_path methods_loop process_method lookup equal process_in
    process_parameters add_parameters process_request_body has_body_schema emplace_key
    add_param_validators add_params_loop add_param_validator get_path_param_indices
    path_param_indices_loop before_brace braced_name path_param_validator get_param_info
    get_deserializer type_switch param_style_map primitive_type_map extended_type_map set_key
    fragments insert_template has_byte insert
service_built = refl

pet_accepted :
    validate_request library oldest_first 0 service (codes "GET") (codes "/pets/42?page=2") []
    ≡ some (ok (none_error, []))
unfolding construct paths_loop process_path methods_loop process_method lookup equal process_in
    process_parameters add_parameters process_request_body has_body_schema emplace_key
    add_param_validators add_params_loop add_param_validator get_path_param_indices
    path_param_indices_loop before_brace braced_name path_param_validator get_param_info
    get_deserializer type_switch param_style_map primitive_type_map extended_type_map set_key
    fragments insert_template has_byte insert validate_request with_validators get_validators
    validate_method contains get_mapped_validators route_in seek search_trie search pop_back emplace
    route_at write_query after_first path_params_loop at_idx validate_param deserialize
    Primitive.deserialize check_n_skip_start get_start_char skip_name_if has_name_at_start
    check_data deserialize_primitive deserialize_integer check_end validate_json
    validate_query_params scan_loop query_params_loop
pet_accepted = refl

construct-AreConsistent_example : AreConsistent library service
construct-AreConsistent_example = construct-AreConsistent library document [] service service_built

get_validators_total_example :
    (r : Route library) × (get_validators library oldest_first service
        (codes "GET")
        (codes "/pets/42")
        (both_outs [])
      ≡ some (ok r))
get_validators_total_example =
    get_validators_total library oldest_first document [] service (codes "GET") (codes "/pets/42")
      (both_outs []) service_built

validate_request_all_stages_example :
    code_of
      (validate_request_all library oldest_first 0 service (codes "GET") (codes "/pets/x") [] [] [])
    ≡ then_code
        (code_of
          (validate_body_of library oldest_first 0 service (codes "GET") (codes "/pets/x") [] []))
        (then_code
          (code_of
            (validate_request library oldest_first 0 service (codes "GET") (codes "/pets/x") []))
          (code_of (
            validate_headers library oldest_first 0 service (codes "GET") (codes "/pets/x") [] [])))
validate_request_all_stages_example =
    validate_request_all_stages library oldest_first 0 service (codes "GET") (codes "/pets/x") [] []
      []

-- A query parameter `id`, which is no array and no object
abbrev query_id : ParamValidator library
query_id = record {
  json = record {
    base = base_validator_at (codes "paths" ∷ []) invalid_query_param;
    schema = object nil;
  };
  name = codes "id";
  required = true;
  deserializer = of_primitive (record {
    base = record { param_name = codes "id"; start = 0; skip_name = true };
    param_type = PrimitiveType.integer;
  });
}

abbrev query_store : Store library
query_store = record {
  body_validator = none;
  path_param_validators = [];
  query_param_validators = (codes "id", query_id) ∷ [];
  header_param_validators = [];
}

id_accepted :
    validate_query_params library 0 query_store (codes "?page=2&id=1") []
    ≡ some (ok (none_error, []))
unfolding validate_query_params scan_loop find_text strip equal byte_before emplace_start
    emplace_key query_params_loop lookup next_start sub_range validate_param deserialize
    Primitive.deserialize check_n_skip_start skip_name_if check_n_skip_name check_n_skip_char
    check_data deserialize_primitive deserialize_integer check_end validate_json seek
id_accepted = refl

-- The name is found inside of `userid` first.
id_behind_userid_refused :
    validate_query_params library 0 query_store (codes "?userid=1&id=1") []
    ≡ some (ok (misplaced_name library (codes "id") query_id))
unfolding validate_query_params scan_loop find_text strip equal byte_before
id_behind_userid_refused = refl

validate_param_returns_example :
    ((r : Report) × (validate_param library query_id
          (record { within = codes "id=x"; beyond = [] })
          []
        ≡ ok r)
      × ((r.0 ≡ none_error) ⊎ (r.0 ≡ invalid_query_param)))
    ⊎ (validate_param library query_id (record { within = codes "id=x"; beyond = [] }) []
        ≡ throw length_error)
validate_param_returns_example =
    validate_param_returns library query_id (record { within = codes "id=x"; beyond = [] }) []

id_scanned :
    scan_loop library 0
      (codes "?page=2&id=1")
      ((codes "id", query_id) ∷ [])
      (record { starts = []; start_map = [] })
    ≡ scanned (record { starts = 8 ∷ []; start_map = (codes "id", 8) ∷ [] })
unfolding scan_loop find_text strip equal byte_before emplace_start emplace_key
id_scanned = refl

id_looked_up : lookup {A = ℕ} (codes "id") ((codes "id", 8) ∷ []) ≡ some 8
unfolding lookup equal
id_looked_up = refl

scan_loop-IsCut_example :
    IsCut library
      (codes "?page=2&id=1")
      (codes "id")
      8
      (emplace_start (length (codes "?page=2&id=1") + 1) (8 ∷ []))
scan_loop-IsCut_example =
    scan_loop-IsCut library 0 (codes "?page=2&id=1") ((codes "id", query_id) ∷ [])
      (record { starts = 8 ∷ []; start_map = (codes "id", 8) ∷ [] }) (codes "id") 8 id_scanned
      id_looked_up

validate_query_params_total_example :
    (r : Result Report) × (validate_query_params library 0 query_store (codes "?page=2&id=1") []
      ≡ some r)
validate_query_params_total_example =
    validate_query_params_total library 0 query_store (codes "?page=2&id=1") []
