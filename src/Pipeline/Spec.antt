-- ===== src/Pipeline/Spec.antt =====
-- The constructor of `OASValidatorImp`, from a document whose references are resolved.
use cpp_oasvalidator.Prelude.{
  ℕ, Bytes, codes, List, [], ◌∷◌, ◌++◌, ◌==◌, if◌then◌else◌, Bool, false, not, ◌&&◌, ◌||◌,
}
use cpp_oasvalidator.Common.{
  HttpMethod, get, post, put, delete, head, options, patch, connect, trace, out_of_range, Result,
  ok, requires, ◌>>=◌, escape_slash,
}
use cpp_oasvalidator.Trie.{Node, insert, root_node}
use cpp_oasvalidator.Validators.{emplace_key, Rapidjson, has_kind}
use cpp_oasvalidator.Validators.Param.{at_or_throw}
use cpp_oasvalidator.Validators.Store.{Store, empty_store, body_store, add_param_validators}
use cpp_oasvalidator.Pipeline.{
  string_to_method, set_key, MethodMap, build_case_insensitive_map, PerMethod, OasValidatorImp,
}

-- The index of a method in `oas_validators_`, for the test of two of them.
abbrev pub method_index : HttpMethod → ℕ
method_index get = 0
method_index post = 1
method_index put = 2
method_index delete = 3
method_index head = 4
method_index options = 5
method_index patch = 6
method_index connect = 7
method_index trace = 8

-- `std::string::npos != path.find(c)`
unfoldable pub has_byte : ℕ → Bytes → Bool
has_byte c [] = false
has_byte c (x ∷ path) = x == c || has_byte c path

module _ (lib : Rapidjson) where
  -- The chain of `HasMember` in `ProcessRequestBody`, and the schema at its end.
  abbrev pub body_schema : lib.Value → lib.Value
  body_schema method =
      lib.index
        (lib.index (lib.index (lib.index method (codes "requestBody")) (codes "content"))
          (codes "application/json"))
        (codes "schema")

  unfoldable pub has_body_schema : lib.Value → Bool
  has_body_schema method =
      let body = lib.index method (codes "requestBody") in
      let media = lib.index body (codes "content") in
      let json = lib.index media (codes "application/json") in
      lib.has_member method (codes "requestBody")
      && (lib.has_member body (codes "content")
          && (lib.has_member media (codes "application/json")
              && lib.has_member json (codes "schema")))

  -- The chain asks only objects for their members.
  abbrev pub body_is_read : lib.Value → Bool
  body_is_read method =
      let body = lib.index method (codes "requestBody") in
      let media = lib.index body (codes "content") in
      let json = lib.index media (codes "application/json") in
      lib.is_object method
      && (not (lib.has_member method (codes "requestBody"))
          || (lib.is_object body
              && (not (lib.has_member body (codes "content"))
                  || (lib.is_object media
                      && (not (lib.has_member media (codes "application/json"))
                          || lib.is_object json)))))

  -- `ProcessRequestBody`
  unfoldable pub process_request_body :
      lib.Value → Bytes → List Bytes → List (Bytes × Store lib) → List (Bytes × Store lib)
  process_request_body method path ref_keys per_path =
      if has_body_schema method
      then emplace_key path
          (body_store lib (body_schema method)
            (ref_keys ++ codes "requestBody/content/application%2Fjson/schema" ∷ []))
          per_path
      else emplace_key path (empty_store lib) per_path

  -- `per_path_validator.at(path)->AddParamValidators(…)`, with `ref_keys` as it is there
  unfoldable pub add_parameters :
      lib.Value → Bytes → List Bytes → List (Bytes × Store lib) → Result (List (Bytes × Store lib))
  add_parameters params path ref_keys per_path = do
    store ← at_or_throw path per_path out_of_range
    store' ← add_param_validators lib path params ref_keys store
    ok (set_key path store' per_path)

  -- `ProcessParameters`
  unfoldable pub process_parameters :
      lib.Value → Bytes → List Bytes → List (Bytes × Store lib) → Result (List (Bytes × Store lib))
  process_parameters method path ref_keys per_path =
      if lib.has_member method (codes "parameters")
      then add_parameters (lib.index method (codes "parameters")) path
          (ref_keys ++ codes "parameters" ∷ []) per_path
      else ok per_path

  -- `if (… path.find('{') && … path.find('}')) path_trie.Insert(path);`
  unfoldable pub insert_template : Bytes → Node → Node
  insert_template path trie =
      if has_byte b'{' path && has_byte b'}' path then insert path trie else trie

  -- What `ProcessMethod` does to the tables of its method.
  unfoldable pub process_in :
      lib.Value → Bytes → List Bytes → PerMethod lib → Result (PerMethod lib)
  process_in method path ref_keys p = do
    per_path ← requires (body_is_read method) (
        process_parameters method path ref_keys
          (process_request_body method path ref_keys p.per_path_validators))
    ok (record { per_path_validators = per_path; path_trie = insert_template path p.path_trie })

  -- The tables with those of one method replaced.
  abbrev pub set_method :
      (HttpMethod → PerMethod lib) → HttpMethod → PerMethod lib → HttpMethod → PerMethod lib
  set_method tables m p m' = if method_index m == method_index m' then p else tables m'

  -- `ProcessMethod`
  unfoldable pub process_method :
      Bytes × lib.Value → Bytes → List Bytes → OasValidatorImp lib → Result (OasValidatorImp lib)
  process_method (name, method) path ref_keys v = do
    m ← at_or_throw name string_to_method out_of_range
    p ← process_in method path (ref_keys ++ name ∷ []) (v.oas_validators m)
    ok (record { method_map = v.method_map; oas_validators = set_method v.oas_validators m p })

  unfoldable pub methods_loop :
      List (Bytes × lib.Value)
      → Bytes
      → List Bytes
      → OasValidatorImp lib
      → Result (OasValidatorImp lib)
  methods_loop [] path ref_keys v = ok v
  methods_loop (method ∷ methods) path ref_keys v = do
    v' ← process_method method path ref_keys v
    methods_loop methods path ref_keys v'

  -- `ProcessPath`
  unfoldable pub process_path :
      Bytes × lib.Value → List Bytes → OasValidatorImp lib → Result (OasValidatorImp lib)
  process_path (path, methods) ref_keys v =
      requires (lib.is_object methods)
        (methods_loop (lib.get_object methods) path (ref_keys ++ escape_slash path ∷ []) v)

  unfoldable pub paths_loop :
      List (Bytes × lib.Value) → List Bytes → OasValidatorImp lib → Result (OasValidatorImp lib)
  paths_loop [] ref_keys v = ok v
  paths_loop (path ∷ paths) ref_keys v = do
    v' ← process_path path ref_keys v
    paths_loop paths ref_keys v'

  -- The members as they are initialised.
  abbrev pub new_imp : MethodMap → OasValidatorImp lib
  new_imp method_map = record {
    method_map = build_case_insensitive_map method_map;
    oas_validators = λ m. record { per_path_validators = []; path_trie = root_node };
  }

  -- The constructor, behind `ParseSpecs` and `ResolveReferences`.
  unfoldable pub construct : lib.Value → MethodMap → Result (OasValidatorImp lib)
  construct doc method_map = requires (has_kind lib lib.is_object doc (codes "paths")) (
      paths_loop (lib.get_object (lib.index doc (codes "paths"))) (codes "paths" ∷ [])
        (new_imp method_map))
