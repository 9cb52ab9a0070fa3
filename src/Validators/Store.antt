-- ===== src/Validators/Store.antt =====
-- include/validators/validators_store.hpp and src/validators/validators_store.cpp: the validators
-- of one path and method. Query has the pass over the query.
pub mod Query
pub mod Indices
pub mod Codes
pub mod QueryCodes
pub mod QueryStarts
pub mod Accepts
pub mod Headers
pub mod QueryRanges
use cpp_oasvalidator.Prelude.{
  ℕ, ◌+◌, Bytes, codes, List, [], ◌∷◌, ◌++◌, ◌==◌, if◌then◌else◌, Bool, true, false, ◌&&◌, Option,
  none, some, equal,
}
use cpp_oasvalidator.Common.{
  ValidationError, none_error, invalid_body, Exception, out_of_range, validator_init, Result, ok,
  throw, out_of_fuel, requires, ◌>>=◌,
}
use cpp_oasvalidator.Common.Fragments.{dirs}
use cpp_oasvalidator.Trie.{ParamRange, ParamIdxs, at_idx}
use cpp_oasvalidator.Validators.{
  Report, lookup, emplace_key, base_validator_at, Rapidjson, JsonValidator, validate_json, has_kind,
}
use cpp_oasvalidator.Validators.Param.{
  ParamValidator, validate_param, error_on_missing, at_or_throw,
}
use cpp_oasvalidator.Validators.Param.Build.{
  path_param_validator, query_param_validator, header_param_validator,
}

-- `*(dir_end - 1) == '}'`, and the name in front of it
unfoldable pub before_brace : Bytes → Option Bytes
before_brace [] = none
before_brace (c ∷ []) = if c == b'}' then some [] else none
before_brace (c ∷ d ∷ s) = elim (before_brace (d ∷ s)) [ some name ↦ some (c ∷ name) | none ↦ none ]

-- The name in a fragment `{name}`. The code takes the text between `dir_start + 1` and
-- `dir_end - 1` of a fragment that begins with one brace and ends with the other.
unfoldable pub braced_name : Bytes → Option Bytes
braced_name [] = none
braced_name (c ∷ dir) = if c == b'{' then before_brace dir else none

-- The loop of `GetPathParamIndices`.
unfoldable pub path_param_indices_loop : List Bytes → ℕ → List (Bytes × ℕ) → List (Bytes × ℕ)
path_param_indices_loop [] frag_idx param_idxs = param_idxs
path_param_indices_loop (d ∷ ds) frag_idx param_idxs =
    path_param_indices_loop ds (frag_idx + 1) (elim (braced_name d) [
      | some name ↦ emplace_key name frag_idx param_idxs
      | none ↦ param_idxs
    ])

-- `GetPathParamIndices`
unfoldable pub get_path_param_indices : Bytes → List (Bytes × ℕ)
get_path_param_indices path = path_param_indices_loop (dirs path) 0 []

-- `CHECK_ERROR(err_code)`: an error is returned, and otherwise the code goes on with `error_msg`.
abbrev pub check_error : Report → (Bytes → Result Report) → Result Report
check_error (none_error, error_msg) go = go error_msg
check_error report go = ok report

-- `catch (const std::out_of_range&)`
abbrev pub catch_out_of_range : Exception → Result Report → Result Report
catch_out_of_range out_of_range handler = handler
catch_out_of_range exc handler = throw exc

-- `PathParamValidatorInfo`, `QueryParamValidatorInfo` and the fields of `ValidatorsStore`. The
-- headers stand in the order in which the map is iterated.
pub record Store (lib : Rapidjson) : Type 0 where
  pub body_validator : Option (JsonValidator lib)
  pub path_param_validators : List (ℕ × ParamValidator lib)
  pub query_param_validators : List (Bytes × ParamValidator lib)
  pub header_param_validators : List (Bytes × ParamValidator lib)

module _ (lib : Rapidjson) where
  -- The two constructors.
  abbrev pub empty_store : Store lib
  empty_store = record {
    body_validator = none;
    path_param_validators = [];
    query_param_validators = [];
    header_param_validators = [];
  }

  abbrev pub body_store : lib.Value → List Bytes → Store lib
  body_store schema_val ref_keys = record {
    body_validator =
        some (record { base = base_validator_at ref_keys invalid_body; schema = schema_val });
    path_param_validators = [];
    query_param_validators = [];
    header_param_validators = [];
  }

  -- A round of `AddParamValidators`. A new header goes to the end of the order of iteration.
  unfoldable pub add_param_validator :
      List (Bytes × ℕ) → lib.Value → List Bytes → Store lib → Result (Store lib)
  add_param_validator path_param_idxs param_val ref_keys store =
      let location = lib.get_string (lib.index param_val (codes "in")) in
      let name = lib.get_string (lib.index param_val (codes "name")) in
      let keys = ref_keys ++ name ∷ [] in
      requires
        (has_kind lib lib.is_string param_val (codes "in")
          && has_kind lib lib.is_string param_val (codes "name"))
        (if equal location (codes "path")
          then (do
            idx ← at_or_throw name path_param_idxs out_of_range
            v ← path_param_validator lib param_val keys
            ok (record {
              body_validator = store.body_validator;
              path_param_validators = store.path_param_validators ++ (idx, v) ∷ [];
              query_param_validators = store.query_param_validators;
              header_param_validators = store.header_param_validators;
            }))
          else if equal location (codes "query")
          then (do
            v ← query_param_validator lib param_val keys
            ok (record {
              body_validator = store.body_validator;
              path_param_validators = store.path_param_validators;
              query_param_validators = store.query_param_validators ++ (name, v) ∷ [];
              header_param_validators = store.header_param_validators;
            }))
          else if equal location (codes "header")
          then (do
            v ← header_param_validator lib param_val keys
            ok (record {
              body_validator = store.body_validator;
              path_param_validators = store.path_param_validators;
              query_param_validators = store.query_param_validators;
              header_param_validators = emplace_key name v store.header_param_validators;
            }))
          else throw (
              validator_init (
                codes "Invalid 'in' value '"
                ++ (location ++ (codes "' for parameter '" ++ (name ++ codes "'"))))))

  unfoldable pub add_params_loop :
      List (Bytes × ℕ) → List lib.Value → List Bytes → Store lib → Result (Store lib)
  add_params_loop path_param_idxs [] ref_keys store = ok store
  add_params_loop path_param_idxs (param_val ∷ params) ref_keys store = do
    store' ← add_param_validator path_param_idxs param_val ref_keys store
    add_params_loop path_param_idxs params ref_keys store'

  -- `AddParamValidators`
  unfoldable pub add_param_validators :
      Bytes → lib.Value → List Bytes → Store lib → Result (Store lib)
  add_param_validators path params ref_keys store =
      requires (lib.is_array params)
        (add_params_loop (get_path_param_indices path) (lib.get_array params) ref_keys store)

  -- `ValidateBody`
  unfoldable pub validate_body : Store lib → Bytes → Bytes → Report
  validate_body store json_body error_msg = elim store.body_validator [
    | some v ↦ validate_json lib v json_body error_msg
    | none ↦ (none_error, error_msg)
  ]

  -- The loop of `ValidatePathParams`.
  unfoldable pub path_params_loop :
      ParamIdxs → List (ℕ × ParamValidator lib) → Bytes → Result Report
  path_params_loop param_idxs [] error_msg = ok (none_error, error_msg)
  path_params_loop param_idxs ((idx, v) ∷ vs) error_msg = elim (at_idx idx param_idxs) [
    | some range ↦ elim (validate_param lib v range error_msg) [
      | ok report ↦ check_error report (path_params_loop param_idxs vs)
      | throw exc ↦ catch_out_of_range exc (ok (error_on_missing lib v))
      | out_of_fuel ↦ out_of_fuel
    ]
    | none ↦ ok (error_on_missing lib v)
  ]

  -- `ValidatePathParams`
  abbrev pub validate_path_params : Store lib → ParamIdxs → Bytes → Result Report
  validate_path_params store param_idxs error_msg =
      path_params_loop param_idxs store.path_param_validators error_msg

  -- `IsRequired() ? return ErrorOnMissing : go on`
  abbrev pub missing_param : ParamValidator lib → Bytes → (Bytes → Result Report) → Result Report
  missing_param v error_msg go = if v.required then ok (error_on_missing lib v) else go error_msg

  -- The loop of `ValidateHeaderParams`.
  unfoldable pub header_params_loop :
      List (Bytes × Bytes) → List (Bytes × ParamValidator lib) → Bytes → Result Report
  header_params_loop headers [] error_msg = ok (none_error, error_msg)
  header_params_loop headers ((name, v) ∷ vs) error_msg = elim (lookup name headers) [
    | some param ↦ elim (validate_param lib v (record { within = param; beyond = [] }) error_msg) [
      | ok report ↦ check_error report (header_params_loop headers vs)
      | throw exc ↦
          catch_out_of_range exc (missing_param v error_msg (header_params_loop headers vs))
      | out_of_fuel ↦ out_of_fuel
    ]
    | none ↦ missing_param v error_msg (header_params_loop headers vs)
  ]

  -- `ValidateHeaderParams`
  abbrev pub validate_header_params : Store lib → List (Bytes × Bytes) → Bytes → Result Report
  validate_header_params store headers error_msg =
      header_params_loop headers store.header_param_validators error_msg
