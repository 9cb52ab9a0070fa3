-- ===== src/Pipeline/Requests.antt =====
-- The entry points of `OASValidatorImp`, which src/oas_validator.cpp passes on.
use cpp_oasvalidator.Prelude.{Bytes, ℕ, List, [], Option, none, some}
use cpp_oasvalidator.Common.{none_error, Result, ok, throw, out_of_fuel}
use cpp_oasvalidator.Trie.{HashOrder, ParamIdxs}
use cpp_oasvalidator.Validators.{Report, Rapidjson}
use cpp_oasvalidator.Validators.Store.{
  Store, validate_body, validate_path_params, validate_header_params,
}
use cpp_oasvalidator.Validators.Store.Query.{check_query_error, validate_query_params}
use cpp_oasvalidator.Pipeline.{OasValidatorImp, Outs, Route, routed, refused, get_validators}

-- `auto err_code = …; CHECK_ERROR(err_code)`
abbrev pub stage :
    Option (Result Report) → (Bytes → Option (Result Report)) → Option (Result Report)
stage (some (ok report)) go = check_query_error report go
stage result go = result

-- The index map or the query behind a pointer that was passed.
abbrev pub idxs_of : Outs → ParamIdxs
idxs_of o = elim o.param_idxs [ some m ↦ m | none ↦ [] ]

abbrev pub query_of : Outs → Bytes
query_of o = elim o.query [ some q ↦ q | none ↦ [] ]

-- The out parameters that a caller passes: both, or a null pointer for one of them.
abbrev pub no_outs : Bytes → Outs
no_outs error_msg = record { error_msg = error_msg; param_idxs = none; query = none }

abbrev pub both_outs : Bytes → Outs
both_outs error_msg = record { error_msg = error_msg; param_idxs = some []; query = some [] }

-- What a caller makes of the result of `GetValidators`.
abbrev pub after_route :
    (lib : Rapidjson)
    → Option (Result (Route lib))
    → (Store lib → Outs → Option (Result Report))
    → Option (Result Report)
after_route lib (some (ok (routed store o))) go = go store o
after_route lib (some (ok (refused err_code o))) go = some (ok (err_code, o.error_msg))
after_route lib (some (throw exc)) go = some (throw exc)
after_route lib (some out_of_fuel) go = some out_of_fuel
after_route lib none go = none

module _ (lib : Rapidjson) (order : HashOrder) (outside : ℕ) (v : OasValidatorImp lib) where
  -- `GetValidators` and `CHECK_ERROR`, and then the rest
  unfoldable pub with_validators :
      Bytes → Bytes → Outs → (Store lib → Outs → Option (Result Report)) → Option (Result Report)
  with_validators method http_path o go =
      after_route lib (get_validators lib order v method http_path o) go

  unfoldable pub validate_route : Bytes → Bytes → Bytes → Option (Result Report)
  validate_route method http_path error_msg =
      with_validators method http_path (no_outs error_msg)
        (λ store o. some (ok (none_error, o.error_msg)))

  unfoldable pub validate_body_of : Bytes → Bytes → Bytes → Bytes → Option (Result Report)
  validate_body_of method http_path json_body error_msg =
      with_validators method http_path (no_outs error_msg)
        (λ store o. some (ok (validate_body lib store json_body o.error_msg)))

  unfoldable pub validate_path_param : Bytes → Bytes → Bytes → Option (Result Report)
  validate_path_param method http_path error_msg =
      with_validators method http_path
        (record { error_msg = error_msg; param_idxs = some []; query = none })
        (λ store o. some (validate_path_params lib store (idxs_of o) o.error_msg))

  unfoldable pub validate_query_param : Bytes → Bytes → Bytes → Option (Result Report)
  validate_query_param method http_path error_msg =
      with_validators method http_path
        (record { error_msg = error_msg; param_idxs = none; query = some [] })
        (λ store o. validate_query_params lib outside store (query_of o) o.error_msg)

  unfoldable pub validate_headers :
      Bytes → Bytes → List (Bytes × Bytes) → Bytes → Option (Result Report)
  validate_headers method http_path headers error_msg =
      with_validators method http_path (no_outs error_msg)
        (λ store o. some (validate_header_params lib store headers o.error_msg))

  -- `ValidateRequest(method, http_path, error_msg)`
  unfoldable pub validate_request : Bytes → Bytes → Bytes → Option (Result Report)
  validate_request method http_path error_msg =
      with_validators method http_path (both_outs error_msg) (λ store o.
        stage (some (validate_path_params lib store (idxs_of o) o.error_msg))
          (validate_query_params lib outside store (query_of o)))

  -- `ValidateRequest(method, http_path, json_body, error_msg)`
  unfoldable pub validate_request_body : Bytes → Bytes → Bytes → Bytes → Option (Result Report)
  validate_request_body method http_path json_body error_msg =
      with_validators method http_path (both_outs error_msg) (λ store o.
        stage (some (ok (validate_body lib store json_body o.error_msg))) (λ msg.
          stage (some (validate_path_params lib store (idxs_of o) msg))
            (validate_query_params lib outside store (query_of o))))

  -- `ValidateRequest(method, http_path, headers, error_msg)`
  unfoldable pub validate_request_headers :
      Bytes → Bytes → List (Bytes × Bytes) → Bytes → Option (Result Report)
  validate_request_headers method http_path headers error_msg =
      with_validators method http_path (both_outs error_msg) (λ store o.
        stage (some (validate_path_params lib store (idxs_of o) o.error_msg)) (λ msg.
          stage (validate_query_params lib outside store (query_of o) msg)
            (λ msg'. some (validate_header_params lib store headers msg'))))

  -- `ValidateRequest(method, http_path, json_body, headers, error_msg)`
  unfoldable pub validate_request_all :
      Bytes → Bytes → Bytes → List (Bytes × Bytes) → Bytes → Option (Result Report)
  validate_request_all method http_path json_body headers error_msg =
      with_validators method http_path (both_outs error_msg) (λ store o.
        stage (some (ok (validate_body lib store json_body o.error_msg))) (λ msg.
          stage (some (validate_path_params lib store (idxs_of o) msg)) (λ msg'.
            stage (validate_query_params lib outside store (query_of o) msg')
              (λ msg''. some (validate_header_params lib store headers msg'')))))
