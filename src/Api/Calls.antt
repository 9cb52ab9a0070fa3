-- ===== src/Api/Calls.antt =====
-- src/oas_validator.cpp: the methods of `OASValidator` that pass a request on to `impl_`.
use cpp_oasvalidator.Prelude.{Bytes, ℕ, List, Option}
use cpp_oasvalidator.Common.{Result}
use cpp_oasvalidator.Trie.{HashOrder}
use cpp_oasvalidator.Validators.{Report, Rapidjson}
use cpp_oasvalidator.Pipeline.Requests
use cpp_oasvalidator.Api.{OasValidator, Memory, forward}

module _ (lib : Rapidjson) (order : HashOrder) (outside : ℕ) (this : OasValidator)
    (mem : Memory lib) where
  abbrev pub validate_route : Bytes → Bytes → Bytes → Option (Result Report)
  validate_route method http_path error_msg =
      forward lib this mem
        (λ v. Requests.validate_route lib order outside v method http_path error_msg)

  abbrev pub validate_body_of : Bytes → Bytes → Bytes → Bytes → Option (Result Report)
  validate_body_of method http_path json_body error_msg =
      forward lib this mem
        (λ v. Requests.validate_body_of lib order outside v method http_path json_body error_msg)

  abbrev pub validate_path_param : Bytes → Bytes → Bytes → Option (Result Report)
  validate_path_param method http_path error_msg =
      forward lib this mem
        (λ v. Requests.validate_path_param lib order outside v method http_path error_msg)

  abbrev pub validate_query_param : Bytes → Bytes → Bytes → Option (Result Report)
  validate_query_param method http_path error_msg =
      forward lib this mem
        (λ v. Requests.validate_query_param lib order outside v method http_path error_msg)

  abbrev pub validate_headers :
      Bytes → Bytes → List (Bytes × Bytes) → Bytes → Option (Result Report)
  validate_headers method http_path headers error_msg =
      forward lib this mem
        (λ v. Requests.validate_headers lib order outside v method http_path headers error_msg)

  -- `ValidateRequest(method, http_path, error_msg)`
  abbrev pub validate_request : Bytes → Bytes → Bytes → Option (Result Report)
  validate_request method http_path error_msg =
      forward lib this mem
        (λ v. Requests.validate_request lib order outside v method http_path error_msg)

  -- `ValidateRequest(method, http_path, json_body, error_msg)`
  abbrev pub validate_request_body : Bytes → Bytes → Bytes → Bytes → Option (Result Report)
  validate_request_body method http_path json_body error_msg =
      forward lib this mem (λ v.
        Requests.validate_request_body lib order outside v method http_path json_body error_msg)

  -- `ValidateRequest(method, http_path, headers, error_msg)`
  abbrev pub validate_request_headers :
      Bytes → Bytes → List (Bytes × Bytes) → Bytes → Option (Result Report)
  validate_request_headers method http_path headers error_msg = forward lib this mem (λ v.
      Requests.validate_request_headers lib order outside v method http_path headers error_msg)

  -- `ValidateRequest(method, http_path, json_body, headers, error_msg)`
  abbrev pub validate_request_all :
      Bytes → Bytes → Bytes → List (Bytes × Bytes) → Bytes → Option (Result Report)
  validate_request_all method http_path json_body headers error_msg = forward lib this mem (λ v.
      Requests.validate_request_all lib order outside v method http_path json_body headers
        error_msg)
