-- ===== src/Validators.antt =====
-- include/validators and src/validators: what a validator returns, the heads of its messages, and
-- the validators of the method and of JSON text. Param and Store are the other two files.
pub mod Param
pub mod Store
pub mod Messages
use cpp_oasvalidator.Prelude.{
  ℕ, Bytes, codes, equal, List, [], ◌∷◌, ◌++◌, if◌then◌else◌, Bool, true, false, ◌&&◌, ◌||◌, Option,
  none, some, ◌⊎◌, inl, inr,
}
use cpp_oasvalidator.Common.{
  ValidationError, none_error, invalid_method, invalid_route, invalid_path_param,
  invalid_query_param, invalid_header_param, invalid_body, invalid_rsp, join_reference,
}
use cpp_oasvalidator.Common.Fragments.{seek}

-- What a call returns, and what it leaves in `error_msg`.
abbrev pub Report : Type 0
Report = ValidationError × Bytes

-- `kErrHeaders`
unfoldable pub err_headers : ValidationError → Bytes
err_headers none_error = codes "NONE"
err_headers invalid_method = codes "{\"errorCode\":\"INVALID_METHOD\",\"details\":{"
err_headers invalid_route = codes "{\"errorCode\":\"INVALID_ROUTE\",\"details\":{"
err_headers invalid_path_param = codes "{\"errorCode\":\"INVALID_PATH_PARAM\",\"details\":{"
err_headers invalid_query_param = codes "{\"errorCode\":\"INVALID_QUERY_PARAM\",\"details\":{"
err_headers invalid_header_param = codes "{\"errorCode\":\"INVALID_HEADER_PARAM\",\"details\":{"
err_headers invalid_body = codes "{\"errorCode\":\"INVALID_BODY\",\"details\":{"
err_headers invalid_rsp = codes "{\"errorCode\":\"INVALID_RSP\",\"details\":{"

pub record BaseValidator : Type 0 where
  pub code_on_error : ValidationError
  pub err_header : Bytes

-- The two constructors.
abbrev pub base_validator : ValidationError → BaseValidator
base_validator err_code = record { code_on_error = err_code; err_header = err_headers err_code }

abbrev pub base_validator_at : List Bytes → ValidationError → BaseValidator
base_validator_at ref_keys err_code = record {
  code_on_error = err_code;
  err_header =
      err_headers err_code ++ (codes "\"specRef\":\"" ++ (join_reference ref_keys ++ codes "\","));
}

-- `unordered_map::at` and `find`; `none` is the exception `std::out_of_range`.
unfoldable pub lookup {ℓ} : {A : Type ℓ} → Bytes → List (Bytes × A) → Option A
lookup key [] = none
lookup key ((k, x) ∷ m) = if equal k key then some x else lookup key m

-- `unordered_map::emplace`, which keeps the entry that is there
unfoldable pub emplace_key {ℓ} : {A : Type ℓ} → Bytes → A → List (Bytes × A) → List (Bytes × A)
emplace_key key x [] = (key, x) ∷ []
emplace_key key x ((k, y) ∷ m) = if equal k key then (k, y) ∷ m else (k, y) ∷ emplace_key key x m

-- `kValidMethods`
abbrev pub valid_methods : List Bytes
valid_methods =
    codes "GET"
    ∷ codes "POST"
    ∷ codes "PUT"
    ∷ codes "DELETE"
    ∷ codes "HEAD"
    ∷ codes "OPTIONS"
    ∷ codes "PATCH"
    ∷ codes "CONNECT"
    ∷ codes "TRACE"
    ∷ codes "get"
    ∷ codes "post"
    ∷ codes "put"
    ∷ codes "delete"
    ∷ codes "head"
    ∷ codes "options"
    ∷ codes "patch"
    ∷ codes "connect"
    ∷ codes "trace"
    ∷ []

unfoldable pub contains : Bytes → List Bytes → Bool
contains key [] = false
contains key (k ∷ ks) = equal k key || contains key ks

-- `MethodValidator::Validate`, which appends to `err_msg`
unfoldable pub validate_method : Bytes → Bytes → Report
validate_method method err_msg = if contains method valid_methods then (none_error, err_msg) else (
  invalid_method,
  err_msg
      ++ (err_headers invalid_method
          ++ (codes "\"description\": \"Invalid HTTP method '" ++ (method ++ codes "'\"}}"))),
)

-- What rapidjson says of a text that is no JSON; the code and the offset are in decimal.
pub record ParseError : Type 0 where
  pub code : Bytes
  pub description : Bytes
  pub offset : Bytes

-- The calls of rapidjson: values of the document that is the specification, the parser, and the
-- validator for a schema, which is reset after each use. `error_messages` is what
-- `CreateErrorMessages` makes of the errors that the validator reports.
pub record Rapidjson : Type 1 where
  pub Value : Type 0
  pub is_object : Value → Bool
  pub is_array : Value → Bool
  pub is_string : Value → Bool
  pub is_bool : Value → Bool
  pub has_member : Value → Bytes → Bool
  pub index : Value → Bytes → Value
  pub get_string : Value → Bytes
  pub get_bool : Value → Bool
  pub get_object : Value → List (Bytes × Value)
  pub get_array : Value → List Value
  pub parse : Bytes → ParseError ⊎ Value
  pub accept : Value → Value → Bool
  pub error_messages : Value → Value → Bytes

-- The calls that read a value of the document are defined only on a value of the right kind:
-- `HasMember`, `operator[]`, `GetObject` and the iterators on an object, `operator[]` with a key that
-- is there, and `GetArray`, `GetString` and `GetBool` on a value of their kind. `has_kind` is the test
-- for a member that is read without a test, and `may_have_kind` for one that is read if it is there.
abbrev pub has_kind : (lib : Rapidjson) → (lib.Value → Bool) → lib.Value → Bytes → Bool
has_kind lib kind v key = lib.is_object v && (lib.has_member v key && kind (lib.index v key))

abbrev pub may_have_kind : (lib : Rapidjson) → (lib.Value → Bool) → lib.Value → Bytes → Bool
may_have_kind lib kind v key =
    lib.is_object v && (if lib.has_member v key then kind (lib.index v key) else true)

-- `JsonValidator`, with the schema that its `validator_` is made from
pub record JsonValidator (lib : Rapidjson) : Type 0 where
  pub base : BaseValidator
  pub schema : lib.Value

-- `json_str.c_str()`, as a reader of C strings takes it
abbrev pub c_str : Bytes → Bytes
c_str s = (seek s 0).0

-- `JsonValidator::Validate`
unfoldable pub validate_json : (lib : Rapidjson) → JsonValidator lib → Bytes → Bytes → Report
validate_json lib v json_str error_msg = elim (lib.parse (c_str json_str)) [
  | inl e ↦ (
    v.base.code_on_error,
    v.base.err_header
        ++ (codes "\"code\":\"parserError\",\"description\":\""
            ++ (e.description ++ (codes "\",\"offset\":" ++ (e.offset ++ codes "}}")))),
  )
  | inr doc ↦ if lib.accept v.schema doc then (none_error, error_msg) else (
    v.base.code_on_error,
    v.base.err_header ++ (lib.error_messages v.schema doc ++ codes "}}"),
  )
]
