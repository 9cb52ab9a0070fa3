-- ===== src/Validators/Messages/Whole.antt =====
-- The whole message of `JsonValidator::Validate`.
use mathlib.Core.Path.{subst}
use cpp_oasvalidator.Prelude.{
  Bytes, codes, List, [], ◌++◌, append_assoc, append-nil, false, inl, inr, ◌≡◌, ◌≢◌, refl, sym, ap,
  arith,
}
use cpp_oasvalidator.Common.{
  ValidationError, none_error, invalid_method, invalid_route, invalid_path_param,
  invalid_query_param, invalid_header_param, invalid_body, invalid_rsp, join_reference,
}
use cpp_oasvalidator.Json.{Json}
use cpp_oasvalidator.Json.Library.{Parser, json_library, appended}
use cpp_oasvalidator.Validators.{
  ParseError, JsonValidator, base_validator_at, err_headers, c_str, validate_json,
}
use cpp_oasvalidator.Validators.Messages.{create_error_messages}
use cpp_oasvalidator.Validators.Messages.Rendered.{create_error_messages-render}
use cpp_oasvalidator.Validators.Messages.Reports.{IsReport, report_pairs}
use cpp_oasvalidator.Validators.Messages.Grammar.{
  IsPlain, IsNumber, IsValue, is_number, is_object, ArePairs, one_pair, string_then,
}

-- What the head of the message ends with, the texts behind it, and the two braces
details_object :
    (reference t : Bytes)
    → IsPlain reference
    → ArePairs t
    → IsValue (codes "{\"specRef\":\"" ++ (reference ++ (codes "\"," ++ (t ++ codes "}"))))
details_object reference t h i =
    is_object _ _ (string_then (codes "specRef") reference t (omega arith) h i) (
      ap (λ z. codes "{\"specRef\":\"" ++ z)
        (sym (append_assoc reference (codes "\"," ++ t) (codes "}"))))

error_object :
    (code details : Bytes)
    → IsPlain code
    → IsValue details
    → IsValue
        (codes "{\"errorCode\":\"" ++ (code ++ (codes "\",\"details\":" ++ (details ++ codes "}"))))
error_object code details h i =
    is_object _ _
      (string_then (codes "errorCode") code _ (omega arith) h
        (one_pair (codes "details") details _ (omega arith) i refl))
      (ap (λ z. codes "{\"errorCode\":\"" ++ z)
        (sym (append_assoc code (codes "\",\"details\":" ++ details) (codes "}"))))

-- The name of the error in the message
unfoldable pub code_name : ValidationError → Bytes
code_name none_error = codes "NONE"
code_name invalid_method = codes "INVALID_METHOD"
code_name invalid_route = codes "INVALID_ROUTE"
code_name invalid_path_param = codes "INVALID_PATH_PARAM"
code_name invalid_query_param = codes "INVALID_QUERY_PARAM"
code_name invalid_header_param = codes "INVALID_HEADER_PARAM"
code_name invalid_body = codes "INVALID_BODY"
code_name invalid_rsp = codes "INVALID_RSP"

err_headers-code_name :
    (code : ValidationError)
    → code ≢ none_error
    → err_headers code ≡ codes "{\"errorCode\":\"" ++ (code_name code ++ codes "\",\"details\":{")
unfolding err_headers code_name
err_headers-code_name none_error h = absurd (h refl)
err_headers-code_name invalid_method h = refl
err_headers-code_name invalid_route h = refl
err_headers-code_name invalid_path_param h = refl
err_headers-code_name invalid_query_param h = refl
err_headers-code_name invalid_header_param h = refl
err_headers-code_name invalid_body h = refl
err_headers-code_name invalid_rsp h = refl

code_name-IsPlain : (code : ValidationError) → IsPlain (code_name code)
unfolding code_name
code_name-IsPlain none_error = omega arith
code_name-IsPlain invalid_method = omega arith
code_name-IsPlain invalid_route = omega arith
code_name-IsPlain invalid_path_param = omega arith
code_name-IsPlain invalid_query_param = omega arith
code_name-IsPlain invalid_header_param = omega arith
code_name-IsPlain invalid_body = omega arith
code_name-IsPlain invalid_rsp = omega arith

-- The head of a message, the members behind it, and the two braces at its end.
whole_message :
    (code : ValidationError) (ref_keys : List Bytes) (t : Bytes)
    → code ≢ none_error
    → IsPlain (join_reference ref_keys)
    → ArePairs t
    → IsValue ((base_validator_at ref_keys code).err_header ++ (t ++ codes "}}"))
whole_message code ref_keys t n h i = rw (err_headers-code_name code n) (
    subst IsValue (simp append_assoc) (
      error_object (code_name code) _ (code_name-IsPlain code)
        (details_object (join_reference ref_keys) t h i)))

-- A text that the parser refuses, with a description and an offset of the form that rapidjson gives,
-- or a document that the schema validator refuses, with one error, which may hold others.
pub data IsRefused (p : Parser) (schema : Json) (s : Bytes) : Type 0 where
  unparsed :
      (e : ParseError)
      → p.parse (c_str s) ≡ inl e
      → IsPlain e.description
      → IsNumber e.offset
      → IsRefused p schema s
  unaccepted :
      (doc : Json)
      → p.parse (c_str s) ≡ inr doc
      → p.accept schema doc ≡ false
      → IsReport p.describe (p.errors schema doc)
      → IsRefused p schema s

module _ (p : Parser) (ref_keys : List Bytes) (code : ValidationError) (schema : Json) where
  abbrev pub validator : JsonValidator (json_library p)
  validator = record { base = base_validator_at ref_keys code; schema = schema }

  appended_pairs :
      (errors : Json)
      → IsReport p.describe errors
      → ArePairs (appended (create_error_messages p.describe errors [] false []))
  appended_pairs errors r =
      let (t, q, e) = report_pairs p.describe r [] tt in
      rw (create_error_messages-render p.describe errors [] false [], e false) (rw append-nil q)

  -- Where `Validate` refuses a JSON text, and no byte of what the message quotes is one that JSON
  -- escapes, it returns its own code and leaves a JSON object in `error_msg`, whether the text is no
  -- JSON or the schema validator reports an error, with any number of errors nested in it.
  pub validate_json-IsValue :
      (s msg : Bytes)
      → code ≢ none_error
      → IsPlain (join_reference ref_keys)
      → IsRefused p schema s
      → ((validate_json (json_library p) validator s msg).0 ≡ code)
        × IsValue (validate_json (json_library p) validator s msg).1
  unfolding validate_json
  validate_json-IsValue s msg n h (unparsed e q d o) =
      rw (q, validate_json)
        (
          refl,
          subst IsValue (simp append_assoc) (
              whole_message code ref_keys _ n h (
                string_then (codes "code") (codes "parserError") _ (omega arith) (omega arith) (
                  string_then (codes "description") e.description _ (omega arith) d (
                    one_pair (codes "offset") e.offset _ (omega arith) (is_number e.offset o)
                      refl)))),
        )
  validate_json-IsValue s msg n h (unaccepted doc q a r) =
      rw (q, a, validate_json)
        (refl, whole_message code ref_keys _ n h (appended_pairs (p.errors schema doc) r))
