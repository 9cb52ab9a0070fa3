-- ===== src/Tests/Messages.antt =====
-- Messages of the JSON validator: an error in an error, and texts that break the message.
use cpp_oasvalidator.Prelude.{
  Bytes, String, codes, equal, strip, [], ◌∷◌, ◌++◌, false, none, ◌≡◌, refl, arith,
}
use cpp_oasvalidator.Common.{invalid_body, join_reference, ok, ◌>>=◌}
use cpp_oasvalidator.Common.Fragments.{seek}
use cpp_oasvalidator.Json.{
  Json, number, text, array, object, end, item, Members, nil, member, find_member,
}
use cpp_oasvalidator.Json.Library.{json_library}
use cpp_oasvalidator.Validators.{validate_json}
use cpp_oasvalidator.Validators.Messages.{
  create_error_messages, handle_members, error_head, insert_loop, insert_string, join_items,
  replace_first, string_of, pop_comma,
}
use cpp_oasvalidator.Validators.Messages.Render.{render}
use cpp_oasvalidator.Validators.Messages.Rendered.{create_error_messages-render}
use cpp_oasvalidator.Validators.Messages.Grammar.{IsPlain, IsValue}
use cpp_oasvalidator.Validators.Messages.Reports.{IsReport, report, none_inside}
use cpp_oasvalidator.Validators.Messages.Whole.{
  IsRefused, unaccepted, validator, validate_json-IsValue,
}
use cpp_oasvalidator.Tests.Documents.{parser, not_error}

-- Part of `GetValidateError_En`
abbrev describe : Bytes → Bytes
describe [] = []
describe (c ∷ []) = codes "Property did not match, refer to following errors."
describe (c ∷ d ∷ s) =
    codes "Property has a type '%actual' that is not in the following list: '%expected'."

abbrev located : Members
located =
    member (codes "instanceRef") (text (codes "#/f"))
      (member (codes "schemaRef") (text (codes "#/p")) nil)

abbrev type_error : String → Json
type_error expected = object (
    member (codes "type")
      (object (
        member (codes "expected") (array (item (text (codes expected)) end)) (
          member (codes "actual") (text (codes "boolean"))
            (member (codes "errorCode") (number (codes "20")) located))))
      nil)

abbrev one_of_error : Json
one_of_error = object (
    member (codes "oneOf")
      (object (
        member (codes "errors")
          (array (item (type_error "integer") (item (type_error "string") end)))
          (member (codes "errorCode") (number (codes "7")) located)))
      nil)

nested_written :
    create_error_messages describe one_of_error [] false (codes "{")
    ≡ ok (
        codes
          "{\"code\":\"oneOf\",\"description\":\"Property did not match, refer to following errors.\",\"instance\":\"#/f\",\"schema\":\"#/p\",\"errors\":[{\"code\":\"type\",\"description\":\"Property has a type 'boolean' that is not in the following list: 'integer'.\",\"instance\":\"#/f\",\"schema\":\"#/p\",\"context\":\"oneOf\"},{\"code\":\"type\",\"description\":\"Property has a type 'boolean' that is not in the following list: 'string'.\",\"instance\":\"#/f\",\"schema\":\"#/p\",\"context\":\"oneOf\"}]")
unfolding create_error_messages handle_members error_head insert_loop insert_string join_items
    replace_first string_of pop_comma find_member equal strip seek
nested_written = refl

create_error_messages-render_example :
    create_error_messages describe one_of_error [] false (codes "{")
    ≡ (render describe one_of_error [] false >>= λ t. ok (codes "{" ++ t))
create_error_messages-render_example =
    create_error_messages-render describe one_of_error [] false (codes "{")

-- A text of the request is put into the message as it is.
quote_unescaped :
    create_error_messages
      (λ code. codes "String '%actual' is longer.")
      (object (
        member
          (codes "maxLength")
          (object (
            member
              (codes "actual")
              (text (codes "\",\"code\":\""))
              (member (codes "errorCode") (number (codes "6")) located)))
          nil))
      []
      false
      []
    ≡ ok (
        codes
          "\"code\":\"maxLength\",\"description\":\"String '\",\"code\":\"' is longer.\",\"instance\":\"#/f\",\"schema\":\"#/p\"")
unfolding create_error_messages handle_members error_head insert_loop insert_string join_items
    replace_first string_of pop_comma find_member equal strip seek
quote_unescaped = refl

-- Between two errors of one report there is no comma.
two_errors_run_together :
    create_error_messages
      (λ code. [])
      (object (
        member
          (codes "minimum")
          (object (member (codes "errorCode") (number (codes "4")) located))
          (member
            (codes "type")
            (object (member (codes "errorCode") (number (codes "20")) located))
            nil)))
      []
      false
      []
    ≡ ok (
        codes
          "\"code\":\"minimum\",\"description\":\"\",\"instance\":\"#/f\",\"schema\":\"#/p\"\"code\":\"type\",\"description\":\"\",\"instance\":\"#/f\",\"schema\":\"#/p\"")
unfolding create_error_messages handle_members error_head insert_loop insert_string join_items
    replace_first string_of pop_comma find_member equal strip seek
two_errors_run_together = refl

abbrev no_schema : Json
no_schema = object (member (codes "not") (object nil) nil)

not_error-IsReport : IsReport parser.describe not_error
unfolding find_member equal seek insert_loop replace_first insert_string string_of strip
not_error-IsReport =
    report (omega arith) refl refl refl refl (omega arith) (omega arith) (omega arith) none refl
      none_inside

body-IsRefused : IsRefused parser no_schema (codes "7")
unfolding equal seek
body-IsRefused = unaccepted (text (codes "7")) refl refl not_error-IsReport

paths-IsPlain : IsPlain (join_reference (codes "paths" ∷ []))
unfolding join_reference
paths-IsPlain = omega arith

validate_json-IsValue_example :
    ((validate_json
        (json_library parser)
        (validator parser (codes "paths" ∷ []) invalid_body no_schema)
        (codes "7")
        []).0
      ≡ invalid_body)
    × IsValue
        (validate_json
          (json_library parser)
          (validator parser (codes "paths" ∷ []) invalid_body no_schema)
          (codes "7")
          []).1
validate_json-IsValue_example =
    validate_json-IsValue parser (codes "paths" ∷ []) invalid_body no_schema (codes "7") []
      (λ e. cc) paths-IsPlain body-IsRefused
