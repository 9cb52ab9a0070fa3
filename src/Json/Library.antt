-- ===== src/Json/Library.antt =====
-- The interface of rapidjson, on trees. The parser, the schema validator and its errors, which are
-- `GetError()`, and their description by code, `GetValidateError_En`, stay parameters.
use cpp_oasvalidator.Prelude.{Bytes, [], Bool, false, ◌⊎◌}
use cpp_oasvalidator.Common.{Result, ok}
use cpp_oasvalidator.Validators.Messages.{create_error_messages}
use cpp_oasvalidator.Json.{
  Json, json_is_object, json_is_array, json_is_text, json_is_flag, json_has, json_index, json_text,
  json_flag, json_object, json_array,
}
use cpp_oasvalidator.Validators.{Rapidjson, ParseError}

pub record Parser : Type 0 where
  pub parse : Bytes → ParseError ⊎ Json
  pub accept : Json → Json → Bool
  pub errors : Json → Json → Json
  pub describe : Bytes → Bytes

-- What `CreateErrorMessages` puts behind the head of the message. Where it fails, rapidjson has not
-- reported errors of the form that it documents.
abbrev pub appended : Result Bytes → Bytes
appended (ok t) = t
appended _ = []

abbrev pub json_library : Parser → Rapidjson
json_library p = record {
  Value = Json;
  is_object = json_is_object;
  is_array = json_is_array;
  is_string = json_is_text;
  is_bool = json_is_flag;
  has_member = json_has;
  index = json_index;
  get_string = json_text;
  get_bool = json_flag;
  get_object = json_object;
  get_array = json_array;
  parse = p.parse;
  accept = p.accept;
  error_messages =
      λ schema doc. appended (create_error_messages p.describe (p.errors schema doc) [] false []);
}
