-- ===== src/Tests/Documents.antt =====
-- A parser and a schema validator, to fill the interface of rapidjson with.
use cpp_oasvalidator.Prelude.{Bytes, codes, [], ◌∷◌, not, ◌⊎◌, inl, inr}
use cpp_oasvalidator.Json.{Json, number, text, object, nil, member, json_has}
use cpp_oasvalidator.Json.Library.{Parser, json_library}
use cpp_oasvalidator.Validators.{Rapidjson, ParseError}

abbrev pub some_text : Bytes → ParseError ⊎ Json
some_text [] =
    inl (record {
      code = codes "1";
      description = codes "The document is empty.";
      offset = codes "0";
    })
some_text (c ∷ s) = inr (text (c ∷ s))

abbrev pub not_error : Json
not_error = object (
    member (codes "not")
      (object (
        member (codes "errorCode") (number (codes "24")) (
          member (codes "instanceRef") (text (codes "#"))
            (member (codes "schemaRef") (text (codes "#")) nil))))
      nil)

abbrev pub parser : Parser
parser = record {
  parse = some_text;
  accept = λ schema doc. not (json_has schema (codes "not"));
  errors = λ schema doc. not_error;
  describe = λ code. codes "Property matched the sub-schema specified by 'not'.";
}

abbrev pub library : Rapidjson
library = json_library parser
