-- ===== src/Tests/Serving.antt =====
-- A validator from a document with a reference to its answers.
use cpp_oasvalidator.Prelude.{codes, [], ◌∷◌, inr}
use cpp_oasvalidator.Common.{ok, throw, out_of_fuel}
use cpp_oasvalidator.Json.{Json, object, nil, member}
use cpp_oasvalidator.Json.Library.{Parser, json_library}
use cpp_oasvalidator.Pipeline.{OasValidatorImp}
use cpp_oasvalidator.Pipeline.Spec.{construct, new_imp}
use cpp_oasvalidator.Pipeline.Resolve.Loops.{reference_to}
use cpp_oasvalidator.Pipeline.Resolve.Expands.{Expands}
use cpp_oasvalidator.Api.Calls
use cpp_oasvalidator.Tests.Documents.{parser}

-- `{"get": {}}`
abbrev methods : Json
methods = object (member (codes "get") (object nil) nil)

-- One path, whose methods are `v`, and a component `x`
abbrev paths_of : Json → Json
paths_of v = object (
    member (codes "paths") (object (member (codes "/p") v nil))
      (member (codes "c") (object (member (codes "x") methods nil)) nil))

abbrev referring : Json
referring = paths_of (reference_to (codes "c" ∷ codes "x" ∷ []))

abbrev one_document : Parser
one_document = record parser { parse = λ s. inr referring }

abbrev built : OasValidatorImp (json_library one_document)
built = elim (construct (json_library one_document) (paths_of methods) []) [
  | ok v ↦ v
  | throw exc ↦ new_imp (json_library one_document) []
  | out_of_fuel ↦ new_imp (json_library one_document) []
]
