-- ===== src/Api/Serves.antt =====
-- src/oas_validator.cpp: a validator from the text of its document to its answers.
use cpp_oasvalidator.Prelude.{Option, some, ◌≡◌}
use cpp_oasvalidator.Common.{Result}
use cpp_oasvalidator.Json.{Json}
use cpp_oasvalidator.Validators.{Report}
use cpp_oasvalidator.Validators.Store.{Store}
use cpp_oasvalidator.Pipeline.Resolve.Expands.{Expands}
use cpp_oasvalidator.Api.Calls

-- The code is done and did nothing that is undefined.
abbrev pub Returns : Option (Result Report) → Type 0
Returns answer = (r : Result Report) × (answer ≡ some r)
