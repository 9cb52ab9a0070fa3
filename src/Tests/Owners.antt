-- ===== src/Tests/Owners.antt =====
-- Validators in a memory.
use cpp_oasvalidator.Prelude.{ℕ, codes, [], ◌∷◌, Option, some, false, ◌≡◌, refl, arith}
use cpp_oasvalidator.Common.{get, Result}
use cpp_oasvalidator.Validators.{Report}
use cpp_oasvalidator.Validators.Store.{empty_store}
use cpp_oasvalidator.Pipeline.{OasValidatorImp}
use cpp_oasvalidator.Pipeline.Spec.{new_imp}
use cpp_oasvalidator.Api.{
  Implementation, Memory, OasValidator, at_address, fresh, new_implementation, copy_validator,
  assign_validator, destroy_validator, forward,
}
use cpp_oasvalidator.Api.Ownership.{no_memory, Reaches, start, constructed, destroy_validator_total}
use cpp_oasvalidator.Api.Copies.{SecondFails, copy_validator-SecondFails, assign_validator-forward}
use cpp_oasvalidator.Tests.Documents.{library}

-- One path with `GET`
abbrev small : OasValidatorImp library
small = record (new_imp library []) {
  oas_validators = λ m. elim m [
    | get ↦ record ((new_imp library []).oas_validators get) {
      per_path_validators = (codes "/p", empty_store library) ∷ [];
    }
    | other ↦ (new_imp library []).oas_validators other
  ];
}

-- Two validators
abbrev both : Memory library
both = (new_implementation library small (new_implementation library small (no_memory library)).1).1

abbrev first : OasValidator
first = record { impl = 1 }

abbrev second : OasValidator
second = record { impl = 3 }

abbrev imp_of : ℕ → Implementation library
imp_of store = record { value = small; stores = store ∷ [] }

both-Reaches : Reaches library both
both-Reaches = constructed small (constructed small start)

first_found : at_address 1 both.implementations ≡ some (imp_of 0)
unfolding at_address new_implementation fresh no_memory
first_found = refl

second_found : at_address 3 both.implementations ≡ some (imp_of 2)
unfolding at_address new_implementation fresh no_memory
second_found = refl

destroy_validator_total_example :
    (mem' : Memory library) × (destroy_validator library first both ≡ some mem')
destroy_validator_total_example =
    destroy_validator_total library both first (imp_of 0) both-Reaches first_found

copy_validator-SecondFails_example :
    (copy : OasValidator) × (mem' : Memory library) × (copy_validator library first both
      ≡ some (copy, mem'))
    × SecondFails library first copy mem'
    × SecondFails library copy first mem'
copy_validator-SecondFails_example =
    copy_validator-SecondFails library both first (imp_of 0) both-Reaches first_found (omega arith)

assign_validator-forward_example :
    (this' : OasValidator) × (mem' : Memory library) × (assign_validator library false first second
        both
      ≡ some (this', mem'))
    × ((call : OasValidatorImp library → Option (Result Report))
        → (forward library this' mem' call ≡ forward library second both call)
          × (forward library second mem' call ≡ forward library second both call)
          × (forward library second both call ≡ call small))
assign_validator-forward_example =
    assign_validator-forward library both first second (imp_of 0) (imp_of 2) both-Reaches
      (λ q. omega arith) first_found second_found
