-- ===== src/Pipeline/Stages.antt =====
-- `ValidateRequest` runs its stages in order and returns the first error.
use cpp_oasvalidator.Prelude.{ℕ, Bytes, List, [], Option, ◌≡◌, refl, sym, ap, ◌∙◌, none, some}
use cpp_oasvalidator.Common.{ValidationError, none_error, Result, ok, throw, out_of_fuel}
use cpp_oasvalidator.Trie.{HashOrder}
use cpp_oasvalidator.Validators.{Report, Rapidjson}
use cpp_oasvalidator.Validators.Store.{
  Store, validate_body, validate_path_params, validate_header_params,
}
use cpp_oasvalidator.Validators.Store.Query.{check_query_error, validate_query_params}
use cpp_oasvalidator.Validators.Store.Codes.{
  code_of, IsUniform, path_params-IsUniform, header_params-IsUniform, body_code,
}
use cpp_oasvalidator.Validators.Store.QueryCodes.{query_params-IsUniform}
use cpp_oasvalidator.Pipeline.{OasValidatorImp, Outs, Route}
use cpp_oasvalidator.Pipeline.Requests.{
  stage, idxs_of, query_of, no_outs, both_outs, after_route, with_validators, validate_body_of,
  validate_headers, validate_request, validate_request_all,
}
use cpp_oasvalidator.Pipeline.Agreement.{
  SameRoute, same_store, same_error, same_exception, same_end, same_fuel, get_validators-SameRoute,
}

-- The first of two codes, unless it is `NONE`.
abbrev pub then_code :
    Option (Result ValidationError)
    → Option (Result ValidationError)
    → Option (Result ValidationError)
then_code (some (ok none_error)) b = b
then_code a b = a

then_code_assoc :
    (a b c : Option (Result ValidationError))
    → then_code (then_code a b) c ≡ then_code a (then_code b c)
then_code_assoc (some (ok none_error)) b c = refl
then_code_assoc _ b c = refl

then_code_same : (a : Option (Result ValidationError)) → a ≡ then_code a (then_code a a)
then_code_same (some (ok none_error)) = refl
then_code_same _ = refl

check_code :
    (c : ValidationError) (x m : Bytes) (go : Bytes → Option (Result Report))
    → IsUniform go
    → code_of (check_query_error (c, x) go) ≡ then_code (some (ok c)) (code_of (go m))
check_code none_error x m go u = u x m
check_code _ x m go u = refl

stage_code :
    (r : Option (Result Report)) (go : Bytes → Option (Result Report)) (m : Bytes)
    → IsUniform go
    → code_of (stage r go) ≡ then_code (code_of r) (code_of (go m))
stage_code none go m u = refl
stage_code (some (ok (c, x))) go m u = check_code c x m go u
stage_code (some (throw exc)) go m u = refl
stage_code (some out_of_fuel) go m u = refl

stage-IsUniform :
    (f go : Bytes → Option (Result Report))
    → IsUniform f
    → IsUniform go
    → IsUniform (λ m. stage (f m) go)
stage-IsUniform f go u w m m' =
    stage_code (f m) go [] w
    ∙ ap (λ c. then_code c (code_of (go []))) (u m m')
    ∙ sym (stage_code (f m') go [] w)

-- Three stages behind a report: the last two of them are run as a caller would run them.
three_stages :
    (r r' : Report) (path query header : Bytes → Option (Result Report))
    → r.0 ≡ r'.0
    → (m m' : Bytes) → IsUniform path
    → IsUniform query
    → IsUniform header
    → code_of (stage (some (ok r)) (λ x. stage (path x) (λ y. stage (query y) header)))
      ≡ then_code
          (some (ok r'.0))
          (then_code (code_of (stage (path m) query)) (code_of (header m')))
three_stages r r' path query header p m m' u w z =
    let qh = stage-IsUniform query header w z in
    stage_code (some (ok r)) (λ x. stage (path x) (λ y. stage (query y) header)) m
      (stage-IsUniform path (λ y. stage (query y) header) u qh)
    ∙ rw (
      p,
      stage_code (path m) (λ y. stage (query y) header) m qh,
      stage_code (query m) header m' z,
      stage_code (path m) query m w,
      then_code_assoc (code_of (path m)) (code_of (query m)) (code_of (header m')),
    )

module _ (lib : Rapidjson) where
  after_route_code :
      {a b : Option (Result (Route lib))} (g g1 g2 g3 : Store lib → Outs → Option (Result Report))
      → SameRoute lib a b
      → ((store : Store lib) (o o' : Outs)
          → code_of (g store o)
            ≡ then_code
                (code_of (g1 store o'))
                (then_code (code_of (g2 store o)) (code_of (g3 store o'))))
      → code_of (after_route lib a g)
        ≡ then_code
            (code_of (after_route lib b g1))
            (then_code (code_of (after_route lib a g2)) (code_of (after_route lib b g3)))
  after_route_code g g1 g2 g3 (same_store store o o') h = h store o o'
  after_route_code g g1 g2 g3 (same_error e o o') h = then_code_same (some (ok e))
  after_route_code g g1 g2 g3 (same_exception exc) h = refl
  after_route_code g g1 g2 g3 same_end h = refl
  after_route_code g g1 g2 g3 same_fuel h = refl

  module _ (order : HashOrder) (outside : ℕ) (v : OasValidatorImp lib) where
    -- `ValidateRequest(method, http_path, json_body, headers, error_msg)` returns the code of
    -- `ValidateBody`, unless that is `NONE`; then the code of `ValidateRequest(method, http_path,
    -- error_msg)`, unless that is `NONE`; and then the code of `ValidateHeaders`. Exceptions and
    -- undefined behaviour of a stage are those of the call in the same way.
    pub validate_request_all_stages :
        (method http_path json_body : Bytes) (headers : List (Bytes × Bytes)) (error_msg : Bytes)
        → code_of
            (validate_request_all lib order outside v method http_path json_body headers error_msg)
          ≡ then_code
              (code_of (validate_body_of lib order outside v method http_path json_body error_msg))
              (then_code
                (code_of (validate_request lib order outside v method http_path error_msg))
                (code_of (validate_headers lib order outside v method http_path headers error_msg)))
    unfolding validate_request_all validate_body_of validate_request validate_headers
        with_validators
    validate_request_all_stages method http_path json_body headers error_msg =
        after_route_code _ _ _ _
          (get_validators-SameRoute lib order v method http_path (both_outs error_msg)
            (no_outs error_msg))
          (λ store o o'.
            three_stages (validate_body lib store json_body o.error_msg)
              (validate_body lib store json_body o'.error_msg)
              (λ m. some (validate_path_params lib store (idxs_of o) m))
              (validate_query_params lib outside store (query_of o))
              (λ m. some (validate_header_params lib store headers m))
              (body_code lib store json_body o.error_msg o'.error_msg) o.error_msg o'.error_msg
              (path_params-IsUniform lib (idxs_of o) store.path_param_validators)
              (query_params-IsUniform lib outside store (query_of o))
              (header_params-IsUniform lib headers store.header_param_validators))
