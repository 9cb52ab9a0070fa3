-- ===== src/Validators/Store/Codes.antt =====
-- The code that a validator returns does not depend on the text in `error_msg` before the call.
use cpp_oasvalidator.Prelude.{
  ℕ, Bytes, List, [], ◌∷◌, Bool-cases, Option, Option-cases, inl, inr, ◌≡◌, refl, none, some, ◌⊎◌,
}
use cpp_oasvalidator.Common.{
  ValidationError, none_error, Exception, out_of_range, deserialization, Result, ok, throw,
  out_of_fuel,
}
use cpp_oasvalidator.Trie.{ParamRange, ParamIdxs, at_idx}
use cpp_oasvalidator.Validators.{
  Report, lookup, Rapidjson, JsonValidator, validate_json, c_str, ParseError,
}
use cpp_oasvalidator.Validators.Param.{
  ParamValidator, deserialize, caught_param, validate_param, error_on_missing,
}
use cpp_oasvalidator.Validators.Store.{
  Store, check_error, catch_out_of_range, missing_param, validate_body, path_params_loop,
  header_params_loop,
}
use cpp_oasvalidator.Validators.Store.Query.{check_query_error}

-- A call with its message forgotten.
abbrev pub code_of : Option (Result Report) → Option (Result ValidationError)
code_of none = none
code_of (some (ok r)) = some (ok r.0)
code_of (some (throw exc)) = some (throw exc)
code_of (some out_of_fuel) = some out_of_fuel

abbrev pub IsUniform : (Bytes → Option (Result Report)) → Type 0
IsUniform f = (m m' : Bytes) → code_of (f m) ≡ code_of (f m')

same_code :
    (c : ValidationError) (m m' : Bytes) (go : Bytes → Option (Result Report))
    → IsUniform go
    → code_of (check_query_error (c, m) go) ≡ code_of (check_query_error (c, m') go)
same_code none_error m m' go u = u m m'
same_code _ m m' go u = refl

pub check_query_error_same :
    (r r' : Report) (go : Bytes → Option (Result Report))
    → r.0 ≡ r'.0
    → IsUniform go
    → code_of (check_query_error r go) ≡ code_of (check_query_error r' go)
check_query_error_same (c, m) (c', m') go p u = rw p (same_code c' m m' go u)

check_error-check_query_error :
    (r : Report) (go : Bytes → Result Report)
    → some (check_error r go) ≡ check_query_error r (λ m. some (go m))
check_error-check_query_error (none_error, m) go = refl
check_error-check_query_error (_, m) go = refl

check_error_same :
    (r r' : Report) (go : Bytes → Result Report)
    → r.0 ≡ r'.0
    → IsUniform (λ m. some (go m))
    → code_of (some (check_error r go)) ≡ code_of (some (check_error r' go))
check_error_same r r' go p u =
    rw (check_error-check_query_error r go, check_error-check_query_error r' go)
      (check_query_error_same r r' (λ m. some (go m)) p u)

-- Two runs of a validator: both return, with the same code, or both end alike.
pub data AreAlike : Result Report → Result Report → Type 0 where
  both_return : (r r' : Report) → r.0 ≡ r'.0 → AreAlike (ok r) (ok r')
  both_throw : (exc : Exception) → AreAlike (throw exc) (throw exc)
  both_stop : AreAlike out_of_fuel out_of_fuel

module _ (lib : Rapidjson) where
  pub validate_json_same :
      (v : JsonValidator lib) (s m m' : Bytes)
      → (validate_json lib v s m).0 ≡ (validate_json lib v s m').0
  unfolding validate_json
  validate_json_same v s m m' = go (lib.parse (c_str s)) refl
    where
      go :
          (parsed : ParseError ⊎ lib.Value)
          → lib.parse (c_str s) ≡ parsed
          → (validate_json lib v s m).0 ≡ (validate_json lib v s m').0
      go (inl e) p = rw (p, validate_json)
      go (inr doc) p = elim (Bool-cases (lib.accept v.schema doc)) [
        | inl b ↦ rw (p, b, validate_json)
        | inr b ↦ rw (p, b, validate_json)
      ]

  pub validate_param-AreAlike :
      (v : ParamValidator lib) (range : ParamRange) (m m' : Bytes)
      → AreAlike (validate_param lib v range m) (validate_param lib v range m')
  unfolding validate_param caught_param
  validate_param-AreAlike v range m m' = go (deserialize v.deserializer range) refl
    where
      go :
          (result : Result Bytes)
          → deserialize v.deserializer range ≡ result
          → AreAlike (validate_param lib v range m) (validate_param lib v range m')
      go (ok ret) e = rw (e, validate_param) (both_return _ _ (validate_json_same v.json ret m m'))
      go (throw (deserialization message)) e = rw (e, validate_param) (both_return _ _ refl)
      go (throw exc) e = rw (e, validate_param) (both_throw exc)
      go out_of_fuel e = rw (e, validate_param) both_stop

  -- What the loops make of the result of a validator, with what they do on `out_of_range`.
  alike_error :
      {a b : Result Report} (handler handler' : Result Report) (go : Bytes → Result Report)
      → AreAlike a b
      → code_of (some handler) ≡ code_of (some handler')
      → IsUniform (λ m. some (go m))
      → code_of (
          some (elim a [
            | ok report ↦ check_error report go
            | throw exc ↦ catch_out_of_range exc handler
            | out_of_fuel ↦ out_of_fuel
          ]))
        ≡ code_of (
            some (elim b [
              | ok report ↦ check_error report go
              | throw exc ↦ catch_out_of_range exc handler'
              | out_of_fuel ↦ out_of_fuel
            ]))
  alike_error h h' go (both_return r r' p) q u = check_error_same r r' go p u
  alike_error h h' go (both_throw out_of_range) q u = q
  alike_error h h' go (both_throw exc) q u = refl
  alike_error h h' go both_stop q u = refl

  pub path_params-IsUniform :
      (idxs : ParamIdxs) (vs : List (ℕ × ParamValidator lib))
      → IsUniform (λ m. some (path_params_loop lib idxs vs m))
  unfolding path_params_loop
  path_params-IsUniform idxs [] m m' = refl
  path_params-IsUniform idxs ((i, v) ∷ vs) m m' = elim (Option-cases (at_idx i idxs)) [
    | inl e ↦ rw (e, path_params_loop)
    | inr (range, e) ↦
        rw (e, path_params_loop)
          (alike_error (ok (error_on_missing lib v)) (ok (error_on_missing lib v))
            (path_params_loop lib idxs vs) (validate_param-AreAlike v range m m') refl
            (path_params-IsUniform idxs vs))
  ]

  missing-IsUniform :
      (v : ParamValidator lib) (go : Bytes → Result Report)
      → IsUniform (λ m. some (go m))
      → IsUniform (λ m. some (missing_param lib v m go))
  missing-IsUniform v go u m m' = elim (Bool-cases v.required) [
    | inl b ↦ rw b
    | inr b ↦ rw b (u m m')
  ]

  pub header_params-IsUniform :
      (headers : List (Bytes × Bytes)) (vs : List (Bytes × ParamValidator lib))
      → IsUniform (λ m. some (header_params_loop lib headers vs m))
  unfolding header_params_loop
  header_params-IsUniform headers [] m m' = refl
  header_params-IsUniform headers ((name, v) ∷ vs) m m' =
      let rest =
        missing-IsUniform v (header_params_loop lib headers vs)
          (header_params-IsUniform headers vs) in
      elim (Option-cases (lookup name headers)) [
        | inl e ↦ rw (e, header_params_loop) (rest m m')
        | inr (param, e) ↦
            rw (e, header_params_loop)
              (alike_error _ _ (header_params_loop lib headers vs)
                (validate_param-AreAlike v (record { within = param; beyond = [] }) m m')
                (rest m m') (header_params-IsUniform headers vs))
      ]

  pub body_code :
      (store : Store lib) (body m m' : Bytes)
      → (validate_body lib store body m).0 ≡ (validate_body lib store body m').0
  unfolding validate_body
  body_code store body m m' = elim (Option-cases store.body_validator) [
    | inl e ↦ rw (e, validate_body)
    | inr (v, e) ↦ rw (e, validate_body) (validate_json_same v body m m')
  ]
