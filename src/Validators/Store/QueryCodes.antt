-- ===== src/Validators/Store/QueryCodes.antt =====
-- The code that `ValidateQueryParams` returns does not depend on the text in `error_msg`.
use cpp_oasvalidator.Prelude.{
  ℕ, Bytes, List, [], ◌∷◌, ◌-◌, Bool-cases, Option, Option-cases, inl, inr, ◌≡◌, refl, some,
}
use cpp_oasvalidator.Common.{out_of_range, Result, ok, throw, out_of_fuel}
use cpp_oasvalidator.Validators.{Report, lookup, Rapidjson}
use cpp_oasvalidator.Validators.Param.{ParamValidator}
use cpp_oasvalidator.Validators.Store.{Store}
use cpp_oasvalidator.Validators.Store.Query.{
  Starts, Scan, scanned, returned, scan_loop, sub_range, next_start, check_query_error,
  catch_missing, query_params_loop, validate_query_params,
}
use cpp_oasvalidator.Validators.Store.Codes.{
  code_of, IsUniform, AreAlike, both_return, both_throw, both_stop, validate_param-AreAlike,
  check_query_error_same,
}

module _ (lib : Rapidjson) where
  alike_query :
      {a b : Result Report} (v : ParamValidator lib) (rest rest' : Option (Result Report))
      (go : Bytes → Option (Result Report))
      → AreAlike a b
      → code_of (catch_missing lib v out_of_range rest)
        ≡ code_of (catch_missing lib v out_of_range rest')
      → IsUniform go
      → code_of (elim a [
        | ok report ↦ check_query_error report go
        | throw exc ↦ catch_missing lib v exc rest
        | out_of_fuel ↦ some out_of_fuel
      ])
        ≡ code_of (elim b [
          | ok report ↦ check_query_error report go
          | throw exc ↦ catch_missing lib v exc rest'
          | out_of_fuel ↦ some out_of_fuel
        ])
  alike_query v h h' go (both_return r r' p) q u = check_query_error_same r r' go p u
  alike_query v h h' go (both_throw out_of_range) q u = q
  alike_query v h h' go (both_throw exc) q u = refl
  alike_query v h h' go both_stop q u = refl

  missing_query-IsUniform :
      (v : ParamValidator lib) (go : Bytes → Option (Result Report))
      → IsUniform go
      → IsUniform (λ m. catch_missing lib v out_of_range (go m))
  missing_query-IsUniform v go u m m' = elim (Bool-cases v.required) [
    | inl b ↦ rw b
    | inr b ↦ rw b (u m m')
  ]

  query_loop-IsUniform :
      (query : Bytes) (s : Starts) (vs : List (Bytes × ParamValidator lib))
      → IsUniform (query_params_loop lib query s vs)
  unfolding query_params_loop
  query_loop-IsUniform query s [] m m' = refl
  query_loop-IsUniform query s ((name, v) ∷ vs) m m' =
      let rest =
        missing_query-IsUniform v (query_params_loop lib query s vs)
          (query_loop-IsUniform query s vs) in
      elim (Option-cases (lookup name s.start_map)) [
        | inl e ↦ rw (e, query_params_loop) (rest m m')
        | inr (start, e) ↦ elim (Option-cases (next_start start s.starts)) [
          | inl f ↦ rw (e, f, query_params_loop)
          | inr (next, f) ↦
              rw (e, f, query_params_loop)
                (alike_query v _ _ (query_params_loop lib query s vs)
                  (validate_param-AreAlike lib v (sub_range query start (next - 1)) m m')
                  (rest m m') (query_loop-IsUniform query s vs))
        ]
      ]

  pub query_params-IsUniform :
      (outside : ℕ) (store : Store lib) (query : Bytes)
      → IsUniform (validate_query_params lib outside store query)
  unfolding validate_query_params
  query_params-IsUniform outside store query m m' =
      go
        (scan_loop lib outside query store.query_param_validators
          (record { starts = []; start_map = [] }))
        refl
    where
      go :
          (scan : Scan)
          → scan_loop lib outside query store.query_param_validators
              (record { starts = []; start_map = [] })
            ≡ scan
          → code_of (validate_query_params lib outside store query m)
            ≡ code_of (validate_query_params lib outside store query m')
      go (scanned s) e = rw (e, validate_query_params) (query_loop-IsUniform query _ _ m m')
      go (returned report) e = rw (e, validate_query_params)
