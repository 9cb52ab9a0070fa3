-- ===== src/Validators/Store/Headers.antt =====
-- When `ValidateHeaderParams` returns `NONE`.
use cpp_oasvalidator.Prelude.{
  Bytes, All, List, [], ◌∷◌, Bool-cases, false, Option-cases, ◌⊎◌, ◌↔◌, inl, inr, ◌≡◌, ◌≢◌, refl,
  sym, ◌∙◌, none, some,
}
use cpp_oasvalidator.Common.{none_error, out_of_range, length_error, Result, ok, throw, out_of_fuel}
use cpp_oasvalidator.Trie.{ParamRange}
use cpp_oasvalidator.Validators.{Report, lookup, Rapidjson}
use cpp_oasvalidator.Validators.Param.{ParamValidator, validate_param, error_on_missing}
use cpp_oasvalidator.Validators.Param.Returns.{validate_param_returns}
use cpp_oasvalidator.Validators.Store.{
  Store, check_error, catch_out_of_range, header_params_loop, validate_header_params,
}
use cpp_oasvalidator.Validators.Store.Accepts.{
  IsAccepted, HasCode, accepted_returns, returns-IsAccepted, code_eq,
}

-- The value of a header, as the range that `ValidateHeaderParams` passes on
abbrev pub header_range : Bytes → ParamRange
header_range param = record { within = param; beyond = [] }

module _ (lib : Rapidjson) where
  -- The header is there and its value is accepted, or it is missing and not required.
  abbrev pub IsHeaderFine : List (Bytes × Bytes) → Bytes × ParamValidator lib → Type 0
  IsHeaderFine headers (name, v) =
      ((lookup name headers ≡ none) × (v.required ≡ false))
      ⊎ ((param : Bytes) × (lookup name headers ≡ some param)
          × IsAccepted lib v (header_range param))

  header_params_accept :
      (headers : List (Bytes × Bytes)) (vs : List (Bytes × ParamValidator lib)) (msg : Bytes)
      → All (IsHeaderFine headers) vs
      → header_params_loop lib headers vs msg ≡ ok (none_error, msg)
  unfolding header_params_loop
  header_params_accept headers [] msg h = refl
  header_params_accept headers ((name, v) ∷ vs) msg (inl (e, r), h) =
      rw (e, header_params_loop, r) (header_params_accept headers vs msg h)
  header_params_accept headers ((name, v) ∷ vs) msg (inr (param, e, a), h) =
      rw (e, accepted_returns lib v (header_range param) msg a, header_params_loop)
        (header_params_accept headers vs msg h)

  no_out_of_range :
      (v : ParamValidator lib) (range : ParamRange) (msg : Bytes)
      → validate_param lib v range msg ≢ throw out_of_range
  no_out_of_range v range msg e = elim (validate_param_returns lib v range msg) [
    | inl (r, p, c) ↦ absurd (ok_ne (sym p ∙ e))
    | inr p ↦ absurd (length_ne p e)
  ]
    where
      ok_ne : {r : Report} → ok r ≢ throw out_of_range
      ok_ne q = cc

      length_ne : {a : Result Report} → a ≡ throw length_error → a ≡ throw out_of_range → ⊥
      length_ne p q = cc

  -- What the loop makes of the result of a validator, where it returns `NONE` in the end.
  header-IsAccepted :
      (v : ParamValidator lib) (range : ParamRange) (msg msg' : Bytes) (go : Bytes → Result Report)
      (handler result : Result Report)
      → HasCode lib v
      → validate_param lib v range msg ≡ result
      → (elim result [
        | ok report ↦ check_error report go
        | throw exc ↦ catch_out_of_range exc handler
        | out_of_fuel ↦ out_of_fuel
      ])
        ≡ ok (none_error, msg')
      → IsAccepted lib v range × (go msg ≡ ok (none_error, msg'))
  header-IsAccepted v range msg msg' go handler (ok (none_error, m)) n d e =
      let (a, p) = returns-IsAccepted lib v range msg m n d in (a, rw p e)
  header-IsAccepted v range msg msg' go handler (ok (_, m)) n d e = cc
  header-IsAccepted v range msg msg' go handler (throw out_of_range) n d e =
      absurd (no_out_of_range v range msg d)
  header-IsAccepted v range msg msg' go handler (throw _) n d e = cc
  header-IsAccepted v range msg msg' go handler out_of_fuel n d e = cc

  header_params_accepted :
      (headers : List (Bytes × Bytes)) (vs : List (Bytes × ParamValidator lib)) (msg msg' : Bytes)
      → All (λ (e : Bytes × ParamValidator lib). HasCode lib e.1) vs
      → header_params_loop lib headers vs msg ≡ ok (none_error, msg')
      → All (IsHeaderFine headers) vs
  unfolding header_params_loop error_on_missing
  header_params_accepted headers [] msg msg' n e = tt
  header_params_accepted headers ((name, v) ∷ vs) msg msg' (n, ns) e =
      elim (Option-cases (lookup name headers)) [
        | inl f ↦ elim (Bool-cases v.required) [
          | inl r ↦ absurd (n (code_eq lib (rw (f, header_params_loop, r) at e)))
          | inr r ↦ (
            inl (f, r),
            header_params_accepted headers vs msg msg' ns (rw (f, header_params_loop, r) at e),
          )
        ]
        | inr (param, f) ↦
            let (a, rest) =
              header-IsAccepted v (header_range param) msg msg' (header_params_loop lib headers vs)
                _ _ n refl (rw (f, header_params_loop) at e) in
            (inr (param, f, a), header_params_accepted headers vs msg msg' ns rest)
      ]

  -- `ValidateHeaderParams` of a store whose validators have error codes of their own returns
  -- `NONE` exactly if each header parameter is accepted where the request has a header of its
  -- name, and is not required where it has none. In which order the parameters are iterated does
  -- not matter for that.
  pub validate_header_params_iff :
      (store : Store lib) (headers : List (Bytes × Bytes)) (msg : Bytes)
      → All (λ (e : Bytes × ParamValidator lib). HasCode lib e.1) store.header_param_validators
      → (validate_header_params lib store headers msg ≡ ok (none_error, msg))
        ↔ All (IsHeaderFine headers) store.header_param_validators
  validate_header_params_iff store headers msg n = (
    header_params_accepted headers store.header_param_validators msg msg n,
    header_params_accept headers store.header_param_validators msg,
  )
