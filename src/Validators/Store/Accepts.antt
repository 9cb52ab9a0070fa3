-- ===== src/Validators/Store/Accepts.antt =====
-- When `ValidatePathParams` and `ValidateHeaderParams` return `NONE`.
use cpp_oasvalidator.Prelude.{
  ℕ, Bytes, All, List, [], ◌∷◌, Bool-cases, true, Option-cases, ◌⊎◌, ◌↔◌, inl, inr, ◌≡◌, ◌≢◌, refl,
  ap, some,
}
use cpp_oasvalidator.Common.{
  ValidationError, none_error, deserialization, validator_init, out_of_range, undefined_behaviour,
  length_error, Result, ok, throw, out_of_fuel, ok_eq,
}
use cpp_oasvalidator.Trie.{ParamRange, ParamIdxs, at_idx}
use cpp_oasvalidator.Validators.{Report, Rapidjson, ParseError, c_str, validate_json}
use cpp_oasvalidator.Validators.Param.{
  ParamValidator, deserialize, caught_param, validate_param, error_on_missing,
}
use cpp_oasvalidator.Validators.Store.{
  Store, check_error, catch_out_of_range, path_params_loop, validate_path_params,
}

module _ (lib : Rapidjson) where
  -- The text of the parameter is deserialized to a JSON text that the schema accepts.
  pub record IsAccepted (v : ParamValidator lib) (range : ParamRange) : Type 0 where
    pub json_text : Bytes
    pub doc : lib.Value
    pub deserialized : deserialize v.deserializer range ≡ ok json_text
    pub parsed : lib.parse (c_str json_text) ≡ inr doc
    pub accepted : lib.accept v.json.schema doc ≡ true

  pub accepted_returns :
      (v : ParamValidator lib) (range : ParamRange) (msg : Bytes)
      → IsAccepted v range
      → validate_param lib v range msg ≡ ok (none_error, msg)
  unfolding validate_param validate_json
  accepted_returns v range msg a =
      rw (a.deserialized, a.parsed, a.accepted, validate_param, validate_json)

  pub code_eq : {c : ValidationError} {m : Bytes} {r : Report} → ok (c, m) ≡ ok r → c ≡ r.0
  code_eq {c} {m} {r} e = let q : (c, m) ≡ r = ok_eq e in ap (λ (x : Report). x.0) q

  -- A run that returns `NONE`, of a validator whose own code is another.
  json-IsAccepted :
      (v : ParamValidator lib) (range : ParamRange) (ret msg msg' : Bytes)
      → v.json.base.code_on_error ≢ none_error
      → deserialize v.deserializer range ≡ ok ret
      → (parsed : ParseError ⊎ lib.Value) → lib.parse (c_str ret) ≡ parsed
      → ok (validate_json lib v.json ret msg) ≡ ok (none_error, msg')
      → IsAccepted v range × (msg ≡ msg')
  unfolding validate_json
  json-IsAccepted v range ret msg msg' n d (inl err) p e =
      absurd (n (code_eq (rw (validate_json, p) at e)))
  json-IsAccepted v range ret msg msg' n d (inr doc) p e =
      elim (Bool-cases (lib.accept v.json.schema doc)) [
        | inr b ↦ absurd (n (code_eq (rw (validate_json, p, b) at e)))
        | inl b ↦
            let q : (none_error, msg) ≡ (none_error, msg') =
              ok_eq (rw (validate_json, p, b) at e) in
            (
              record { json_text = ret; doc = doc; deserialized = d; parsed = p; accepted = b },
              ap (λ (x : Report). x.1) q,
            )
      ]

  pub returns-IsAccepted :
      (v : ParamValidator lib) (range : ParamRange) (msg msg' : Bytes)
      → v.json.base.code_on_error ≢ none_error
      → validate_param lib v range msg ≡ ok (none_error, msg')
      → IsAccepted v range × (msg ≡ msg')
  unfolding validate_param caught_param
  returns-IsAccepted v range msg msg' n = go (deserialize v.deserializer range) refl
    where
      go :
          (result : Result Bytes)
          → deserialize v.deserializer range ≡ result
          → validate_param lib v range msg ≡ ok (none_error, msg')
          → IsAccepted v range × (msg ≡ msg')
      go (ok ret) d e =
          json-IsAccepted v range ret msg msg' n d _ refl (rw (d, validate_param) at e)
      go (throw (deserialization message)) d e = absurd (n (code_eq (rw (d, validate_param) at e)))
      go (throw length_error) d e = cc (rw (d, validate_param) at e)
      go (throw out_of_range) d e = cc (rw (d, validate_param) at e)
      go (throw undefined_behaviour) d e = cc (rw (d, validate_param) at e)
      go (throw (validator_init message)) d e = cc (rw (d, validate_param) at e)
      go out_of_fuel d e = cc (rw (d, validate_param) at e)

  -- A validator's own code is an error, as it is in all that the constructors make.
  abbrev pub HasCode : ParamValidator lib → Type 0
  HasCode v = v.json.base.code_on_error ≢ none_error

  -- The range of the parameter is there, and its text is accepted.
  abbrev pub IsFound : ParamIdxs → ℕ × ParamValidator lib → Type 0
  IsFound idxs (i, v) = (range : ParamRange) × (at_idx i idxs ≡ some range) × IsAccepted v range

  path_params_accept :
      (idxs : ParamIdxs) (vs : List (ℕ × ParamValidator lib)) (msg : Bytes)
      → All (IsFound idxs) vs
      → path_params_loop lib idxs vs msg ≡ ok (none_error, msg)
  unfolding path_params_loop
  path_params_accept idxs [] msg h = refl
  path_params_accept idxs ((i, v) ∷ vs) msg ((range, e, a), h) =
      rw (e, accepted_returns v range msg a, path_params_loop) (path_params_accept idxs vs msg h)

  -- What the loop makes of the result of a validator, where it returns `NONE` in the end.
  param-IsAccepted :
      (v : ParamValidator lib) (range : ParamRange) (msg msg' : Bytes) (go : Bytes → Result Report)
      (result : Result Report)
      → HasCode v
      → validate_param lib v range msg ≡ result
      → (elim result [
        | ok report ↦ check_error report go
        | throw exc ↦ catch_out_of_range exc (ok (error_on_missing lib v))
        | out_of_fuel ↦ out_of_fuel
      ])
        ≡ ok (none_error, msg')
      → IsAccepted v range × (go msg ≡ ok (none_error, msg'))
  unfolding error_on_missing
  param-IsAccepted v range msg msg' go (ok (none_error, m)) n d e =
      let (a, p) = returns-IsAccepted v range msg m n d in (a, rw p e)
  param-IsAccepted v range msg msg' go (ok (_, m)) n d e = cc
  param-IsAccepted v range msg msg' go (throw out_of_range) n d e = absurd (n (code_eq e))
  param-IsAccepted v range msg msg' go (throw _) n d e = cc
  param-IsAccepted v range msg msg' go out_of_fuel n d e = cc

  path_params_accepted :
      (idxs : ParamIdxs) (vs : List (ℕ × ParamValidator lib)) (msg msg' : Bytes)
      → All (λ (e : ℕ × ParamValidator lib). HasCode e.1) vs
      → path_params_loop lib idxs vs msg ≡ ok (none_error, msg')
      → All (IsFound idxs) vs
  unfolding path_params_loop error_on_missing
  path_params_accepted idxs [] msg msg' n e = tt
  path_params_accepted idxs ((i, v) ∷ vs) msg msg' (n, ns) e = elim (Option-cases (at_idx i idxs)) [
    | inl f ↦ absurd (n (code_eq (rw (f, path_params_loop) at e)))
    | inr (range, f) ↦
        let (a, rest) =
          param-IsAccepted v range msg msg' (path_params_loop lib idxs vs) _ n refl
            (rw (f, path_params_loop) at e) in
        ((range, f, a), path_params_accepted idxs vs msg msg' ns rest)
  ]

  -- `ValidatePathParams` of a store whose validators have error codes of their own returns `NONE`
  -- exactly if each path parameter has a range under its number, and the text of each is
  -- deserialized to a JSON text that the schema of the parameter accepts. It then leaves
  -- `error_msg` as it was.
  pub validate_path_params_iff :
      (store : Store lib) (idxs : ParamIdxs) (msg : Bytes)
      → All (λ (e : ℕ × ParamValidator lib). HasCode e.1) store.path_param_validators
      → (validate_path_params lib store idxs msg ≡ ok (none_error, msg))
        ↔ All (IsFound idxs) store.path_param_validators
  validate_path_params_iff store idxs msg n = (
    path_params_accepted idxs store.path_param_validators msg msg n,
    path_params_accept idxs store.path_param_validators msg,
  )
