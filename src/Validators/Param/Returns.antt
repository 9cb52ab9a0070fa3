-- ===== src/Validators/Param/Returns.antt =====
-- How `Deserialize` and `ValidateParam` end.
use cpp_oasvalidator.Prelude.{Bytes, [], Bool-cases, ◌⊎◌, inl, inr, ◌≡◌, refl}
use cpp_oasvalidator.Common.{
  none_error, PrimitiveType, boolean, integer, number, string, deserialization, validator_init,
  out_of_range, undefined_behaviour, length_error, Result, ok, throw, out_of_fuel, ◌>>=◌,
  >>=-ne-out_of_fuel,
}
use cpp_oasvalidator.Trie.{ParamRange}
use cpp_oasvalidator.Deserializer.{
  Base, Cursor, at, past_end, State, check_n_skip_start, skip_name_if, check_data, check_end,
  decode_loop, no_terminator,
}
use cpp_oasvalidator.Deserializer.Refuses.{
  OnlyRefuses, >>=-OnlyRefuses, start-OnlyRefuses, skip_name_if-OnlyRefuses, data-OnlyRefuses,
  end-OnlyRefuses, boolean-OnlyRefuses, integer-OnlyRefuses, number-OnlyRefuses,
  prologue-OnlyRefuses, decode_loop-OnlyRefuses, string-OnlyRefuses,
}
use cpp_oasvalidator.Deserializer.Ends.{
  Ends, ok-Ends, check_n_skip_start-Ends, skip_name_if-Ends, check_data-Ends, check_end-Ends,
  deserialize_boolean-Ends, deserialize_integer-Ends, deserialize_number-Ends, decode_loop-Ends,
  deserialize_string-Ends,
}
use cpp_oasvalidator.Deserializer.Primitive
use cpp_oasvalidator.Deserializer.Primitive.{PrimitiveDeserializer, deserialize_primitive}
use cpp_oasvalidator.Deserializer.Array.Ends.{array_deserialize-Ends}
use cpp_oasvalidator.Deserializer.Object.Ends.{object_deserialize-Ends}
use cpp_oasvalidator.Deserializer.Content
use cpp_oasvalidator.Deserializer.Content.{ContentDeserializer, reserve}
use cpp_oasvalidator.Deserializer.Array.Refuses.{array_deserialize-OnlyRefuses}
use cpp_oasvalidator.Deserializer.Object.Refuses.{object_deserialize-OnlyRefuses}
use cpp_oasvalidator.Validators.{Report, Rapidjson, JsonValidator, ParseError, c_str, validate_json}
use cpp_oasvalidator.Validators.Param.{
  BaseDeserializer, of_primitive, of_array, of_object, of_content, deserialize, ParamValidator,
  caught_param, validate_param,
}

primitive-OnlyRefuses :
    (b : Base) (t : PrimitiveType) (s : State) → OnlyRefuses (deserialize_primitive b t s)
unfolding deserialize_primitive
primitive-OnlyRefuses b boolean s = boolean-OnlyRefuses b s
primitive-OnlyRefuses b integer s = integer-OnlyRefuses b s
primitive-OnlyRefuses b number s = number-OnlyRefuses b s
primitive-OnlyRefuses b string s = string-OnlyRefuses b no_terminator s

primitive_deserialize-OnlyRefuses :
    (d : PrimitiveDeserializer) (range : ParamRange) → OnlyRefuses (Primitive.deserialize d range)
unfolding Primitive.deserialize
primitive_deserialize-OnlyRefuses d range =
    prologue-OnlyRefuses d.base d.base.skip_name range _ (λ c.
      >>=-OnlyRefuses (check_data d.base c) _ (data-OnlyRefuses d.base c) (λ left.
        >>=-OnlyRefuses (deserialize_primitive d.base d.param_type (left, [])) _
          (primitive-OnlyRefuses d.base d.param_type (left, []))
          (λ (rest, ret).
            >>=-OnlyRefuses (check_end d.base (at rest)) _ (end-OnlyRefuses d.base (at rest))
              (λ u. tt))))

primitive_value-Ends :
    (b : Base) (t : PrimitiveType) (s : State) → Ends (deserialize_primitive b t s)
unfolding deserialize_primitive
primitive_value-Ends b boolean s = deserialize_boolean-Ends b s
primitive_value-Ends b integer s = deserialize_integer-Ends b s
primitive_value-Ends b number s = deserialize_number-Ends b s
primitive_value-Ends b string s = deserialize_string-Ends b no_terminator s

primitive_deserialize-Ends :
    (d : PrimitiveDeserializer) (range : ParamRange) → Ends (Primitive.deserialize d range)
unfolding Primitive.deserialize
primitive_deserialize-Ends d range =
    >>=-ne-out_of_fuel (check_n_skip_start d.base range.within range.beyond) _
      (check_n_skip_start-Ends d.base range.within range.beyond)
      (λ c _.
        >>=-ne-out_of_fuel (skip_name_if d.base d.base.skip_name c) _
          (skip_name_if-Ends d.base d.base.skip_name c)
          (λ n _. >>=-ne-out_of_fuel (check_data d.base n) _ (check_data-Ends d.base n) (λ s _.
            >>=-ne-out_of_fuel (deserialize_primitive d.base d.param_type (s, [])) _
              (primitive_value-Ends d.base d.param_type (s, []))
              (λ r _.
                >>=-ne-out_of_fuel (check_end d.base (at r.0)) _ (check_end-Ends d.base (at r.0))
                  (λ u _. ok-Ends _)))))

-- A result that the callers of `Deserialize` expect: a value, a refusal, or a `std::length_error`.
abbrev pub IsExpected {ℓ} : {A : Type ℓ} → Result A → Type 0
IsExpected (ok a) = Unit
IsExpected (throw (deserialization message)) = Unit
IsExpected (throw length_error) = Unit
IsExpected _ = ⊥

expected {ℓ} : {A : Type ℓ} (r : Result A) → Ends r → OnlyRefuses r → IsExpected r
expected (ok a) n h = tt
expected (throw (deserialization message)) n h = tt
expected (throw _) n h = absurd h
expected out_of_fuel n h = absurd (n refl)

>>=-IsExpected {ℓ κ} :
    {A : Type ℓ} {B : Type κ} (m : Result A) (f : A → Result B)
    → IsExpected m
    → ((a : A) → IsExpected (f a))
    → IsExpected (m >>= f)
>>=-IsExpected (ok a) f h k = k a
>>=-IsExpected (throw (deserialization message)) f h k = tt
>>=-IsExpected (throw length_error) f h k = tt
>>=-IsExpected (throw out_of_range) f h k = absurd h
>>=-IsExpected (throw undefined_behaviour) f h k = absurd h
>>=-IsExpected (throw (validator_init message)) f h k = absurd h
>>=-IsExpected out_of_fuel f h k = absurd h

reserve-IsExpected : (c : Cursor) → IsExpected (reserve c)
unfolding reserve
reserve-IsExpected (at left) = tt
reserve-IsExpected past_end = tt

content-IsExpected :
    (d : ContentDeserializer) (range : ParamRange) → IsExpected (Content.deserialize d range)
unfolding Content.deserialize
content-IsExpected d range =
    >>=-IsExpected (check_n_skip_start d.base range.within range.beyond) _
      (expected _ (check_n_skip_start-Ends d.base range.within range.beyond)
        (start-OnlyRefuses d.base range.within range.beyond))
      (λ c.
        >>=-IsExpected (skip_name_if d.base d.base.skip_name c) _
          (expected _ (skip_name_if-Ends d.base d.base.skip_name c)
            (skip_name_if-OnlyRefuses d.base d.base.skip_name c))
          (λ n. >>=-IsExpected (reserve n) _ (reserve-IsExpected n) (λ left.
            >>=-IsExpected (decode_loop d.base no_terminator left []) _
              (expected _ (decode_loop-Ends d.base no_terminator left [])
                (decode_loop-OnlyRefuses d.base no_terminator left []))
              (λ (rest, ret).
                >>=-IsExpected (check_end d.base (at rest)) _
                  (expected _ (check_end-Ends d.base (at rest)) (end-OnlyRefuses d.base (at rest)))
                  (λ u. tt)))))

deserialize-IsExpected :
    (d : BaseDeserializer) (range : ParamRange) → IsExpected (deserialize d range)
unfolding deserialize
deserialize-IsExpected (of_primitive d) range =
    expected _ (primitive_deserialize-Ends d range) (primitive_deserialize-OnlyRefuses d range)
deserialize-IsExpected (of_array d) range =
    expected _ (array_deserialize-Ends d range) (array_deserialize-OnlyRefuses d range)
deserialize-IsExpected (of_object d) range =
    expected _ (object_deserialize-Ends d range) (object_deserialize-OnlyRefuses d range)
deserialize-IsExpected (of_content d) range = content-IsExpected d range

module _ (lib : Rapidjson) where
  validate_json-cases :
      (v : JsonValidator lib) (s m : Bytes)
      → ((validate_json lib v s m).0 ≡ none_error)
        ⊎ ((validate_json lib v s m).0 ≡ v.base.code_on_error)
  unfolding validate_json
  validate_json-cases v s m = go (lib.parse (c_str s)) refl
    where
      go :
          (parsed : ParseError ⊎ lib.Value)
          → lib.parse (c_str s) ≡ parsed
          → ((validate_json lib v s m).0 ≡ none_error)
            ⊎ ((validate_json lib v s m).0 ≡ v.base.code_on_error)
      go (inl e) p = rw (p, validate_json) (inr refl)
      go (inr doc) p = elim (Bool-cases (lib.accept v.schema doc)) [
        | inl b ↦ rw (p, b, validate_json) (inl refl)
        | inr b ↦ rw (p, b, validate_json) (inr refl)
      ]

  -- Whatever text a parameter has and whatever deserializer it has, `ValidateParam` returns, and
  -- it returns `NONE` or the validator's own code; or else the `std::length_error` of `reserve`
  -- leaves it. No other exception does, `std::out_of_range` neither.
  pub validate_param_returns :
      (v : ParamValidator lib) (range : ParamRange) (error_msg : Bytes)
      → ((r : Report) × (validate_param lib v range error_msg ≡ ok r)
          × ((r.0 ≡ none_error) ⊎ (r.0 ≡ v.json.base.code_on_error)))
        ⊎ (validate_param lib v range error_msg ≡ throw length_error)
  unfolding validate_param caught_param
  validate_param_returns v range error_msg =
      go (deserialize v.deserializer range) refl (deserialize-IsExpected v.deserializer range)
    where
      go :
          (result : Result Bytes)
          → deserialize v.deserializer range ≡ result
          → IsExpected (deserialize v.deserializer range)
          → ((r : Report) × (validate_param lib v range error_msg ≡ ok r)
              × ((r.0 ≡ none_error) ⊎ (r.0 ≡ v.json.base.code_on_error)))
            ⊎ (validate_param lib v range error_msg ≡ throw length_error)
      go (ok ret) e h =
          rw (e, validate_param) (inl (_, refl, validate_json-cases v.json ret error_msg))
      go (throw (deserialization message)) e h = rw (e, validate_param) (inl (_, refl, inr refl))
      go (throw length_error) e h = rw (e, validate_param) (inr refl)
      go (throw out_of_range) e h = absurd (rw e at h)
      go (throw undefined_behaviour) e h = absurd (rw e at h)
      go (throw (validator_init message)) e h = absurd (rw e at h)
      go out_of_fuel e h = absurd (rw e at h)
