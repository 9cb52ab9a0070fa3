-- ===== src/Deserializer/Primitive/Exact.antt =====
-- Which texts `PrimitiveDeserializer::Deserialize` takes.
use cpp_oasvalidator.Prelude.{
  ℕ, ◌<◌, Bytes, All, [], ◌∷◌, ◌++◌, append-nil, Bool, ◌↔◌, ◌≡◌, ◌≢◌, refl, sym, ap, ◌∙◌,
}
use cpp_oasvalidator.Common.{integer, string, ok, ◌>>=◌, ok_eq, >>=-eq-ok}
use cpp_oasvalidator.Deserializer.{State, at, check_end, no_terminator}
use cpp_oasvalidator.Deserializer.Suffix.{refuse-ne-ok}
use cpp_oasvalidator.Deserializer.Prefix.{named, started, prologue_skipped, prologue_given}
use cpp_oasvalidator.Deserializer.Decode.{encode, encode-ne-nil, CanKeep, deserialize_string-encode}
use cpp_oasvalidator.Deserializer.Integer.{IsInteger, IsInteger-ne-nil, deserialize_integer_iff}
use cpp_oasvalidator.Deserializer.Primitive.{
  PrimitiveDeserializer, deserialize_primitive, deserialize,
}

-- A text with the start byte and the name in front of it that the style asks for.
abbrev pub prefixed : PrimitiveDeserializer → Bytes → Bytes
prefixed d text = started d.base (named d.base d.base.skip_name text)

module _ (d : PrimitiveDeserializer) (within beyond : Bytes) where
  -- A text that the reader of the type takes as a whole.
  pub taken :
      (text out : Bytes)
      → text ≢ []
      → within ≡ prefixed d text
      → deserialize_primitive d.base d.param_type (text, []) ≡ ok ([], out)
      → deserialize d (record { within = within; beyond = beyond }) ≡ ok out
  unfolding deserialize check_end
  taken text out ne e r = prologue_skipped d.base d.base.skip_name within beyond _ text ne e ∙ rw r

  ended :
      (r : State) (out : Bytes)
      → (check_end d.base (at r.0) >>= λ _. ok r.1) ≡ ok out
      → r ≡ ([], out)
  unfolding check_end
  ended ([], ret) out e = let q : ret ≡ out = ok_eq e in ap (λ z. ([], z)) q
  ended (c ∷ s, ret) out e =
      refuse-ne-ok d.base _ _ (>>=-eq-ok (check_end d.base (at (c ∷ s))) _ e).1

  pub given :
      (out : Bytes)
      → deserialize d (record { within = within; beyond = beyond }) ≡ ok out
      → (text : Bytes) × (text ≢ [])
        × (within ≡ prefixed d text)
        × (deserialize_primitive d.base d.param_type (text, []) ≡ ok ([], out))
  unfolding deserialize
  given out e =
      let (text, ne, w, e1) = prologue_given d.base d.base.skip_name within beyond _ e in
      let (r, e2, e3) = >>=-eq-ok (deserialize_primitive d.base d.param_type (text, [])) _ e1 in
      (text, ne, w, e2 ∙ ap ok (ended r out e3))

-- An integer parameter is deserialized to a text exactly if the text is an integer, `-?[0-9]+`,
-- and the parameter is that integer behind the start byte and the name that its style asks for.
-- What stands behind the parameter makes no difference.
pub primitive_deserialize_integer_iff :
    (d : PrimitiveDeserializer) (within beyond out : Bytes)
    → d.param_type ≡ integer
    → (deserialize d (record { within = within; beyond = beyond }) ≡ ok out)
      ↔ (IsInteger out × (within ≡ prefixed d out))
unfolding deserialize_primitive
primitive_deserialize_integer_iff d within beyond out p = (there, back)
  where
    there :
        deserialize d (record { within = within; beyond = beyond }) ≡ ok out
        → IsInteger out × (within ≡ prefixed d out)
    there e =
        let (text, ne, w, r) = given d within beyond out e in
        let (t, f, q) = (deserialize_integer_iff d.base text [] [] out).0 (rw p at r) in
        let s : text ≡ out = f.splits ∙ append-nil t ∙ sym q in
        (rw q f.is_integer, w ∙ ap (prefixed d) s)

    back :
        IsInteger out × (within ≡ prefixed d out)
        → deserialize d (record { within = within; beyond = beyond }) ≡ ok out
    back (i, w) = taken d within beyond out out (IsInteger-ne-nil out i) w (
        rw p (
          (deserialize_integer_iff d.base out [] [] out).1
            (out, record { splits = sym (append-nil out); is_integer = i; ends = tt }, refl)))

-- A string parameter whose text is percent-encoded, with the start byte and the name that its
-- style asks for in front, is deserialized to the string in quotation marks, if the string is not
-- empty and its encoder keeps neither percent signs nor plus signs.
pub primitive_deserialize-encode :
    (d : PrimitiveDeserializer) (keep : ℕ → Bool) (s beyond : Bytes)
    → d.param_type ≡ string
    → CanKeep no_terminator keep
    → All (λ c. c < 256) s
    → s ≢ []
    → deserialize d (record { within = prefixed d (encode keep s); beyond = beyond })
      ≡ ok (b'"' ∷ (s ++ b'"' ∷ []))
unfolding deserialize_primitive
primitive_deserialize-encode d keep s beyond p can h ne =
    taken d (prefixed d (encode keep s)) beyond (encode keep s) _ (encode-ne-nil keep s ne) refl (
      rw p (
        ap (λ z. deserialize_primitive d.base string (z, [])) (sym (append-nil (encode keep s)))
        ∙ deserialize_string-encode d.base no_terminator keep can s [] [] h tt))
