-- ===== src/Deserializer/Array/Items.antt =====
-- Lists of integers and of strings, written as their style asks for.
use mathlib.Core.List.{map}
use cpp_oasvalidator.Prelude.{
  ℕ, ◌<◌, Bytes, All, List, [], ◌∷◌, ◌++◌, append_assoc, ==_iff, Bool, Bool-cases, false, inl, inr,
  ◌≡◌, ◌≢◌, refl, ap, ◌∙◌,
}
use cpp_oasvalidator.Common.{PrimitiveType, integer, string, ok}
use cpp_oasvalidator.Deserializer.{is_digit, terminator}
use cpp_oasvalidator.Deserializer.Integer.{
  IsInteger, IsInteger-ne-nil, EndsDigits, deserialize_integer_iff,
}
use cpp_oasvalidator.Deserializer.Decode.{
  encode, encode-ne-nil, CanKeep, StopsAt, deserialize_string-encode,
}
use cpp_oasvalidator.Deserializer.Array.{ArrayDeserializer, deserialize_item, deserialize}
use cpp_oasvalidator.Deserializer.Array.Written.{
  Item, written, listed, Follows, at_end, at_separator, IsRead, array_deserialize-written,
}

-- An integer stands for itself.
abbrev pub integer_item : Bytes → Item
integer_item t = record { text = t; json = t }

-- An encoded string stands for the string in quotation marks.
abbrev pub string_item : (ℕ → Bool) → Bytes → Item
string_item keep s = record { text = encode keep s; json = b'"' ∷ (s ++ b'"' ∷ []) }

module _ (d : ArrayDeserializer) where
  Follows-EndsDigits :
      is_digit d.separator ≡ false → (rest : Bytes) → Follows d rest → EndsDigits rest
  Follows-EndsDigits n _ at_end = tt
  Follows-EndsDigits n _ (at_separator s) = elim (Bool-cases d.has_20_separator) [
    | inl b ↦ rw b refl
    | inr b ↦ rw b n
  ]

  pub integer-IsRead :
      (t : Bytes)
      → d.items_type ≡ integer
      → is_digit d.separator ≡ false
      → IsInteger t
      → IsRead d (integer_item t)
  unfolding deserialize_item
  integer-IsRead t p n h = record {
    some_text = IsInteger-ne-nil t h;
    reads = λ rest ret f.
        ap (λ (i : PrimitiveType). deserialize_item d i (t ++ rest, ret)) p
        ∙ (deserialize_integer_iff d.base (t ++ rest) ret rest (ret ++ t)).1
            (t, record { splits = refl; is_integer = h; ends = Follows-EndsDigits n rest f }, refl);
  }

  Follows-StopsAt :
      d.has_20_separator ≡ false
      → (rest : Bytes) → Follows d rest
      → StopsAt (terminator d.separator) rest
  Follows-StopsAt n _ at_end = tt
  Follows-StopsAt n _ (at_separator s) = rw n ((==_iff d.separator d.separator).1 refl)

  pub string-IsRead :
      (keep : ℕ → Bool) (s : Bytes)
      → d.items_type ≡ string
      → d.has_20_separator ≡ false
      → CanKeep (terminator d.separator) keep
      → All (λ c. c < 256) s
      → s ≢ []
      → IsRead d (string_item keep s)
  unfolding deserialize_item
  string-IsRead keep s p n can h ne = record {
    some_text = encode-ne-nil keep s ne;
    reads = λ rest ret f.
        ap (λ (i : PrimitiveType). deserialize_item d i (encode keep s ++ rest, ret)) p
        ∙ deserialize_string-encode d.base (terminator d.separator) keep can s rest ret h
            (Follows-StopsAt n rest f)
        ∙ rw (
          append_assoc (ret ++ b'"' ∷ []) s (b'"' ∷ []),
          append_assoc ret (b'"' ∷ []) (s ++ b'"' ∷ []),
        );
  }

  integers-AreRead :
      d.items_type ≡ integer
      → is_digit d.separator ≡ false
      → (ts : List Bytes) → All IsInteger ts
      → All (IsRead d) (map integer_item ts)
  integers-AreRead p n [] h = tt
  integers-AreRead p n (t ∷ ts) (i, h) = (integer-IsRead t p n i, integers-AreRead p n ts h)

  -- A list of integers that is written as the style asks for is deserialized to the JSON array of
  -- the same integers, for every separator that is no digit and whatever stands behind the list.
  pub array_deserialize-integers :
      (t : Bytes) (ts : List Bytes) (beyond : Bytes)
      → d.items_type ≡ integer
      → is_digit d.separator ≡ false
      → IsInteger t
      → All IsInteger ts
      → deserialize d
          (record { within = written d (integer_item t) (map integer_item ts); beyond = beyond })
        ≡ ok (b'[' ∷ (listed (integer_item t) (map integer_item ts) ++ b']' ∷ []))
  array_deserialize-integers t ts beyond p n i h =
      array_deserialize-written d (integer_item t) (map integer_item ts) beyond
        (integer-IsRead t p n i) (integers-AreRead p n ts h)

  strings-AreRead :
      (keep : ℕ → Bool)
      → d.items_type ≡ string
      → d.has_20_separator ≡ false
      → CanKeep (terminator d.separator) keep
      → (ss : List Bytes) → All (λ s. All (λ c. c < 256) s × (s ≢ [])) ss
      → All (IsRead d) (map (string_item keep) ss)
  strings-AreRead keep p n can [] h = tt
  strings-AreRead keep p n can (s ∷ ss) (i, h) =
      (string-IsRead keep s p n can i.0 i.1, strings-AreRead keep p n can ss h)

  -- A list of strings, none of them empty, of which each is percent-encoded so that the separator
  -- and what decoding changes is not kept, and which is written as the style asks for, is
  -- deserialized to the list of the strings in quotation marks. This holds for every style whose
  -- separator is not `%20`.
  pub array_deserialize-strings :
      (keep : ℕ → Bool) (s : Bytes) (ss : List Bytes) (beyond : Bytes)
      → d.items_type ≡ string
      → d.has_20_separator ≡ false
      → CanKeep (terminator d.separator) keep
      → All (λ c. c < 256) s × (s ≢ [])
      → All (λ s. All (λ c. c < 256) s × (s ≢ [])) ss
      → deserialize d (record {
        within = written d (string_item keep s) (map (string_item keep) ss);
        beyond = beyond;
      })
        ≡ ok (b'[' ∷ (listed (string_item keep s) (map (string_item keep) ss) ++ b']' ∷ []))
  array_deserialize-strings keep s ss beyond p n can i h =
      array_deserialize-written d (string_item keep s) (map (string_item keep) ss) beyond
        (string-IsRead keep s p n can i.0 i.1) (strings-AreRead keep p n can ss h)
