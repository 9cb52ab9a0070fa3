-- ===== src/Deserializer/Integer.antt =====
-- `DeserializeInteger` accepts exactly the texts `-?[0-9]+`, and takes the longest one.
use mathlib.Core.Path.{subst}
use cpp_oasvalidator.Prelude.{
  ℕ, Bytes, All, [], ◌∷◌, ◌++◌, append_assoc, append-nil, ◌==◌, ==_iff, Bool-cases, true, false,
  inl, inr, ◌≡◌, ◌≢◌, ◌↔◌, refl, sym, ap, ◌∙◌, arith,
}
use cpp_oasvalidator.Common.{ok, ok_eq}
use cpp_oasvalidator.Deserializer.{
  Base, State, is_digit, skip_minus, digits_loop, is_integer_text, deserialize_integer,
}
use cpp_oasvalidator.Deserializer.Suffix.{refuse-ne-ok}

abbrev pub AreDigits : Bytes → Type 0
AreDigits = All (λ c. is_digit c ≡ true)

-- The text ends, or goes on with a byte that is no digit.
abbrev pub EndsDigits : Bytes → Type 0
EndsDigits [] = Unit
EndsDigits (c ∷ s) = is_digit c ≡ false

-- An optional minus sign, and one digit at least.
pub data IsInteger : Bytes → Type 0 where
  unsigned : (c : ℕ) (ds : Bytes) → is_digit c ≡ true → AreDigits ds → IsInteger (c ∷ ds)
  negative : (c : ℕ) (ds : Bytes) → is_digit c ≡ true → AreDigits ds → IsInteger (b'-' ∷ c ∷ ds)

pub IsInteger-ne-nil : (t : Bytes) → IsInteger t → t ≢ []
IsInteger-ne-nil _ (unsigned c ds d h) e = cc
IsInteger-ne-nil _ (negative c ds d h) e = cc

digits_loop_takes :
    (text ds rest : Bytes)
    → AreDigits ds
    → EndsDigits rest
    → digits_loop text (ds ++ rest) ≡ (text ++ ds, rest)
unfolding digits_loop
digits_loop_takes text [] [] h e = rw append-nil
digits_loop_takes text [] (c ∷ rest) h e = rw (e, append-nil)
digits_loop_takes text (c ∷ ds) rest (d, h) e =
    rw (d, digits_loop_takes (text ++ c ∷ []) ds rest h e, append_assoc text (c ∷ []) ds)

-- What the loop passes over are digits, and no digit follows.
record Taken (text s : Bytes) (r : Bytes × Bytes) : Type 0 where
  digits : Bytes
  passed : r.0 ≡ text ++ digits
  splits : s ≡ digits ++ r.1
  are_digits : AreDigits digits
  ends : EndsDigits r.1

digits_loop-Taken : (text s : Bytes) → Taken text s (digits_loop text s)
unfolding digits_loop
digits_loop-Taken text [] = record {
  digits = [];
  passed = sym (append-nil text);
  splits = refl;
  are_digits = tt;
  ends = tt;
}
digits_loop-Taken text (c ∷ s) = elim (Bool-cases (is_digit c)) [
  | inl d ↦
      let t = digits_loop-Taken (text ++ c ∷ []) s in
      rw d (record {
        digits = c ∷ t.digits;
        passed = t.passed ∙ append_assoc text (c ∷ []) t.digits;
        splits = ap (◌∷◌ c) t.splits;
        are_digits = (d, t.are_digits);
        ends = t.ends;
      })
  | inr d ↦ rw d (record {
    digits = [];
    passed = sym (append-nil text);
    splits = refl;
    are_digits = tt;
    ends = d;
  })
]

-- `text` is an integer at the front of `s`, and `rest` is what follows it.
pub record Front (s text rest : Bytes) : Type 0 where
  pub splits : s ≡ text ++ rest
  pub is_integer : IsInteger text
  pub ends : EndsDigits rest

digit-ne-minus : (c : ℕ) → is_digit c ≡ true → (b'-' == c) ≡ false
digit-ne-minus c h = ground arith

integer_text : (c : ℕ) (ds : Bytes) → is_digit c ≡ true → is_integer_text (c ∷ ds) ≡ true
integer_text c [] h = ground arith
integer_text c (e ∷ ds) h = refl

unsigned_text : (ds : Bytes) → AreDigits ds → is_integer_text ds ≡ true → IsInteger ds
unsigned_text [] h t = cc
unsigned_text (c ∷ ds) (d, h) t = unsigned c ds d h

negative_text :
    (ds : Bytes) → AreDigits ds → is_integer_text (b'-' ∷ ds) ≡ true → IsInteger (b'-' ∷ ds)
negative_text [] h t = cc
negative_text (c ∷ ds) (d, h) t = negative c ds d h

-- The text that is passed over behind a sign, or behind none.
reads_unsigned :
    (s : Bytes)
    → is_integer_text (digits_loop [] s).0 ≡ true
    → Front s (digits_loop [] s).0 (digits_loop [] s).1
reads_unsigned s t =
    let g = digits_loop-Taken [] s in
    record {
      splits = rw g.passed g.splits;
      is_integer = rw g.passed (unsigned_text g.digits g.are_digits (rw g.passed at t));
      ends = g.ends;
    }

reads_negative :
    (s : Bytes)
    → is_integer_text (digits_loop (b'-' ∷ []) s).0 ≡ true
    → Front (b'-' ∷ s) (digits_loop (b'-' ∷ []) s).0 (digits_loop (b'-' ∷ []) s).1
reads_negative s t =
    let g = digits_loop-Taken (b'-' ∷ []) s in
    record {
      splits = rw g.passed (ap (◌∷◌ b'-') g.splits);
      is_integer = rw g.passed (negative_text g.digits g.are_digits (rw g.passed at t));
      ends = g.ends;
    }

reads_text :
    (s : Bytes)
    → is_integer_text (digits_loop (skip_minus s).0 (skip_minus s).1).0 ≡ true
    → Front s
        (digits_loop (skip_minus s).0 (skip_minus s).1).0
        (digits_loop (skip_minus s).0 (skip_minus s).1).1
reads_text [] = reads_unsigned []
reads_text (c ∷ s) = elim (Bool-cases (b'-' == c)) [
  | inl m ↦ rw m (rw (← (==_iff b'-' c).0 m) (reads_negative s))
  | inr m ↦ rw m (reads_unsigned (c ∷ s))
]

module _ (b : Base) where
  takes :
      (s ret text rest : Bytes)
      → Front s text rest
      → deserialize_integer b (s, ret) ≡ ok (rest, ret ++ text)
  unfolding deserialize_integer
  takes s ret text rest f = rw f.splits (go text f.is_integer rest f.ends)
    where
      go :
          (text : Bytes)
          → IsInteger text
          → (rest : Bytes) → EndsDigits rest
          → deserialize_integer b (text ++ rest, ret) ≡ ok (rest, ret ++ text)
      go _ (unsigned c ds d h) rest e =
          rw (digit-ne-minus c d, digits_loop_takes [] (c ∷ ds) rest (d, h) e, integer_text c ds d)
      go _ (negative c ds d h) rest e = rw (digits_loop_takes (b'-' ∷ []) (c ∷ ds) rest (d, h) e)

  given :
      (s ret rest out : Bytes)
      → deserialize_integer b (s, ret) ≡ ok (rest, out)
      → (text : Bytes) × Front s text rest × (out ≡ ret ++ text)
  unfolding deserialize_integer
  given s ret rest out e =
      let r = digits_loop (skip_minus s).0 (skip_minus s).1 in
      elim (Bool-cases (is_integer_text r.0)) [
        | inl t ↦
            let q : (r.1, ret ++ r.0) ≡ (rest, out) = ok_eq (rw t at e) in
            (
              r.0,
              subst (Front s r.0) (ap (λ (u : State). u.0) q) (reads_text s t),
              ap (λ (u : State). u.1) (sym q),
            )
        | inr t ↦ refuse-ne-ok b _ _ (rw t at e)
      ]

  -- `DeserializeInteger` appends a text and stops before `rest` exactly if an integer,
  -- `-?[0-9]+`, stands at the cursor, `rest` follows it, and `rest` begins with no digit.
  pub deserialize_integer_iff :
      (s ret rest out : Bytes)
      → (deserialize_integer b (s, ret) ≡ ok (rest, out))
        ↔ ((text : Bytes) × Front s text rest × (out ≡ ret ++ text))
  deserialize_integer_iff s ret rest out =
      (given s ret rest out, λ h. rw h.2 (takes s ret h.0 rest h.1))
