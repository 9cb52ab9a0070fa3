-- ===== src/Deserializer/Refuses.antt =====
-- Which exceptions leave the readers and the four `Deserialize`.
use cpp_oasvalidator.Prelude.{
  ℕ, Bytes, codes, strip, [], ◌∷◌, ◌++◌, ◌==◌, if◌then◌else◌, Bool, true, false, ◌&&◌, ◌||◌,
  Option-cases, inl, inr, String,
}
use cpp_oasvalidator.Common.{deserialization, Result, ok, throw, out_of_fuel, ◌>>=◌}
use cpp_oasvalidator.Trie.{ParamRange}
use cpp_oasvalidator.Deserializer.{
  Base, Cursor, at, past_end, State, peek, refuse, check_n_skip_start, check_n_skip_char,
  check_n_skip_name, skip_name_if, check_data, check_end, deserialize_boolean, deserialize_integer,
  hex_lookup, hex_pair, number_loop, is_digit, is_number_text, is_integer_text, skip_minus,
  digits_loop, decode_loop, deserialize_number, deserialize_string,
}

-- A result that is no exception but `DeserializationException`.
abbrev pub OnlyRefuses {ℓ} : {A : Type ℓ} → Result A → Type 0
OnlyRefuses (ok a) = Unit
OnlyRefuses (throw (deserialization message)) = Unit
OnlyRefuses (throw _) = ⊥
OnlyRefuses out_of_fuel = Unit

pub >>=-OnlyRefuses {ℓ κ} :
    {A : Type ℓ} {B : Type κ} (m : Result A) (f : A → Result B)
    → OnlyRefuses m
    → ((a : A) → OnlyRefuses (f a))
    → OnlyRefuses (m >>= f)
>>=-OnlyRefuses (ok a) f h k = k a
>>=-OnlyRefuses (throw (deserialization message)) f h k = tt
>>=-OnlyRefuses (throw _) f h k = absurd h
>>=-OnlyRefuses out_of_fuel f h k = tt

pub if-OnlyRefuses {ℓ} :
    {A : Type ℓ} (b : Bool) (x y : Result A)
    → OnlyRefuses x
    → OnlyRefuses y
    → OnlyRefuses (if b then x else y)
if-OnlyRefuses true x y p q = p
if-OnlyRefuses false x y p q = q

module _ (b : Base) where
  pub refuse-OnlyRefuses {ℓ} : (A : Type ℓ) (p q : String) → OnlyRefuses (refuse {A = A} b p q)
  unfolding refuse
  refuse-OnlyRefuses A p q = tt

  pub start-OnlyRefuses : (left beyond : Bytes) → OnlyRefuses (check_n_skip_start b left beyond)
  unfolding check_n_skip_start
  start-OnlyRefuses left beyond =
      if-OnlyRefuses (b.start == 0) _ _ tt (if-OnlyRefuses (b.start == peek left beyond) _ _ tt tt)

  pub char-OnlyRefuses : (c : ℕ) (left : Bytes) → OnlyRefuses (check_n_skip_char b c left)
  unfolding check_n_skip_char
  char-OnlyRefuses c [] = tt
  char-OnlyRefuses c (x ∷ left) = if-OnlyRefuses (c == x) _ _ tt (refuse-OnlyRefuses _ _ _)

  pub name-OnlyRefuses : (cursor : Cursor) → OnlyRefuses (check_n_skip_name b cursor)
  unfolding check_n_skip_name
  name-OnlyRefuses past_end = refuse-OnlyRefuses _ _ _
  name-OnlyRefuses (at left) = elim (Option-cases (strip b.param_name left)) [
    | inl e ↦ rw (e, check_n_skip_name) (refuse-OnlyRefuses _ _ _)
    | inr (rest, e) ↦ rw (e, check_n_skip_name) tt
  ]

  pub skip_name_if-OnlyRefuses :
      (skip : Bool) (cursor : Cursor) → OnlyRefuses (skip_name_if b skip cursor)
  unfolding skip_name_if
  skip_name_if-OnlyRefuses false cursor = tt
  skip_name_if-OnlyRefuses true cursor =
      >>=-OnlyRefuses (check_n_skip_name b cursor) _ (name-OnlyRefuses cursor) (λ left.
        >>=-OnlyRefuses (check_n_skip_char b b'=' left) _ (char-OnlyRefuses b'=' left)
          (λ left'. tt))

  pub data-OnlyRefuses : (cursor : Cursor) → OnlyRefuses (check_data b cursor)
  unfolding check_data
  data-OnlyRefuses (at (x ∷ left)) = tt
  data-OnlyRefuses (at []) = refuse-OnlyRefuses _ _ _
  data-OnlyRefuses past_end = refuse-OnlyRefuses _ _ _

  pub end-OnlyRefuses : (cursor : Cursor) → OnlyRefuses (check_end b cursor)
  unfolding check_end
  end-OnlyRefuses (at []) = tt
  end-OnlyRefuses (at (x ∷ left)) = refuse-OnlyRefuses _ _ _
  end-OnlyRefuses past_end = refuse-OnlyRefuses _ _ _

  pub boolean-OnlyRefuses : (s : State) → OnlyRefuses (deserialize_boolean b s)
  unfolding deserialize_boolean
  boolean-OnlyRefuses (left, ret) = elim (Option-cases (strip (codes "true") left)) [
    | inr (rest, e) ↦ rw (e, deserialize_boolean) tt
    | inl e ↦ elim (Option-cases (strip (codes "false") left)) [
      | inr (rest, f) ↦ rw (e, f, deserialize_boolean) tt
      | inl f ↦ rw (e, f, deserialize_boolean) (refuse-OnlyRefuses _ _ _)
    ]
  ]

  pub integer-OnlyRefuses : (s : State) → OnlyRefuses (deserialize_integer b s)
  unfolding deserialize_integer
  integer-OnlyRefuses (left, ret) =
      if-OnlyRefuses (is_integer_text (digits_loop (skip_minus left).0 (skip_minus left).1).0) _ _
        tt (refuse-OnlyRefuses _ _ _)

  pub number_loop-OnlyRefuses :
      (text : Bytes) (point : Bool) (left : Bytes) → OnlyRefuses (number_loop b text point left)
  unfolding number_loop
  number_loop-OnlyRefuses text point [] = tt
  number_loop-OnlyRefuses text point (c ∷ left) =
      if-OnlyRefuses (is_digit c || c == b'.') _ _
        (if-OnlyRefuses (c == b'.' && point) _ _ (refuse-OnlyRefuses _ _ _)
          (number_loop-OnlyRefuses (text ++ c ∷ []) (point || c == b'.') left))
        tt

  pub number-OnlyRefuses : (s : State) → OnlyRefuses (deserialize_number b s)
  unfolding deserialize_number
  number-OnlyRefuses (left, ret) =
      >>=-OnlyRefuses (number_loop b (skip_minus left).0 false (skip_minus left).1) _
        (number_loop-OnlyRefuses (skip_minus left).0 false (skip_minus left).1)
        (λ (text, point, rest).
          if-OnlyRefuses (is_number_text text point) _ _ tt (refuse-OnlyRefuses _ _ _))

  pub hex_pair-OnlyRefuses : (h l : ℕ) → OnlyRefuses (hex_pair b h l)
  unfolding hex_pair
  hex_pair-OnlyRefuses h l = elim (Option-cases (hex_lookup h)) [
    | inl e ↦ rw (e, hex_pair) (refuse-OnlyRefuses _ _ _)
    | inr (x, e) ↦ elim (Option-cases (hex_lookup l)) [
      | inl f ↦ rw (e, f, hex_pair) (refuse-OnlyRefuses _ _ _)
      | inr (y, f) ↦ rw (e, f, hex_pair) tt
    ]
  ]

  pub decode_loop-OnlyRefuses :
      (stop : ℕ → Bool) (left ret : Bytes) → OnlyRefuses (decode_loop b stop left ret)
  unfolding decode_loop
  decode_loop-OnlyRefuses stop [] ret = tt
  decode_loop-OnlyRefuses stop (c ∷ []) ret =
      if-OnlyRefuses (stop c) _ _ tt (if-OnlyRefuses (c == b'%') _ _ (refuse-OnlyRefuses _ _ _) tt)
  decode_loop-OnlyRefuses stop (c ∷ h ∷ []) ret = if-OnlyRefuses (stop c) _ _ tt (
      if-OnlyRefuses (c == b'%') _ _ (refuse-OnlyRefuses _ _ _)
        (decode_loop-OnlyRefuses stop (h ∷ []) _))
  decode_loop-OnlyRefuses stop (c ∷ h ∷ l ∷ left) ret = if-OnlyRefuses (stop c) _ _ tt (
      if-OnlyRefuses (c == b'%') _ _
        (>>=-OnlyRefuses (hex_pair b h l) _ (hex_pair-OnlyRefuses h l)
          (λ x. decode_loop-OnlyRefuses stop left _))
        (decode_loop-OnlyRefuses stop (h ∷ l ∷ left) _))

  pub string-OnlyRefuses : (stop : ℕ → Bool) (s : State) → OnlyRefuses (deserialize_string b stop s)
  unfolding deserialize_string
  string-OnlyRefuses stop (left, ret) =
      >>=-OnlyRefuses (decode_loop b stop left (ret ++ b'"' ∷ [])) _
        (decode_loop-OnlyRefuses stop left _) (λ (rest, text). tt)

-- The two checks in front of the data, and the rest.
pub prologue-OnlyRefuses {ℓ} :
    {A : Type ℓ} (b : Base) (skip : Bool) (range : ParamRange) (rest : Cursor → Result A)
    → ((c : Cursor) → OnlyRefuses (rest c))
    → OnlyRefuses
        (check_n_skip_start b range.within range.beyond >>= (λ c. skip_name_if b skip c >>= rest))
prologue-OnlyRefuses b skip range rest h =
    >>=-OnlyRefuses (check_n_skip_start b range.within range.beyond) _
      (start-OnlyRefuses b range.within range.beyond)
      (λ c. >>=-OnlyRefuses (skip_name_if b skip c) rest (skip_name_if-OnlyRefuses b skip c) h)
