-- ===== src/Deserializer/Ends.antt =====
-- No reader runs out of fuel: only the loops of arrays and objects take any.
use cpp_oasvalidator.Prelude.{
  ℕ, String, Bytes, [], ◌∷◌, ◌++◌, ◌==◌, Bool, true, false, ◌||◌, ◌≢◌, arith,
}
use cpp_oasvalidator.Common.{Result, ok, out_of_fuel, >>=-ne-out_of_fuel}
use cpp_oasvalidator.Deserializer.{
  Base, Cursor, State, refuse, check_n_skip_start, check_n_skip_char, check_n_skip_name,
  skip_name_if, check_data, check_end, deserialize_boolean, skip_minus, deserialize_integer,
  number_loop, deserialize_number, hex_pair, plain, decode_loop, deserialize_string,
}

abbrev pub Ends {ℓ} : {A : Type ℓ} → Result A → Type ℓ
Ends m = m ≢ out_of_fuel

pub ok-Ends {ℓ} : {A : Type ℓ} (a : A) → Ends (ok a)
ok-Ends a e = cc

pub refuse-Ends {ℓ} : {A : Type ℓ} (b : Base) (s t : String) → Ends {A = A} (refuse b s t)
unfolding refuse
refuse-Ends b s t e = cc

module _ (b : Base) where
  pub check_n_skip_start-Ends : (s t : Bytes) → Ends (check_n_skip_start b s t)
  unfolding check_n_skip_start
  check_n_skip_start-Ends s t = ground arith

  pub check_n_skip_char-Ends : (c : ℕ) (s : Bytes) → Ends (check_n_skip_char b c s)
  unfolding check_n_skip_char refuse
  check_n_skip_char-Ends c s = ground arith

  pub check_n_skip_name-Ends : (c : Cursor) → Ends (check_n_skip_name b c)
  unfolding check_n_skip_name refuse
  check_n_skip_name-Ends c = ground arith

  pub skip_name_if-Ends : (t : Bool) (c : Cursor) → Ends (skip_name_if b t c)
  unfolding skip_name_if
  skip_name_if-Ends true c =
      >>=-ne-out_of_fuel (check_n_skip_name b c) _ (check_n_skip_name-Ends c) (λ s e.
        >>=-ne-out_of_fuel (check_n_skip_char b b'=' s) _ (check_n_skip_char-Ends b'=' s)
          (λ t e. ok-Ends _))
  skip_name_if-Ends false c = ok-Ends c

  pub check_data-Ends : (c : Cursor) → Ends (check_data b c)
  unfolding check_data refuse
  check_data-Ends c = ground arith

  pub check_end-Ends : (c : Cursor) → Ends (check_end b c)
  unfolding check_end refuse
  check_end-Ends c = ground arith

  pub deserialize_boolean-Ends : (s : State) → Ends (deserialize_boolean b s)
  unfolding deserialize_boolean refuse
  deserialize_boolean-Ends s = ground arith

  pub deserialize_integer-Ends : (s : State) → Ends (deserialize_integer b s)
  unfolding deserialize_integer refuse
  deserialize_integer-Ends s = ground arith

  number_loop-Ends : (text : Bytes) (p : Bool) (s : Bytes) → Ends (number_loop b text p s)
  unfolding number_loop refuse
  number_loop-Ends text p [] = ground arith
  number_loop-Ends text p (c ∷ s) =
      ground (arith, number_loop-Ends (text ++ c ∷ []) (p || c == b'.') s)

  pub deserialize_number-Ends : (s : State) → Ends (deserialize_number b s)
  unfolding deserialize_number refuse
  deserialize_number-Ends (s, ret) =
      >>=-ne-out_of_fuel (number_loop b (skip_minus s).0 false (skip_minus s).1) _
        (number_loop-Ends (skip_minus s).0 false (skip_minus s).1) (λ a e. ground arith)

  hex_pair-Ends : (h l : ℕ) → Ends (hex_pair b h l)
  unfolding hex_pair refuse
  hex_pair-Ends h l = ground arith

  pub decode_loop-Ends : (stop : ℕ → Bool) (s ret : Bytes) → Ends (decode_loop b stop s ret)
  unfolding decode_loop refuse
  decode_loop-Ends stop [] ret = ground arith
  decode_loop-Ends stop (c ∷ []) ret = ground arith
  decode_loop-Ends stop (c ∷ h ∷ []) ret =
      ground (arith, decode_loop-Ends stop (h ∷ []) (ret ++ plain c ∷ []))
  decode_loop-Ends stop (c ∷ h ∷ l ∷ s) ret = ground (
    arith,
    >>=-ne-out_of_fuel (hex_pair b h l) (λ (x : ℕ). decode_loop b stop s (ret ++ x ∷ []))
        (hex_pair-Ends h l) (λ x _. decode_loop-Ends stop s (ret ++ x ∷ [])),
    decode_loop-Ends stop (h ∷ l ∷ s) (ret ++ plain c ∷ []),
  )

  pub deserialize_string-Ends : (stop : ℕ → Bool) (s : State) → Ends (deserialize_string b stop s)
  unfolding deserialize_string
  deserialize_string-Ends stop (s, ret) =
      >>=-ne-out_of_fuel (decode_loop b stop s (ret ++ b'"' ∷ [])) _ (decode_loop-Ends stop s _)
        (λ a e. ok-Ends _)
