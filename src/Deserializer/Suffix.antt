-- ===== src/Deserializer/Suffix.antt =====
-- Every reader leaves an end piece of the text that it was given.
use mathlib.Core.Path.{subst}
use cpp_oasvalidator.Prelude.{
  ℕ, ◌≤◌, String, Bytes, codes, length, strip, strip_sound, [], ◌∷◌, ◌++◌, ◌==◌, Bool, Bool-cases,
  false, ◌&&◌, ◌||◌, inl, inr, ◌≡◌, refl, sym, ap, Option, none, some, arith,
}
use cpp_oasvalidator.Common.{ok, ok_eq, >>=-eq-ok}
use cpp_oasvalidator.Deserializer.{
  Base, at, State, refuse, check_n_skip_char, check_n_skip_name, deserialize_boolean, skip_minus,
  digits_loop, deserialize_integer, number_loop, deserialize_number, is_digit, is_integer_text,
  is_number_text, hex_pair, decode_loop, deserialize_string,
}

pub data IsSuffix (r : Bytes) : Bytes → Type 0 where
  whole : {s : Bytes} → s ≡ r → IsSuffix r s
  behind : {s : Bytes} (x : ℕ) → IsSuffix r s → IsSuffix r (x ∷ s)

pub IsSuffix-trans : {r s t : Bytes} → IsSuffix r s → IsSuffix s t → IsSuffix r t
IsSuffix-trans {r} h (whole e) = subst (IsSuffix r) (sym e) h
IsSuffix-trans h (behind x k) = behind x (IsSuffix-trans h k)

pub IsSuffix-append : (p r : Bytes) → IsSuffix r (p ++ r)
IsSuffix-append [] r = whole refl
IsSuffix-append (x ∷ p) r = behind x (IsSuffix-append p r)

pub length-IsSuffix : {r s : Bytes} → IsSuffix r s → length r ≤ length s
length-IsSuffix (whole e) = rw e (omega arith)
length-IsSuffix (behind x h) = omega (arith, length-IsSuffix h)

pub strip-IsSuffix : (p s r : Bytes) → strip p s ≡ some r → IsSuffix r s
strip-IsSuffix p s r e = rw (strip_sound p s r e) (IsSuffix-append p r)

-- `refuse` is no result.
pub refuse-ne-ok {ℓ κ} :
    {A : Type ℓ} {P : Type κ} (b : Base) (s t : String) {a : A} → refuse b s t ≡ ok a → P
unfolding refuse
refuse-ne-ok b s t e = cc

first : {r t : State} → r ≡ t → r.0 ≡ t.0
first e = ap (λ (t : State). t.0) e

module _ (b : Base) where
  pub check_n_skip_char-IsSuffix :
      (c : ℕ) (s r : Bytes) → check_n_skip_char b c s ≡ ok r → IsSuffix r s
  unfolding check_n_skip_char
  check_n_skip_char-IsSuffix c [] r e = whole (ok_eq e)
  check_n_skip_char-IsSuffix c (x ∷ s) r e = elim (Bool-cases (c == x)) [
    | inl same ↦ behind x (whole (ok_eq (rw same at e)))
    | inr other ↦ refuse-ne-ok b _ _ (rw other at e)
  ]

  pub check_n_skip_name-IsSuffix : (s r : Bytes) → check_n_skip_name b (at s) ≡ ok r → IsSuffix r s
  unfolding check_n_skip_name
  check_n_skip_name-IsSuffix s r e = go (strip b.param_name s) refl
    where
      go : (o : Option Bytes) → strip b.param_name s ≡ o → IsSuffix r s
      go (some q) k =
          subst (λ z. IsSuffix z s) (ok_eq (rw (k, check_n_skip_name) at e))
            (strip-IsSuffix _ s q k)
      go none k = refuse-ne-ok b _ _ (rw (k, check_n_skip_name) at e)

  pub deserialize_boolean-IsSuffix :
      (s ret : Bytes) (r : State) → deserialize_boolean b (s, ret) ≡ ok r → IsSuffix r.0 s
  unfolding deserialize_boolean
  deserialize_boolean-IsSuffix s ret r e =
      go (strip (codes "true") s) refl (strip (codes "false") s) refl
    where
      go :
          (o : Option Bytes)
          → strip (codes "true") s ≡ o
          → (o' : Option Bytes) → strip (codes "false") s ≡ o'
          → IsSuffix r.0 s
      go (some q) k o' k' =
          subst (λ z. IsSuffix z s) (first (ok_eq (rw (k, deserialize_boolean) at e)))
            (strip-IsSuffix (codes "true") s q k)
      go none k (some q) k' =
          subst (λ z. IsSuffix z s) (first (ok_eq (rw (k, k', deserialize_boolean) at e)))
            (strip-IsSuffix (codes "false") s q k')
      go none k none k' = refuse-ne-ok b _ _ (rw (k, k', deserialize_boolean) at e)

  skip_minus-IsSuffix : (s : Bytes) → IsSuffix (skip_minus s).1 s
  skip_minus-IsSuffix [] = whole refl
  skip_minus-IsSuffix (c ∷ s) = elim (Bool-cases (b'-' == c)) [
    | inl same ↦ rw same (behind c (whole refl))
    | inr other ↦ rw other (whole refl)
  ]

  digits_loop-IsSuffix : (text s : Bytes) → IsSuffix (digits_loop text s).1 s
  unfolding digits_loop
  digits_loop-IsSuffix text [] = whole refl
  digits_loop-IsSuffix text (c ∷ s) = elim (Bool-cases (is_digit c)) [
    | inl d ↦ rw d (behind c (digits_loop-IsSuffix (text ++ c ∷ []) s))
    | inr d ↦ rw d (whole refl)
  ]

  pub deserialize_integer-IsSuffix :
      (s ret : Bytes) (r : State) → deserialize_integer b (s, ret) ≡ ok r → IsSuffix r.0 s
  unfolding deserialize_integer
  deserialize_integer-IsSuffix s ret r e =
      elim (Bool-cases (is_integer_text (digits_loop (skip_minus s).0 (skip_minus s).1).0)) [
        | inl t ↦
            subst (λ z. IsSuffix z s) (first (ok_eq (rw t at e)))
              (IsSuffix-trans (digits_loop-IsSuffix (skip_minus s).0 (skip_minus s).1)
                (skip_minus-IsSuffix s))
        | inr t ↦ refuse-ne-ok b _ _ (rw t at e)
      ]

  number_loop-IsSuffix :
      (text : Bytes) (p : Bool) (s : Bytes) (r : Bytes × Bool × Bytes)
      → number_loop b text p s ≡ ok r
      → IsSuffix r.2 s
  unfolding number_loop
  number_loop-IsSuffix text p [] r e = whole (ap (λ (t : Bytes × Bool × Bytes). t.2) (ok_eq e))
  number_loop-IsSuffix text p (c ∷ s) r e = elim (Bool-cases (is_digit c || c == b'.')) [
    | inl t ↦ elim (Bool-cases (c == b'.' && p)) [
      | inl q ↦ refuse-ne-ok b _ _ (rw (t, q) at e)
      | inr q ↦
          behind c (number_loop-IsSuffix (text ++ c ∷ []) (p || c == b'.') s r (rw (t, q) at e))
    ]
    | inr t ↦ whole (ap (λ (t : Bytes × Bool × Bytes). t.2) (ok_eq (rw t at e)))
  ]

  pub deserialize_number-IsSuffix :
      (s ret : Bytes) (r : State) → deserialize_number b (s, ret) ≡ ok r → IsSuffix r.0 s
  unfolding deserialize_number
  deserialize_number-IsSuffix s ret r e =
      let ((text, p, rest), read, e') =
        >>=-eq-ok (number_loop b (skip_minus s).0 false (skip_minus s).1) _ e in
      elim (Bool-cases (is_number_text text p)) [
        | inl t ↦
            subst (λ z. IsSuffix z s) (first (ok_eq (rw t at e')))
              (IsSuffix-trans (number_loop-IsSuffix _ _ _ (text, p, rest) read)
                (skip_minus-IsSuffix s))
        | inr t ↦ refuse-ne-ok b _ _ (rw t at e')
      ]

  pub decode_loop-IsSuffix :
      (stop : ℕ → Bool) (s ret : Bytes) (r : State)
      → decode_loop b stop s ret ≡ ok r
      → IsSuffix r.0 s
  unfolding decode_loop
  decode_loop-IsSuffix stop [] ret r e = whole (first (ok_eq e))
  decode_loop-IsSuffix stop (c ∷ []) ret r e = elim (Bool-cases (stop c)) [
    | inl t ↦ whole (first (ok_eq (rw t at e)))
    | inr t ↦ elim (Bool-cases (c == b'%')) [
      | inl q ↦ refuse-ne-ok b _ _ (rw (t, q) at e)
      | inr q ↦ behind c (whole (first (ok_eq (rw (t, q) at e))))
    ]
  ]
  decode_loop-IsSuffix stop (c ∷ h ∷ []) ret r e = elim (Bool-cases (stop c)) [
    | inl t ↦ whole (first (ok_eq (rw t at e)))
    | inr t ↦ elim (Bool-cases (c == b'%')) [
      | inl q ↦ refuse-ne-ok b _ _ (rw (t, q) at e)
      | inr q ↦ behind c (decode_loop-IsSuffix stop (h ∷ []) _ r (rw (t, q) at e))
    ]
  ]
  decode_loop-IsSuffix stop (c ∷ h ∷ l ∷ s) ret r e = elim (Bool-cases (stop c)) [
    | inl t ↦ whole (first (ok_eq (rw t at e)))
    | inr t ↦ elim (Bool-cases (c == b'%')) [
      | inl q ↦
          let (x, _, e') = >>=-eq-ok (hex_pair b h l) _ (rw (t, q) at e) in
          behind c (behind h (behind l (decode_loop-IsSuffix stop s _ r e')))
      | inr q ↦ behind c (decode_loop-IsSuffix stop (h ∷ l ∷ s) _ r (rw (t, q) at e))
    ]
  ]

  pub deserialize_string-IsSuffix :
      (stop : ℕ → Bool) (s ret : Bytes) (r : State)
      → deserialize_string b stop (s, ret) ≡ ok r
      → IsSuffix r.0 s
  unfolding deserialize_string
  deserialize_string-IsSuffix stop s ret r e =
      let (t, read, e') = >>=-eq-ok (decode_loop b stop s (ret ++ b'"' ∷ [])) _ e in
      subst (λ z. IsSuffix z s) (first (ok_eq e')) (decode_loop-IsSuffix stop s _ t read)
