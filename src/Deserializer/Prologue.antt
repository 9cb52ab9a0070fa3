-- ===== src/Deserializer/Prologue.antt =====
-- The checks that `Deserialize` of primitives, arrays and objects begins with.
use cpp_oasvalidator.Prelude.{
  ℕ, Bytes, [], ◌∷◌, ◌==◌, Bool, Bool-cases, true, false, inl, inr, ◌≡◌, refl, sym,
}
use cpp_oasvalidator.Common.{Result, ok, ◌>>=◌, ok_eq, >>=-eq-ok}
use cpp_oasvalidator.Deserializer.{
  Base, Cursor, at, past_end, peek, advance, check_n_skip_start, check_n_skip_char,
  check_n_skip_name, skip_name_if, check_data,
}
use cpp_oasvalidator.Deserializer.Suffix.{
  IsSuffix, whole, behind, IsSuffix-trans, check_n_skip_char-IsSuffix, check_n_skip_name-IsSuffix,
  refuse-ne-ok,
}

-- A cursor in the text, or behind its end.
abbrev IsIn : Bytes → Cursor → Type 0
IsIn s (at r) = IsSuffix r s
IsIn s past_end = Unit

module _ (b : Base) where
  check_n_skip_start-IsIn :
      (s beyond : Bytes) (c : Cursor) → check_n_skip_start b s beyond ≡ ok c → IsIn s c
  unfolding check_n_skip_start
  check_n_skip_start-IsIn s beyond c e = elim (Bool-cases (b.start == 0)) [
    | inl t ↦ rw (← ok_eq (rw t at e)) (whole refl)
    | inr t ↦ elim (Bool-cases (b.start == peek s beyond)) [
      | inl q ↦ rw (← ok_eq (rw (t, q) at e)) (advanced s)
      | inr q ↦ cc (rw (t, q) at e)
    ]
  ]
    where
      advanced : (s : Bytes) → IsIn s (advance s)
      advanced [] = tt
      advanced (x ∷ s) = behind x (whole refl)

  skip_name_if-IsIn :
      (t : Bool) (s : Bytes) (c n : Cursor) → IsIn s c → skip_name_if b t c ≡ ok n → IsIn s n
  unfolding skip_name_if
  skip_name_if-IsIn false s c n h e = rw (← ok_eq e) h
  skip_name_if-IsIn true s past_end n h e =
      unfold check_n_skip_name in
      refuse-ne-ok b _ _ (>>=-eq-ok (check_n_skip_name b past_end) _ e).1
  skip_name_if-IsIn true s (at r) n h e =
      let (p, e1, e') = >>=-eq-ok (check_n_skip_name b (at r)) _ e in
      let (q, e2, e3) = >>=-eq-ok (check_n_skip_char b b'=' p) _ e' in
      rw (← ok_eq e3) (
        IsSuffix-trans (check_n_skip_char-IsSuffix b b'=' p q e2)
          (IsSuffix-trans (check_n_skip_name-IsSuffix b r p e1) h))

  check_data_inv :
      (s : Bytes) (c : Cursor) (r : Bytes)
      → IsIn s c
      → check_data b c ≡ ok r
      → (x : ℕ) × (t : Bytes) × (r ≡ x ∷ t) × IsSuffix (x ∷ t) s
  unfolding check_data
  check_data_inv s (at (x ∷ t)) r h e = (x, t, sym (ok_eq e), h)
  check_data_inv s (at []) r h e = refuse-ne-ok b _ _ e
  check_data_inv s past_end r h e = refuse-ne-ok b _ _ e

  -- Behind the checks there is an end piece of the text, with at least one byte.
  pub prologue_inv {ℓ} :
      {A : Type ℓ} (skip : Bool) (s beyond : Bytes) (k : Bytes → Result A) {a : A}
      → (check_n_skip_start b s beyond >>= λ c. skip_name_if b skip c >>= λ n. check_data b n >>= k)
        ≡ ok a
      → (x : ℕ) × (t : Bytes) × IsSuffix (x ∷ t) s × (k (x ∷ t) ≡ ok a)
  prologue_inv skip s beyond k e =
      let (c, e1, e') = >>=-eq-ok (check_n_skip_start b s beyond) _ e in
      let (n, e2, e'') = >>=-eq-ok (skip_name_if b skip c) _ e' in
      let (r, e3, e4) = >>=-eq-ok (check_data b n) k e'' in
      let (x, t, q, h) =
        check_data_inv s n r
          (skip_name_if-IsIn skip s c n (check_n_skip_start-IsIn s beyond c e1) e2) e3 in
      (x, t, h, rw q at e4)
