-- ===== src/Deserializer/Prefix.antt =====
-- What stands in front of the data of a parameter, the start byte and the name, and the checks at
-- the beginning of `Deserialize` that skip it.
use cpp_oasvalidator.Prelude.{
  ℕ, Bytes, strip, strip-append, strip_sound, [], ◌∷◌, ◌++◌, ◌==◌, ==_iff, if◌then◌else◌, Bool,
  Bool-cases, true, false, Option, some, none, inl, inr, ◌≡◌, ◌≢◌, refl, sym, ap, ◌∙◌,
}
use cpp_oasvalidator.Common.{Result, ok, ◌>>=◌, ok_eq, >>=-eq-ok}
use cpp_oasvalidator.Deserializer.{
  Base, Cursor, at, past_end, peek, advance, check_n_skip_start, check_n_skip_char,
  check_n_skip_name, skip_name_if, check_data,
}
use cpp_oasvalidator.Deserializer.Suffix.{refuse-ne-ok}

-- A name in front of a text.
abbrev pub named : Base → Bool → Bytes → Bytes
named b with_name s = if with_name then b.param_name ++ b'=' ∷ s else s

-- The start byte, if the style has one, in front of a text.
abbrev pub started : Base → Bytes → Bytes
started b s = if b.start == 0 then s else b.start ∷ s

module _ (b : Base) where
  pub name_skipped : (s : Bytes) → check_n_skip_name b (at (b.param_name ++ s)) ≡ ok s
  unfolding check_n_skip_name
  name_skipped s = rw (strip-append b.param_name s, check_n_skip_name)

  pub char_skipped : (c : ℕ) (s : Bytes) → check_n_skip_char b c (c ∷ s) ≡ ok s
  unfolding check_n_skip_char
  char_skipped c s = rw ((==_iff c c).1 refl)

  pub named-ne-nil : (with_name : Bool) (s : Bytes) → s ≢ [] → named b with_name s ≢ []
  named-ne-nil true s h = go b.param_name
    where
      go : (name : Bytes) → name ++ b'=' ∷ s ≢ []
      go [] e = cc
      go (c ∷ name) e = cc
  named-ne-nil false s h = h

  pub start_skipped : (s beyond : Bytes) → check_n_skip_start b (started b s) beyond ≡ ok (at s)
  unfolding check_n_skip_start
  start_skipped s beyond = elim (Bool-cases (b.start == 0)) [
    | inl e ↦ rw e
    | inr e ↦ rw (e, (==_iff b.start b.start).1 refl)
  ]

  pub name_skipped_if : (w : Bool) (s : Bytes) → skip_name_if b w (at (named b w s)) ≡ ok (at s)
  unfolding skip_name_if
  name_skipped_if false s = refl
  name_skipped_if true s = rw (name_skipped (b'=' ∷ s), char_skipped b'=' s)

  pub data_there : (s : Bytes) → s ≢ [] → check_data b (at s) ≡ ok s
  unfolding check_data
  data_there [] h = absurd (h refl)
  data_there (c ∷ s) h = refl

  -- A cursor at a text, not behind its end.
  abbrev IsStarted : Bytes → Cursor → Type 0
  IsStarted s (at r) = s ≡ started b r
  IsStarted s past_end = Unit

  start_given :
      (s beyond : Bytes) (c : Cursor) → check_n_skip_start b s beyond ≡ ok c → IsStarted s c
  unfolding check_n_skip_start
  start_given s beyond c e = elim (Bool-cases (b.start == 0)) [
    | inl t ↦ let q : at s ≡ c = ok_eq (rw t at e) in rw (← q) (rw t)
    | inr t ↦ elim (Bool-cases (b.start == peek s beyond)) [
      | inl p ↦ let q : advance s ≡ c = ok_eq (rw (t, p) at e) in rw (← q) (advanced s t p)
      | inr p ↦ cc (rw (t, p) at e)
    ]
  ]
    where
      advanced :
          (s : Bytes)
          → (b.start == 0) ≡ false
          → (b.start == peek s beyond) ≡ true
          → IsStarted s (advance s)
      advanced [] t p = tt
      advanced (x ∷ s) t p = rw t (ap (λ z. z ∷ s) (sym ((==_iff b.start x).0 p)))

  -- The data behind a cursor.
  data_given : (n : Cursor) (q : Bytes) → check_data b n ≡ ok q → (n ≡ at q) × (q ≢ [])
  unfolding check_data
  data_given (at (x ∷ t)) q e = let k : x ∷ t ≡ q = ok_eq e in rw (← k) (refl, λ h. cc)
  data_given (at []) q e = refuse-ne-ok b _ _ e
  data_given past_end q e = refuse-ne-ok b _ _ e

  named_given : (s p : Bytes) → check_n_skip_name b (at s) ≡ ok p → s ≡ b.param_name ++ p
  unfolding check_n_skip_name
  named_given s p e = go (strip b.param_name s) refl
    where
      go : (o : Option Bytes) → strip b.param_name s ≡ o → s ≡ b.param_name ++ p
      go (some q) k =
          let h : q ≡ p = ok_eq (rw (check_n_skip_name, k) at e) in
          rw (← h) (strip_sound b.param_name s q k)
      go none k = refuse-ne-ok b _ _ (rw (check_n_skip_name, k) at e)

  char_given : (c : ℕ) (s r : Bytes) → check_n_skip_char b c s ≡ ok r → r ≢ [] → s ≡ c ∷ r
  unfolding check_n_skip_char
  char_given c [] r e h = absurd (h (sym (ok_eq e)))
  char_given c (x ∷ s) r e h = elim (Bool-cases (c == x)) [
    | inl same ↦ let q : s ≡ r = ok_eq (rw same at e) in rw (← q, (==_iff c x).0 same) refl
    | inr other ↦ refuse-ne-ok b _ _ (rw other at e)
  ]

  name_given :
      (w : Bool) (s : Bytes) (c n : Cursor) (q : Bytes)
      → IsStarted s c
      → skip_name_if b w c ≡ ok n
      → n ≡ at q
      → q ≢ []
      → s ≡ started b (named b w q)
  unfolding skip_name_if
  name_given false s (at r) n q h e k ne =
      let f : at r ≡ at q = ok_eq e ∙ k in h ∙ ap (started b) (cc)
  name_given false s past_end n q h e k ne = cc
  name_given true s past_end n q h e k ne =
      unfold check_n_skip_name in
      refuse-ne-ok b _ _ (>>=-eq-ok (check_n_skip_name b past_end) _ e).1
  name_given true s (at r) n q h e k ne =
      let (p, e1, e') = >>=-eq-ok (check_n_skip_name b (at r)) _ e in
      let (p', e2, e3) = >>=-eq-ok (check_n_skip_char b b'=' p) _ e' in
      let f : at p' ≡ at q = ok_eq e3 ∙ k in
      let g : p' ≡ q = cc in
      h
      ∙ ap (started b)
          (named_given r p e1 ∙ ap (λ z. b.param_name ++ z) (char_given b'=' p q (rw g at e2) ne))

  module _ {ℓ} {A : Type ℓ} (w : Bool) (s beyond : Bytes) (k : Bytes → Result A) where
    -- The checks at the beginning skip the start byte and the name.
    pub prologue_skipped :
        (q : Bytes)
        → q ≢ []
        → s ≡ started b (named b w q)
        → (check_n_skip_start b s beyond >>= λ c. skip_name_if b w c >>= λ n. check_data b n >>= k)
          ≡ k q
    prologue_skipped q ne e =
        rw (e, start_skipped (named b w q) beyond, name_skipped_if w q, data_there q ne)

    -- What passes them begins with the start byte and the name.
    pub prologue_given :
        {a : A}
        → (check_n_skip_start b s beyond >>= λ c. skip_name_if b w c >>= λ n. check_data b n >>= k)
          ≡ ok a
        → (q : Bytes) × (q ≢ []) × (s ≡ started b (named b w q)) × (k q ≡ ok a)
    prologue_given e =
        let (c, e1, e') = >>=-eq-ok (check_n_skip_start b s beyond) _ e in
        let (n, e2, e'') = >>=-eq-ok (skip_name_if b w c) _ e' in
        let (q, e3, e4) = >>=-eq-ok (check_data b n) k e'' in
        let (f, ne) = data_given n q e3 in
        (q, ne, name_given w s c n q (start_given s beyond c e1) e2 f ne, e4)
