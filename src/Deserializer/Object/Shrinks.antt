-- ===== src/Deserializer/Object/Shrinks.antt =====
-- A round of the loops of `ObjectDeserializer::Deserialize` leaves an end piece of the text, and
-- less of it.
use cpp_oasvalidator.Prelude.{
  ℕ, suc, ◌≤◌, Bytes, length, [], ◌∷◌, ◌++◌, ◌==◌, Bool-cases, inl, inr, ◌≡◌, refl, arith, Option,
  none, some,
}
use cpp_oasvalidator.Common.{PrimitiveType, boolean, integer, number, string, ok, ok_eq, >>=-eq-ok}
use cpp_oasvalidator.Common.Fragments.{seek, seek-append, skip_one, length-skip_one-seek}
use cpp_oasvalidator.Deserializer.{
  Base, Cursor, at, past_end, State, check_n_skip_char, check_n_skip_name, terminator,
}
use cpp_oasvalidator.Deserializer.Suffix.{
  IsSuffix, whole, behind, IsSuffix-trans, IsSuffix-append, length-IsSuffix,
  check_n_skip_char-IsSuffix, check_n_skip_name-IsSuffix, deserialize_boolean-IsSuffix,
  deserialize_integer-IsSuffix, deserialize_number-IsSuffix, deserialize_string-IsSuffix,
  refuse-ne-ok,
}
use cpp_oasvalidator.Deserializer.Object.{
  ObjectDeserializer, at_key, deserialize_key, deserialize_value, skip_vk_separator, member_round,
  read_key,
}

IsSuffix-skip_one : {r s : Bytes} → IsSuffix r s → IsSuffix (skip_one r) s
IsSuffix-skip_one {r} h = IsSuffix-trans (below r) h
  where
    below : (r : Bytes) → IsSuffix (skip_one r) r
    below [] = whole refl
    below (x ∷ r) = behind x (whole refl)

deserialize_key-IsSuffix : (t : ℕ) (s : Bytes) → IsSuffix (deserialize_key t s).1 s
unfolding deserialize_key
deserialize_key-IsSuffix t s =
    IsSuffix-skip_one (rw seek-append at (IsSuffix-append (seek s t).0 (seek s t).1))

deserialize_key-shorter :
    (t : ℕ) (s : Bytes) (k : ℕ) → length s ≤ suc k → length (deserialize_key t s).1 ≤ k
unfolding deserialize_key
deserialize_key-shorter t [] k h = unfold seek in omega arith
deserialize_key-shorter t (x ∷ s) k h = omega (arith, length-skip_one-seek x s t)

check_n_skip_char-shorter :
    (b : Base) (c : ℕ) (s r : Bytes) (k : ℕ)
    → check_n_skip_char b c s ≡ ok r
    → length s ≤ suc k
    → length r ≤ k
unfolding check_n_skip_char
check_n_skip_char-shorter b c [] r k e h = rw (← ok_eq e) (omega arith)
check_n_skip_char-shorter b c (x ∷ s) r k e h = elim (Bool-cases (c == x)) [
  | inl same ↦ rw (← ok_eq (rw same at e)) (omega arith)
  | inr other ↦ refuse-ne-ok b _ _ (rw other at e)
]

-- What is left from a cursor on; nothing behind `end`.
abbrev pub left_of : Cursor → Bytes
left_of (at s) = s
left_of past_end = []

module _ (d : ObjectDeserializer) where
  pub read_key-IsSuffix : (s : Bytes) (r : Bytes × Bytes) → read_key d s ≡ ok r → IsSuffix r.1 s
  unfolding read_key
  read_key-IsSuffix s r e = elim (Bool-cases d.is_deep_obj) [
    | inl t ↦
        let (p, e1, e') = >>=-eq-ok (check_n_skip_name d.base (at s)) _ (rw t at e) in
        let (q, e2, e'') = >>=-eq-ok (check_n_skip_char d.base b'[' p) _ e' in
        let (u, e3, e4) =
          >>=-eq-ok (check_n_skip_char d.base b'=' (deserialize_key b']' q).1) _ e'' in
        rw (← ok_eq e4) (
          IsSuffix-trans (check_n_skip_char-IsSuffix d.base b'=' (deserialize_key b']' q).1 u e3) (
            IsSuffix-trans (deserialize_key-IsSuffix b']' q) (
              IsSuffix-trans (check_n_skip_char-IsSuffix d.base b'[' p q e2)
                (check_n_skip_name-IsSuffix d.base s p e1))))
    | inr t ↦ rw (← ok_eq (rw t at e)) (deserialize_key-IsSuffix d.kv_separator s)
  ]

  pub read_key-shorter :
      (s : Bytes) (r : Bytes × Bytes) (k : ℕ)
      → read_key d s ≡ ok r
      → length s ≤ suc k
      → length r.1 ≤ k
  unfolding read_key
  read_key-shorter s r k e h = elim (Bool-cases d.is_deep_obj) [
    | inl t ↦
        let (p, e1, e') = >>=-eq-ok (check_n_skip_name d.base (at s)) _ (rw t at e) in
        let (q, e2, e'') = >>=-eq-ok (check_n_skip_char d.base b'[' p) _ e' in
        let (u, e3, e4) =
          >>=-eq-ok (check_n_skip_char d.base b'=' (deserialize_key b']' q).1) _ e'' in
        rw (← ok_eq e4) (
          omega (
            arith,
            length-IsSuffix (check_n_skip_name-IsSuffix d.base s p e1),
            length-IsSuffix
                (check_n_skip_char-IsSuffix d.base b'=' (deserialize_key b']' q).1 u e3),
            length-IsSuffix (deserialize_key-IsSuffix b']' q),
            check_n_skip_char-shorter d.base b'[' p q k e2
                (omega (arith, length-IsSuffix (check_n_skip_name-IsSuffix d.base s p e1))),
          ))
    | inr t ↦ rw (← ok_eq (rw t at e)) (deserialize_key-shorter d.kv_separator s k h)
  ]

  pub deserialize_value-IsSuffix :
      (t : PrimitiveType) (s ret : Bytes) (r : State)
      → deserialize_value d t (s, ret) ≡ ok r
      → IsSuffix r.0 s
  unfolding deserialize_value
  deserialize_value-IsSuffix boolean s ret r e = deserialize_boolean-IsSuffix d.base s ret r e
  deserialize_value-IsSuffix integer s ret r e = deserialize_integer-IsSuffix d.base s ret r e
  deserialize_value-IsSuffix number s ret r e = deserialize_number-IsSuffix d.base s ret r e
  deserialize_value-IsSuffix string s ret r e =
      deserialize_string-IsSuffix d.base (terminator d.vk_separator) s ret r e

  -- The `try` block read a value of a key of the map, and then passed over a separator.
  pub record Member (beyond key s ret : Bytes) (r : Cursor × Bytes) : Type 0 where
    pub value_type : PrimitiveType
    pub known : at_key key d.kt_map ≡ some value_type
    pub behind_value : State
    pub value_read : deserialize_value d value_type (s, (ret ++ key) ++ b':' ∷ []) ≡ ok behind_value
    pub next : skip_vk_separator d beyond behind_value ≡ r

  pub member_round-Member :
      (beyond key s ret : Bytes) (r : Cursor × Bytes)
      → member_round d beyond key (s, ret) ≡ ok r
      → Member beyond key s ret r
  unfolding member_round
  member_round-Member beyond key s ret r e = go (at_key key d.kt_map) refl
    where
      go : (o : Option PrimitiveType) → at_key key d.kt_map ≡ o → Member beyond key s ret r
      go (some t) k =
          let (v, e1, e2) =
            >>=-eq-ok (deserialize_value d t (s, (ret ++ key) ++ b':' ∷ [])) _
              (rw (k, member_round) at e) in
          record { value_type = t; known = k; behind_value = v; value_read = e1; next = ok_eq e2 }
      go none k = refuse-ne-ok d.base _ _ (rw (k, member_round) at e)
