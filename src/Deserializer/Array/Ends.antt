-- ===== src/Deserializer/Array/Ends.antt =====
-- The loop of `ArrayDeserializer::Deserialize` ends: each round leaves less text.
use cpp_oasvalidator.Prelude.{
  ℕ, zero, suc, ◌≤◌, Bytes, codes, length, [], ◌∷◌, ◌==◌, ◌&&◌, not, Bool-cases, inl, inr, ◌≡◌,
  arith,
}
use cpp_oasvalidator.Common.{
  PrimitiveType, boolean, integer, number, string, ok, ok_eq, >>=-eq-ok, >>=-ne-out_of_fuel,
}
use cpp_oasvalidator.Trie.{ParamRange}
use cpp_oasvalidator.Deserializer.{
  at, State, check_n_skip_start, check_n_skip_char, check_n_skip_name, skip_name_if, check_data,
  check_end, terminator,
}
use cpp_oasvalidator.Deserializer.Suffix.{
  IsSuffix, whole, IsSuffix-trans, length-IsSuffix, check_n_skip_char-IsSuffix,
  check_n_skip_name-IsSuffix, deserialize_boolean-IsSuffix, deserialize_integer-IsSuffix,
  deserialize_number-IsSuffix, deserialize_string-IsSuffix, refuse-ne-ok,
}
use cpp_oasvalidator.Deserializer.Ends.{
  Ends, ok-Ends, refuse-Ends, check_n_skip_start-Ends, check_n_skip_char-Ends,
  check_n_skip_name-Ends, skip_name_if-Ends, check_data-Ends, check_end-Ends,
  deserialize_boolean-Ends, deserialize_integer-Ends, deserialize_number-Ends,
  deserialize_string-Ends,
}
use cpp_oasvalidator.Deserializer.Array.{
  ArrayDeserializer, check_element_data, skip_separator, check_separator, check_running_name,
  deserialize_item, array_round, array_loop, deserialize,
}

module _ (d : ArrayDeserializer) where
  check_element_data_same : (s r : Bytes) → check_element_data d.base s ≡ ok r → s ≡ r
  unfolding check_element_data
  check_element_data_same [] r e = refuse-ne-ok d.base _ _ e
  check_element_data_same (c ∷ s) r e = ok_eq e

  check_element_data-Ends : (s : Bytes) → Ends (check_element_data d.base s)
  unfolding check_element_data
  check_element_data-Ends [] = refuse-Ends d.base _ _
  check_element_data-Ends (c ∷ s) = ok-Ends _

  -- One character less is left, at least, behind a separator.
  check_char-shorter :
      (c x : ℕ) (s r : Bytes) → check_n_skip_char d.base c (x ∷ s) ≡ ok r → length r ≤ length s
  unfolding check_n_skip_char
  check_char-shorter c x s r e = elim (Bool-cases (c == x)) [
    | inl same ↦ rw (← ok_eq (rw same at e)) (omega arith)
    | inr other ↦ refuse-ne-ok d.base _ _ (rw other at e)
  ]

  skip_separator-shorter :
      (x : ℕ) (s r : Bytes) → skip_separator d (x ∷ s) ≡ ok r → length r ≤ length s
  unfolding skip_separator
  skip_separator-shorter x s r e = elim (Bool-cases d.has_20_separator) [
    | inl t ↦
        let (p, e1, e') = >>=-eq-ok (check_n_skip_char d.base b'%' (x ∷ s)) _ (rw t at e) in
        let (q, e2, e3) = >>=-eq-ok (check_n_skip_char d.base b'2' p) _ e' in
        omega (
          arith,
          check_char-shorter b'%' x s p e1,
          length-IsSuffix (check_n_skip_char-IsSuffix d.base b'2' p q e2),
          length-IsSuffix (check_n_skip_char-IsSuffix d.base b'0' q r e3),
        )
    | inr t ↦ check_char-shorter d.separator x s r (rw t at e)
  ]

  -- Behind a round's item there is nothing left, or less than before the separator.
  check_separator-shorter :
      (s r : Bytes) (k : ℕ) → check_separator d s ≡ ok r → length s ≤ suc k → length r ≤ k
  unfolding check_separator
  check_separator-shorter [] r k e h = rw (← ok_eq e) (omega arith)
  check_separator-shorter (x ∷ s) r k e h =
      let (q, e1, e2) = >>=-eq-ok (skip_separator d (x ∷ s)) _ e in
      rw (← check_element_data_same q r e2) (omega (arith, skip_separator-shorter x s q e1))

  check_running_name-IsSuffix : (s r : Bytes) → check_running_name d s ≡ ok r → IsSuffix r s
  unfolding check_running_name
  check_running_name-IsSuffix s r e = elim (Bool-cases d.has_running_name) [
    | inl t ↦
        let (p, e1, e') = >>=-eq-ok (check_n_skip_name d.base (at s)) _ (rw t at e) in
        let (q, e2, e3) = >>=-eq-ok (check_n_skip_char d.base b'=' p) _ e' in
        rw (← check_element_data_same q r e3) (
          IsSuffix-trans (check_n_skip_char-IsSuffix d.base b'=' p q e2)
            (check_n_skip_name-IsSuffix d.base s p e1))
    | inr t ↦ whole (ok_eq (rw t at e))
  ]

  deserialize_item-IsSuffix :
      (t : PrimitiveType) (s ret : Bytes) (r : State)
      → deserialize_item d t (s, ret) ≡ ok r
      → IsSuffix r.0 s
  unfolding deserialize_item
  deserialize_item-IsSuffix boolean s ret r e = deserialize_boolean-IsSuffix d.base s ret r e
  deserialize_item-IsSuffix integer s ret r e = deserialize_integer-IsSuffix d.base s ret r e
  deserialize_item-IsSuffix number s ret r e = deserialize_number-IsSuffix d.base s ret r e
  deserialize_item-IsSuffix string s ret r e =
      deserialize_string-IsSuffix d.base (terminator d.separator) s ret r e

  array_round-shorter :
      (s ret : Bytes) (r : State) (k : ℕ)
      → array_round d (s, ret) ≡ ok r
      → length s ≤ suc k
      → length r.0 ≤ k
  unfolding array_round
  array_round-shorter s ret r k e h =
      let (p, e1, e') = >>=-eq-ok (check_running_name d s) _ e in
      let (q, e2, e'') = >>=-eq-ok (deserialize_item d d.items_type (p, ret)) _ e' in
      let (n, e3, e4) = >>=-eq-ok (check_separator d q.0) _ e'' in
      rw (← ok_eq e4) (
        check_separator-shorter q.0 n k e3 (
          omega (
            arith,
            length-IsSuffix (check_running_name-IsSuffix s p e1),
            length-IsSuffix (deserialize_item-IsSuffix d.items_type p ret q e2),
          )))

  check_running_name-Ends : (s : Bytes) → Ends (check_running_name d s)
  unfolding check_running_name
  check_running_name-Ends s = elim (Bool-cases d.has_running_name) [
    | inl t ↦ rw t (
        >>=-ne-out_of_fuel (check_n_skip_name d.base (at s)) _
          (check_n_skip_name-Ends d.base (at s))
          (λ p _.
            >>=-ne-out_of_fuel (check_n_skip_char d.base b'=' p) _
              (check_n_skip_char-Ends d.base b'=' p) (λ q _. check_element_data-Ends q)))
    | inr t ↦ rw t (ok-Ends s)
  ]

  deserialize_item-Ends : (t : PrimitiveType) (s : State) → Ends (deserialize_item d t s)
  unfolding deserialize_item
  deserialize_item-Ends boolean s = deserialize_boolean-Ends d.base s
  deserialize_item-Ends integer s = deserialize_integer-Ends d.base s
  deserialize_item-Ends number s = deserialize_number-Ends d.base s
  deserialize_item-Ends string s = deserialize_string-Ends d.base (terminator d.separator) s

  skip_separator-Ends : (s : Bytes) → Ends (skip_separator d s)
  unfolding skip_separator
  skip_separator-Ends s = elim (Bool-cases d.has_20_separator) [
    | inl t ↦ rw t (
        >>=-ne-out_of_fuel (check_n_skip_char d.base b'%' s) _
          (check_n_skip_char-Ends d.base b'%' s)
          (λ p _.
            >>=-ne-out_of_fuel (check_n_skip_char d.base b'2' p) _
              (check_n_skip_char-Ends d.base b'2' p) (λ q _. check_n_skip_char-Ends d.base b'0' q)))
    | inr t ↦ rw t (check_n_skip_char-Ends d.base d.separator s)
  ]

  check_separator-Ends : (s : Bytes) → Ends (check_separator d s)
  unfolding check_separator
  check_separator-Ends [] = ok-Ends _
  check_separator-Ends (c ∷ s) =
      >>=-ne-out_of_fuel (skip_separator d (c ∷ s)) _ (skip_separator-Ends (c ∷ s))
        (λ p _. check_element_data-Ends p)

  array_round-Ends : (s : State) → Ends (array_round d s)
  unfolding array_round
  array_round-Ends (s, ret) =
      >>=-ne-out_of_fuel (check_running_name d s) _ (check_running_name-Ends s) (λ p _.
        >>=-ne-out_of_fuel (deserialize_item d d.items_type (p, ret)) _
          (deserialize_item-Ends d.items_type (p, ret))
          (λ q _.
            >>=-ne-out_of_fuel (check_separator d q.0) _ (check_separator-Ends q.0)
              (λ n _. ok-Ends _)))

  array_loop-Ends : (k : ℕ) (s ret : Bytes) → length s ≤ k → Ends (array_loop d k (s, ret))
  unfolding array_loop
  array_loop-Ends zero [] ret h = ok-Ends _
  array_loop-Ends zero (c ∷ s) ret h = absurd (omega arith)
  array_loop-Ends (suc k) [] ret h = ok-Ends _
  array_loop-Ends (suc k) (c ∷ s) ret h =
      >>=-ne-out_of_fuel (array_round d (c ∷ s, ret)) _ (array_round-Ends (c ∷ s, ret))
        (λ r e. array_loop-Ends k r.0 r.1 (array_round-shorter (c ∷ s) ret r k e h))

-- The fuel is always enough: `ArrayDeserializer::Deserialize` returns or throws, on every text.
pub array_deserialize-Ends :
    (d : ArrayDeserializer) (range : ParamRange) → Ends (deserialize d range)
unfolding deserialize
array_deserialize-Ends d range =
    let b = d.base in
    >>=-ne-out_of_fuel (check_n_skip_start b range.within range.beyond) _
      (check_n_skip_start-Ends b range.within range.beyond)
      (λ c _.
        >>=-ne-out_of_fuel (skip_name_if b (b.skip_name && not d.has_running_name) c) _
          (skip_name_if-Ends b (b.skip_name && not d.has_running_name) c)
          (λ n _. >>=-ne-out_of_fuel (check_data b n) _ (check_data-Ends b n) (λ s _.
            >>=-ne-out_of_fuel (array_loop d (length s) (s, codes "[")) _
              (array_loop-Ends d (length s) s (codes "[") (omega arith))
              (λ r _.
                >>=-ne-out_of_fuel (check_end b (at r.0)) _ (check_end-Ends b (at r.0))
                  (λ u _. ok-Ends _)))))
