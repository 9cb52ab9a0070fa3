-- ===== src/Deserializer/Object/Ends.antt =====
-- The loops of `ObjectDeserializer::Deserialize` end.
use cpp_oasvalidator.Prelude.{
  ℕ, zero, suc, ◌≤◌, Bytes, codes, length, [], ◌∷◌, ◌++◌, Bool-cases, not, ◌&&◌, inl, inr, ◌≡◌,
  refl, arith, Option, none, some,
}
use cpp_oasvalidator.Common.{
  PrimitiveType, boolean, integer, number, string, ok, >>=-ne-out_of_fuel,
}
use cpp_oasvalidator.Trie.{ParamRange}
use cpp_oasvalidator.Deserializer.{
  Cursor, at, past_end, State, check_n_skip_start, check_n_skip_char, check_n_skip_name,
  skip_name_if, check_data, check_end, terminator,
}
use cpp_oasvalidator.Deserializer.Suffix.{length-IsSuffix}
use cpp_oasvalidator.Deserializer.Ends.{
  Ends, ok-Ends, refuse-Ends, check_n_skip_start-Ends, check_n_skip_char-Ends,
  check_n_skip_name-Ends, skip_name_if-Ends, check_data-Ends, check_end-Ends,
  deserialize_boolean-Ends, deserialize_integer-Ends, deserialize_number-Ends,
  deserialize_string-Ends,
}
use cpp_oasvalidator.Deserializer.Object.{
  ObjectDeserializer, at_key, deserialize_key, deserialize_value, skip_vk_separator, member_round,
  read_key, object_loop, deserialize,
}
use cpp_oasvalidator.Deserializer.Object.Shrinks.{
  left_of, read_key-shorter, deserialize_value-IsSuffix, member_round-Member,
}

module _ (d : ObjectDeserializer) where
  length-skip_vk_separator :
      (beyond : Bytes) (s : State) → length (left_of (skip_vk_separator d beyond s).0) ≤ length s.0
  unfolding skip_vk_separator
  length-skip_vk_separator beyond ([], ret) = ground arith
  length-skip_vk_separator beyond (x ∷ s, ret) = ground arith

  length-member_round :
      (beyond key s ret : Bytes) (r : Cursor × Bytes)
      → member_round d beyond key (s, ret) ≡ ok r
      → length (left_of r.0) ≤ length s
  length-member_round beyond key s ret r e =
      let m = member_round-Member d beyond key s ret r e in
      rw (← m.next) (
        omega (
          arith,
          length-skip_vk_separator beyond m.behind_value,
          length-IsSuffix
              (deserialize_value-IsSuffix d m.value_type s _ m.behind_value m.value_read),
        ))

  read_key-Ends : (s : Bytes) → Ends (read_key d s)
  unfolding read_key
  read_key-Ends s = elim (Bool-cases d.is_deep_obj) [
    | inl t ↦ rw t (
        >>=-ne-out_of_fuel (check_n_skip_name d.base (at s)) _
          (check_n_skip_name-Ends d.base (at s))
          (λ p _.
            >>=-ne-out_of_fuel (check_n_skip_char d.base b'[' p) _
              (check_n_skip_char-Ends d.base b'[' p)
              (λ q _.
                >>=-ne-out_of_fuel (check_n_skip_char d.base b'=' (deserialize_key b']' q).1) _
                  (check_n_skip_char-Ends d.base b'=' (deserialize_key b']' q).1)
                  (λ u _. ok-Ends _))))
    | inr t ↦ rw t (ok-Ends _)
  ]

  deserialize_value-Ends : (t : PrimitiveType) (s : State) → Ends (deserialize_value d t s)
  unfolding deserialize_value
  deserialize_value-Ends boolean s = deserialize_boolean-Ends d.base s
  deserialize_value-Ends integer s = deserialize_integer-Ends d.base s
  deserialize_value-Ends number s = deserialize_number-Ends d.base s
  deserialize_value-Ends string s = deserialize_string-Ends d.base (terminator d.vk_separator) s

  member_round-Ends : (beyond key : Bytes) (s : State) → Ends (member_round d beyond key s)
  unfolding member_round
  member_round-Ends beyond key (s, ret) = go (at_key key d.kt_map) refl
    where
      go :
          (o : Option PrimitiveType)
          → at_key key d.kt_map ≡ o
          → Ends (member_round d beyond key (s, ret))
      go (some t) k =
          rw (k, member_round)
            (>>=-ne-out_of_fuel (deserialize_value d t (s, (ret ++ key) ++ b':' ∷ [])) _
              (deserialize_value-Ends t _) (λ v _. ok-Ends _))
      go none k = rw (k, member_round) (refuse-Ends d.base _ _)

  object_loop-Ends :
      (beyond : Bytes) (k : ℕ) (c : Cursor) (ret : Bytes)
      → length (left_of c) ≤ k
      → Ends (object_loop d beyond k c ret)
  unfolding object_loop
  object_loop-Ends beyond zero past_end ret h = ok-Ends _
  object_loop-Ends beyond (suc k) past_end ret h = ok-Ends _
  object_loop-Ends beyond zero (at []) ret h = ok-Ends _
  object_loop-Ends beyond (suc k) (at []) ret h = ok-Ends _
  object_loop-Ends beyond zero (at (c ∷ s)) ret h = absurd (omega arith)
  object_loop-Ends beyond (suc k) (at (c ∷ s)) ret h =
      >>=-ne-out_of_fuel (read_key d (c ∷ s)) _ (read_key-Ends (c ∷ s)) (λ p e.
        >>=-ne-out_of_fuel (member_round d beyond p.0 (p.1, ret)) _
          (member_round-Ends beyond p.0 (p.1, ret))
          (λ q f. object_loop-Ends beyond k q.0 q.1 (
            omega (
              arith,
              length-member_round beyond p.0 p.1 ret q f,
              read_key-shorter d (c ∷ s) p k e h,
            ))))

-- The fuel is always enough: `ObjectDeserializer::Deserialize` returns or throws, on every text.
pub object_deserialize-Ends :
    (d : ObjectDeserializer) (range : ParamRange) → Ends (deserialize d range)
unfolding deserialize
object_deserialize-Ends d range =
    let b = d.base in
    >>=-ne-out_of_fuel (check_n_skip_start b range.within range.beyond) _
      (check_n_skip_start-Ends b range.within range.beyond)
      (λ c _.
        >>=-ne-out_of_fuel (skip_name_if b (b.skip_name && not d.is_deep_obj) c) _
          (skip_name_if-Ends b (b.skip_name && not d.is_deep_obj) c)
          (λ n _. >>=-ne-out_of_fuel (check_data b n) _ (check_data-Ends b n) (λ s _.
            >>=-ne-out_of_fuel (object_loop d range.beyond (length s) (at s) (codes "{")) _
              (object_loop-Ends d range.beyond (length s) (at s) (codes "{") (omega arith))
              (λ r _.
                >>=-ne-out_of_fuel (check_end b r.0) _ (check_end-Ends b r.0) (λ u _. ok-Ends _)))))
