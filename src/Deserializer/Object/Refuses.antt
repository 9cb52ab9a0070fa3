-- ===== src/Deserializer/Object/Refuses.antt =====
-- The exceptions of `ObjectDeserializer::Deserialize`.
use cpp_oasvalidator.Prelude.{
  ℕ, zero, suc, Bytes, codes, length, [], ◌∷◌, ◌++◌, not, ◌&&◌, Option-cases, inl, inr,
}
use cpp_oasvalidator.Common.{PrimitiveType, boolean, integer, number, string}
use cpp_oasvalidator.Trie.{ParamRange}
use cpp_oasvalidator.Deserializer.{
  Cursor, at, past_end, State, check_n_skip_char, check_n_skip_name, check_data, check_end,
  terminator,
}
use cpp_oasvalidator.Deserializer.Refuses.{
  OnlyRefuses, >>=-OnlyRefuses, if-OnlyRefuses, refuse-OnlyRefuses, char-OnlyRefuses,
  name-OnlyRefuses, data-OnlyRefuses, end-OnlyRefuses, boolean-OnlyRefuses, integer-OnlyRefuses,
  number-OnlyRefuses, prologue-OnlyRefuses, string-OnlyRefuses,
}
use cpp_oasvalidator.Deserializer.Object.{
  ObjectDeserializer, at_key, deserialize_value, member_round, read_key, object_loop,
  deserialize_key, deserialize,
}

module _ (d : ObjectDeserializer) where
  value-OnlyRefuses : (t : PrimitiveType) (s : State) → OnlyRefuses (deserialize_value d t s)
  unfolding deserialize_value
  value-OnlyRefuses boolean s = boolean-OnlyRefuses d.base s
  value-OnlyRefuses integer s = integer-OnlyRefuses d.base s
  value-OnlyRefuses number s = number-OnlyRefuses d.base s
  value-OnlyRefuses string s = string-OnlyRefuses d.base (terminator d.vk_separator) s

  member-OnlyRefuses : (beyond key : Bytes) (s : State) → OnlyRefuses (member_round d beyond key s)
  unfolding member_round
  member-OnlyRefuses beyond key (left, ret) = elim (Option-cases (at_key key d.kt_map)) [
    | inl e ↦ rw (e, member_round) (refuse-OnlyRefuses d.base _ _ _)
    | inr (t, e) ↦
        rw (e, member_round)
          (>>=-OnlyRefuses (deserialize_value d t (left, (ret ++ key) ++ b':' ∷ [])) _
            (value-OnlyRefuses t _) (λ s. tt))
  ]

  read_key-OnlyRefuses : (left : Bytes) → OnlyRefuses (read_key d left)
  unfolding read_key
  read_key-OnlyRefuses left =
      if-OnlyRefuses d.is_deep_obj _ _
        (>>=-OnlyRefuses (check_n_skip_name d.base (at left)) _ (name-OnlyRefuses d.base (at left))
          (λ named.
            >>=-OnlyRefuses (check_n_skip_char d.base b'[' named) _
              (char-OnlyRefuses d.base b'[' named)
              (λ opened.
                >>=-OnlyRefuses (check_n_skip_char d.base b'=' (deserialize_key b']' opened).1) _
                  (char-OnlyRefuses d.base b'=' (deserialize_key b']' opened).1) (λ rest. tt))))
        tt

  object_loop-OnlyRefuses :
      (beyond : Bytes) (fuel : ℕ) (cursor : Cursor) (ret : Bytes)
      → OnlyRefuses (object_loop d beyond fuel cursor ret)
  unfolding object_loop
  object_loop-OnlyRefuses beyond fuel past_end ret = tt
  object_loop-OnlyRefuses beyond fuel (at []) ret = tt
  object_loop-OnlyRefuses beyond zero (at (c ∷ left)) ret = tt
  object_loop-OnlyRefuses beyond (suc fuel) (at (c ∷ left)) ret =
      >>=-OnlyRefuses (read_key d (c ∷ left)) _ (read_key-OnlyRefuses (c ∷ left)) (λ (key, rest).
        >>=-OnlyRefuses (member_round d beyond key (rest, ret)) _
          (member-OnlyRefuses beyond key (rest, ret))
          (λ (cursor, ret'). object_loop-OnlyRefuses beyond fuel cursor ret'))

  pub object_deserialize-OnlyRefuses : (range : ParamRange) → OnlyRefuses (deserialize d range)
  unfolding deserialize
  object_deserialize-OnlyRefuses range =
      prologue-OnlyRefuses d.base (d.base.skip_name && not d.is_deep_obj) range _ (λ c.
        >>=-OnlyRefuses (check_data d.base c) _ (data-OnlyRefuses d.base c) (λ left.
          >>=-OnlyRefuses (object_loop d range.beyond (length left) (at left) (codes "{")) _
            (object_loop-OnlyRefuses range.beyond (length left) (at left) (codes "{"))
            (λ (cursor, ret).
              >>=-OnlyRefuses (check_end d.base cursor) _ (end-OnlyRefuses d.base cursor)
                (λ u. tt))))
