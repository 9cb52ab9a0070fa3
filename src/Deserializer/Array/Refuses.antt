-- ===== src/Deserializer/Array/Refuses.antt =====
-- The exceptions of `ArrayDeserializer::Deserialize`.
use cpp_oasvalidator.Prelude.{ℕ, zero, suc, Bytes, codes, length, [], ◌∷◌, not, ◌&&◌}
use cpp_oasvalidator.Common.{PrimitiveType, boolean, integer, number, string}
use cpp_oasvalidator.Trie.{ParamRange}
use cpp_oasvalidator.Deserializer.{
  at, State, check_n_skip_char, check_n_skip_name, check_data, check_end, terminator,
}
use cpp_oasvalidator.Deserializer.Refuses.{
  OnlyRefuses, >>=-OnlyRefuses, if-OnlyRefuses, refuse-OnlyRefuses, char-OnlyRefuses,
  name-OnlyRefuses, data-OnlyRefuses, end-OnlyRefuses, boolean-OnlyRefuses, integer-OnlyRefuses,
  number-OnlyRefuses, prologue-OnlyRefuses, string-OnlyRefuses,
}
use cpp_oasvalidator.Deserializer.Array.{
  ArrayDeserializer, check_element_data, skip_separator, check_separator, check_running_name,
  deserialize_item, array_round, array_loop, deserialize,
}

module _ (d : ArrayDeserializer) where
  item-OnlyRefuses : (t : PrimitiveType) (s : State) → OnlyRefuses (deserialize_item d t s)
  unfolding deserialize_item
  item-OnlyRefuses boolean s = boolean-OnlyRefuses d.base s
  item-OnlyRefuses integer s = integer-OnlyRefuses d.base s
  item-OnlyRefuses number s = number-OnlyRefuses d.base s
  item-OnlyRefuses string s = string-OnlyRefuses d.base (terminator d.separator) s

  element-OnlyRefuses : (left : Bytes) → OnlyRefuses (check_element_data d.base left)
  unfolding check_element_data
  element-OnlyRefuses [] = refuse-OnlyRefuses d.base _ _ _
  element-OnlyRefuses (c ∷ left) = tt

  skip_separator-OnlyRefuses : (left : Bytes) → OnlyRefuses (skip_separator d left)
  unfolding skip_separator
  skip_separator-OnlyRefuses left =
      if-OnlyRefuses d.has_20_separator _ _
        (>>=-OnlyRefuses (check_n_skip_char d.base b'%' left) _ (char-OnlyRefuses d.base b'%' left)
          (λ a.
            >>=-OnlyRefuses (check_n_skip_char d.base b'2' a) _ (char-OnlyRefuses d.base b'2' a)
              (λ c. char-OnlyRefuses d.base b'0' c)))
        (char-OnlyRefuses d.base d.separator left)

  separator-OnlyRefuses : (left : Bytes) → OnlyRefuses (check_separator d left)
  unfolding check_separator
  separator-OnlyRefuses [] = tt
  separator-OnlyRefuses (c ∷ left) =
      >>=-OnlyRefuses (skip_separator d (c ∷ left)) _ (skip_separator-OnlyRefuses (c ∷ left))
        element-OnlyRefuses

  running_name-OnlyRefuses : (left : Bytes) → OnlyRefuses (check_running_name d left)
  unfolding check_running_name
  running_name-OnlyRefuses left =
      if-OnlyRefuses d.has_running_name _ _
        (>>=-OnlyRefuses (check_n_skip_name d.base (at left)) _ (name-OnlyRefuses d.base (at left))
          (λ named.
            >>=-OnlyRefuses (check_n_skip_char d.base b'=' named) _
              (char-OnlyRefuses d.base b'=' named) element-OnlyRefuses))
        tt

  round-OnlyRefuses : (s : State) → OnlyRefuses (array_round d s)
  unfolding array_round
  round-OnlyRefuses (left, ret) =
      >>=-OnlyRefuses (check_running_name d left) _ (running_name-OnlyRefuses left) (λ named.
        >>=-OnlyRefuses (deserialize_item d d.items_type (named, ret)) _
          (item-OnlyRefuses d.items_type (named, ret))
          (λ (rest, ret').
            >>=-OnlyRefuses (check_separator d rest) _ (separator-OnlyRefuses rest) (λ next. tt)))

  array_loop-OnlyRefuses : (fuel : ℕ) (s : State) → OnlyRefuses (array_loop d fuel s)
  unfolding array_loop
  array_loop-OnlyRefuses zero ([], ret) = tt
  array_loop-OnlyRefuses zero (c ∷ left, ret) = tt
  array_loop-OnlyRefuses (suc fuel) ([], ret) = tt
  array_loop-OnlyRefuses (suc fuel) (c ∷ left, ret) =
      >>=-OnlyRefuses (array_round d (c ∷ left, ret)) _ (round-OnlyRefuses (c ∷ left, ret))
        (array_loop-OnlyRefuses fuel)

  pub array_deserialize-OnlyRefuses : (range : ParamRange) → OnlyRefuses (deserialize d range)
  unfolding deserialize
  array_deserialize-OnlyRefuses range =
      prologue-OnlyRefuses d.base (d.base.skip_name && not d.has_running_name) range _ (λ c.
        >>=-OnlyRefuses (check_data d.base c) _ (data-OnlyRefuses d.base c) (λ left.
          >>=-OnlyRefuses (array_loop d (length left) (left, codes "[")) _
            (array_loop-OnlyRefuses (length left) (left, codes "["))
            (λ (rest, ret).
              >>=-OnlyRefuses (check_end d.base (at rest)) _ (end-OnlyRefuses d.base (at rest))
                (λ u. tt))))
