-- ===== src/Deserializer/Array.antt =====
-- include/deserializers/array_deserializer.hpp and src/deserializers/array_deserializer.cpp
pub mod Ends
pub mod Refuses
pub mod Written
pub mod Items
use cpp_oasvalidator.Prelude.{
  ℕ, zero, suc, Bytes, codes, length, [], ◌∷◌, ◌++◌, ◌==◌, if◌then◌else◌, Bool, true, false, not,
  ◌&&◌,
}
use cpp_oasvalidator.Common.{
  PrimitiveType, boolean, integer, number, string, Result, ok, out_of_fuel, ◌>>=◌,
}
use cpp_oasvalidator.Trie.{ParamRange}
use cpp_oasvalidator.Deserializer.{
  Base, Cursor, at, State, refuse, check_n_skip_start, check_n_skip_char, check_n_skip_name,
  skip_name_if, check_data, check_end, deserialize_boolean, deserialize_integer, deserialize_number,
  deserialize_string, terminator,
}

pub record ArrayDeserializer : Type 0 where
  pub base : Base
  pub items_type : PrimitiveType
  pub separator : ℕ
  pub has_running_name : Bool
  pub has_20_separator : Bool

-- `CheckElementData`
unfoldable pub check_element_data : Base → Bytes → Result Bytes
check_element_data b [] = refuse b "Data for item of parameter '" "' is missing"
check_element_data b (c ∷ left) = ok (c ∷ left)

-- The characters of a separator, one `CheckNSkipChar` for each.
unfoldable pub skip_separator : ArrayDeserializer → Bytes → Result Bytes
skip_separator d left =
    if d.has_20_separator
    then (do
      a ← check_n_skip_char d.base b'%' left
      b ← check_n_skip_char d.base b'2' a
      check_n_skip_char d.base b'0' b)
    else check_n_skip_char d.base d.separator left

-- `CheckSeparator`
unfoldable pub check_separator : ArrayDeserializer → Bytes → Result Bytes
check_separator d [] = ok []
check_separator d (c ∷ left) = do rest ← skip_separator d (c ∷ left); check_element_data d.base rest

-- The head of a round, under `if (has_running_name_)`.
unfoldable pub check_running_name : ArrayDeserializer → Bytes → Result Bytes
check_running_name d left =
    if d.has_running_name
    then (do
      named ← check_n_skip_name d.base (at left)
      rest ← check_n_skip_char d.base b'=' named
      check_element_data d.base rest)
    else ok left

-- What the four loops do differently.
unfoldable pub deserialize_item : ArrayDeserializer → PrimitiveType → State → Result State
deserialize_item d boolean s = deserialize_boolean d.base s
deserialize_item d integer s = deserialize_integer d.base s
deserialize_item d number s = deserialize_number d.base s
deserialize_item d string s = deserialize_string d.base (terminator d.separator) s

-- A round of `DeserializeBooleanArray`, `DeserializeIntegerArray`, `DeserializeNumberArray` and
-- `DeserializeStringArray`.
unfoldable pub array_round : ArrayDeserializer → State → Result State
array_round d (left, ret) = do
  named ← check_running_name d left
  (rest, ret') ← deserialize_item d d.items_type (named, ret)
  next ← check_separator d rest
  ok (next, ret' ++ b',' ∷ [])

-- `while (cursor < end)`
unfoldable pub array_loop : ArrayDeserializer → ℕ → State → Result State
array_loop d zero ([], ret) = ok ([], ret)
array_loop d zero (c ∷ left, ret) = out_of_fuel
array_loop d (suc fuel) ([], ret) = ok ([], ret)
array_loop d (suc fuel) (c ∷ left, ret) = do s ← array_round d (c ∷ left, ret); array_loop d fuel s

-- `if (',' == ret.back()) ret.back() = ']'; else ret.push_back(']');`
unfoldable pub close_list : Bytes → Bytes
close_list [] = b']' ∷ []
close_list (c ∷ []) = if c == b',' then b']' ∷ [] else c ∷ b']' ∷ []
close_list (c ∷ d ∷ ret) = c ∷ close_list (d ∷ ret)

-- `ArrayDeserializer::Deserialize`. The fuel is the length of the text that is left.
unfoldable pub deserialize : ArrayDeserializer → ParamRange → Result Bytes
deserialize d range = do
  cursor ← check_n_skip_start d.base range.within range.beyond
  named ← skip_name_if d.base (d.base.skip_name && not d.has_running_name) cursor
  left ← check_data d.base named
  (rest, ret) ← array_loop d (length left) (left, codes "[")
  _ ← check_end d.base (at rest)
  ok (close_list ret)
