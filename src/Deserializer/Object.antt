-- ===== src/Deserializer/Object.antt =====
-- include/deserializers/object_deserializer.hpp and src/deserializers/object_deserializer.cpp
pub mod Shrinks
pub mod Ends
pub mod Followed
pub mod Refuses
pub mod Written
use cpp_oasvalidator.Prelude.{
  ℕ, zero, suc, Bytes, codes, equal, length, List, [], ◌∷◌, ◌++◌, ◌==◌, if◌then◌else◌, Bool, true,
  false, not, ◌&&◌, Option, none, some,
}
use cpp_oasvalidator.Common.{
  PrimitiveType, boolean, integer, number, string, Result, ok, throw, out_of_fuel, ◌>>=◌,
}
use cpp_oasvalidator.Common.Fragments.{seek, skip_one}
use cpp_oasvalidator.Trie.{ParamRange}
use cpp_oasvalidator.Deserializer.{
  Base, Cursor, at, past_end, State, peek, advance, refuse, check_n_skip_start, check_n_skip_char,
  check_n_skip_name, skip_name_if, check_data, check_end, deserialize_boolean, deserialize_integer,
  deserialize_number, deserialize_string, terminator,
}

-- `ObjKTMap`: the keys, in their quotation marks, with the types of their values
abbrev pub ObjKtMap : Type 0
ObjKtMap = List (Bytes × PrimitiveType)

pub record ObjectDeserializer : Type 0 where
  pub base : Base
  pub kv_separator : ℕ
  pub vk_separator : ℕ
  pub is_deep_obj : Bool
  pub kt_map : ObjKtMap

-- `kt_map_.at(key)`; `none` is the exception `std::out_of_range`.
unfoldable pub at_key : Bytes → ObjKtMap → Option PrimitiveType
at_key key [] = none
at_key key ((k, t) ∷ m) = if equal k key then some t else at_key key m

-- `DeserializeKey` on a cleared key: the key, and what is left behind the terminator
unfoldable pub deserialize_key : ℕ → Bytes → Bytes × Bytes
deserialize_key t left =
    let (name, from) = seek left t in (b'"' ∷ (name ++ b'"' ∷ []), skip_one from)

-- The `switch` over the type that the map has for the key.
unfoldable pub deserialize_value : ObjectDeserializer → PrimitiveType → State → Result State
deserialize_value d boolean s = deserialize_boolean d.base s
deserialize_value d integer s = deserialize_integer d.base s
deserialize_value d number s = deserialize_number d.base s
deserialize_value d string s = deserialize_string d.base (terminator d.vk_separator) s

-- `if (*cursor == vk_separator_) { ret.push_back(','); ++cursor; }`. The cursor may stand at `end`,
-- and is then moved behind it.
unfoldable pub skip_vk_separator : ObjectDeserializer → Bytes → State → Cursor × Bytes
skip_vk_separator d beyond (left, ret) =
    if peek left beyond == d.vk_separator then (advance left, ret ++ b',' ∷ []) else (at left, ret)

-- The body of the `try` block, for the key that was read.
unfoldable pub member_round : ObjectDeserializer → Bytes → Bytes → State → Result (Cursor × Bytes)
member_round d beyond key (left, ret) = elim (at_key key d.kt_map) [
  | some t ↦ do
    s ← deserialize_value d t (left, (ret ++ key) ++ b':' ∷ [])
    ok (skip_vk_separator d beyond s)
  | none ↦ refuse d.base "Invalid format for '" "'"
]

-- What stands before the `try` block, in the loop for deep objects and in the other one.
unfoldable pub read_key : ObjectDeserializer → Bytes → Result (Bytes × Bytes)
read_key d left =
    if d.is_deep_obj
    then (do
      named ← check_n_skip_name d.base (at left)
      opened ← check_n_skip_char d.base b'[' named
      let (key, rest) = deserialize_key b']' opened
      rest' ← check_n_skip_char d.base b'=' rest
      ok (key, rest'))
    else ok (deserialize_key d.kv_separator left)

-- `while (cursor < end)`
unfoldable pub object_loop :
    ObjectDeserializer → Bytes → ℕ → Cursor → Bytes → Result (Cursor × Bytes)
object_loop d beyond fuel past_end ret = ok (past_end, ret)
object_loop d beyond fuel (at []) ret = ok (at [], ret)
object_loop d beyond zero (at (c ∷ left)) ret = out_of_fuel
object_loop d beyond (suc fuel) (at (c ∷ left)) ret = do
  (key, rest) ← read_key d (c ∷ left)
  (cursor, ret') ← member_round d beyond key (rest, ret)
  object_loop d beyond fuel cursor ret'

-- `ObjectDeserializer::Deserialize`. The fuel is the length of the text that is left.
unfoldable pub deserialize : ObjectDeserializer → ParamRange → Result Bytes
deserialize d range = do
  cursor ← check_n_skip_start d.base range.within range.beyond
  named ← skip_name_if d.base (d.base.skip_name && not d.is_deep_obj) cursor
  left ← check_data d.base named
  (cursor', ret) ← object_loop d range.beyond (length left) (at left) (codes "{")
  _ ← check_end d.base cursor'
  ok (ret ++ b'}' ∷ [])
