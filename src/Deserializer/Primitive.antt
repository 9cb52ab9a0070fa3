-- ===== src/Deserializer/Primitive.antt =====
-- include/deserializers/primitive_deserializer.hpp and src/deserializers/primitive_deserializer.cpp
pub mod Exact
use cpp_oasvalidator.Prelude.{Bytes, []}
use cpp_oasvalidator.Common.{PrimitiveType, boolean, integer, number, string, Result, ok, ◌>>=◌}
use cpp_oasvalidator.Trie.{ParamRange}
use cpp_oasvalidator.Deserializer.{
  Base, at, State, check_n_skip_start, skip_name_if, check_data, check_end, deserialize_boolean,
  deserialize_integer, deserialize_number, deserialize_string, no_terminator,
}

pub record PrimitiveDeserializer : Type 0 where
  pub base : Base
  pub param_type : PrimitiveType

-- The `switch` over `param_type_`.
unfoldable pub deserialize_primitive : Base → PrimitiveType → State → Result State
deserialize_primitive b boolean s = deserialize_boolean b s
deserialize_primitive b integer s = deserialize_integer b s
deserialize_primitive b number s = deserialize_number b s
deserialize_primitive b string s = deserialize_string b no_terminator s

-- `PrimitiveDeserializer::Deserialize`
unfoldable pub deserialize : PrimitiveDeserializer → ParamRange → Result Bytes
deserialize d range = do
  cursor ← check_n_skip_start d.base range.within range.beyond
  named ← skip_name_if d.base d.base.skip_name cursor
  left ← check_data d.base named
  (rest, ret) ← deserialize_primitive d.base d.param_type (left, [])
  _ ← check_end d.base (at rest)
  ok ret
