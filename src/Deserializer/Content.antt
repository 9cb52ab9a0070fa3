-- ===== src/Deserializer/Content.antt =====
-- include/deserializers/content_deserializer.hpp and src/deserializers/content_deserializer.cpp
use cpp_oasvalidator.Prelude.{Bytes, []}
use cpp_oasvalidator.Common.{Result, ok, throw, length_error, ◌>>=◌}
use cpp_oasvalidator.Trie.{ParamRange}
use cpp_oasvalidator.Deserializer.{
  Base, Cursor, at, past_end, check_n_skip_start, skip_name_if, check_end, decode_loop,
  no_terminator,
}

pub record ContentDeserializer : Type 0 where
  pub base : Base

-- `ret.reserve(static_cast<std::string::size_type>(end - cursor))`: behind `end` the size wraps
-- around to more than any string can hold.
unfoldable pub reserve : Cursor → Result Bytes
reserve (at left) = ok left
reserve past_end = throw length_error

-- `ContentDeserializer::Deserialize`
unfoldable pub deserialize : ContentDeserializer → ParamRange → Result Bytes
deserialize d range = do
  cursor ← check_n_skip_start d.base range.within range.beyond
  named ← skip_name_if d.base d.base.skip_name cursor
  left ← reserve named
  (rest, ret) ← decode_loop d.base no_terminator left []
  _ ← check_end d.base (at rest)
  ok ret
