-- ===== src/Tests/Parameters.antt =====
-- include/deserializers and src/deserializers on concrete parameters, among them some of
-- test/unittest/src/deserializers.
use cpp_oasvalidator.Prelude.{
  ℕ, Bytes, String, ◌↔◌, codes, equal, strip, leb, [], ◌∷◌, ◌++◌, ◌&&◌, Bool, true, false, ◌≡◌, ◌≢◌,
  refl, arith,
}
use cpp_oasvalidator.Common.{integer, string, ok, out_of_fuel}
use cpp_oasvalidator.Common.Fragments.{seek}
use cpp_oasvalidator.Trie.{ParamRange}
use cpp_oasvalidator.Deserializer.{
  check_n_skip_start, check_n_skip_char, check_n_skip_name, skip_name_if, check_data, check_end,
  decode_loop, deserialize_integer, deserialize_string, terminator,
}
use cpp_oasvalidator.Deserializer.Integer.{Front, deserialize_integer_iff}
use cpp_oasvalidator.Deserializer.Array
use cpp_oasvalidator.Deserializer.Array.{
  ArrayDeserializer, array_loop, array_round, check_running_name, deserialize_item, check_separator,
  skip_separator, check_element_data, close_list,
}
use cpp_oasvalidator.Deserializer.Array.Ends.{array_deserialize-Ends}
use cpp_oasvalidator.Deserializer.Object
use cpp_oasvalidator.Deserializer.Object.{
  ObjectDeserializer, at_key, deserialize_key, deserialize_value, skip_vk_separator, member_round,
  read_key, object_loop,
}
use cpp_oasvalidator.Deserializer.Object.Ends.{object_deserialize-Ends}
use cpp_oasvalidator.Deserializer.Object.Followed.{object_followed_refused}
use cpp_oasvalidator.Deserializer.Decode.{encode, CanKeep, deserialize_string-encode}

abbrev pub alone : String → ParamRange
alone s = record { within = codes s; beyond = [] }

-- `style=form`, `explode=true`: a name before each item, and `&` between two of them
abbrev pub form_ids : ArrayDeserializer
form_ids = record {
  base = record { param_name = codes "id"; start = 0; skip_name = true };
  items_type = integer;
  separator = b'&';
  has_running_name = true;
  has_20_separator = false;
}

form_ids_read : Array.deserialize form_ids (alone "id=1&id=-20&id=3") ≡ ok (codes "[1,-20,3]")
unfolding Array.deserialize check_n_skip_start skip_name_if check_data array_loop array_round
    check_running_name check_n_skip_name strip check_n_skip_char check_element_data deserialize_item
    deserialize_integer check_separator skip_separator check_end close_list
form_ids_read = refl

-- `style=deepObject`
abbrev deep_filter : ObjectDeserializer
deep_filter = record {
  base = record { param_name = codes "f"; start = 0; skip_name = true };
  kv_separator = b'=';
  vk_separator = b'&';
  is_deep_obj = true;
  kt_map = (codes "\"a\"", integer) ∷ (codes "\"b\"", string) ∷ [];
}

deep_filter_read :
    Object.deserialize deep_filter (alone "f[a]=1&f[b]=x") ≡ ok (codes "{\"a\":1,\"b\":\"x\"}")
unfolding Object.deserialize check_n_skip_start skip_name_if check_data object_loop read_key
    check_n_skip_name strip check_n_skip_char deserialize_key seek member_round at_key equal
    deserialize_value deserialize_integer deserialize_string decode_loop skip_vk_separator check_end
deep_filter_read = refl

array_deserialize-Ends_example : Array.deserialize form_ids (alone "id=1&id=-20&id=3") ≢ out_of_fuel
array_deserialize-Ends_example = array_deserialize-Ends form_ids (alone "id=1&id=-20&id=3")

object_deserialize-Ends_example :
    Object.deserialize deep_filter (alone "f[a]=1&f[b]=x") ≢ out_of_fuel
object_deserialize-Ends_example = object_deserialize-Ends deep_filter (alone "f[a]=1&f[b]=x")

-- The text that was accepted above, with another query parameter behind it.
object_followed_refused_example :
    Object.deserialize deep_filter
      (record { within = codes "f[a]=1&f[b]=x"; beyond = codes "&page=2" })
    ≢ ok (codes "{\"a\":1,\"b\":\"x\"}")
object_followed_refused_example =
    object_followed_refused deep_filter (codes "f[a]=1&f[b]=x") (codes "page=2")
      (codes "{\"a\":1,\"b\":\"x\"}") (omega arith)

abbrev pub is_lower : ℕ → Bool
is_lower c = leb b'a' c && leb c b'z'

pub lower-CanKeep : CanKeep (terminator b',') is_lower
lower-CanKeep = record {
  no_percent = refl;
  no_plus = refl;
  no_stop = λ c h. ground arith;
  percent_goes_on = refl;
}

deserialize_string-encode_example :
    deserialize_string form_ids.base
      (terminator b',')
      (encode is_lower (codes "a\"b,") ++ codes ",c", [])
    ≡ ok (codes ",c", codes "\"a\"b,\"")
deserialize_string-encode_example =
    deserialize_string-encode form_ids.base (terminator b',') is_lower lower-CanKeep (codes "a\"b,")
      (codes ",c") [] (omega arith) refl

deserialize_integer_iff_example :
    (deserialize_integer form_ids.base (codes "-20&id=3", codes "[1,")
      ≡ ok (codes "&id=3", codes "[1,-20"))
    ↔ ((text : Bytes) × Front (codes "-20&id=3") text (codes "&id=3")
        × (codes "[1,-20" ≡ codes "[1," ++ text))
deserialize_integer_iff_example =
    deserialize_integer_iff form_ids.base (codes "-20&id=3") (codes "[1,") (codes "&id=3")
      (codes "[1,-20")
