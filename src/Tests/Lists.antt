-- ===== src/Tests/Lists.antt =====
-- Array parameters on concrete texts.
use mathlib.Core.List.{map}
use cpp_oasvalidator.Prelude.{codes, strip, [], ◌∷◌, ◌++◌, true, false, ◌≡◌, refl, arith}
use cpp_oasvalidator.Common.{integer, string, label, ok}
use cpp_oasvalidator.Deserializer.{
  is_digit, check_n_skip_start, check_n_skip_char, check_n_skip_name, skip_name_if, check_data,
  check_end, refuse, hex_pair, hex_lookup, decode_loop, deserialize_string,
}
use cpp_oasvalidator.Deserializer.Integer.{unsigned, negative}
use cpp_oasvalidator.Deserializer.Array
use cpp_oasvalidator.Deserializer.Array.{
  ArrayDeserializer, array_loop, array_round, check_running_name, deserialize_item, check_separator,
  skip_separator, check_element_data, close_list,
}
use cpp_oasvalidator.Deserializer.Array.Written.{written, listed, array_deserialize-written}
use cpp_oasvalidator.Deserializer.Array.Items.{
  integer_item, string_item, integer-IsRead, array_deserialize-strings,
}
use cpp_oasvalidator.Validators.Param.Style.{get_array_items_separator}
use cpp_oasvalidator.Validators.Param.Arrays.{for_array, serialized, array_deserialize-serialized}
use cpp_oasvalidator.Tests.Documents.{library}
use cpp_oasvalidator.Tests.Parameters.{alone, form_ids, is_lower, lower-CanKeep}

-- `style=simple`: the items with commas between them
abbrev tags : ArrayDeserializer
tags = record {
  base = record { param_name = codes "tags"; start = 0; skip_name = false };
  items_type = string;
  separator = b',';
  has_running_name = false;
  has_20_separator = false;
}

-- `style=spaceDelimited`, `explode=false`
abbrev spaced_tags : ArrayDeserializer
spaced_tags = record {
  base = record { param_name = codes "tags"; start = 0; skip_name = true };
  items_type = string;
  separator = b'%';
  has_running_name = false;
  has_20_separator = true;
}

-- One item with encoded quotation marks gives the text of a list of two items.
quotes_read : Array.deserialize tags (alone "a%22%2C%22b") ≡ ok (codes "[\"a\",\"b\"]")
unfolding Array.deserialize check_n_skip_start skip_name_if check_data array_loop array_round
    check_running_name deserialize_item deserialize_string decode_loop hex_pair hex_lookup
    check_separator skip_separator check_end close_list
quotes_read = refl

-- A space between two items, and an encoded slash in the first of them
encoded_item_refused :
    Array.deserialize spaced_tags (alone "tags=a%2Fb%20c")
    ≡ refuse spaced_tags.base "Invalid serialization of ' for parameter '" "'"
unfolding Array.deserialize check_n_skip_start skip_name_if check_n_skip_name strip
    check_n_skip_char check_data array_loop array_round check_running_name deserialize_item
    deserialize_string decode_loop check_separator skip_separator refuse
encoded_item_refused = refl

array_deserialize-written_example :
    Array.deserialize form_ids (record {
      within = written form_ids (integer_item (codes "1")) (integer_item (codes "-20") ∷ []);
      beyond = codes "&page=2";
    })
    ≡ ok (b'[' ∷ (listed (integer_item (codes "1")) (integer_item (codes "-20") ∷ []) ++ b']' ∷ []))
array_deserialize-written_example =
    array_deserialize-written form_ids (integer_item (codes "1")) (integer_item (codes "-20") ∷ [])
      (codes "&page=2") (integer-IsRead form_ids (codes "1") refl refl (unsigned b'1' [] refl tt))
      (
        integer-IsRead form_ids (codes "-20") refl refl (negative b'2' (codes "0") refl (refl, tt)),
        tt,
      )

array_deserialize-strings_example :
    Array.deserialize tags (record {
      within =
          written tags
            (string_item is_lower (codes "a,b"))
            (map (string_item is_lower) (codes "c" ∷ []));
      beyond = [];
    })
    ≡ ok (
        b'['
        ∷ (listed (string_item is_lower (codes "a,b")) (map (string_item is_lower) (codes "c" ∷ []))
            ++ b']' ∷ []))
array_deserialize-strings_example =
    array_deserialize-strings tags is_lower (codes "a,b") (codes "c" ∷ []) [] refl refl
      lower-CanKeep (omega arith, λ e. cc) ((omega arith, λ e. cc), tt)

dot_no_digit : is_digit (get_array_items_separator label true) ≡ false
unfolding get_array_items_separator
dot_no_digit = refl

-- `explode=true` with `style=label`: `.1.-20`
array_deserialize-serialized_example :
    Array.deserialize (for_array library (codes "id") (codes "path") label true integer) (record {
      within =
          serialized label true
            (codes "id")
            (integer_item (codes "1"))
            (integer_item (codes "-20") ∷ []);
      beyond = codes "/posts";
    })
    ≡ ok (b'[' ∷ (listed (integer_item (codes "1")) (integer_item (codes "-20") ∷ []) ++ b']' ∷ []))
array_deserialize-serialized_example =
    array_deserialize-serialized library (codes "id") (codes "path") label true integer
      (integer_item (codes "1")) (integer_item (codes "-20") ∷ []) (codes "/posts") refl
      (integer-IsRead (for_array library (codes "id") (codes "path") label true integer) (codes "1")
        refl dot_no_digit (unsigned b'1' [] refl tt))
      (
        integer-IsRead (for_array library (codes "id") (codes "path") label true integer)
            (codes "-20") refl dot_no_digit (negative b'2' (codes "0") refl (refl, tt)),
        tt,
      )
