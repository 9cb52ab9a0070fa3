-- ===== src/Deserializer.antt =====
-- include/deserializers/base_deserializer.hpp and src/deserializers/base_deserializer.cpp: the
-- checks on the cursor, and the text that each primitive type is read from.
pub mod Suffix
pub mod Ends
pub mod Prologue
pub mod Prefix
pub mod Decode
pub mod Integer
pub mod Refuses
pub mod Primitive
pub mod Array
pub mod Object
pub mod Content
use Prim.Native.Nat.{bit_or}
use cpp_oasvalidator.Prelude.{
  ℕ, ◌+◌, ◌-◌, ◌*◌, String, Bytes, codes, strip, leb, List, [], ◌∷◌, ◌++◌, ◌==◌, if◌then◌else◌,
  Bool, true, false, not, ◌&&◌, ◌||◌, Option, none, some,
}
use cpp_oasvalidator.Common.{Result, ok, throw, deserialization, ◌>>=◌}

-- The fields of `BaseDeserializer`. The byte 0 as `start` means that there is none.
pub record Base : Type 0 where
  pub param_name : Bytes
  pub start : ℕ
  pub skip_name : Bool

-- A cursor with the text that is left before `end`, or one that stands behind `end`.
pub data Cursor : Type 0 where
  at : Bytes → Cursor
  past_end : Cursor

-- `*cursor`, with the text `beyond` from `end` on and the terminating 0 behind that.
abbrev pub peek : Bytes → Bytes → ℕ
peek [] [] = 0
peek [] (y ∷ beyond) = y
peek (x ∷ left) beyond = x

-- `++cursor`
abbrev pub advance : Bytes → Cursor
advance [] = past_end
advance (x ∷ left) = at left

-- `throw DeserializationException(before + param_name_ + after)`
unfoldable pub refuse {ℓ} : {A : Type ℓ} → Base → String → String → Result A
refuse b before after = throw (deserialization (codes before ++ (b.param_name ++ codes after)))

-- `CheckNSkipStart`
unfoldable pub check_n_skip_start : Base → Bytes → Bytes → Result Cursor
check_n_skip_start b left beyond =
    if b.start == 0
    then ok (at left)
    else if b.start == peek left beyond
    then ok (advance left)
    else throw (
        deserialization (
          codes "Parameter '"
          ++ (b.param_name ++ (codes "' should start with '" ++ (b.start ∷ codes "'")))))

-- `CheckNSkipChar`, at a cursor that is not behind `end`
unfoldable pub check_n_skip_char : Base → ℕ → Bytes → Result Bytes
check_n_skip_char b c [] = ok []
check_n_skip_char b c (x ∷ left) =
    if c == x then ok left else refuse b "Invalid serialization of ' for parameter '" "'"

-- `CheckNSkipName`. Behind `end` the distance is negative.
unfoldable pub check_n_skip_name : Base → Cursor → Result Bytes
check_n_skip_name b past_end = refuse b "Parameter name mismatch for the parameter '" "'"
check_n_skip_name b (at left) = elim (strip b.param_name left) [
  | some rest ↦ ok rest
  | none ↦ refuse b "Parameter name mismatch for the parameter '" "'"
]

-- `CheckNSkipName` and `CheckNSkipChar(…, '=')`, where the test before them passes
unfoldable pub skip_name_if : Base → Bool → Cursor → Result Cursor
skip_name_if b false cursor = ok cursor
skip_name_if b true cursor = do
  left ← check_n_skip_name b cursor
  left' ← check_n_skip_char b b'=' left
  ok (at left')

-- `CheckData`; behind it there is text before `end`
unfoldable pub check_data : Base → Cursor → Result Bytes
check_data b (at (x ∷ left)) = ok (x ∷ left)
check_data b _ = refuse b "Parameter '" "' has no data"

-- `CheckEnd`
unfoldable pub check_end : Base → Cursor → Result (Unit {0})
check_end b (at []) = ok tt
check_end b _ = refuse b "Invalid serialization of parameter '" "'"

-- `kHexLookupTable`, with `none` for its entries of -1
unfoldable pub hex_lookup : ℕ → Option ℕ
hex_lookup i =
    if leb b'0' i && leb i b'9'
    then some (i - b'0')
    else if leb b'A' i && leb i b'F'
    then some (i - b'A' + 10)
    else if leb b'a' i && leb i b'f'
    then some (i - b'a' + 10)
    else none

-- The readers below take the text left before `end` and the output so far, and give both back.
abbrev pub State : Type 0
State = Bytes × Bytes

-- `DeserializeBoolean`
unfoldable pub deserialize_boolean : Base → State → Result State
deserialize_boolean b (left, ret) = elim (strip (codes "true") left) [
  | some rest ↦ ok (rest, ret ++ codes "true")
  | none ↦ elim (strip (codes "false") left) [
    | some rest ↦ ok (rest, ret ++ codes "false")
    | none ↦ refuse b "Invalid `boolean` value for parameter `" "`"
  ]
]

-- `isdigit`
abbrev pub is_digit : ℕ → Bool
is_digit c = leb b'0' c && leb c b'9'

-- `if (cursor < end && '-' == *cursor) ++cursor;`: what was passed over, and what is left
abbrev pub skip_minus : Bytes → Bytes × Bytes
skip_minus [] = ([], [])
skip_minus (c ∷ left) = if b'-' == c then (c ∷ [], left) else ([], c ∷ left)

-- `while (cursor < end && isdigit(*cursor)) ++cursor;`, with the text passed over so far
unfoldable pub digits_loop : Bytes → Bytes → Bytes × Bytes
digits_loop text [] = (text, [])
digits_loop text (c ∷ left) =
    let more = digits_loop (text ++ c ∷ []) left in if is_digit c then more else (text, c ∷ left)

-- `cursor > start_cursor && (cursor - start_cursor != 1 || *start_cursor != '-')`
abbrev pub is_integer_text : Bytes → Bool
is_integer_text [] = false
is_integer_text (c ∷ []) = not (c == b'-')
is_integer_text (c ∷ d ∷ text) = true

-- `DeserializeInteger`
unfoldable pub deserialize_integer : Base → State → Result State
unfolding digits_loop
deserialize_integer b (left, ret) =
    let (minus, unsigned) = skip_minus left in
    let (text, rest) = digits_loop minus unsigned in
    if is_integer_text text
    then ok (rest, ret ++ text)
    else refuse b "Invalid 'integer' format for '" "'"

-- The loop of `DeserializeNumber`: the text passed over, `has_decimal_point` and what is left.
unfoldable pub number_loop : Base → Bytes → Bool → Bytes → Result (Bytes × Bool × Bytes)
number_loop b text has_decimal_point [] = ok (text, has_decimal_point, [])
number_loop b text has_decimal_point (c ∷ left) =
    let more = number_loop b (text ++ c ∷ []) (has_decimal_point || c == b'.') left in
    if is_digit c || c == b'.'
    then (if c == b'.' && has_decimal_point
        then refuse b "Multiple '.' in number for '" "'"
        else more)
    else ok (text, has_decimal_point, c ∷ left)

-- `*(cursor - 1)` behind a text that is not empty
abbrev pub last_byte : Bytes → ℕ
last_byte [] = 0
last_byte (c ∷ []) = c
last_byte (c ∷ d ∷ text) = last_byte (d ∷ text)

-- The test behind the loop, with its first two conditions by clauses.
abbrev pub is_number_start : Bytes → Bool
is_number_start [] = false
is_number_start (c ∷ []) = not (c == b'-') && not (c == b'.')
is_number_start (c ∷ d ∷ text) = true

abbrev pub is_number_text : Bytes → Bool → Bool
is_number_text text has_decimal_point =
    is_number_start text && (not has_decimal_point || not (last_byte text == b'.'))

-- `DeserializeNumber`
unfoldable pub deserialize_number : Base → State → Result State
unfolding number_loop
deserialize_number b (left, ret) = do
  let (minus, unsigned) = skip_minus left
  (text, has_decimal_point, rest) ← number_loop b minus false unsigned
  if is_number_text text has_decimal_point
      then ok (rest, ret ++ text)
      else refuse b "Invalid 'number' format for '" "'"

-- `static_cast<char>((dec1 << 4) | dec2)`, unless one of the two is negative
unfoldable pub hex_pair : Base → ℕ → ℕ → Result ℕ
hex_pair b h l = elim (hex_lookup h) [
  | some dec1 ↦ elim (hex_lookup l) [
    | some dec2 ↦ ok (bit_or (dec1 * 16) dec2)
    | none ↦ refuse b "Invalid HEX character for '" "'"
  ]
  | none ↦ refuse b "Invalid HEX character for '" "'"
]

-- What the loops below append for a byte that is no percent sign.
abbrev pub plain : ℕ → ℕ
plain c = if c == b'+' then b' ' else c

-- The decoding loop that both `DeserializeString` and `ContentDeserializer::Deserialize` have:
-- it goes on while `cursor < end` and the byte at the cursor passes no `stop`.
unfoldable pub decode_loop : Base → (ℕ → Bool) → Bytes → Bytes → Result State
decode_loop b stop [] ret = ok ([], ret)
decode_loop b stop (c ∷ []) ret =
    if stop c
    then ok (c ∷ [], ret)
    else if c == b'%'
    then refuse b "Incomplete percent encoding for '" "'"
    else ok ([], ret ++ plain c ∷ [])
decode_loop b stop (c ∷ h ∷ []) ret =
    let more = decode_loop b stop (h ∷ []) (ret ++ plain c ∷ []) in
    if stop c
    then ok (c ∷ h ∷ [], ret)
    else if c == b'%'
    then refuse b "Incomplete percent encoding for '" "'"
    else more
decode_loop b stop (c ∷ h ∷ l ∷ left) ret =
    let more = decode_loop b stop (h ∷ l ∷ left) (ret ++ plain c ∷ []) in
    let decoded = λ (x : ℕ). decode_loop b stop left (ret ++ x ∷ []) in
    if stop c
    then ok (c ∷ h ∷ l ∷ left, ret)
    else if c == b'%'
    then hex_pair b h l >>= decoded
    else more

-- `DeserializeString(cursor, end, ret)` and `DeserializeString(cursor, end, terminator, ret)`
unfoldable pub deserialize_string : Base → (ℕ → Bool) → State → Result State
deserialize_string b stop (left, ret) = do
  (rest, text) ← decode_loop b stop left (ret ++ b'"' ∷ [])
  ok (rest, text ++ b'"' ∷ [])

abbrev pub no_terminator : ℕ → Bool
no_terminator c = false

abbrev pub terminator : ℕ → ℕ → Bool
terminator t c = c == t
