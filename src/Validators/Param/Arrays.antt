-- ===== src/Validators/Param/Arrays.antt =====
-- An array parameter that is serialized as OpenAPI says, and the deserializer that
-- `GetDeserializer` makes for it.
use cpp_oasvalidator.Prelude.{
  Bytes, codes, All, List, [], ◌∷◌, ◌++◌, Bool, true, false, ◌≡◌, refl, ap,
}
use cpp_oasvalidator.Common.{
  PrimitiveType, ParamStyle, simple, label, matrix, form, space_delim, pipe_delim, deep_obj,
  content, ExtendedType, ok,
}
use cpp_oasvalidator.Deserializer.Array.{ArrayDeserializer, deserialize}
use cpp_oasvalidator.Deserializer.Array.Written.{
  Item, separator_of, joined, written, listed, IsRead, array_deserialize-written,
}
use cpp_oasvalidator.Validators.{Rapidjson}
use cpp_oasvalidator.Validators.Param.Style.{
  get_start_char, has_name_at_start, get_array_items_separator, has_array_running_name, is_style,
}
use cpp_oasvalidator.Validators.Param.Build.{array_deserializer}

-- The texts of the items with a separator between them.
abbrev pub separated : Bytes → Item → List Item → Bytes
separated sep x [] = x.text
separated sep x (y ∷ ys) = x.text ++ (sep ++ separated sep y ys)

-- The same with the name in front of each.
abbrev pub each_named : Bytes → Bytes → Item → List Item → Bytes
each_named name sep x [] = name ++ b'=' ∷ x.text
each_named name sep x (y ∷ ys) = name ++ b'=' ∷ (x.text ++ (sep ++ each_named name sep y ys))

-- The styles that OpenAPI has for arrays.
abbrev pub is_array_style : ParamStyle → Bool
is_array_style deep_obj = false
is_array_style content = false
is_array_style _ = true

-- The serialization of an array in a style, exploded or not, by the tables of OpenAPI.
pub serialized : ParamStyle → Bool → Bytes → Item → List Item → Bytes
serialized simple explode name x xs = separated (codes ",") x xs
serialized label true name x xs = b'.' ∷ separated (codes ".") x xs
serialized label false name x xs = b'.' ∷ separated (codes ",") x xs
serialized matrix true name x xs = b';' ∷ each_named name (codes ";") x xs
serialized matrix false name x xs = b';' ∷ (name ++ b'=' ∷ separated (codes ",") x xs)
serialized form true name x xs = each_named name (codes "&") x xs
serialized form false name x xs = name ++ b'=' ∷ separated (codes ",") x xs
serialized space_delim true name x xs = each_named name (codes "&") x xs
serialized space_delim false name x xs = name ++ b'=' ∷ separated (codes "%20") x xs
serialized pipe_delim true name x xs = each_named name (codes "&") x xs
serialized pipe_delim false name x xs = name ++ b'=' ∷ separated (codes "|") x xs
serialized deep_obj explode name x xs = []
serialized content explode name x xs = []

joined-separated :
    (d : ArrayDeserializer) (x : Item) (xs : List Item)
    → d.has_running_name ≡ false
    → joined d x xs ≡ separated (separator_of d) x xs
joined-separated d x [] n = rw n
joined-separated d x (y ∷ ys) n = rw (n, joined-separated d y ys n)

joined-each_named :
    (d : ArrayDeserializer) (x : Item) (xs : List Item)
    → d.has_running_name ≡ true
    → joined d x xs ≡ each_named d.base.param_name (separator_of d) x xs
joined-each_named d x [] n = rw n
joined-each_named d x (y ∷ ys) n = rw (n, joined-each_named d y ys n)

module _ (lib : Rapidjson) where
  -- The deserializer for an array whose items have a primitive type.
  abbrev pub for_array : Bytes → Bytes → ParamStyle → Bool → PrimitiveType → ArrayDeserializer
  for_array name location style explode items_type =
      array_deserializer lib
        (record { param_name = name; location = location; style = style; explode = explode })
        (has_name_at_start location style explode ExtendedType.array) items_type

  written-serialized :
      (name location : Bytes) (style : ParamStyle) (explode : Bool) (t : PrimitiveType) (x : Item)
      (xs : List Item)
      → is_array_style style ≡ true
      → written (for_array name location style explode t) x xs ≡ serialized style explode name x xs
  unfolding serialized get_start_char has_name_at_start get_array_items_separator
      has_array_running_name is_style
  written-serialized name location simple true t x xs h =
      joined-separated (for_array name location simple true t) x xs refl
  written-serialized name location simple false t x xs h =
      joined-separated (for_array name location simple false t) x xs refl
  written-serialized name location label true t x xs h =
      ap (◌∷◌ b'.') (joined-separated (for_array name location label true t) x xs refl)
  written-serialized name location label false t x xs h =
      ap (◌∷◌ b'.') (joined-separated (for_array name location label false t) x xs refl)
  written-serialized name location matrix true t x xs h =
      ap (◌∷◌ b';') (joined-each_named (for_array name location matrix true t) x xs refl)
  written-serialized name location matrix false t x xs h =
      ap (λ s. b';' ∷ (name ++ b'=' ∷ s))
        (joined-separated (for_array name location matrix false t) x xs refl)
  written-serialized name location form true t x xs h =
      joined-each_named (for_array name location form true t) x xs refl
  written-serialized name location form false t x xs h =
      ap (λ s. name ++ b'=' ∷ s) (joined-separated (for_array name location form false t) x xs refl)
  written-serialized name location space_delim true t x xs h =
      joined-each_named (for_array name location space_delim true t) x xs refl
  written-serialized name location space_delim false t x xs h =
      ap (λ s. name ++ b'=' ∷ s)
        (joined-separated (for_array name location space_delim false t) x xs refl)
  written-serialized name location pipe_delim true t x xs h =
      joined-each_named (for_array name location pipe_delim true t) x xs refl
  written-serialized name location pipe_delim false t x xs h =
      ap (λ s. name ++ b'=' ∷ s)
        (joined-separated (for_array name location pipe_delim false t) x xs refl)
  written-serialized name location deep_obj explode t x xs h = cc
  written-serialized name location content explode t x xs h = cc

  -- An array that is serialized in the style of its parameter, exploded or not, as the tables of
  -- OpenAPI say, is deserialized to the JSON array of its items by the deserializer that the code
  -- makes for the style, if the reader of the items takes the text of each for its JSON text.
  pub array_deserialize-serialized :
      (name location : Bytes) (style : ParamStyle) (explode : Bool) (t : PrimitiveType) (x : Item)
      (xs : List Item) (beyond : Bytes)
      → is_array_style style ≡ true
      → IsRead (for_array name location style explode t) x
      → All (IsRead (for_array name location style explode t)) xs
      → deserialize
          (for_array name location style explode t)
          (record { within = serialized style explode name x xs; beyond = beyond })
        ≡ ok (b'[' ∷ (listed x xs ++ b']' ∷ []))
  array_deserialize-serialized name location style explode t x xs beyond s h hs =
      rw (← written-serialized name location style explode t x xs s)
        (array_deserialize-written (for_array name location style explode t) x xs beyond h hs)
