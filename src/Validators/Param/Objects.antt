-- ===== src/Validators/Param/Objects.antt =====
-- An object parameter that is serialized as OpenAPI says, and the deserializer that
-- `GetDeserializer` makes for it.
use cpp_oasvalidator.Prelude.{
  ℕ, Bytes, codes, All, List, [], ◌∷◌, ◌++◌, ◌==◌, Bool, true, false, ◌≡◌, refl, ap,
}
use cpp_oasvalidator.Common.{
  ParamStyle, simple, label, matrix, form, space_delim, pipe_delim, deep_obj, content, ExtendedType,
  ok, ◌>>=◌,
}
use cpp_oasvalidator.Deserializer.{peek}
use cpp_oasvalidator.Deserializer.Object.{ObjKtMap, ObjectDeserializer}
use cpp_oasvalidator.Deserializer.Object.Written.{
  Member, joined, written, listed, IsRead, object_deserialize-written,
}
use cpp_oasvalidator.Validators.{Rapidjson}
use cpp_oasvalidator.Validators.Param.{deserialize}
use cpp_oasvalidator.Validators.Param.Style.{
  get_start_char, has_name_at_start, get_obj_kv_sep, get_obj_vk_sep, is_style,
}
use cpp_oasvalidator.Validators.Param.Build.{base_of, get_kt_map, object_case, type_switch}

-- The members, with a separator behind each key and another between two members.
abbrev pub pairs : ℕ → ℕ → Member → List Member → Bytes
pairs kv vk m [] = m.key ++ kv ∷ m.text
pairs kv vk m (n ∷ ns) = m.key ++ kv ∷ (m.text ++ vk ∷ pairs kv vk n ns)

-- `name[key]=value`, with a `&` between two members
abbrev pub bracketed : Bytes → Member → List Member → Bytes
bracketed name m [] = name ++ b'[' ∷ (m.key ++ b']' ∷ b'=' ∷ m.text)
bracketed name m (n ∷ ns) =
    name ++ b'[' ∷ (m.key ++ b']' ∷ b'=' ∷ (m.text ++ b'&' ∷ bracketed name n ns))

-- The styles that OpenAPI has for objects, exploded or not.
abbrev pub is_object_style : ParamStyle → Bool → Bool
is_object_style simple explode = true
is_object_style label explode = true
is_object_style matrix explode = true
is_object_style form explode = true
is_object_style deep_obj explode = explode
is_object_style _ explode = false

-- The serialization of an object in a style, exploded or not, by the tables of OpenAPI.
pub serialized : ParamStyle → Bool → Bytes → Member → List Member → Bytes
serialized simple true name m ms = pairs b'=' b',' m ms
serialized simple false name m ms = pairs b',' b',' m ms
serialized label true name m ms = b'.' ∷ pairs b'=' b'.' m ms
serialized label false name m ms = b'.' ∷ pairs b',' b',' m ms
serialized matrix true name m ms = b';' ∷ pairs b'=' b';' m ms
serialized matrix false name m ms = b';' ∷ (name ++ b'=' ∷ pairs b',' b',' m ms)
serialized form true name m ms = pairs b'=' b'&' m ms
serialized form false name m ms = name ++ b'=' ∷ pairs b',' b',' m ms
serialized deep_obj explode name m ms = bracketed name m ms
serialized _ explode name m ms = []

joined-pairs :
    (d : ObjectDeserializer) (m : Member) (ms : List Member)
    → d.is_deep_obj ≡ false
    → joined d m ms ≡ pairs d.kv_separator d.vk_separator m ms
joined-pairs d m [] h = rw h refl
joined-pairs d m (n ∷ ns) h = rw (h, joined-pairs d n ns h) refl

joined-bracketed :
    (d : ObjectDeserializer) (m : Member) (ms : List Member)
    → d.is_deep_obj ≡ true
    → d.vk_separator ≡ b'&'
    → joined d m ms ≡ bracketed d.base.param_name m ms
joined-bracketed d m [] h k = rw h refl
joined-bracketed d m (n ∷ ns) h k = rw (h, k, joined-bracketed d n ns h k) refl

module _ (lib : Rapidjson) where
  -- The deserializer for an object, with the types of its members.
  abbrev pub for_object : Bytes → Bytes → ParamStyle → Bool → ObjKtMap → ObjectDeserializer
  for_object name location style explode kt_map = record {
    base =
        base_of lib
          (record { param_name = name; location = location; style = style; explode = explode })
          (has_name_at_start location style explode ExtendedType.object);
    kv_separator = get_obj_kv_sep explode;
    vk_separator = get_obj_vk_sep style explode;
    is_deep_obj = is_style deep_obj style;
    kt_map = kt_map;
  }

  written-serialized :
      (name location : Bytes) (style : ParamStyle) (explode : Bool) (kt : ObjKtMap) (m : Member)
      (ms : List Member)
      → is_object_style style explode ≡ true
      → written (for_object name location style explode kt) m ms
        ≡ serialized style explode name m ms
  unfolding serialized get_start_char has_name_at_start get_obj_kv_sep get_obj_vk_sep is_style
  written-serialized name location simple true kt m ms h =
      joined-pairs (for_object name location simple true kt) m ms refl
  written-serialized name location simple false kt m ms h =
      joined-pairs (for_object name location simple false kt) m ms refl
  written-serialized name location label true kt m ms h =
      ap (◌∷◌ b'.') (joined-pairs (for_object name location label true kt) m ms refl)
  written-serialized name location label false kt m ms h =
      ap (◌∷◌ b'.') (joined-pairs (for_object name location label false kt) m ms refl)
  written-serialized name location matrix true kt m ms h =
      ap (◌∷◌ b';') (joined-pairs (for_object name location matrix true kt) m ms refl)
  written-serialized name location matrix false kt m ms h =
      ap (λ s. b';' ∷ (name ++ b'=' ∷ s))
        (joined-pairs (for_object name location matrix false kt) m ms refl)
  written-serialized name location form true kt m ms h =
      joined-pairs (for_object name location form true kt) m ms refl
  written-serialized name location form false kt m ms h =
      ap (λ s. name ++ b'=' ∷ s) (joined-pairs (for_object name location form false kt) m ms refl)
  written-serialized name location deep_obj true kt m ms h =
      joined-bracketed (for_object name location deep_obj true kt) m ms refl refl
  written-serialized name location deep_obj false kt m ms h = cc
  written-serialized name location space_delim explode kt m ms h = cc
  written-serialized name location pipe_delim explode kt m ms h = cc
  written-serialized name location content explode kt m ms h = cc

  -- An object that is serialized in a style that OpenAPI has for objects, exploded or not, as its
  -- tables say, is deserialized to the JSON object of its members by the deserializer that the code
  -- makes for the parameter, if the schema gives a type to each key, the reader for the type takes
  -- the text of the value for its JSON text, and the byte behind the object is not the separator
  -- between two members.
  pub object_deserialize-serialized :
      (param_val : lib.Value) (ref_keys : List Bytes) (name location : Bytes) (style : ParamStyle)
      (explode : Bool) (kt : ObjKtMap) (m : Member) (ms : List Member) (beyond : Bytes)
      → get_kt_map lib param_val ref_keys ≡ ok kt
      → is_object_style style explode ≡ true
      → IsRead (for_object name location style explode kt) m
      → All (IsRead (for_object name location style explode kt)) ms
      → peek [] beyond == get_obj_vk_sep style explode ≡ false
      → (type_switch lib param_val
            (record { param_name = name; location = location; style = style; explode = explode })
            (codes "object")
            ExtendedType.object
            ref_keys
          >>= λ d.
              deserialize d
                (record { within = serialized style explode name m ms; beyond = beyond }))
        ≡ ok (b'{' ∷ (listed m ms ++ b'}' ∷ []))
  unfolding type_switch object_case deserialize
  object_deserialize-serialized param_val ref_keys name location style explode kt m ms beyond e s h
        hs u =
      rw (type_switch, object_case, e)
        (rw (← written-serialized name location style explode kt m ms s) (
          object_deserialize-written (for_object name location style explode kt) m ms beyond h hs
            u))
