-- ===== src/Deserializer/Object/Written.antt =====
-- `ObjectDeserializer::Deserialize` on an object that is written the way its style asks for.
use cpp_oasvalidator.Prelude.{
  ℕ, zero, suc, ◌≤◌, ◌<◌, Bytes, codes, length, length-append, All, List, [], ◌∷◌, ◌++◌,
  append_assoc, append-nil, ◌==◌, ==_iff, if◌then◌else◌, Bool, Bool-cases, false, not, ◌&&◌, some,
  inl, inr, ◌≡◌, ◌≢◌, refl, ◌∙◌, arith,
}
use cpp_oasvalidator.Common.{PrimitiveType, integer, string, ok, ◌>>=◌}
use cpp_oasvalidator.Common.Fragments.{Lacks, seek_found, append-cons-ne-nil}
use cpp_oasvalidator.Deserializer.{at, peek, check_end, is_digit, terminator}
use cpp_oasvalidator.Deserializer.Integer.{IsInteger, EndsDigits, deserialize_integer_iff}
use cpp_oasvalidator.Deserializer.Decode.{encode, CanKeep, StopsAt, deserialize_string-encode}
use cpp_oasvalidator.Deserializer.Prefix.{
  named, started, name_skipped, char_skipped, prologue_skipped,
}
use cpp_oasvalidator.Deserializer.Object.{
  ObjectDeserializer, at_key, deserialize_key, deserialize_value, skip_vk_separator, member_round,
  read_key, object_loop, deserialize,
}

-- A key, the text of its value, and the JSON text that this stands for.
pub record Member : Type 0 where
  pub key : Bytes
  pub text : Bytes
  pub json : Bytes

abbrev pub quoted : Bytes → Bytes
quoted s = b'"' ∷ (s ++ b'"' ∷ [])

-- The key in front of what follows, `name[key]=` for deep objects
abbrev pub keyed : ObjectDeserializer → Bytes → Bytes → Bytes
keyed d key s =
    if d.is_deep_obj
    then d.base.param_name ++ b'[' ∷ (key ++ b']' ∷ b'=' ∷ s)
    else key ++ d.kv_separator ∷ s

abbrev pub joined : ObjectDeserializer → Member → List Member → Bytes
joined d m [] = keyed d m.key m.text
joined d m (n ∷ ns) = keyed d m.key (m.text ++ d.vk_separator ∷ joined d n ns)

-- The whole parameter.
abbrev pub written : ObjectDeserializer → Member → List Member → Bytes
written d m ms =
    started d.base (named d.base (d.base.skip_name && not d.is_deep_obj) (joined d m ms))

-- The members in JSON, with commas between them.
abbrev pub listed : Member → List Member → Bytes
listed m [] = quoted m.key ++ b':' ∷ m.json
listed m (n ∷ ns) = quoted m.key ++ b':' ∷ (m.json ++ b',' ∷ listed n ns)

-- What may stand behind a value: the end, or the separator.
pub data Follows (d : ObjectDeserializer) : Bytes → Type 0 where
  at_end : Follows d []
  at_separator : (s : Bytes) → Follows d (d.vk_separator ∷ s)

-- The map has a type for the key, the key ends where the code looks for its end, and the reader for
-- the type takes the text for its JSON text.
pub record IsRead (d : ObjectDeserializer) (m : Member) : Type 0 where
  pub value_type : PrimitiveType
  pub known : at_key (quoted m.key) d.kt_map ≡ some value_type
  pub ends : Lacks (if d.is_deep_obj then b']' else d.kv_separator) m.key
  pub reads :
      (rest ret : Bytes)
      → Follows d rest
      → deserialize_value d value_type (m.text ++ rest, ret) ≡ ok (rest, ret ++ m.json)

module _ (d : ObjectDeserializer) where
  read_key-keyed :
      (m : Member) (s : Bytes) → IsRead d m → read_key d (keyed d m.key s) ≡ ok (quoted m.key, s)
  unfolding read_key deserialize_key
  read_key-keyed m s h = elim (Bool-cases d.is_deep_obj) [
    | inl e ↦
        let lacks : Lacks b']' m.key = rw e at h.ends in
        rw
          (
            e,
            name_skipped d.base (b'[' ∷ (m.key ++ b']' ∷ b'=' ∷ s)),
            char_skipped d.base b'[' (m.key ++ b']' ∷ b'=' ∷ s),
            seek_found m.key (b'=' ∷ s) b']' lacks,
            char_skipped d.base b'=' s,
          )
          refl
    | inr e ↦
        let lacks : Lacks d.kv_separator m.key = rw e at h.ends in
        rw (e, seek_found m.key s d.kv_separator lacks) refl
  ]

  -- A member, with what the loop makes of the text behind its value
  member_reads :
      (m : Member) (beyond rest ret : Bytes)
      → IsRead d m
      → Follows d rest
      → member_round d beyond (quoted m.key) (m.text ++ rest, ret)
        ≡ ok (skip_vk_separator d beyond (rest, ret ++ (quoted m.key ++ b':' ∷ m.json)))
  unfolding member_round
  member_reads m beyond rest ret h f =
      rw (member_round, h.known)
        (rw (h.reads rest ((ret ++ quoted m.key) ++ b':' ∷ []) f) (
          rw
            (
              append_assoc (ret ++ quoted m.key) (b':' ∷ []) m.json,
              append_assoc ret (quoted m.key) (b':' ∷ m.json),
            )
            refl))

  keyed-ne-nil : (key s : Bytes) → keyed d key s ≢ []
  keyed-ne-nil key s = elim (Bool-cases d.is_deep_obj) [
    | inl e ↦ rw e (append-cons-ne-nil d.base.param_name b'[' (key ++ b']' ∷ b'=' ∷ s))
    | inr e ↦ rw e (append-cons-ne-nil key d.kv_separator s)
  ]

  joined-ne-nil : (m : Member) (ms : List Member) → joined d m ms ≢ []
  joined-ne-nil m [] = keyed-ne-nil m.key m.text
  joined-ne-nil m (n ∷ ns) = keyed-ne-nil m.key (m.text ++ d.vk_separator ∷ joined d n ns)

  loop_step :
      (beyond : Bytes) (fuel : ℕ) (s key rest ret : Bytes)
      → s ≢ []
      → read_key d s ≡ ok (key, rest)
      → object_loop d beyond (suc fuel) (at s) ret
        ≡ (member_round d beyond key (rest, ret) >>= λ r. object_loop d beyond fuel r.0 r.1)
  unfolding object_loop
  loop_step beyond fuel [] key rest ret h e = absurd (h refl)
  loop_step beyond fuel (c ∷ s) key rest ret h e = rw (object_loop, e) refl

  loop_end :
      (beyond : Bytes) (fuel : ℕ) (ret : Bytes)
      → object_loop d beyond fuel (at []) ret ≡ ok (at [], ret)
  unfolding object_loop
  loop_end beyond zero ret = refl
  loop_end beyond (suc fuel) ret = refl

  loop_member :
      (m : Member) (beyond : Bytes) (fuel : ℕ) (rest ret : Bytes)
      → IsRead d m
      → Follows d rest
      → object_loop d beyond (suc fuel) (at (keyed d m.key (m.text ++ rest))) ret ≡ (
          let r = skip_vk_separator d beyond (rest, ret ++ (quoted m.key ++ b':' ∷ m.json)) in
          object_loop d beyond fuel r.0 r.1)
  loop_member m beyond fuel rest ret h f =
      loop_step beyond fuel (keyed d m.key (m.text ++ rest)) (quoted m.key) (m.text ++ rest) ret
        (keyed-ne-nil m.key (m.text ++ rest)) (read_key-keyed m (m.text ++ rest) h)
      ∙ rw (member_reads m beyond rest ret h f) refl

  object_loop-joined :
      (m : Member) (ms : List Member) (beyond : Bytes) (fuel : ℕ) (ret : Bytes)
      → IsRead d m
      → All (IsRead d) ms
      → peek [] beyond == d.vk_separator ≡ false
      → length ms < fuel
      → object_loop d beyond fuel (at (joined d m ms)) ret ≡ ok (at [], ret ++ listed m ms)
  unfolding skip_vk_separator
  object_loop-joined m ms beyond zero ret h hs u l = absurd (omega arith)
  object_loop-joined m [] beyond (suc fuel) ret h hs u l = rw (← append-nil m.text) (
      loop_member m beyond fuel [] ret h at_end
      ∙ rw (skip_vk_separator, u) (loop_end beyond fuel _))
  object_loop-joined m (n ∷ ns) beyond (suc fuel) ret h (k, hs) u l =
      loop_member m beyond fuel (d.vk_separator ∷ joined d n ns) ret h
        (at_separator (joined d n ns))
      ∙ rw (skip_vk_separator, (==_iff d.vk_separator d.vk_separator).1 refl)
          (object_loop-joined n ns beyond fuel _ k hs u (omega arith)
            ∙ rw
                (
                  append_assoc (ret ++ (quoted m.key ++ b':' ∷ m.json)) (b',' ∷ []) (listed n ns),
                  append_assoc ret (quoted m.key ++ b':' ∷ m.json) (b',' ∷ listed n ns),
                  append_assoc (quoted m.key) (b':' ∷ m.json) (b',' ∷ listed n ns),
                )
                refl)

  length-keyed : (key s : Bytes) → suc (length s) ≤ length (keyed d key s)
  length-keyed key s = elim (Bool-cases d.is_deep_obj) [
    | inl e ↦ rw e (
        omega (
          arith,
          length-append d.base.param_name (b'[' ∷ (key ++ b']' ∷ b'=' ∷ s)),
          length-append key (b']' ∷ b'=' ∷ s),
        ))
    | inr e ↦ rw e (omega (arith, length-append key (d.kv_separator ∷ s)))
  ]

  length-joined : (m : Member) (ms : List Member) → length ms < length (joined d m ms)
  length-joined m [] = omega (arith, length-keyed m.key m.text)
  length-joined m (n ∷ ns) =
      let behind = d.vk_separator ∷ joined d n ns in
      omega (
        arith,
        length-keyed m.key (m.text ++ behind),
        length-append m.text behind,
        length-joined n ns,
      )

  -- An object that is written as the style asks for, with the start byte, the name in front of the
  -- object or, for a deep object, of each key, and the separators behind the keys and between the
  -- members, is deserialized to the JSON object of its members in their order, if the map has each
  -- key, the reader for its type takes the text of the value for its JSON text, and the byte behind
  -- the object is not the separator.
  pub object_deserialize-written :
      (m : Member) (ms : List Member) (beyond : Bytes)
      → IsRead d m
      → All (IsRead d) ms
      → peek [] beyond == d.vk_separator ≡ false
      → deserialize d (record { within = written d m ms; beyond = beyond })
        ≡ ok (b'{' ∷ (listed m ms ++ b'}' ∷ []))
  unfolding deserialize
  object_deserialize-written m ms beyond h hs u =
      prologue_skipped d.base (d.base.skip_name && not d.is_deep_obj) (written d m ms) beyond _
        (joined d m ms) (joined-ne-nil m ms) refl
      ∙ rw
          (object_loop-joined m ms beyond (length (joined d m ms)) (codes "{") h hs u
            (length-joined m ms))
          (unfold check_end in refl)

  Follows-EndsDigits :
      is_digit d.vk_separator ≡ false → (rest : Bytes) → Follows d rest → EndsDigits rest
  Follows-EndsDigits n _ at_end = tt
  Follows-EndsDigits n _ (at_separator s) = n

  -- An integer stands for itself.
  pub integer-IsRead :
      (key t : Bytes)
      → at_key (quoted key) d.kt_map ≡ some integer
      → Lacks (if d.is_deep_obj then b']' else d.kv_separator) key
      → is_digit d.vk_separator ≡ false
      → IsInteger t
      → IsRead d (record { key = key; text = t; json = t })
  unfolding deserialize_value
  integer-IsRead key t e l n h = record {
    value_type = integer;
    known = e;
    ends = l;
    reads = λ rest ret f.
        (deserialize_integer_iff d.base (t ++ rest) ret rest (ret ++ t)).1
          (t, record { splits = refl; is_integer = h; ends = Follows-EndsDigits n rest f }, refl);
  }

  Follows-StopsAt : (rest : Bytes) → Follows d rest → StopsAt (terminator d.vk_separator) rest
  Follows-StopsAt _ at_end = tt
  Follows-StopsAt _ (at_separator s) = (==_iff d.vk_separator d.vk_separator).1 refl

  -- An encoded string stands for the string in quotation marks.
  pub string-IsRead :
      (keep : ℕ → Bool) (key s : Bytes)
      → at_key (quoted key) d.kt_map ≡ some string
      → Lacks (if d.is_deep_obj then b']' else d.kv_separator) key
      → CanKeep (terminator d.vk_separator) keep
      → All (λ c. c < 256) s
      → IsRead d (record { key = key; text = encode keep s; json = quoted s })
  unfolding deserialize_value
  string-IsRead keep key s e l can h = record {
    value_type = string;
    known = e;
    ends = l;
    reads = λ rest ret f.
        deserialize_string-encode d.base (terminator d.vk_separator) keep can s rest ret h
          (Follows-StopsAt rest f)
        ∙ rw (
          append_assoc (ret ++ b'"' ∷ []) s (b'"' ∷ []),
          append_assoc ret (b'"' ∷ []) (s ++ b'"' ∷ []),
        );
  }
