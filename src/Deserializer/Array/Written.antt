-- ===== src/Deserializer/Array/Written.antt =====
-- `ArrayDeserializer::Deserialize` on a list that is written the way its style asks for.
use cpp_oasvalidator.Prelude.{
  ℕ, zero, suc, ◌≤◌, Bytes, codes, length, length-append, All, List, [], ◌∷◌, ◌++◌, append_assoc,
  append-nil, ==_iff, if◌then◌else◌, Bool, Bool-cases, true, false, not, ◌&&◌, inl, inr, ◌≡◌, ◌≢◌,
  refl, ap, ◌∙◌, arith,
}
use cpp_oasvalidator.Common.{ok, ◌>>=◌}
use cpp_oasvalidator.Deserializer.{check_n_skip_char, check_end}
use cpp_oasvalidator.Deserializer.Prefix.{
  named, started, name_skipped, char_skipped, named-ne-nil, prologue_skipped,
}
use cpp_oasvalidator.Deserializer.Array.{
  ArrayDeserializer, check_element_data, skip_separator, check_separator, check_running_name,
  deserialize_item, array_round, array_loop, close_list, deserialize,
}

-- The text of an item, and the JSON text that it stands for.
pub record Item : Type 0 where
  pub text : Bytes
  pub json : Bytes

-- The separator between two items.
abbrev pub separator_of : ArrayDeserializer → Bytes
separator_of d = if d.has_20_separator then codes "%20" else d.separator ∷ []

-- The items, with the name in front of each where the style repeats it.
abbrev pub joined : ArrayDeserializer → Item → List Item → Bytes
joined d x [] = named d.base d.has_running_name x.text
joined d x (y ∷ ys) = named d.base d.has_running_name (x.text ++ (separator_of d ++ joined d y ys))

-- The whole parameter.
abbrev pub written : ArrayDeserializer → Item → List Item → Bytes
written d x xs =
    started d.base (named d.base (d.base.skip_name && not d.has_running_name) (joined d x xs))

-- The JSON texts with commas between them.
abbrev pub listed : Item → List Item → Bytes
listed x [] = x.json
listed x (y ∷ ys) = x.json ++ b',' ∷ listed y ys

-- What may stand behind an item: the end, or a separator.
pub data Follows (d : ArrayDeserializer) : Bytes → Type 0 where
  at_end : Follows d []
  at_separator : (s : Bytes) → Follows d (separator_of d ++ s)

-- The reader of items takes the text for its JSON text, and there is text to take.
pub record IsRead (d : ArrayDeserializer) (x : Item) : Type 0 where
  pub some_text : x.text ≢ []
  pub reads :
      (rest ret : Bytes)
      → Follows d rest
      → deserialize_item d d.items_type (x.text ++ rest, ret) ≡ ok (rest, ret ++ x.json)

module _ (d : ArrayDeserializer) where
  element : (s : Bytes) → s ≢ [] → check_element_data d.base s ≡ ok s
  unfolding check_element_data
  element [] h = absurd (h refl)
  element (c ∷ s) h = refl

  append-ne-nil : (s t : Bytes) → s ≢ [] → s ++ t ≢ []
  append-ne-nil [] t h e = h refl
  append-ne-nil (c ∷ s) t h e = cc

  running_name-named :
      (s : Bytes) → s ≢ [] → check_running_name d (named d.base d.has_running_name s) ≡ ok s
  unfolding check_running_name
  running_name-named s h = elim (Bool-cases d.has_running_name) [
    | inl b ↦ rw (b, name_skipped d.base (b'=' ∷ s), char_skipped d.base b'=' s) (element s h)
    | inr b ↦ rw b
  ]

  separator-separator_of : (s : Bytes) → s ≢ [] → check_separator d (separator_of d ++ s) ≡ ok s
  unfolding check_separator skip_separator check_n_skip_char
  separator-separator_of s h = elim (Bool-cases d.has_20_separator) [
    | inl b ↦ rw b (element s h)
    | inr b ↦ rw (b, (==_iff d.separator d.separator).1 refl) (element s h)
  ]

  joined-ne-nil : (x : Item) (xs : List Item) → IsRead d x → joined d x xs ≢ []
  joined-ne-nil x [] h = named-ne-nil d.base d.has_running_name x.text h.some_text
  joined-ne-nil x (y ∷ ys) h =
      named-ne-nil d.base d.has_running_name _ (append-ne-nil x.text _ h.some_text)

  -- A round on an item, with what `CheckSeparator` makes of the text behind it.
  round_reads :
      (x : Item) (rest next ret : Bytes)
      → IsRead d x
      → Follows d rest
      → check_separator d rest ≡ ok next
      → array_round d (named d.base d.has_running_name (x.text ++ rest), ret)
        ≡ ok (next, (ret ++ x.json) ++ b',' ∷ [])
  unfolding array_round
  round_reads x rest next ret h f e = rw (
    running_name-named (x.text ++ rest) (append-ne-nil x.text rest h.some_text),
    h.reads rest ret f,
    e,
  )

  loop_step :
      (fuel : ℕ) (s ret : Bytes)
      → s ≢ []
      → array_loop d (suc fuel) (s, ret) ≡ (array_round d (s, ret) >>= array_loop d fuel)
  unfolding array_loop
  loop_step fuel [] ret h = absurd (h refl)
  loop_step fuel (c ∷ s) ret h = refl

  loop_end : (fuel : ℕ) (ret : Bytes) → array_loop d fuel ([], ret) ≡ ok ([], ret)
  unfolding array_loop
  loop_end zero ret = refl
  loop_end (suc fuel) ret = refl

  array_loop-joined :
      (x : Item) (xs : List Item) (fuel : ℕ) (ret : Bytes)
      → IsRead d x
      → All (IsRead d) xs
      → suc (length xs) ≤ fuel
      → array_loop d fuel (joined d x xs, ret) ≡ ok ([], (ret ++ listed x xs) ++ b',' ∷ [])
  array_loop-joined x xs zero ret h hs l = absurd (omega arith)
  array_loop-joined x [] (suc fuel) ret h hs l =
      loop_step fuel (joined d x []) ret (joined-ne-nil x [] h)
      ∙ rw (← append-nil x.text, round_reads x [] [] ret h at_end (unfold check_separator in refl))
          (loop_end fuel _)
  array_loop-joined x (y ∷ ys) (suc fuel) ret h (k, hs) l =
      loop_step fuel (joined d x (y ∷ ys)) ret (joined-ne-nil x (y ∷ ys) h)
      ∙ rw
          (round_reads x (separator_of d ++ joined d y ys) (joined d y ys) ret h
            (at_separator (joined d y ys))
            (separator-separator_of (joined d y ys) (joined-ne-nil y ys k)))
          (array_loop-joined y ys fuel _ k hs (omega arith)
            ∙ rw (
              append_assoc (ret ++ x.json) (b',' ∷ []) (listed y ys),
              append_assoc ret x.json (b',' ∷ listed y ys),
            ))

  length-named : (w : Bool) (s : Bytes) → length s ≤ length (named d.base w s)
  length-named false s = omega arith
  length-named true s = omega (arith, length-append d.base.param_name (b'=' ∷ s))

  some_length : (s : Bytes) → s ≢ [] → 1 ≤ length s
  some_length [] h = absurd (h refl)
  some_length (c ∷ s) h = omega arith

  length-joined :
      (x : Item) (xs : List Item)
      → IsRead d x
      → All (IsRead d) xs
      → suc (length xs) ≤ length (joined d x xs)
  length-joined x [] h hs =
      omega (arith, length-named d.has_running_name x.text, some_length x.text h.some_text)
  length-joined x (y ∷ ys) h (k, hs) =
      let behind = separator_of d ++ joined d y ys in
      omega (
        arith,
        length-named d.has_running_name (x.text ++ behind),
        length-append x.text behind,
        length-append (separator_of d) (joined d y ys),
        some_length x.text h.some_text,
        length-joined y ys k hs,
      )

  close_list-comma : (s : Bytes) → close_list (s ++ b',' ∷ []) ≡ s ++ b']' ∷ []
  unfolding close_list
  close_list-comma [] = refl
  close_list-comma (c ∷ []) = refl
  close_list-comma (c ∷ e ∷ s) = ap (◌∷◌ c) (close_list-comma (e ∷ s))

  -- A list that is written as the style asks for, with the start byte, the name in front of the
  -- list or of each item, and the separator between the items, is deserialized to the JSON array
  -- of its items in their order, whatever stands behind it, if the reader of the items takes the
  -- text of each for its JSON text up to the end and to a separator.
  pub array_deserialize-written :
      (x : Item) (xs : List Item) (beyond : Bytes)
      → IsRead d x
      → All (IsRead d) xs
      → deserialize d (record { within = written d x xs; beyond = beyond })
        ≡ ok (b'[' ∷ (listed x xs ++ b']' ∷ []))
  unfolding deserialize
  array_deserialize-written x xs beyond h hs =
      let skip = d.base.skip_name && not d.has_running_name in
      prologue_skipped d.base skip (written d x xs) beyond _ (joined d x xs) (joined-ne-nil x xs h)
        refl
      ∙ rw
          (array_loop-joined x xs (length (joined d x xs)) (codes "[") h hs
            (length-joined x xs h hs))
          (unfold check_end in ap ok (close_list-comma (codes "[" ++ listed x xs)))
