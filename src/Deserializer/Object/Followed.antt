-- ===== src/Deserializer/Object/Followed.antt =====
-- An object whose text is followed by its value-key separator: the loop moves the cursor behind
-- `end`, and `CheckEnd` throws.
use cpp_oasvalidator.Prelude.{
  ℕ, zero, suc, Bytes, codes, length, [], ◌∷◌, ◌++◌, ◌==◌, Bool-cases, not, ◌&&◌, inl, inr, ◌≡◌,
  ◌≢◌, refl, sym, ap, ◌∙◌, arith,
}
use cpp_oasvalidator.Common.{ok, ◌>>=◌, ok_eq, >>=-eq-ok}
use cpp_oasvalidator.Deserializer.{Cursor, at, past_end, State, last_byte, check_end}
use cpp_oasvalidator.Deserializer.Suffix.{
  IsSuffix, whole, behind, IsSuffix-trans, length-IsSuffix, refuse-ne-ok,
}
use cpp_oasvalidator.Deserializer.Prologue.{prologue_inv}
use cpp_oasvalidator.Deserializer.Object.{
  ObjectDeserializer, skip_vk_separator, member_round, read_key, object_loop, deserialize,
}
use cpp_oasvalidator.Deserializer.Object.Shrinks.{
  left_of, read_key-IsSuffix, deserialize_value-IsSuffix, member_round-Member,
}

last_byte-IsSuffix : {x : ℕ} {t s : Bytes} → IsSuffix (x ∷ t) s → last_byte s ≡ last_byte (x ∷ t)
last_byte-IsSuffix (whole e) = ap last_byte e
last_byte-IsSuffix (behind {s = []} y h) = absurd (omega (arith, length-IsSuffix h))
last_byte-IsSuffix (behind {s = z ∷ s} y h) = last_byte-IsSuffix h

-- The loop is over behind `end`, or there is text whose last byte is no separator.
abbrev Pending : ℕ → Cursor → Type 0
Pending vk past_end = Unit
Pending vk (at []) = ⊥
Pending vk (at (x ∷ s)) = last_byte (x ∷ s) ≢ vk

module _ (d : ObjectDeserializer) (rest : Bytes) where
  skip_vk_separator-Pending :
      (s : Bytes) (r : State)
      → last_byte s ≢ d.vk_separator
      → IsSuffix r.0 s
      → Pending d.vk_separator (skip_vk_separator d (d.vk_separator ∷ rest) r).0
  unfolding skip_vk_separator
  skip_vk_separator-Pending s ([], ret) n h = ground arith
  skip_vk_separator-Pending s (x ∷ [], ret) n h = ground (arith, last_byte-IsSuffix h)
  skip_vk_separator-Pending s (x ∷ y ∷ t, ret) n h = ground (arith, last_byte-IsSuffix h)

  left_of-skip_vk_separator :
      (r : State) → IsSuffix (left_of (skip_vk_separator d (d.vk_separator ∷ rest) r).0) r.0
  unfolding skip_vk_separator
  left_of-skip_vk_separator ([], ret) = whole (ground arith)
  left_of-skip_vk_separator (x ∷ s, ret) = elim (Bool-cases (x == d.vk_separator)) [
    | inl t ↦ rw t (behind x (whole refl))
    | inr t ↦ rw t (whole refl)
  ]

  member_round-Pending :
      (key s ret : Bytes) (r : Cursor × Bytes) (t : Bytes)
      → last_byte t ≢ d.vk_separator
      → IsSuffix s t
      → member_round d (d.vk_separator ∷ rest) key (s, ret) ≡ ok r
      → Pending d.vk_separator r.0 × IsSuffix (left_of r.0) t
  member_round-Pending key s ret r t n h e =
      let m = member_round-Member d (d.vk_separator ∷ rest) key s ret r e in
      let v =
        IsSuffix-trans (deserialize_value-IsSuffix d m.value_type s _ m.behind_value m.value_read)
          h in
      rw (← m.next) (
        skip_vk_separator-Pending t m.behind_value n v,
        IsSuffix-trans (left_of-skip_vk_separator m.behind_value) v,
      )

  object_loop-past_end :
      (k : ℕ) (c : Cursor) (ret t : Bytes) (r : Cursor × Bytes)
      → last_byte t ≢ d.vk_separator
      → Pending d.vk_separator c
      → IsSuffix (left_of c) t
      → object_loop d (d.vk_separator ∷ rest) k c ret ≡ ok r
      → r.0 ≡ past_end
  unfolding object_loop
  object_loop-past_end zero past_end ret t r n p h e =
      ap (λ (q : Cursor × Bytes). q.0) (sym (ok_eq e))
  object_loop-past_end (suc k) past_end ret t r n p h e =
      ap (λ (q : Cursor × Bytes). q.0) (sym (ok_eq e))
  object_loop-past_end zero (at []) ret t r n p h e = absurd p
  object_loop-past_end (suc k) (at []) ret t r n p h e = absurd p
  object_loop-past_end zero (at (c ∷ s)) ret t r n p h e = cc
  object_loop-past_end (suc k) (at (c ∷ s)) ret t r n p h e =
      let (q, e1, e') = >>=-eq-ok (read_key d (c ∷ s)) _ e in
      let (u, e2, e3) = >>=-eq-ok (member_round d (d.vk_separator ∷ rest) q.0 (q.1, ret)) _ e' in
      let m =
        member_round-Pending q.0 q.1 ret u t n (IsSuffix-trans (read_key-IsSuffix d (c ∷ s) q e1) h)
          e2 in
      object_loop-past_end k u.0 u.1 t r n m.0 m.1 e3

-- An object whose text does not end with its value-key separator, and which that separator
-- follows, as `&` does between two query parameters, is refused: no such text is accepted,
-- whatever it holds.
pub object_followed_refused :
    (d : ObjectDeserializer) (within rest r : Bytes)
    → last_byte within ≢ d.vk_separator
    → deserialize d (record { within = within; beyond = d.vk_separator ∷ rest }) ≢ ok r
unfolding deserialize
object_followed_refused d within rest r n e =
    let b = d.base in
    let (x, t, h, f) =
      prologue_inv b (b.skip_name && not d.is_deep_obj) within (d.vk_separator ∷ rest)
        (λ s. object_loop d (d.vk_separator ∷ rest) (length s) (at s) (codes "{") >>= λ q.
          check_end b q.0 >>= λ u. ok (q.1 ++ b'}' ∷ []))
        e in
    let (q, e4, f4) =
      >>=-eq-ok (object_loop d (d.vk_separator ∷ rest) (length (x ∷ t)) (at (x ∷ t)) (codes "{")) _
        f in
    let (u, e5, f5) = >>=-eq-ok (check_end b q.0) _ f4 in
    let p =
      object_loop-past_end d rest (length (x ∷ t)) (at (x ∷ t)) (codes "{") within q n
        (λ k. n (last_byte-IsSuffix h ∙ k)) h e4 in
    unfold check_end in refuse-ne-ok b _ _ (rw p at e5)
