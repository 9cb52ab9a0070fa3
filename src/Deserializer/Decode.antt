-- ===== src/Deserializer/Decode.antt =====
-- Percent decoding: one step of the loop, and what it makes of encoded text.
use Prim.Native.Nat.{bit_or}
use cpp_oasvalidator.Prelude.{
  ℕ, zero, suc, ◌+◌, ◌-◌, ◌*◌, ◌<◌, Bytes, ltb, All, [], ◌∷◌, ◌++◌, append_assoc, append-nil, ◌==◌,
  ==_iff, if◌then◌else◌, Bool, Bool-cases, true, false, inl, inr, ◌≡◌, ◌≢◌, refl, ap, ◌∙◌, some,
  arith,
}
use Prim.Native.Nat.{◌/◌, ◌%◌}
use cpp_oasvalidator.Common.{ok, ◌>>=◌}
use cpp_oasvalidator.Deserializer.{
  Base, hex_lookup, hex_pair, plain, decode_loop, deserialize_string,
}

module _ (b : Base) (stop : ℕ → Bool) where
  pub decode_plain :
      (c : ℕ) (s ret : Bytes)
      → stop c ≡ false
      → (c == b'%') ≡ false
      → decode_loop b stop (c ∷ s) ret ≡ decode_loop b stop s (ret ++ plain c ∷ [])
  unfolding decode_loop
  decode_plain c [] ret h k = rw (h, k)
  decode_plain c (x ∷ []) ret h k = rw (h, k)
  decode_plain c (x ∷ y ∷ s) ret h k = rw (h, k)

  pub decode_escape :
      (h l : ℕ) (s ret : Bytes)
      → stop b'%' ≡ false
      → decode_loop b stop (b'%' ∷ h ∷ l ∷ s) ret
        ≡ (hex_pair b h l >>= λ x. decode_loop b stop s (ret ++ x ∷ []))
  unfolding decode_loop
  decode_escape h l s ret e = rw e

  pub decode_stop :
      (c : ℕ) (s ret : Bytes) → stop c ≡ true → decode_loop b stop (c ∷ s) ret ≡ ok (c ∷ s, ret)
  unfolding decode_loop
  decode_stop c [] ret h = rw h
  decode_stop c (x ∷ []) ret h = rw h
  decode_stop c (x ∷ y ∷ s) ret h = rw h

-- The digit of a number below 16.
abbrev pub hex_digit : ℕ → ℕ
hex_digit n = if ltb n 10 then b'0' + n else b'A' + (n - 10)

hex_lookup-hex_digit : (n : ℕ) → n < 16 → hex_lookup (hex_digit n) ≡ some n
unfolding hex_lookup
hex_lookup-hex_digit n h = ground arith

-- Whether every byte passes a test, by evaluation from 255 down.
every_below : (ℕ → Bool) → ℕ → Bool
every_below test zero = true
every_below test (suc n) = if test n then every_below test n else false

every_below_holds :
    (test : ℕ → Bool) (n : ℕ) {c : ℕ} → every_below test n ≡ true → c < n → test c ≡ true
unfolding every_below
every_below_holds test zero e below = elim below [ ]
every_below_holds test (suc n) {c} e below = elim (Bool-cases (test n)) [
  | inr f ↦ cc (rw f at e)
  | inl t ↦ elim (Bool-cases (c == n)) [
    | inl here ↦ rw ((==_iff c n).0 here) t
    | inr there ↦ every_below_holds test n (rw t at e) (ground arith)
  ]
]

or_table : every_below (λ x. bit_or (x / 16 * 16) (x % 16) == x) 256 ≡ true
unfolding every_below
or_table = refl

-- The two digits of a byte decode to the byte.
hex_pair-hex_digit :
    (b : Base) (x : ℕ) → x < 256 → hex_pair b (hex_digit (x / 16)) (hex_digit (x % 16)) ≡ ok x
unfolding hex_pair
hex_pair-hex_digit b x h =
    rw (hex_lookup-hex_digit (x / 16) (omega arith), hex_pair)
      (rw (hex_lookup-hex_digit (x % 16) (omega arith), hex_pair)
        (ap ok ((==_iff _ x).0 (every_below_holds _ 256 or_table h))))

-- `application/x-www-form-urlencoded` text: each byte is kept, or written with two hex digits.
-- `keep` says which are kept.
unfoldable pub encode : (ℕ → Bool) → Bytes → Bytes
encode keep [] = []
encode keep (c ∷ s) =
    let rest = encode keep s in
    if keep c then c ∷ rest else b'%' ∷ hex_digit (c / 16) ∷ hex_digit (c % 16) ∷ rest

pub encode-ne-nil : (keep : ℕ → Bool) (s : Bytes) → s ≢ [] → encode keep s ≢ []
unfolding encode
encode-ne-nil keep [] h = h
encode-ne-nil keep (c ∷ s) h = elim (Bool-cases (keep c)) [
  | inl k ↦ rw k (λ e. cc)
  | inr k ↦ rw k (λ e. cc)
]

-- What an encoder may keep: no percent sign, no plus, and nothing at which the reader stops.
pub record CanKeep (stop keep : ℕ → Bool) : Type 0 where
  pub no_percent : keep b'%' ≡ false
  pub no_plus : keep b'+' ≡ false
  pub no_stop : (c : ℕ) → keep c ≡ true → stop c ≡ false
  pub percent_goes_on : stop b'%' ≡ false

-- The text ends, or a byte follows at which the reader stops.
abbrev pub StopsAt : (ℕ → Bool) → Bytes → Type 0
StopsAt stop [] = Unit
StopsAt stop (c ∷ s) = stop c ≡ true

keep-ne : (keep : ℕ → Bool) (c k : ℕ) → keep k ≡ false → keep c ≡ true → (c == k) ≡ false
keep-ne keep c k h t = elim (Bool-cases (c == k)) [
  | inl e ↦ cc (rw (← (==_iff c k).0 e) at h)
  | inr e ↦ e
]

module _ (b : Base) (stop keep : ℕ → Bool) (can : CanKeep stop keep) where
  decode_loop-StopsAt :
      (rest ret : Bytes) → StopsAt stop rest → decode_loop b stop rest ret ≡ ok (rest, ret)
  decode_loop-StopsAt [] ret h = unfold decode_loop in refl
  decode_loop-StopsAt (c ∷ s) ret h = decode_stop b stop c s ret h

  pub decode_loop-encode :
      (s rest ret : Bytes)
      → All (λ x. x < 256) s
      → StopsAt stop rest
      → decode_loop b stop (encode keep s ++ rest) ret ≡ ok (rest, ret ++ s)
  unfolding encode
  decode_loop-encode [] rest ret h t = rw append-nil (decode_loop-StopsAt rest ret t)
  decode_loop-encode (c ∷ s) rest ret (hc, h) t = elim (Bool-cases (keep c)) [
    | inl k ↦ rw k (
        decode_plain b stop c (encode keep s ++ rest) ret (can.no_stop c k)
          (keep-ne keep c b'%' can.no_percent k)
        ∙ decode_loop-encode s rest (ret ++ plain c ∷ []) h t
        ∙ rw (keep-ne keep c b'+' can.no_plus k, append_assoc ret (c ∷ []) s))
    | inr k ↦ rw k (
        decode_escape b stop (hex_digit (c / 16)) (hex_digit (c % 16)) (encode keep s ++ rest) ret
          can.percent_goes_on
        ∙ rw (hex_pair-hex_digit b c hc)
            (decode_loop-encode s rest (ret ++ c ∷ []) h t ∙ rw (append_assoc ret (c ∷ []) s)))
  ]

  -- Let an encoder keep some bytes as they are and write each other byte as a percent sign with two
  -- hexadecimal digits, and let it not keep the percent sign, the plus sign, or a byte at which the
  -- reader stops; and let the reader not stop at the percent sign, as it does for items that are
  -- separated by `%20`. Then `DeserializeString` gives the bytes that were encoded back, between
  -- quotation marks, and stops at the end of the text or at the byte behind it, where that is one at
  -- which the reader stops.
  pub deserialize_string-encode :
      (s rest ret : Bytes)
      → All (λ x. x < 256) s
      → StopsAt stop rest
      → deserialize_string b stop (encode keep s ++ rest, ret)
        ≡ ok (rest, (ret ++ b'"' ∷ []) ++ s ++ b'"' ∷ [])
  unfolding deserialize_string
  deserialize_string-encode s rest ret h t = rw (decode_loop-encode s rest (ret ++ b'"' ∷ []) h t)
