-- ===== src/Validators/Messages/Grammar.antt =====
-- JSON texts of the kind that the library writes: objects, arrays of objects, and strings without
-- escapes.
use mathlib.Core.Path.{subst}
use cpp_oasvalidator.Prelude.{
  ◌≤◌, Bytes, All, List, [], ◌∷◌, ◌++◌, append_assoc, ◌≡◌, ◌≢◌, refl, ap, ◌∙◌,
}
use cpp_oasvalidator.Validators.Messages.Render.{joined}

-- A byte that stands for itself in a JSON string: no control character, quotation mark or backslash.
abbrev pub IsPlain : Bytes → Type 0
IsPlain = All (λ c. (32 ≤ c) × (c ≢ b'"') × (c ≢ b'\\'))

-- A number without sign and fraction
abbrev pub IsNumber : Bytes → Type 0
IsNumber [] = ⊥
IsNumber (c ∷ s) = All (λ d. (b'0' ≤ d) × (d ≤ b'9')) (c ∷ s)

abbrev pub quoted : Bytes → Bytes
quoted s = b'"' ∷ (s ++ b'"' ∷ [])

mutual
  pub data IsValue : Bytes → Type 0 where
    is_number : (t : Bytes) → IsNumber t → IsValue t
    is_string : (s t : Bytes) → IsPlain s → t ≡ quoted s → IsValue t
    is_object : (s t : Bytes) → ArePairs s → t ≡ b'{' ∷ (s ++ b'}' ∷ []) → IsValue t
    is_array :
        (ts : List Bytes) (t : Bytes)
        → AreValues ts
        → t ≡ b'[' ∷ (joined ts ++ b']' ∷ [])
        → IsValue t

  -- At least one member, with commas between them
  pub data ArePairs : Bytes → Type 0 where
    one_pair : (k v t : Bytes) → IsPlain k → IsValue v → t ≡ quoted k ++ b':' ∷ v → ArePairs t
    more_pairs :
        (k v s t : Bytes)
        → IsPlain k
        → IsValue v
        → ArePairs s
        → t ≡ (quoted k ++ b':' ∷ v) ++ b',' ∷ s
        → ArePairs t

  pub data AreValues : List Bytes → Type 0 where
    no_values : AreValues []
    more_values : {t : Bytes} {ts : List Bytes} → IsValue t → AreValues ts → AreValues (t ∷ ts)

pub string_pair : (k v : Bytes) → IsPlain k → IsPlain v → ArePairs (quoted k ++ b':' ∷ quoted v)
string_pair k v h i = one_pair k (quoted v) _ h (is_string v _ i refl) refl

pub string_pair-more :
    (k v s : Bytes)
    → IsPlain k
    → IsPlain v
    → ArePairs s
    → ArePairs ((quoted k ++ b':' ∷ quoted v) ++ b',' ∷ s)
string_pair-more k v s h i r = more_pairs k (quoted v) s _ h (is_string v _ i refl) r refl

-- A member whose value is a string, and the members behind it.
pub string_then :
    (k v r : Bytes)
    → IsPlain k
    → IsPlain v
    → ArePairs r
    → ArePairs (quoted k ++ b':' ∷ b'"' ∷ (v ++ b'"' ∷ b',' ∷ r))
string_then k v r hk hv hr =
    subst ArePairs
      (append_assoc (quoted k) (b':' ∷ quoted v) (b',' ∷ r)
        ∙ ap (λ z. quoted k ++ b':' ∷ b'"' ∷ z) (append_assoc v (b'"' ∷ []) (b',' ∷ r)))
      (string_pair-more k v r hk hv hr)

pub ArePairs-append : {s : Bytes} (t : Bytes) → ArePairs s → ArePairs t → ArePairs (s ++ b',' ∷ t)
ArePairs-append t (one_pair k v _ h i e) r = more_pairs k v t _ h i r (ap (λ z. z ++ b',' ∷ t) e)
ArePairs-append t (more_pairs k v s _ h i q e) r =
    more_pairs k v (s ++ b',' ∷ t) _ h i (ArePairs-append t q r)
      (ap (λ z. z ++ b',' ∷ t) e ∙ append_assoc (quoted k ++ b':' ∷ v) (b',' ∷ s) (b',' ∷ t))
