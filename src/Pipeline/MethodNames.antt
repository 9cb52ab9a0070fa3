-- ===== src/Pipeline/MethodNames.antt =====
-- `BuildCaseInsensitiveMap`
use mathlib.Core.List.{map}
use cpp_oasvalidator.Prelude.{
  ap, ℕ, leb, Bool, ◌||◌, if◌then◌else◌, Option, none, All, ◌<◌, ◌⊎◌, arith, Bytes, equal,
  equal_iff, equal_refl, List, [], ◌∷◌, Bool-cases, inl, inr, ◌≡◌, refl, ◌∙◌, some, false,
}
use cpp_oasvalidator.Validators.{lookup}
use cpp_oasvalidator.Pipeline.{
  to_lower, to_upper, set_key, MethodMap, case_insensitive_loop, build_case_insensitive_map,
}

module _ {ℓ} {A : Type ℓ} (key : Bytes) (x : A) where
  lookup-set_key : (m : List (Bytes × A)) → lookup key (set_key key x m) ≡ some x
  unfolding lookup set_key
  lookup-set_key [] = rw (equal_refl key)
  lookup-set_key ((k, y) ∷ m) = elim (Bool-cases (equal k key)) [
    | inl e ↦ rw (e, e)
    | inr e ↦ rw (e, e) (lookup-set_key m)
  ]

  lookup-set_key_other :
      (other : Bytes) (m : List (Bytes × A))
      → equal key other ≡ false
      → lookup other (set_key key x m) ≡ lookup other m
  unfolding lookup set_key
  lookup-set_key_other other [] n = rw n
  lookup-set_key_other other ((k, y) ∷ m) n = elim (Bool-cases (equal k key)) [
    | inl e ↦
        let p : k ≡ key = (equal_iff k key).0 e in
        let q : equal k other ≡ false = rw p n in rw (e, q)
    | inr e ↦ elim (Bool-cases (equal k other)) [
      | inl f ↦ rw (e, f)
      | inr f ↦ rw (e, f) (lookup-set_key_other other m n)
    ]
  ]

-- The key in lower or in upper case is the name.
abbrev pub is_named : Bytes → Bytes → Bool
is_named name key = equal (map to_upper key) name || equal (map to_lower key) name

-- The methods of the last entry whose key is the name in lower or in upper case
unfoldable pub last_for : Bytes → MethodMap → Option (List Bytes) → Option (List Bytes)
last_for name [] methods = methods
last_for name ((key, ms) ∷ entries) methods =
    last_for name entries (if is_named name key then some ms else methods)

-- One round of the loop
lookup-set_key_twice :
    (name key : Bytes) (ms : List Bytes) (made : MethodMap)
    → lookup name (set_key (map to_upper key) ms (set_key (map to_lower key) ms made))
      ≡ (if is_named name key then some ms else lookup name made)
lookup-set_key_twice name key ms made = elim (Bool-cases (equal (map to_upper key) name)) [
  | inl e ↦
      let p : map to_upper key ≡ name = (equal_iff (map to_upper key) name).0 e in
      rw e (rw p (lookup-set_key name ms (set_key (map to_lower key) ms made)))
  | inr e ↦
      lookup-set_key_other (map to_upper key) ms name (set_key (map to_lower key) ms made) e
      ∙ elim (Bool-cases (equal (map to_lower key) name)) [
        | inl f ↦
            let p : map to_lower key ≡ name = (equal_iff (map to_lower key) name).0 f in
            rw (e, f) (rw p (lookup-set_key name ms made))
        | inr f ↦ rw (e, f) (lookup-set_key_other (map to_lower key) ms name made f)
      ]
]

lookup-case_insensitive_loop :
    (name : Bytes) (entries made : MethodMap)
    → lookup name (case_insensitive_loop entries made) ≡ last_for name entries (lookup name made)
unfolding case_insensitive_loop last_for
lookup-case_insensitive_loop name [] made = refl
lookup-case_insensitive_loop name ((key, ms) ∷ entries) made =
    lookup-case_insensitive_loop name entries
      (set_key (map to_upper key) ms (set_key (map to_lower key) ms made))
    ∙ ap (last_for name entries) (lookup-set_key_twice name key ms made)

byte_to_lower : (c : ℕ) → (to_lower c < 65) ⊎ (90 < to_lower c)
unfolding to_lower
byte_to_lower c = elim (Bool-cases (leb b'A' c)) [
  | inr e ↦ rw e (inl (ground arith))
  | inl e ↦ elim (Bool-cases (leb c b'Z')) [
    | inl f ↦ rw (e, f) (inr (ground arith))
    | inr f ↦ rw (e, f) (inr (ground arith))
  ]
]

byte_to_upper : (c : ℕ) → (to_upper c < 97) ⊎ (122 < to_upper c)
unfolding to_upper
byte_to_upper c = elim (Bool-cases (leb b'a' c)) [
  | inr e ↦ rw e (inl (ground arith))
  | inl e ↦ elim (Bool-cases (leb c b'z')) [
    | inl f ↦ rw (e, f) (inl (ground arith))
    | inr f ↦ rw (e, f) (inr (ground arith))
  ]
]

to_lower_small : (key : Bytes) → All (λ c. (c < 65) ⊎ (90 < c)) (map to_lower key)
to_lower_small [] = tt
to_lower_small (c ∷ key) = (byte_to_lower c, to_lower_small key)

to_upper_large : (key : Bytes) → All (λ c. (c < 97) ⊎ (122 < c)) (map to_upper key)
to_upper_large [] = tt
to_upper_large (c ∷ key) = (byte_to_upper c, to_upper_large key)

-- The built map has, under each name, the methods of the last entry whose key in lower or in upper
-- case is the name, and nothing if there is no such entry. A key in lower case has no letter in upper
-- case, and a key in upper case none in lower case.
pub lookup-build_case_insensitive_map :
    (name key : Bytes) (entries : MethodMap)
    → (lookup name (build_case_insensitive_map entries) ≡ last_for name entries none)
      × All (λ c. (c < 65) ⊎ (90 < c)) (map to_lower key)
      × All (λ c. (c < 97) ⊎ (122 < c)) (map to_upper key)
unfolding lookup
lookup-build_case_insensitive_map name key entries =
    (lookup-case_insensitive_loop name entries [], to_lower_small key, to_upper_large key)
