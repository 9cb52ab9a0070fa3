-- ===== src/Pipeline/Keys.antt =====
-- Which keys a map has behind `emplace` and behind an assignment.
use cpp_oasvalidator.Prelude.{
  Bytes, equal, equal_refl, List, [], ◌∷◌, Bool-cases, inl, inr, ◌≡◌, ◌⊎◌, refl, some, equal_iff,
}
use cpp_oasvalidator.Validators.{lookup, emplace_key}
use cpp_oasvalidator.Pipeline.{set_key}

-- There is an entry for the key.
abbrev pub Has {ℓ} : {A : Type ℓ} → List (Bytes × A) → Bytes → Type ℓ
Has {A = A} m key = (x : A) × (lookup key m ≡ some x)

module _ {ℓ} {A : Type ℓ} (key : Bytes) (x : A) where
  pub emplace_key-Has : (m : List (Bytes × A)) → Has (emplace_key key x m) key
  unfolding lookup emplace_key
  emplace_key-Has [] = (x, rw (equal_refl key))
  emplace_key-Has ((k, y) ∷ m) = elim (Bool-cases (equal k key)) [
    | inl e ↦ (y, rw (e, e))
    | inr e ↦ rw (e, e) (emplace_key-Has m)
  ]

  pub emplace_key_keeps-Has :
      (other : Bytes) (m : List (Bytes × A)) → Has m other → Has (emplace_key key x m) other
  unfolding lookup emplace_key
  emplace_key_keeps-Has other [] (y, h) = cc
  emplace_key_keeps-Has other ((k, z) ∷ m) (y, h) = elim (Bool-cases (equal k key)) [
    | inl e ↦ rw e (y, h)
    | inr e ↦ elim (Bool-cases (equal k other)) [
      | inl f ↦ rw (e, f) (z, refl)
      | inr f ↦ rw (e, f) (emplace_key_keeps-Has other m (y, rw f at h))
    ]
  ]

  pub set_key_keeps-Has :
      (other : Bytes) (m : List (Bytes × A)) → Has m other → Has (set_key key x m) other
  unfolding lookup set_key
  set_key_keeps-Has other [] (y, h) = cc
  set_key_keeps-Has other ((k, z) ∷ m) (y, h) = elim (Bool-cases (equal k key)) [
    | inl e ↦ elim (Bool-cases (equal k other)) [
      | inl f ↦ rw (e, f) (x, refl)
      | inr f ↦ rw e (rw f (y, rw f at h))
    ]
    | inr e ↦ elim (Bool-cases (equal k other)) [
      | inl f ↦ rw (e, f) (z, refl)
      | inr f ↦ rw (e, f) (set_key_keeps-Has other m (y, rw f at h))
    ]
  ]

  pub emplace_key_only-Has :
      (other : Bytes) (m : List (Bytes × A))
      → Has (emplace_key key x m) other
      → (key ≡ other) ⊎ Has m other
  unfolding lookup emplace_key
  emplace_key_only-Has other [] (y, h) = elim (Bool-cases (equal key other)) [
    | inl e ↦ inl ((equal_iff key other).0 e)
    | inr e ↦ inr (y, rw e at h)
  ]
  emplace_key_only-Has other ((k, z) ∷ m) (y, h) = elim (Bool-cases (equal k key)) [
    | inl e ↦ inr (y, rw e at h)
    | inr e ↦ elim (Bool-cases (equal k other)) [
      | inl f ↦ inr (z, rw f refl)
      | inr f ↦ elim (emplace_key_only-Has other m (y, rw (e, f) at h)) [
        | inl q ↦ inl q
        | inr (w, g) ↦ inr (w, rw f g)
      ]
    ]
  ]

  pub set_key_only-Has :
      (other : Bytes) (m : List (Bytes × A))
      → Has (set_key key x m) other
      → (key ≡ other) ⊎ Has m other
  unfolding lookup set_key
  set_key_only-Has other [] (y, h) = elim (Bool-cases (equal key other)) [
    | inl e ↦ inl ((equal_iff key other).0 e)
    | inr e ↦ inr (y, rw e at h)
  ]
  set_key_only-Has other ((k, z) ∷ m) (y, h) = elim (Bool-cases (equal k other)) [
    | inl f ↦ inr (z, rw f refl)
    | inr f ↦ elim (Bool-cases (equal k key)) [
      | inl e ↦ inr (y, rw f (rw (e, f) at h))
      | inr e ↦ elim (set_key_only-Has other m (y, rw (e, f) at h)) [
        | inl q ↦ inl q
        | inr (w, g) ↦ inr (w, rw f g)
      ]
    ]
  ]
