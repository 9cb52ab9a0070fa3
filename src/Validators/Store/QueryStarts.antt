-- ===== src/Validators/Store/QueryStarts.antt =====
-- `std::set<size_t>` as `ValidateQueryParams` uses it, and `std::string::find`.
use cpp_oasvalidator.Prelude.{
  ℕ, ◌+◌, ◌≤◌, ◌<◌, Bytes, strip, length, ltb, All, List, [], ◌∷◌, ◌++◌, ◌==◌, ==_iff, Bool-cases,
  Option-cases, ◌⊎◌, inl, inr, false, ◌≡◌, ◌≢◌, refl, none, some, arith,
}
use cpp_oasvalidator.Validators.Store.Query.{find_text, emplace_start, next_start}

-- The number is one of the list.
abbrev pub IsIn : ℕ → List ℕ → Type 0
IsIn i [] = ⊥
IsIn i (j ∷ js) = (i ≡ j) ⊎ IsIn i js

-- Each number is below those behind it.
abbrev pub Ascending : List ℕ → Type 0
Ascending [] = Unit
Ascending (i ∷ is) = All (λ j. i < j) is × Ascending is

pub find_text_bound :
    (name query : Bytes) (i : ℕ) → find_text name query ≡ some i → i ≤ length query
unfolding find_text
find_text_bound name [] i e = ground arith
find_text_bound name (c ∷ query) i e = elim (Option-cases (strip name (c ∷ query))) [
  | inr (rest, s) ↦ let q : 0 ≡ i = some_eq (rw (s, find_text) at e) in omega arith
  | inl s ↦ elim (Option-cases (find_text name query)) [
    | inl f ↦ absurd (none_ne (rw (s, f, find_text) at e))
    | inr (j, f) ↦
        let q : j + 1 ≡ i = some_eq (rw (s, f, find_text) at e) in
        omega (arith, find_text_bound name query j f)
  ]
]
  where
    some_eq : {a b : ℕ} → some a ≡ some b → a ≡ b
    some_eq p = cc

    none_ne : {b : ℕ} → none ≢ some b
    none_ne p = cc

pub emplace_start-IsIn : (i : ℕ) (l : List ℕ) → IsIn i (emplace_start i l)
unfolding emplace_start
emplace_start-IsIn i [] = inl refl
emplace_start-IsIn i (j ∷ l) = elim (Bool-cases (i == j)) [
  | inl e ↦ rw e (inl ((==_iff i j).0 e))
  | inr e ↦ elim (Bool-cases (ltb i j)) [
    | inl f ↦ rw (e, f) (inl refl)
    | inr f ↦ rw (e, f) (inr (emplace_start-IsIn i l))
  ]
]

pub emplace_start_keeps-IsIn : (i k : ℕ) (l : List ℕ) → IsIn k l → IsIn k (emplace_start i l)
unfolding emplace_start
emplace_start_keeps-IsIn i k [] h = absurd h
emplace_start_keeps-IsIn i k (j ∷ l) h = elim (Bool-cases (i == j)) [
  | inl e ↦ rw e h
  | inr e ↦ elim (Bool-cases (ltb i j)) [
    | inl f ↦ rw (e, f) (inr h)
    | inr f ↦ rw (e, f) (elim h [ inl p ↦ inl p | inr p ↦ inr (emplace_start_keeps-IsIn i k l p) ])
  ]
]

pub emplace_start-All :
    (P : ℕ → Type 0) (i : ℕ) (l : List ℕ) → P i → All P l → All P (emplace_start i l)
unfolding emplace_start
emplace_start-All P i [] p h = (p, tt)
emplace_start-All P i (j ∷ l) p (q, h) = elim (Bool-cases (i == j)) [
  | inl e ↦ rw e (q, h)
  | inr e ↦ elim (Bool-cases (ltb i j)) [
    | inl f ↦ rw (e, f) (p, (q, h))
    | inr f ↦ rw (e, f) (q, emplace_start-All P i l p h)
  ]
]

All-above : (i j : ℕ) (l : List ℕ) → i < j → All (λ k. j < k) l → All (λ k. i < k) l
All-above i j [] p h = tt
All-above i j (k ∷ l) p (q, h) = (omega arith, All-above i j l p h)

pub emplace_start-Ascending : (i : ℕ) (l : List ℕ) → Ascending l → Ascending (emplace_start i l)
unfolding emplace_start
emplace_start-Ascending i [] h = (tt, tt)
emplace_start-Ascending i (j ∷ l) (q, h) = elim (Bool-cases (i == j)) [
  | inl e ↦ rw e (q, h)
  | inr e ↦ elim (Bool-cases (ltb i j)) [
    | inl f ↦ rw (e, f) ((ground arith, All-above i j l (ground arith) q), (q, h))
    | inr f ↦
        rw (e, f)
          (emplace_start-All (λ k. j < k) i l (ground arith) q, emplace_start-Ascending i l h)
  ]
]

-- The number that is above all others goes to the end.
pub emplace_start_last :
    (n : ℕ) (l : List ℕ) → All (λ i. i ≤ n) l → emplace_start (n + 1) l ≡ l ++ (n + 1) ∷ []
unfolding emplace_start
emplace_start_last n [] h = refl
emplace_start_last n (j ∷ l) (p, h) =
    let e : (n + 1 == j) ≡ false = ground arith in
    let f : ltb (n + 1) j ≡ false = ground arith in rw (e, f, emplace_start_last n l h)

pub next_start_found :
    (i x : ℕ) (l : List ℕ) → IsIn i l → (k : ℕ) × (next_start i (l ++ x ∷ []) ≡ some k)
unfolding next_start
next_start_found i x [] h = absurd h
next_start_found i x (j ∷ []) (inl p) = (x, rw ((==_iff i j).1 p))
next_start_found i x (j ∷ []) (inr p) = absurd p
next_start_found i x (j ∷ k ∷ l) h = elim (Bool-cases (i == j)) [
  | inl e ↦ (k, rw e)
  | inr e ↦ rw e (elim h [
    | inl p ↦ absurd (ground (arith, (==_iff i j).1 p))
    | inr p ↦ next_start_found i x (k ∷ l) p
  ])
]

pub next_start_above : (i k : ℕ) (l : List ℕ) → Ascending l → next_start i l ≡ some k → i < k
unfolding next_start
next_start_above i k [] a e = cc
next_start_above i k (j ∷ []) a e = cc
next_start_above i k (j ∷ m ∷ l) ((p, q), a) e = elim (Bool-cases (i == j)) [
  | inl f ↦ ground arith
  | inr f ↦ next_start_above i k (m ∷ l) a (rw f at e)
]

pub next_start-All :
    (P : ℕ → Type 0) (i k : ℕ) (l : List ℕ) → All P l → next_start i l ≡ some k → P k
unfolding next_start
next_start-All P i k [] h e = cc
next_start-All P i k (j ∷ []) h e = cc
next_start-All P i k (j ∷ m ∷ l) (p, (q, h)) e = elim (Bool-cases (i == j)) [
  | inl f ↦ let r : m ≡ k = ground arith in rw (← r) q
  | inr f ↦ next_start-All P i k (m ∷ l) (q, h) (rw f at e)
]
