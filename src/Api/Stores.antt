-- ===== src/Api/Stores.antt =====
-- The destructor of `OASValidatorImp`: what it does to the live stores.
use cpp_oasvalidator.Prelude.{
  ◌≤◌, true, ℕ, ◌+◌, ◌<◌, List, [], ◌∷◌, ◌++◌, ◌==◌, ==_iff, Bool-cases, if◌then◌else◌, true, false,
  none, some, ◌≡◌, refl, ◌∙◌, arith, inl, inr,
}
use cpp_oasvalidator.Api.{delete_store, delete_stores, is_live, all_live}

-- How often an address stands in a list.
unfoldable pub occurrences : ℕ → List ℕ → ℕ
occurrences a [] = 0
occurrences a (b ∷ l) = (if b == a then 1 else 0) + occurrences a l

pub occurrences-here :
    (a b : ℕ) (l : List ℕ) → b == a ≡ true → occurrences a (b ∷ l) ≡ 1 + occurrences a l
unfolding occurrences
occurrences-here a b l e = rw e refl

occurrences-there :
    (a b : ℕ) (l : List ℕ) → b == a ≡ false → occurrences a (b ∷ l) ≡ occurrences a l
unfolding occurrences
occurrences-there a b l e = rw e (omega arith)

pub occurrences-append :
    (a : ℕ) (l l' : List ℕ) → occurrences a (l ++ l') ≡ occurrences a l + occurrences a l'
unfolding occurrences
occurrences-append a [] l' = omega arith
occurrences-append a (b ∷ l) l' = let ih = occurrences-append a l l' in omega arith

-- One store of two lists with the same stores
abbrev IsOneLess : ℕ → List ℕ → List ℕ → Type 0
IsOneLess a l l' = (c : ℕ) → occurrences c l ≡ occurrences c (a ∷ l')

delete_store-IsOneLess :
    (a : ℕ) (live : List ℕ)
    → 0 < occurrences a live
    → (live' : List ℕ) × (delete_store a live ≡ some live') × IsOneLess a live live'
unfolding delete_store occurrences
delete_store-IsOneLess a [] h = absurd (omega arith)
delete_store-IsOneLess a (b ∷ live) h = elim (Bool-cases (b == a)) [
  | inl e ↦ (live, rw e refl, λ c. rw ((==_iff b a).0 e) refl)
  | inr e ↦
      let t = occurrences-there a b live e in
      let (live', f, g) = delete_store-IsOneLess a live (omega arith) in
      (b ∷ live', rw e (rw f refl), λ c. let g' = g c in omega arith)
]

pub delete_store-missing :
    (a : ℕ) (live : List ℕ) → occurrences a live ≡ 0 → delete_store a live ≡ none
unfolding delete_store
delete_store-missing a [] h = refl
delete_store-missing a (b ∷ live) h = elim (Bool-cases (b == a)) [
  | inl e ↦ let t = occurrences-here a b live e in absurd (omega arith)
  | inr e ↦
      let t = occurrences-there a b live e in
      rw e (rw (delete_store-missing a live (omega arith)) refl)
]

-- The stores `stores` are among the live ones, and `rest` are the others.
abbrev pub IsShared : List ℕ → List ℕ → List ℕ → Type 0
IsShared live stores rest = (c : ℕ) → occurrences c live ≡ occurrences c stores + occurrences c rest

pub delete_stores-next :
    (a : ℕ) (live live' stores : List ℕ)
    → delete_store a live ≡ some live'
    → delete_stores (a ∷ stores) live ≡ delete_stores stores live'
unfolding delete_stores
delete_stores-next a live live' stores e = rw (delete_stores, e) refl

pub delete_stores-IsShared :
    (stores live rest : List ℕ)
    → IsShared live stores rest
    → (live' : List ℕ) × (delete_stores stores live ≡ some live')
      × ((c : ℕ) → occurrences c live' ≡ occurrences c rest)
unfolding delete_stores occurrences
delete_stores-IsShared [] live rest h = (live, refl, λ c. let x = h c in omega arith)
delete_stores-IsShared (a ∷ stores) live rest h =
    let here = h a in
    let one = occurrences-here a a stores ((==_iff a a).1 refl) in
    let (live', e, less) = delete_store-IsOneLess a live (omega arith) in
    let (live'', f, rests) =
      delete_stores-IsShared stores live' rest
        (λ c. let x = less c in let y = h c in omega arith) in
    (live'', delete_stores-next a live live' stores e ∙ f, rests)

is_live-occurrences : (a : ℕ) (live : List ℕ) → 0 < occurrences a live → is_live a live ≡ true
unfolding is_live occurrences
is_live-occurrences a [] h = absurd (omega arith)
is_live-occurrences a (b ∷ live) h = elim (Bool-cases (b == a)) [
  | inl e ↦ rw e refl
  | inr e ↦ let t = occurrences-there a b live e in rw e (is_live-occurrences a live (omega arith))
]

-- Stores that stand among the live ones are live.
pub all_live-occurrences :
    (stores live : List ℕ)
    → ((c : ℕ) → occurrences c stores ≤ occurrences c live)
    → all_live stores live ≡ true
unfolding all_live occurrences
all_live-occurrences [] live h = refl
all_live-occurrences (a ∷ stores) live h =
    let here = occurrences-here a a stores ((==_iff a a).1 refl) in
    rw
      (
        is_live-occurrences a live (omega (arith, h a)),
        all_live-occurrences stores live (λ c. omega (arith, h c)),
      )
      refl
