-- ===== src/Prelude/Strings.antt =====
-- Byte strings: `std::string` and the text between two pointers.
use Prim.Native.Char.{code}
use Prim.Native.String.{String}
use Prim.Native.Nat.{ℕ, zero, suc, ◌+◌}
use mathlib.Core.Path.{◌≡◌, refl}
use mathlib.Core.Logic.{◌↔◌}
use mathlib.Core.Bool.{Bool, true, false}
use mathlib.Core.Option.{Option, none, some}
use mathlib.Core.List.{List, [], ◌∷◌, ◌++◌}
use native.Mathlib.Omega.{arith}
use cpp_oasvalidator.Prelude.Tests.{◌==◌, if◌then◌else◌}

abbrev pub Bytes : Type 0
Bytes = List ℕ

-- The bytes of an ASCII literal.
abbrev pub codes : String → Bytes
codes String.[] = []
codes (String.◌∷◌ c s) = code c ∷ codes s

module _ {ℓ} {A : Type ℓ} where
  abbrev pub length : List A → ℕ
  length [] = 0
  length (x ∷ xs) = suc (length xs)

  pub length-append : (xs ys : List A) → length (xs ++ ys) ≡ length xs + length ys
  length-append [] ys = omega arith
  length-append (x ∷ xs) ys = omega (arith, length-append xs ys)

  abbrev pub take : ℕ → List A → List A
  take zero xs = []
  take (suc n) [] = []
  take (suc n) (x ∷ xs) = x ∷ take n xs

  abbrev pub drop : ℕ → List A → List A
  drop zero xs = xs
  drop (suc n) [] = []
  drop (suc n) (x ∷ xs) = drop n xs

  abbrev pub get_elem? : List A → ℕ → Option A
  get_elem? [] i = none
  get_elem? (x ∷ xs) zero = some x
  get_elem? (x ∷ xs) (suc i) = get_elem? xs i

  pub get_elem?-append_middle :
      (xs ys : List A) (x : A) → get_elem? (xs ++ x ∷ ys) (length xs) ≡ some x
  get_elem?-append_middle [] ys x = refl
  get_elem?-append_middle (z ∷ xs) ys x = get_elem?-append_middle xs ys x

-- A predicate at every item.
abbrev pub All {ℓ κ} : {A : Type ℓ} → (A → Type κ) → List A → Type κ
All P [] = Unit
All P (x ∷ xs) = P x × All P xs

pub All-map {ℓ κ ι} :
    {A : Type ℓ} {P : A → Type κ} {Q : A → Type ι} (xs : List A)
    → ((x : A) → P x → Q x)
    → All P xs
    → All Q xs
All-map [] f h = tt
All-map (x ∷ xs) f (p, h) = (f x p, All-map xs f h)

-- `std::string::operator==`
unfoldable pub equal : Bytes → Bytes → Bool
equal [] [] = true
equal [] (c ∷ right) = false
equal (c ∷ left) [] = false
equal (c ∷ left) (d ∷ right) = if c == d then equal left right else false

pub equal_iff : (left right : Bytes) → (equal left right ≡ true) ↔ (left ≡ right)
unfolding equal
equal_iff [] [] = (λ _. refl, λ _. refl)
equal_iff [] (c ∷ right) = (λ e. cc, λ e. cc)
equal_iff (c ∷ left) [] = (λ e. cc, λ e. cc)
equal_iff (c ∷ left) (d ∷ right) = ground (arith, equal_iff left right)

pub equal_refl : (a : Bytes) → equal a a ≡ true
equal_refl a = (equal_iff a a).1 refl

-- What follows the prefix `p` of `s`, if `s` has it.
unfoldable pub strip : Bytes → Bytes → Option Bytes
strip [] s = some s
strip (x ∷ p) [] = none
strip (x ∷ p) (y ∷ s) = if x == y then strip p s else none

pub strip-append : (p s : Bytes) → strip p (p ++ s) ≡ some s
unfolding strip
strip-append [] s = refl
strip-append (x ∷ p) s = ground (arith, strip-append p s)

pub strip_sound : (p s r : Bytes) → strip p s ≡ some r → s ≡ p ++ r
unfolding strip
strip_sound [] s r h = ground arith
strip_sound (x ∷ p) [] r h = cc
strip_sound (x ∷ p) (y ∷ s) r h = ground (arith, strip_sound p s r)
