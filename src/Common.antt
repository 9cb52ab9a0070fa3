-- ===== src/Common.antt =====
-- include/utils/common.hpp: the enumerations, and the helpers on strings.
pub mod Fragments
use cpp_oasvalidator.Prelude.{
  Bool, true, false, Bytes, codes, List, [], ◌∷◌, ◌++◌, ◌==◌, if◌then◌else◌, ◌≡◌, ◌≢◌, refl,
}

pub data ValidationError : Type 0 where
  none_error invalid_method invalid_route invalid_path_param : ValidationError
  invalid_query_param invalid_header_param invalid_body invalid_rsp : ValidationError

pub data HttpMethod : Type 0 where
  get post put delete head options patch connect trace : HttpMethod

pub data ParamStyle : Type 0 where
  simple label matrix form space_delim pipe_delim deep_obj content : ParamStyle

pub data PrimitiveType : Type 0 where
  boolean integer number string : PrimitiveType

pub data ExtendedType : Type 0 where
  boolean integer number string array object : ExtendedType

-- The two exceptions of the library carry a message; `std::out_of_range` and
-- `std::length_error` are the standard library's. `undefined_behaviour` is no exception: nothing is
-- known of a run that comes to it, and nothing catches it.
pub data Exception : Type 0 where
  deserialization : Bytes → Exception
  validator_init : Bytes → Exception
  out_of_range length_error undefined_behaviour : Exception

-- The result of code that may throw. `out_of_fuel` marks a loop that was cut off.
pub data Result {ℓ} (A : Type ℓ) : Type ℓ where
  ok : A → Result A
  throw : Exception → Result A
  out_of_fuel : Result A

infixl 5 ◌>>=◌
abbrev pub ◌>>=◌ {ℓ κ} : {A : Type ℓ} {B : Type κ} → Result A → (A → Result B) → Result B
ok a >>= f = f a
throw e >>= f = throw e
out_of_fuel >>= f = out_of_fuel

-- What the code does behind a call that the library leaves undefined unless the test holds.
abbrev pub requires {ℓ} : {A : Type ℓ} → Bool → Result A → Result A
requires true result = result
requires false result = throw undefined_behaviour

unfoldable pub escape_slash : Bytes → Bytes
escape_slash [] = []
escape_slash (ch ∷ str) =
    if ch == b'/' then codes "%2F" ++ escape_slash str else ch ∷ escape_slash str

join_keys : Bytes → List Bytes → Bytes
join_keys reference [] = reference
join_keys reference (k ∷ ks) = join_keys (reference ++ (b'/' ∷ k)) ks

unfoldable pub join_reference : List Bytes → Bytes
unfolding join_keys
join_reference ref_keys = join_keys (codes "#") ref_keys

pub ok_eq {ℓ} : {A : Type ℓ} {a b : A} → ok a ≡ ok b → a ≡ b
ok_eq e = cc

-- Code that returned has made no such call.
pub requires-eq-ok {ℓ} :
    {A : Type ℓ} (test : Bool) (result : Result A) {a : A}
    → requires test result ≡ ok a
    → (test ≡ true) × (result ≡ ok a)
requires-eq-ok true result e = (refl, e)
requires-eq-ok false result e = cc

module _ {ℓ κ} {A : Type ℓ} {B : Type κ} where
  -- Where a chain returns, its first part has returned, and so has the rest from there.
  pub >>=-eq-ok :
      (first : Result A) (rest : A → Result B) {result : B}
      → (first >>= rest) ≡ ok result
      → (x : A) × (first ≡ ok x) × (rest x ≡ ok result)
  >>=-eq-ok out_of_fuel rest e = cc
  >>=-eq-ok (throw exc) rest e = cc
  >>=-eq-ok (ok x) rest e = (x, refl, e)

-- A chain runs out of fuel only where a part of it does.
pub >>=-ne-out_of_fuel {ℓ κ} :
    {A : Type ℓ} {B : Type κ} (m : Result A) (f : A → Result B)
    → m ≢ out_of_fuel
    → ((a : A) → m ≡ ok a → f a ≢ out_of_fuel)
    → (m >>= f) ≢ out_of_fuel
>>=-ne-out_of_fuel (ok a) f h k = k a refl
>>=-ne-out_of_fuel (throw e) f h k = λ p. cc
>>=-ne-out_of_fuel out_of_fuel f h k = absurd (h refl)
