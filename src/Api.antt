-- ===== src/Api.antt =====
-- src/oas_validator.cpp: the class `OASValidator`, which owns an `OASValidatorImp`, and the
-- destructor of that class, which owns the `ValidatorsStore`s in its tables. Both are addresses in a
-- memory; `none` is a read or a `delete` through a pointer to nothing that is there.
use cpp_oasvalidator.Prelude.{
  ◌&&◌, ◌||◌, ℕ, zero, suc, ◌+◌, Bytes, length, List, [], ◌∷◌, ◌++◌, ◌==◌, if◌then◌else◌, Bool,
  true, false, Option, none, some,
}
use cpp_oasvalidator.Common.{
  HttpMethod, get, post, put, delete, head, options, patch, connect, trace, Result, ok, ◌>>=◌,
}
use cpp_oasvalidator.Json.Library.{Parser, json_library}
use cpp_oasvalidator.Validators.{Rapidjson}
use cpp_oasvalidator.Pipeline.{MethodMap, OasValidatorImp}
use cpp_oasvalidator.Pipeline.Resolve.{load}
pub mod Calls
pub mod Copies
pub mod Fresh
pub mod Ownership
pub mod Serves
pub mod Stores

-- An object of the class `OASValidatorImp`, with the pointers in its tables.
pub record Implementation (lib : Rapidjson) : Type 0 where
  pub value : OasValidatorImp lib
  pub stores : List ℕ

-- What `new` has made and `delete` has not taken away: the implementations by address, and the
-- addresses of stores. `next` is the address that comes next.
pub record Memory (lib : Rapidjson) : Type 0 where
  pub implementations : List (ℕ × Implementation lib)
  pub stores : List ℕ
  pub next : ℕ

pub record OasValidator : Type 0 where
  pub impl : ℕ

-- What stands at an address.
unfoldable pub at_address {ℓ} : {A : Type ℓ} → ℕ → List (ℕ × A) → Option A
at_address a [] = none
at_address a ((b, x) ∷ m) = if b == a then some x else at_address a m

unfoldable pub erase_address {ℓ} : {A : Type ℓ} → ℕ → List (ℕ × A) → List (ℕ × A)
erase_address a [] = []
erase_address a ((b, x) ∷ m) = if b == a then m else (b, x) ∷ erase_address a m

-- `delete` of one store
unfoldable pub delete_store : ℕ → List ℕ → Option (List ℕ)
delete_store a [] = none
delete_store a (b ∷ live) =
    if b == a
    then some live
    else elim (delete_store a live) [ some live' ↦ some (b ∷ live') | none ↦ none ]

-- The loops of `OASValidatorImp::~OASValidatorImp`
unfoldable pub delete_stores : List ℕ → List ℕ → Option (List ℕ)
delete_stores [] live = some live
delete_stores (a ∷ stores) live = elim (delete_store a live) [
  | some live' ↦ delete_stores stores live'
  | none ↦ none
]

-- Whether a store is there, and whether all stores of a table are.
unfoldable pub is_live : ℕ → List ℕ → Bool
is_live a [] = false
is_live a (b ∷ live) = b == a || is_live a live

unfoldable pub all_live : List ℕ → List ℕ → Bool
all_live [] live = true
all_live (a ∷ stores) live = is_live a live && all_live stores live

-- Addresses for new stores
unfoldable pub fresh : ℕ → ℕ → List ℕ
fresh a zero = []
fresh a (suc n) = a ∷ fresh (suc a) n

module _ (lib : Rapidjson) where
  -- The entries of all tables, each with a pointer to a store of its own. A store that `emplace` did
  -- not take in, since its path was there, is none of them.
  abbrev pub count_stores : OasValidatorImp lib → ℕ
  count_stores v =
      let count = λ (m : HttpMethod). length (v.oas_validators m).per_path_validators in
      count get
      + (count post
          + (count put
              + (count delete
                  + (count head
                      + (count options + (count patch + (count connect + count trace)))))))

  -- `new OASValidatorImp(…)`, where the constructor has returned
  unfoldable pub new_implementation : OasValidatorImp lib → Memory lib → OasValidator × Memory lib
  new_implementation v mem =
      let n = count_stores v in
      let stores = fresh mem.next n in
      (
        record { impl = mem.next + n },
        record {
          implementations =
              (mem.next + n, record { value = v; stores = stores }) ∷ mem.implementations;
          stores = stores ++ mem.stores;
          next = mem.next + n + 1;
        },
      )

  -- `delete impl_`
  unfoldable pub delete_implementation : ℕ → Memory lib → Option (Memory lib)
  delete_implementation a mem = elim (at_address a mem.implementations) [
    | none ↦ none
    | some imp ↦ elim (delete_stores imp.stores mem.stores) [
      | none ↦ none
      | some live ↦
          some (record mem { implementations = erase_address a mem.implementations; stores = live })
    ]
  ]

  -- `OASValidator(const OASValidator& other)`: the copy constructor of `OASValidatorImp`, which is
  -- the compiler's, copies the pointers.
  unfoldable pub copy_validator : OasValidator → Memory lib → Option (OasValidator × Memory lib)
  copy_validator other mem = elim (at_address other.impl mem.implementations) [
    | none ↦ none
    | some imp ↦ some (
      record { impl = mem.next },
      record mem { implementations = (mem.next, imp) ∷ mem.implementations; next = mem.next + 1 },
    )
  ]

  -- `operator=`; the flag says whether both are one object.
  unfoldable pub assign_validator :
      Bool → OasValidator → OasValidator → Memory lib → Option (OasValidator × Memory lib)
  assign_validator true this other mem = some (this, mem)
  assign_validator false this other mem = elim (delete_implementation this.impl mem) [
    | some mem' ↦ copy_validator other mem'
    | none ↦ none
  ]

  -- `~OASValidator`
  abbrev pub destroy_validator : OasValidator → Memory lib → Option (Memory lib)
  destroy_validator this mem = delete_implementation this.impl mem

  -- `impl_->…`: a call of the implementation. It may read any store in the tables, so nothing is
  -- known of it where one of them is gone.
  abbrev pub forward :
      {A : Type 0} → OasValidator → Memory lib → (OasValidatorImp lib → Option A) → Option A
  forward this mem call = elim (at_address this.impl mem.implementations) [
    | some imp ↦ if all_live imp.stores mem.stores then call imp.value else none
    | none ↦ none
  ]

-- `OASValidator(oas_specs, method_map)`. Where the constructor throws, there is no object.
abbrev pub construct_validator :
    (p : Parser)
    → ℕ
    → (Bytes → Option Bytes)
    → Bytes
    → MethodMap
    → Memory (json_library p)
    → Result (OasValidator × Memory (json_library p))
construct_validator p fuel open_file oas_specs method_map mem =
    load p fuel open_file oas_specs method_map >>= λ v.
    ok (new_implementation (json_library p) v mem)
