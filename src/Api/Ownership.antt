-- ===== src/Api/Ownership.antt =====
-- src/oas_validator.cpp and the destructor of `OASValidatorImp`: who owns the stores.
use cpp_oasvalidator.Prelude.{
  ℕ, ◌+◌, List, [], ◌∷◌, ◌++◌, ◌==◌, Bool-cases, Option-cases, true, false, none, some, ◌≡◌, refl,
  sym, ◌∙◌, ap, arith, inl, inr,
}
use cpp_oasvalidator.Validators.{Rapidjson}
use cpp_oasvalidator.Pipeline.{OasValidatorImp}
use cpp_oasvalidator.Api.{
  Implementation, Memory, OasValidator, at_address, erase_address, delete_stores, fresh,
  count_stores, new_implementation, delete_implementation, destroy_validator,
}
use cpp_oasvalidator.Api.Stores.{occurrences, occurrences-append, IsShared, delete_stores-IsShared}

module _ (lib : Rapidjson) where
  -- The stores in the tables of all implementations
  unfoldable pub owned : List (ℕ × Implementation lib) → List ℕ
  owned [] = []
  owned ((a, imp) ∷ imps) = imp.stores ++ owned imps

  -- The live stores are those in the tables, each as often as it stands there.
  abbrev pub IsOwned : Memory lib → Type 0
  IsOwned mem = (c : ℕ) → occurrences c mem.stores ≡ occurrences c (owned mem.implementations)

  unfoldable pub no_memory : Memory lib
  no_memory = record { implementations = []; stores = []; next = 0 }

  -- What a program reaches that makes validators and destroys them, and copies none.
  pub data Reaches : Memory lib → Type 0 where
    start : Reaches no_memory
    constructed :
        {mem : Memory lib} (v : OasValidatorImp lib)
        → Reaches mem
        → Reaches (new_implementation lib v mem).1
    destroyed :
        {mem mem' : Memory lib} (this : OasValidator)
        → Reaches mem
        → destroy_validator lib this mem ≡ some mem'
        → Reaches mem'

  at_address-here :
      (a b : ℕ) (x imp : Implementation lib) (imps : List (ℕ × Implementation lib))
      → b == a ≡ true
      → at_address a ((b, x) ∷ imps) ≡ some imp
      → x ≡ imp
  unfolding at_address
  at_address-here a b x imp imps e h = let found = rw e at h in cc

  pub at_address-there :
      (a b : ℕ) (x : Implementation lib) (imps : List (ℕ × Implementation lib))
      → b == a ≡ false
      → at_address a ((b, x) ∷ imps) ≡ at_address a imps
  unfolding at_address
  at_address-there a b x imps e = rw e refl

  pub at_address-owned :
      (a : ℕ) (imps : List (ℕ × Implementation lib)) (imp : Implementation lib)
      → at_address a imps ≡ some imp
      → IsShared (owned imps) imp.stores (owned (erase_address a imps))
  unfolding at_address erase_address owned
  at_address-owned a [] imp h c = cc
  at_address-owned a ((b, x) ∷ imps) imp h c = elim (Bool-cases (b == a)) [
    | inl e ↦ rw e (
        occurrences-append c x.stores (owned imps)
        ∙ ap (λ i. occurrences c i.stores + occurrences c (owned imps))
            (at_address-here a b x imp imps e h))
    | inr e ↦
        let ih = at_address-owned a imps imp (sym (at_address-there a b x imps e) ∙ h) c in
        let l = occurrences-append c x.stores (owned imps) in
        let r = occurrences-append c x.stores (owned (erase_address a imps)) in rw e (omega arith)
  ]

  -- What `delete` leaves
  abbrev pub without : ℕ → List ℕ → Memory lib → Memory lib
  without a live mem = record mem {
    implementations = erase_address a mem.implementations;
    stores = live;
  }

  pub delete_implementation-found :
      (a : ℕ) (imp : Implementation lib) (live : List ℕ) (mem : Memory lib)
      → at_address a mem.implementations ≡ some imp
      → delete_stores imp.stores mem.stores ≡ some live
      → delete_implementation lib a mem ≡ some (without a live mem)
  unfolding delete_implementation
  delete_implementation-found a imp live mem e f = rw (delete_implementation, e) (rw f refl)

  pub delete_implementation-IsOwned :
      (a : ℕ) (mem : Memory lib) (imp : Implementation lib)
      → IsOwned mem
      → at_address a mem.implementations ≡ some imp
      → (live : List ℕ) × (delete_implementation lib a mem ≡ some (without a live mem))
        × IsOwned (without a live mem)
  unfolding occurrences
  delete_implementation-IsOwned a mem imp h e =
      let shared = at_address-owned a mem.implementations imp e in
      let (live, f, rest) =
        delete_stores-IsShared imp.stores mem.stores (owned (erase_address a mem.implementations))
          (λ c. let x = shared c in let y = h c in omega arith) in
      (live, delete_implementation-found a imp live mem e f, rest)

  pub delete_implementation-missing :
      (a : ℕ) (mem : Memory lib)
      → at_address a mem.implementations ≡ none
      → delete_implementation lib a mem ≡ none
  unfolding delete_implementation
  delete_implementation-missing a mem e = rw (delete_implementation, e) refl

  -- Where validators have been made and destroyed, but not copied, each live store belongs to one
  -- live implementation, once, and no implementation has another store. So none leaks, and none is
  -- left where no implementation is.
  pub Reaches-IsOwned : (mem : Memory lib) → Reaches mem → IsOwned mem
  unfolding no_memory owned new_implementation
  Reaches-IsOwned mem start = λ c. refl
  Reaches-IsOwned mem (constructed {mem = before} v r) = λ c.
      let ih = Reaches-IsOwned before r c in
      let stores = fresh before.next (count_stores lib v) in
      let l = occurrences-append c stores before.stores in
      let r = occurrences-append c stores (owned before.implementations) in omega arith
  Reaches-IsOwned mem (destroyed {mem = before} this r e) =
      elim (Option-cases (at_address this.impl before.implementations)) [
        | inl missing ↦ let x = delete_implementation-missing this.impl before missing in cc
        | inr found ↦
            let (imp, at) = found in
            let (live, f, h) =
              delete_implementation-IsOwned this.impl before imp (Reaches-IsOwned before r) at in
            let q : without this.impl live before ≡ mem = cc in rw (← q) h
      ]

  -- Where validators have been made and destroyed, but not copied, the destructor of each that is
  -- live returns: it deletes nothing that is gone.
  pub destroy_validator_total :
      (mem : Memory lib) (this : OasValidator) (imp : Implementation lib)
      → Reaches mem
      → at_address this.impl mem.implementations ≡ some imp
      → (mem' : Memory lib) × (destroy_validator lib this mem ≡ some mem')
  destroy_validator_total mem this imp r e =
      let (live, f, h) =
        delete_implementation-IsOwned this.impl mem imp (Reaches-IsOwned mem r) e in
      (without this.impl live mem, f)
