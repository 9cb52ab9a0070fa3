-- ===== src/Api/Copies.antt =====
-- src/oas_validator.cpp: the copy constructor and `operator=`.
use cpp_oasvalidator.Prelude.{
  ℕ, ◌+◌, ◌≤◌, ◌<◌, List, [], ◌∷◌, length, ==_iff, false, Option, none, some, ◌≡◌, ◌≢◌, refl, sym,
  ◌∙◌, arith,
}
use cpp_oasvalidator.Common.{Result}
use cpp_oasvalidator.Validators.{Rapidjson, Report}
use cpp_oasvalidator.Pipeline.{OasValidatorImp}
use cpp_oasvalidator.Api.{
  Implementation, Memory, OasValidator, at_address, erase_address, delete_stores,
  delete_implementation, copy_validator, assign_validator, destroy_validator, forward,
}
use cpp_oasvalidator.Api.Stores.{
  all_live-occurrences, occurrences, occurrences-here, IsShared, delete_store-missing,
  delete_stores-IsShared,
}
use cpp_oasvalidator.Api.Ownership.{
  owned, Reaches, at_address-there, at_address-owned, without, delete_implementation-found,
  delete_implementation-IsOwned, Reaches-IsOwned,
}
use cpp_oasvalidator.Api.Fresh.{different, erase_address-other, Reaches-IsFresh}

-- The first store is not there any more.
delete_stores-dead :
    (stores live : List ℕ)
    → 0 < length stores
    → ((c : ℕ) → 0 < occurrences c stores → occurrences c live ≡ 0)
    → delete_stores stores live ≡ none
unfolding delete_stores
delete_stores-dead [] live h dead = absurd (omega arith)
delete_stores-dead (a ∷ stores) live h dead =
    let one = occurrences-here a a stores ((==_iff a a).1 refl) in
    rw (delete_stores, delete_store-missing a live (dead a (omega arith))) refl

module _ (lib : Rapidjson) where
  delete_implementation-dead :
      (a : ℕ) (mem : Memory lib) (imp : Implementation lib)
      → at_address a mem.implementations ≡ some imp
      → delete_stores imp.stores mem.stores ≡ none
      → delete_implementation lib a mem ≡ none
  unfolding delete_implementation
  delete_implementation-dead a mem imp e f = rw (delete_implementation, e) (rw f refl)

  -- Two pointers to implementations with the same stores: `delete` of one and then the other
  delete_implementation-twice :
      (a b : ℕ) (mem : Memory lib) (imp : Implementation lib) (rest : List ℕ)
      → 0 < length imp.stores
      → ((c : ℕ) → occurrences c mem.stores ≤ 1)
      → IsShared mem.stores imp.stores rest
      → a ≢ b
      → at_address a mem.implementations ≡ some imp
      → at_address b mem.implementations ≡ some imp
      → (mem' : Memory lib) × (delete_implementation lib a mem ≡ some mem')
        × (delete_implementation lib b mem' ≡ none)
  delete_implementation-twice a b mem imp rest many once shared ne at_a at_b =
      let (live, f, left) = delete_stores-IsShared imp.stores mem.stores rest shared in
      (
        without lib a live mem,
        delete_implementation-found lib a imp live mem at_a f,
        delete_implementation-dead b (without lib a live mem) imp
            (erase_address-other lib a b mem.implementations ne ∙ at_b)
            (delete_stores-dead imp.stores live many
              (λ c h. omega (arith, once c, shared c, left c, h))),
      )

  -- What the copy constructor leaves
  abbrev copied_memory : Memory lib → Implementation lib → Memory lib
  copied_memory mem imp = record mem {
    implementations = (mem.next, imp) ∷ mem.implementations;
    next = mem.next + 1;
  }

  copied_memory-at :
      (mem : Memory lib) (imp : Implementation lib)
      → at_address mem.next (copied_memory mem imp).implementations ≡ some imp
  unfolding at_address
  copied_memory-at mem imp = rw ((==_iff mem.next mem.next).1 refl) refl

  copy_validator-found :
      (mem : Memory lib) (this : OasValidator) (imp : Implementation lib)
      → at_address this.impl mem.implementations ≡ some imp
      → copy_validator lib this mem ≡ some (record { impl = mem.next }, copied_memory mem imp)
  unfolding copy_validator
  copy_validator-found mem this imp e = rw (copy_validator, e) refl

  -- `~OASValidator` of the first returns, and then that of the second deletes what is gone.
  abbrev pub SecondFails : OasValidator → OasValidator → Memory lib → Type 0
  SecondFails first second mem =
      (mem' : Memory lib) × (destroy_validator lib first mem ≡ some mem')
      × (destroy_validator lib second mem' ≡ none)

  -- Let validators have been made and destroyed, but not copied, and let a live one have a store.
  -- Then the copy constructor makes a copy of it, and of the two destructors the first to run
  -- returns and the second deletes a store that is gone, whichever runs first.
  pub copy_validator-SecondFails :
      (mem : Memory lib) (this : OasValidator) (imp : Implementation lib)
      → Reaches lib mem
      → at_address this.impl mem.implementations ≡ some imp
      → 0 < length imp.stores
      → (copy : OasValidator) × (mem' : Memory lib) × (copy_validator lib this mem
          ≡ some (copy, mem'))
        × SecondFails this copy mem'
        × SecondFails copy this mem'
  copy_validator-SecondFails mem this imp r e many =
      let (once, behind, at) = Reaches-IsFresh lib mem r in
      let old = at this.impl imp e in
      let copied = copied_memory mem imp in
      let rest = owned lib (erase_address this.impl mem.implementations) in
      let shared : IsShared mem.stores imp.stores rest = (λ c. omega (
        arith,
        Reaches-IsOwned lib mem r c,
        at_address-owned lib this.impl mem.implementations imp e c,
      )) in
      let at_this =
        at_address-there lib this.impl mem.next imp mem.implementations
          (different mem.next this.impl (λ q. omega arith))
        ∙ e in
      let at_copy = copied_memory-at mem imp in
      (
        record { impl = mem.next },
        copied,
        copy_validator-found mem this imp e,
        delete_implementation-twice this.impl mem.next copied imp rest many once shared
            (λ q. omega arith) at_this at_copy,
        delete_implementation-twice mem.next this.impl copied imp rest many once shared
            (λ q. omega arith) at_copy at_this,
      )

  assign_validator-found :
      (this other : OasValidator) (mem mem' : Memory lib) (made : OasValidator × Memory lib)
      → destroy_validator lib this mem ≡ some mem'
      → copy_validator lib other mem' ≡ some made
      → assign_validator lib false this other mem ≡ some made
  unfolding assign_validator
  assign_validator-found this other mem mem' made e f = rw (assign_validator, e) f

  forward-found :
      (this : OasValidator) (mem : Memory lib) (imp : Implementation lib)
      (call : OasValidatorImp lib → Option (Result Report))
      → at_address this.impl mem.implementations ≡ some imp
      → ((c : ℕ) → occurrences c imp.stores ≤ occurrences c mem.stores)
      → forward lib this mem call ≡ call imp.value
  forward-found this mem imp call e h =
      rw (forward, e) (rw (all_live-occurrences imp.stores mem.stores h) refl)

  -- Let validators have been made and destroyed, but not copied, and let two of them be live, with
  -- different implementations. Then `operator=` returns, and from there each call of either returns
  -- what the call of the right side returned before, which is what its tables give: all stores of
  -- both are live then as before.
  pub assign_validator-forward :
      (mem : Memory lib) (this other : OasValidator) (old imp : Implementation lib)
      → Reaches lib mem
      → this.impl ≢ other.impl
      → at_address this.impl mem.implementations ≡ some old
      → at_address other.impl mem.implementations ≡ some imp
      → (this' : OasValidator) × (mem' : Memory lib) × (assign_validator lib false this other mem
          ≡ some (this', mem'))
        × ((call : OasValidatorImp lib → Option (Result Report))
            → (forward lib this' mem' call ≡ forward lib other mem call)
              × (forward lib other mem' call ≡ forward lib other mem call)
              × (forward lib other mem call ≡ call imp.value))
  assign_validator-forward mem this other old imp r ne e f =
      let (once, behind, at) = Reaches-IsFresh lib mem r in
      let before = at other.impl imp f in
      let (live, d, owns) =
        delete_implementation-IsOwned lib this.impl mem old (Reaches-IsOwned lib mem r) e in
      let left = without lib this.impl live mem in
      let kept = erase_address-other lib this.impl other.impl mem.implementations ne ∙ f in
      let copied = copied_memory left imp in
      let there : (c : ℕ) → occurrences c imp.stores ≤ occurrences c mem.stores = λ c. omega (
        arith,
        Reaches-IsOwned lib mem r c,
        at_address-owned lib other.impl mem.implementations imp f c,
      ) in
      let still : (c : ℕ) → occurrences c imp.stores ≤ occurrences c live = λ c.
        omega (arith, owns c, at_address-owned lib other.impl left.implementations imp kept c) in
      let at_other =
        at_address-there lib other.impl mem.next imp left.implementations
          (different mem.next other.impl (λ q. omega arith))
        ∙ kept in
      (
        record { impl = mem.next },
        copied,
        assign_validator-found this other mem left (record { impl = mem.next }, copied) d
            (copy_validator-found left other imp kept),
        λ call.
            let answer = forward-found other mem imp call f there in
            (
              forward-found (record { impl = mem.next }) copied imp call (copied_memory-at left imp)
                    still
                  ∙ sym answer,
              forward-found other copied imp call at_other still ∙ sym answer,
              answer,
            ),
      )
