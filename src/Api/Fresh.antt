-- ===== src/Api/Fresh.antt =====
-- src/oas_validator.cpp: no address is given out twice.
use cpp_oasvalidator.Prelude.{
  ℕ, zero, suc, ◌+◌, ◌≤◌, ◌<◌, leb, ◌⊎◌, List, [], ◌∷◌, ◌==◌, ==_iff, Bool-cases, Option-cases,
  false, some, ◌≡◌, ◌≢◌, refl, sym, ◌∙◌, arith, inl, inr,
}
use cpp_oasvalidator.Validators.{Rapidjson}
use cpp_oasvalidator.Pipeline.{OasValidatorImp}
use cpp_oasvalidator.Api.{
  Implementation, Memory, OasValidator, at_address, erase_address, fresh, count_stores,
  new_implementation, destroy_validator,
}
use cpp_oasvalidator.Api.Stores.{occurrences, occurrences-append}
use cpp_oasvalidator.Api.Ownership.{
  no_memory, Reaches, start, constructed, destroyed, at_address-owned, without,
  delete_implementation-missing, delete_implementation-IsOwned, IsOwned, Reaches-IsOwned,
}

fresh-occurrences :
    (c a n : ℕ)
    → (occurrences c (fresh a n) ≤ 1)
      × (c < a → occurrences c (fresh a n) ≡ 0)
      × (a + n ≤ c → occurrences c (fresh a n) ≡ 0)
unfolding occurrences fresh
fresh-occurrences c a zero = (omega arith, λ h. refl, λ h. refl)
fresh-occurrences c a (suc n) =
    let (one, before, behind) = fresh-occurrences c (suc a) n in
    elim (Bool-cases (a == c)) [
      | inl e ↦
          let q : a ≡ c = (==_iff a c).0 e in
          let none_left = before (omega arith) in
          (rw e (omega arith), λ h. absurd (omega arith), λ h. absurd (omega arith))
      | inr e ↦ (
        rw e (omega arith),
        λ h. let x = before (omega arith) in rw e (omega arith),
        λ h. let x = behind (omega arith) in rw e (omega arith),
      )
    ]

pub decide_le : (a b : ℕ) → (a ≤ b) ⊎ (b < a)
decide_le a b = elim (Bool-cases (leb a b)) [
  | inl e ↦ inl (ground arith)
  | inr e ↦ inr (ground arith)
]

pub different : (a b : ℕ) → a ≢ b → a == b ≡ false
different a b h = elim (Bool-cases (a == b)) [ inl e ↦ absurd (h ((==_iff a b).0 e)) | inr e ↦ e ]

module _ (lib : Rapidjson) where
  pub erase_address-other :
      (a b : ℕ) (imps : List (ℕ × Implementation lib))
      → a ≢ b
      → at_address b (erase_address a imps) ≡ at_address b imps
  unfolding at_address erase_address
  erase_address-other a b [] h = refl
  erase_address-other a b ((c, x) ∷ imps) h = elim (Bool-cases (c == a)) [
    | inl e ↦ let q : c ≡ a = (==_iff c a).0 e in rw (e, different c b (λ p. h (sym q ∙ p))) refl
    | inr e ↦ elim (Bool-cases (c == b)) [
      | inl f ↦ rw (e, f) refl
      | inr f ↦ rw (e, f) (erase_address-other a b imps h)
    ]
  ]

  -- Each store is live once, and no live address is behind the next one.
  abbrev pub IsFresh : Memory lib → Type 0
  IsFresh mem =
      ((c : ℕ) → occurrences c mem.stores ≤ 1)
      × ((c : ℕ) → mem.next ≤ c → occurrences c mem.stores ≡ 0)
      × ((c : ℕ) (imp : Implementation lib)
          → at_address c mem.implementations ≡ some imp
          → c < mem.next)

  erase_address-found :
      (a b : ℕ) (imps : List (ℕ × Implementation lib)) (imp : Implementation lib)
      → at_address b (erase_address a imps) ≡ some imp
      → (imp' : Implementation lib) × (at_address b imps ≡ some imp')
  unfolding at_address erase_address
  erase_address-found a b [] imp h = (imp, h)
  erase_address-found a b ((c, x) ∷ imps) imp h = elim (Bool-cases (c == b)) [
    | inl f ↦ (x, rw f refl)
    | inr f ↦ elim (Bool-cases (c == a)) [
      | inl e ↦ (imp, rw f (rw e at h))
      | inr e ↦ let (imp', g) = erase_address-found a b imps imp (rw (e, f) at h) in (imp', rw f g)
    ]
  ]

  new_implementation-IsFresh :
      (v : OasValidatorImp lib) (mem : Memory lib)
      → IsFresh mem
      → IsFresh (new_implementation lib v mem).1
  unfolding at_address new_implementation
  new_implementation-IsFresh v mem (once, behind, at) =
      let n = count_stores lib v in
      let stores = fresh mem.next n in
      (
        λ c.
            let (one, before, after) = fresh-occurrences c mem.next n in
            let l = occurrences-append c stores mem.stores in
            let o = once c in
            elim (decide_le mem.next c) [
              | inl h ↦ let z = behind c h in omega arith
              | inr h ↦ let z = before h in omega arith
            ],
        λ c h.
            let (one, before, after) = fresh-occurrences c mem.next n in
            let l = occurrences-append c stores mem.stores in
            let z = behind c (omega arith) in let y = after (omega arith) in omega arith,
        λ c imp h. elim (Bool-cases (mem.next + n == c)) [
          | inl e ↦ let q : mem.next + n ≡ c = (==_iff (mem.next + n) c).0 e in omega arith
          | inr e ↦ let z = at c imp (rw e at h) in omega arith
        ],
      )

  destroy_validator-IsFresh :
      (this : OasValidator) (mem mem' : Memory lib)
      → IsFresh mem
      → IsOwned lib mem
      → destroy_validator lib this mem ≡ some mem'
      → IsFresh mem'
  destroy_validator-IsFresh this mem mem' (once, behind, at) h e =
      elim (Option-cases (at_address this.impl mem.implementations)) [
        | inl missing ↦ let x = delete_implementation-missing lib this.impl mem missing in cc
        | inr found ↦
            let (imp, there) = found in
            let (live, f, owns) = delete_implementation-IsOwned lib this.impl mem imp h there in
            let shared = at_address-owned lib this.impl mem.implementations imp there in
            let q : without lib this.impl live mem ≡ mem' = cc in
            rw (← q) (
              λ c. omega (arith, once c, h c, owns c, shared c),
              λ c l. omega (arith, behind c l, h c, owns c, shared c),
              λ c i k.
                  let (i', k') = erase_address-found this.impl c mem.implementations i k in
                  at c i' k',
            )
      ]

  pub Reaches-IsFresh : (mem : Memory lib) → Reaches lib mem → IsFresh mem
  unfolding no_memory at_address occurrences
  Reaches-IsFresh mem start = (λ c. omega arith, λ c h. refl, λ c imp h. cc)
  Reaches-IsFresh mem (constructed {mem = before} v r) =
      new_implementation-IsFresh v before (Reaches-IsFresh before r)
  Reaches-IsFresh mem (destroyed {mem = before} this r e) =
      destroy_validator-IsFresh this before mem (Reaches-IsFresh before r)
        (Reaches-IsOwned lib before r) e
