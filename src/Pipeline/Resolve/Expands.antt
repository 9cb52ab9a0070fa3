-- ===== src/Pipeline/Resolve/Expands.antt =====
-- What a document means whose references are followed: each object with a reference stands for the
-- object that the reference leads to in the source document.
use cpp_oasvalidator.Prelude.{
  ℕ, suc, Bytes, equal, List, [], ◌∷◌, Bool-cases, true, Option, none, some, inl, inr, ◌≡◌, refl,
}
use cpp_oasvalidator.Json.{
  Json, array, object, Items, end, item, Members, nil, member, has, get_member, find_member,
}
use cpp_oasvalidator.Pipeline.References.{split}
use cpp_oasvalidator.Pipeline.Resolve.{reference, foreign, nested, kind_of}

-- The path of the first reference among the members.
unfoldable pub first_reference : Members → Option Bytes
first_reference nil = none
first_reference (member k v ms) = elim (kind_of k v) [
  | reference path ↦ some path
  | foreign ↦ first_reference ms
  | nested ↦ first_reference ms
]

-- A way through the members of objects that are no references themselves.
pub data Way : Json → List Bytes → Json → Type 0 where
  arrived : (v : Json) → Way v [] v
  through :
      {ms : Members} {key : Bytes} {keys : List Bytes} {v t : Json}
      → first_reference ms ≡ none
      → find_member key ms ≡ some v
      → Way v keys t
      → Way (object ms) (key ∷ keys) t

-- Values without members and items.
abbrev pub IsLeaf : Json → Type 0
IsLeaf (array xs) = ⊥
IsLeaf (object ms) = ⊥
IsLeaf _ = Unit

module _ (source : Json) where
  -- `Expands n v w`: with every reference in it followed, `v` is `w`; calls and references nest no
  -- deeper than `n`.
  mutual
    pub data Expands : ℕ → Json → Json → Type 0 where
      leaf : {n : ℕ} {v : Json} → IsLeaf v → Expands (suc n) v v
      in_array :
          {n : ℕ} {xs ys : Items} → ExpandItems n xs ys → Expands (suc n) (array xs) (array ys)
      in_object :
          {n : ℕ} {ms ns : Members}
          → ExpandMembers n ms ns
          → Expands (suc n) (object ms) (object ns)
      followed :
          {n : ℕ} {ms ts : Members} {path : Bytes} {w : Json}
          → Refer n ms path
          → Way source (split path) (object ts)
          → Expands n (object ts) w
          → Expands (suc n) (object ms) w

    pub data ExpandItems : ℕ → Items → Items → Type 0 where
      no_items : {n : ℕ} → ExpandItems n end end
      more_items :
          {n : ℕ} {v w : Json} {xs ys : Items}
          → Expands n v w
          → ExpandItems n xs ys
          → ExpandItems n (item v xs) (item w ys)

    pub data ExpandMembers : ℕ → Members → Members → Type 0 where
      no_members : {n : ℕ} → ExpandMembers n nil nil
      foreign_member :
          {n : ℕ} {k : Bytes} {v : Json} {ms ns : Members}
          → kind_of k v ≡ foreign
          → ExpandMembers n ms ns
          → ExpandMembers n (member k v ms) (member k v ns)
      nested_member :
          {n : ℕ} {k : Bytes} {v w : Json} {ms ns : Members}
          → kind_of k v ≡ nested
          → Expands n v w
          → ExpandMembers n ms ns
          → ExpandMembers n (member k v ms) (member k w ns)

    -- The first reference has the path, and the members in front of it can be expanded.
    pub data Refer : ℕ → Members → Bytes → Type 0 where
      at_reference :
          {n : ℕ} {k path : Bytes} {v : Json} {ms : Members}
          → kind_of k v ≡ reference path
          → Refer n (member k v ms) path
      behind_foreign :
          {n : ℕ} {k path : Bytes} {v : Json} {ms : Members}
          → kind_of k v ≡ foreign
          → Refer n ms path
          → Refer n (member k v ms) path
      behind_nested :
          {n : ℕ} {k path : Bytes} {v w : Json} {ms : Members}
          → kind_of k v ≡ nested
          → Expands n v w
          → Refer n ms path
          → Refer n (member k v ms) path

  pub first_reference-Refer :
      {n : ℕ} {ms : Members} {path : Bytes} → Refer n ms path → first_reference ms ≡ some path
  unfolding first_reference
  first_reference-Refer (at_reference e) = rw (e, first_reference)
  first_reference-Refer (behind_foreign e r) = rw (e, first_reference) (first_reference-Refer r)
  first_reference-Refer (behind_nested e h r) = rw (e, first_reference) (first_reference-Refer r)

  pub first_reference-ExpandMembers :
      {n : ℕ} {ms ns : Members} → ExpandMembers n ms ns → first_reference ms ≡ none
  unfolding first_reference
  first_reference-ExpandMembers no_members = refl
  first_reference-ExpandMembers (foreign_member e h) =
      rw (e, first_reference) (first_reference-ExpandMembers h)
  first_reference-ExpandMembers (nested_member e x h) =
      rw (e, first_reference) (first_reference-ExpandMembers h)

-- `HasMember` and `operator[]` on a key that is found.
pub has-find_member :
    (key : Bytes) (ms : Members) (v : Json)
    → find_member key ms ≡ some v
    → (has key ms ≡ true) × (get_member key ms ≡ v)
unfolding find_member
has-find_member key nil v e = cc
has-find_member key (member k x ms) v e = elim (Bool-cases (equal k key)) [
  | inl t ↦ rw t (refl, cc (rw t at e))
  | inr f ↦ rw f (has-find_member key ms v (rw f at e))
]

-- A way leads to one value only.
pub Way-unique : {a t t' : Json} {keys : List Bytes} → Way a keys t → Way a keys t' → t ≡ t'
Way-unique (arrived v) (arrived _) = refl
Way-unique {t' = t'} (through {keys = keys} {v = v} f g w) (through {v = v'} f' g' w') =
    let same : v' ≡ v = cc in Way-unique w (rw same at w')
