-- ===== src/Pipeline/Resolve/Partly.antt =====
-- Values in which some references are already replaced, as `ResolveReferences` meets them.
use cpp_oasvalidator.Prelude.{
  ℕ, Bytes, equal, List, ◌∷◌, Bool-cases, true, some, inl, inr, ◌≡◌, refl, sym, ◌∙◌,
}
use cpp_oasvalidator.Json.{
  find_member, Json, array, object, Items, end, item, Members, nil, member, json_is_object,
}
use cpp_oasvalidator.Json.Library.{Parser, json_library}
use cpp_oasvalidator.Pipeline.References.{split, Leads, here, member as led}
use cpp_oasvalidator.Pipeline.Resolve.{foreign, kind_of}
use cpp_oasvalidator.Pipeline.Resolve.Steps.{not_text_kind}
use cpp_oasvalidator.Pipeline.Resolve.Expands.{
  first_reference, has-find_member, Way, arrived, through, IsLeaf, Expands, leaf, in_array,
  in_object, followed, ExpandItems, no_items, more_items, ExpandMembers, no_members, foreign_member,
  nested_member, first_reference-Refer,
}

module _ (source : Json) where
  -- Any number of references in the first value are replaced by what they lead to.
  mutual
    pub data Partly : Json → Json → Type 0 where
      same : (v : Json) → Partly v v
      part_array : {xs ys : Items} → PartlyItems xs ys → Partly (array xs) (array ys)
      part_object : {ms ns : Members} → PartlyMembers ms ns → Partly (object ms) (object ns)
      replaced :
          {ms ts : Members} {path : Bytes} {w : Json}
          → first_reference ms ≡ some path
          → Way source (split path) (object ts)
          → Partly (object ts) w
          → Partly (object ms) w

    pub data PartlyItems : Items → Items → Type 0 where
      part_end : PartlyItems end end
      part_item :
          {v w : Json} {xs ys : Items}
          → Partly v w
          → PartlyItems xs ys
          → PartlyItems (item v xs) (item w ys)

    pub data PartlyMembers : Members → Members → Type 0 where
      part_nil : PartlyMembers nil nil
      part_member :
          {k : Bytes} {v w : Json} {ms ns : Members}
          → Partly v w
          → PartlyMembers ms ns
          → PartlyMembers (member k v ms) (member k w ns)

  pub same_items : (xs : Items) → PartlyItems xs xs
  same_items end = part_end
  same_items (item v xs) = part_item (same v) (same_items xs)

  pub same_members : (ms : Members) → PartlyMembers ms ms
  same_members nil = part_nil
  same_members (member k v ms) = part_member (same v) (same_members ms)

  pub Partly-array :
      {xs : Items} {y : Json}
      → Partly (array xs) y
      → (ys : Items) × (y ≡ array ys) × PartlyItems xs ys
  Partly-array {xs} (same _) = (xs, refl, same_items xs)
  Partly-array (part_array {ys = ys} h) = (ys, refl, h)

  -- An object is still there, with members replaced, or it was a reference.
  pub data PartlyObject (ms : Members) (y : Json) : Type 0 where
    kept : (ns : Members) → y ≡ object ns → PartlyMembers ms ns → PartlyObject ms y
    gone :
        (ts : Members) (path : Bytes)
        → first_reference ms ≡ some path
        → Way source (split path) (object ts)
        → Partly (object ts) y
        → PartlyObject ms y

  pub Partly-object : {ms : Members} {y : Json} → Partly (object ms) y → PartlyObject ms y
  Partly-object {ms} (same _) = kept ms refl (same_members ms)
  Partly-object (part_object {ns = ns} h) = kept ns refl h
  Partly-object (replaced {ts = ts} {path = path} e w h) = gone ts path e w h

  pub Partly-leaf : {v y : Json} → IsLeaf v → Partly v y → y ≡ v
  Partly-leaf l (same _) = refl
  Partly-leaf l (part_array h) = elim l [ ]
  Partly-leaf l (part_object h) = elim l [ ]
  Partly-leaf l (replaced e w h) = elim l [ ]

  pub Partly-is_object : {ms : Members} {y : Json} → Partly (object ms) y → json_is_object y ≡ true
  Partly-is_object (same _) = refl
  Partly-is_object (part_object h) = refl
  Partly-is_object (replaced e w h) = Partly-is_object h

  -- A member is of the same kind, whatever is replaced in its value.
  pub Partly-kind : (k : Bytes) {v y : Json} → Partly v y → kind_of k y ≡ kind_of k v
  Partly-kind k (same _) = refl
  Partly-kind k (part_array {xs = xs} {ys = ys} h) =
      rw (not_text_kind k (array xs) refl, not_text_kind k (array ys) refl)
  Partly-kind k (part_object {ms = ms} {ns = ns} h) =
      rw (not_text_kind k (object ms) refl, not_text_kind k (object ns) refl)
  Partly-kind k (replaced {ms = ms} {ts = ts} e w h) =
      Partly-kind k h ∙ not_text_kind k (object ts) refl ∙ sym (not_text_kind k (object ms) refl)

  pub Partly-foreign : (k : Bytes) {v y : Json} → kind_of k v ≡ foreign → Partly v y → y ≡ v
  Partly-foreign k e (same _) = refl
  Partly-foreign k e (part_array {xs = xs} h) = cc (not_text_kind k (array xs) refl)
  Partly-foreign k e (part_object {ms = ms} h) = cc (not_text_kind k (object ms) refl)
  Partly-foreign k e (replaced {ms = ms} e' w h) = cc (not_text_kind k (object ms) refl)

  -- What a value stands for is a replacement of all of its references.
  mutual
    pub Expands-Partly : {n : ℕ} {v w : Json} → Expands source n v w → Partly v w
    Expands-Partly (leaf {v = v} h) = same v
    Expands-Partly (in_array h) = part_array (ExpandItems-PartlyItems h)
    Expands-Partly (in_object h) = part_object (ExpandMembers-PartlyMembers h)
    Expands-Partly (followed r w h) = replaced (first_reference-Refer source r) w (Expands-Partly h)

    ExpandItems-PartlyItems :
        {n : ℕ} {xs ys : Items} → ExpandItems source n xs ys → PartlyItems xs ys
    ExpandItems-PartlyItems no_items = part_end
    ExpandItems-PartlyItems (more_items h hs) =
        part_item (Expands-Partly h) (ExpandItems-PartlyItems hs)

    ExpandMembers-PartlyMembers :
        {n : ℕ} {ms ns : Members} → ExpandMembers source n ms ns → PartlyMembers ms ns
    ExpandMembers-PartlyMembers no_members = part_nil
    ExpandMembers-PartlyMembers (foreign_member {v = v} e hs) =
        part_member (same v) (ExpandMembers-PartlyMembers hs)
    ExpandMembers-PartlyMembers (nested_member e h hs) =
        part_member (Expands-Partly h) (ExpandMembers-PartlyMembers hs)

  find_member-PartlyMembers :
      (key : Bytes) {ms ns : Members} (v : Json)
      → PartlyMembers ms ns
      → find_member key ms ≡ some v
      → (y : Json) × (find_member key ns ≡ some y) × Partly v y
  unfolding find_member
  find_member-PartlyMembers key v part_nil e = cc
  find_member-PartlyMembers key v (part_member {k = k} {v = x} {w = y} h hs) e =
      elim (Bool-cases (equal k key)) [
        | inl t ↦ let q : x ≡ v = cc (rw t at e) in (y, rw t, rw (← q) h)
        | inr f ↦ rw f (find_member-PartlyMembers key v hs (rw f at e))
      ]

  -- A way still leads to its value, with some references replaced.
  pub Way-Leads :
      (p : Parser) {a t : Json} {keys : List Bytes}
      → Way a keys t
      → (b : Json) → Partly a b
      → (u : Json) × Leads (json_library p) b keys u × Partly t u
  Way-Leads p (arrived v) b h = (b, here b, h)
  Way-Leads p {t = t} (through {ms = ms} {key = key} {keys = keys} {v = v} e f w) b h =
      go (Partly-object h) (λ y. Way-Leads p w y)
    where
      go :
          PartlyObject ms b
          → ((y : Json) → Partly v y → (u : Json) × Leads (json_library p) y keys u × Partly t u)
          → (u : Json) × Leads (json_library p) b (key ∷ keys) u × Partly t u
      go (kept ns q hs) ih =
          let (y, g, r) = find_member-PartlyMembers key v hs f in
          let (m, i) = has-find_member key ns y g in
          let (u, l, s) = ih y r in (u, rw q (led _ _ key keys refl m (rw i l)), s)
      go (gone ts path e' w' h') ih = cc
