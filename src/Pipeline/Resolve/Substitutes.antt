-- ===== src/Pipeline/Resolve/Substitutes.antt =====
-- `ResolveReferences` replaces each reference by what it stands for.
use cpp_oasvalidator.Prelude.{ℕ, zero, suc, ◌≤◌, ◌<◌, Bytes, ◌≡◌, refl, ◌∙◌, arith}
use cpp_oasvalidator.Common.{ok}
use cpp_oasvalidator.Json.{
  Json, null, flag, number, text, array, object, Items, item, Members, member,
}
use cpp_oasvalidator.Json.Library.{Parser, json_library}
use cpp_oasvalidator.Pipeline.References.{split, resolve_path, leads}
use cpp_oasvalidator.Pipeline.Resolve.{
  finished, copied, scan_members, resolve_items, resolve_references,
}
use cpp_oasvalidator.Pipeline.Resolve.Steps.{
  scan_reference, scan_foreign, scan_nested, reiterate_object,
}
use cpp_oasvalidator.Pipeline.Resolve.Expands.{
  Way, Way-unique, IsLeaf, Expands, leaf, in_array, in_object, followed, ExpandItems, no_items,
  more_items, ExpandMembers, no_members, foreign_member, nested_member, Refer, at_reference,
  behind_foreign, behind_nested, first_reference-Refer, first_reference-ExpandMembers,
}
use cpp_oasvalidator.Pipeline.Resolve.Partly.{
  Partly, same, replaced, PartlyItems, part_end, part_item, part_array, PartlyMembers, part_nil,
  part_member, part_object, kept, gone, Partly-array, Partly-object, Partly-leaf, Partly-is_object,
  Partly-kind, Partly-foreign, Expands-Partly, Way-Leads,
}

module _ (p : Parser) (source : Json) where
  -- Whatever is replaced in the value, the document is the source with some references replaced.
  abbrev Keeps : Json → (Json → Json) → Type 0
  Keeps v doc = (x : Json) → Partly source v x → Partly source source (doc x)

  abbrev KeepsItems : Items → (Items → Json) → Type 0
  KeepsItems xs doc = (ys : Items) → PartlyItems source xs ys → Partly source source (doc ys)

  abbrev KeepsMembers : Members → (Members → Json) → Type 0
  KeepsMembers ms doc = (ns : Members) → PartlyMembers source ms ns → Partly source source (doc ns)

  -- What the loop comes to at the first reference.
  abbrev Copies : ℕ → Members → (Members → Json) → Json → Type 0
  Copies fuel ns doc t =
      (u : Json) × Partly source t u
      × (scan_members p (resolve_references p fuel) doc ns ≡ ok (copied u))

  leaf_resolved :
      (fuel : ℕ) (doc : Json → Json) (v : Json)
      → IsLeaf v
      → resolve_references p (suc fuel) doc v ≡ ok v
  unfolding resolve_references
  leaf_resolved fuel doc null h = refl
  leaf_resolved fuel doc (flag b) h = refl
  leaf_resolved fuel doc (number s) h = refl
  leaf_resolved fuel doc (text s) h = refl
  leaf_resolved fuel doc (array xs) h = elim h [ ]
  leaf_resolved fuel doc (object ms) h = elim h [ ]

  -- The path of a reference leads, in the document as it is, to what it leads to in the source.
  path_followed :
      (path : Bytes) (t doc : Json)
      → Way source (split path) t
      → Partly source source doc
      → (u : Json) × Partly source t u × (resolve_path (json_library p) doc path ≡ ok u)
  path_followed path t doc w h =
      let (u, l, r) = Way-Leads source p w doc h in
      (u, r, leads (json_library p) doc u (split path) l)

  Expands_pos : {n : ℕ} {v w : Json} → Expands source n v w → 0 < n
  Expands_pos (leaf l) = omega arith
  Expands_pos (in_array h) = omega arith
  Expands_pos (in_object h) = omega arith
  Expands_pos (followed r w h) = omega arith

  mutual
    unfolding resolve_references scan_members resolve_items

    resolves :
        {n : ℕ} {v w : Json}
        → Expands source n v w
        → (y : Json) (fuel : ℕ) (doc : Json → Json) → Partly source v y
        → n ≤ fuel
        → Keeps v doc
        → resolve_references p fuel doc y ≡ ok w
    resolves x y zero doc h le k = absurd (omega (arith, Expands_pos x))
    resolves (leaf {v = v} l) y (suc fuel) doc h le k =
        rw (Partly-leaf source l h) (leaf_resolved fuel doc v l)
    resolves (in_array hs) y (suc fuel) doc h le k =
        let (ys, e, r) = Partly-array source h in
        rw
          (
            e,
            resolves_items hs ys fuel (λ zs. doc (array zs)) r (omega arith)
                (λ zs q. k (array zs) (part_array q)),
          )
          refl
    resolves (in_object hs) y (suc fuel) doc h le k = elim (Partly-object source h) [
      | kept ns e r ↦
          rw
            (
              e,
              resolves_members hs ns fuel (λ zs. doc (object zs)) r (omega arith)
                  (λ zs q. k (object zs) (part_object q)),
            )
            refl
      | gone ts path e w r ↦ cc (first_reference-ExpandMembers source hs)
    ]
    resolves (followed {ts = ts} {path = path} r w hs) y (suc fuel) doc h le k =
        let first = first_reference-Refer source r in
        elim (Partly-object source h) [
          | kept ns e q ↦
              let (u, t, s) =
                refers r w ns fuel (λ zs. doc (object zs)) q (omega arith)
                  (λ zs q. k (object zs) (part_object q)) in
              rw (e, s)
                (reiterate_object p (resolve_references p fuel doc) u (Partly-is_object source t)
                  ∙ resolves hs u fuel doc t (omega arith) (λ x q. k x (replaced first w q)))
          | gone ts' path' e w' q ↦
              let one : path' ≡ path = cc in
              let here : Json.object ts' ≡ object ts = Way-unique (rw one at w') w in
              resolves hs y (suc fuel) doc (rw here at q) (omega arith)
                (λ x q'. k x (replaced first w q'))
        ]

    resolves_items :
        {n : ℕ} {xs ws : Items}
        → ExpandItems source n xs ws
        → (ys : Items) (fuel : ℕ) (doc : Items → Json) → PartlyItems source xs ys
        → n ≤ fuel
        → KeepsItems xs doc
        → resolve_items p (resolve_references p fuel) doc ys ≡ ok ws
    resolves_items no_items _ fuel doc part_end le k = refl
    resolves_items (more_items {w = w} x hs) _ fuel doc (part_item {w = y} {ys = ys} h q) le k =
        rw
          (
            resolves x y fuel (λ z. doc (item z ys)) h le (λ z r. k (item z ys) (part_item r q)),
            resolves_items hs ys fuel (λ zs. doc (item w zs)) q le
                (λ zs r. k (item w zs) (part_item (Expands-Partly source x) r)),
          )
          refl

    resolves_members :
        {n : ℕ} {ms ws : Members}
        → ExpandMembers source n ms ws
        → (ns : Members) (fuel : ℕ) (doc : Members → Json) → PartlyMembers source ms ns
        → n ≤ fuel
        → KeepsMembers ms doc
        → scan_members p (resolve_references p fuel) doc ns ≡ ok (finished ws)
    resolves_members no_members _ fuel doc part_nil le k = refl
    resolves_members (foreign_member {k = key} {v = v} e hs) _ fuel doc
          (part_member {w = y} {ns = ns} h q) le k =
        rw (Partly-foreign source key e h) (
          rw
            (
              scan_foreign p (resolve_references p fuel) doc key v ns e,
              resolves_members hs ns fuel (λ zs. doc (member key v zs)) q le
                  (λ zs r. k (member key v zs) (part_member (same v) r)),
            )
            refl)
    resolves_members (nested_member {k = key} {w = w} e x hs) _ fuel doc
          (part_member {w = y} {ns = ns} h q) le k =
        rw
          (
            scan_nested p (resolve_references p fuel) doc key y ns (Partly-kind source key h ∙ e),
            resolves x y fuel (λ z. doc (member key z ns)) h le
                (λ z r. k (member key z ns) (part_member r q)),
            resolves_members hs ns fuel (λ zs. doc (member key w zs)) q le
                (λ zs r. k (member key w zs) (part_member (Expands-Partly source x) r)),
          )
          refl

    refers :
        {n : ℕ} {ms : Members} {path : Bytes}
        → Refer source n ms path
        → {t : Json} → Way source (split path) t
        → (ns : Members) (fuel : ℕ) (doc : Members → Json) → PartlyMembers source ms ns
        → n ≤ fuel
        → KeepsMembers ms doc
        → Copies fuel ns doc t
    refers (at_reference {k = key} {path = path} e) {t} way _ fuel doc
          (part_member {w = y} {ns = ns} h q) le k =
        let (u, r, l) =
          path_followed path t (doc (member key y ns)) way
            (k (member key y ns) (part_member h q)) in
        (
          u,
          r,
          rw
              (
                scan_reference p (resolve_references p fuel) doc key y ns path
                    (Partly-kind source key h ∙ e),
                l,
              )
              refl,
        )
    refers (behind_foreign {k = key} {v = v} e x) way _ fuel doc (part_member {w = y} {ns = ns} h q)
          le k =
        let (u, r, l) =
          refers x way ns fuel (λ zs. doc (member key v zs)) q le
            (λ zs r. k (member key v zs) (part_member (same v) r)) in
        (
          u,
          r,
          rw (Partly-foreign source key e h)
              (rw (scan_foreign p (resolve_references p fuel) doc key v ns e, l) refl),
        )
    refers (behind_nested {k = key} {w = w} e v x) way _ fuel doc
          (part_member {w = y} {ns = ns} h q) le k =
        let (u, r, l) =
          refers x way ns fuel (λ zs. doc (member key w zs)) q le
            (λ zs r. k (member key w zs) (part_member (Expands-Partly source v) r)) in
        (
          u,
          r,
          rw
              (
                scan_nested p (resolve_references p fuel) doc key y ns
                    (Partly-kind source key h ∙ e),
                resolves v y fuel (λ z. doc (member key z ns)) h le
                    (λ z r. k (member key z ns) (part_member r q)),
                l,
              )
              refl,
        )

-- Where the references of a document stand for values, each of which is reached through members of
-- objects that are no references and is an object, and they nest no deeper than the fuel,
-- `ResolveReferences`, which rewrites the document while it reads it, leaves the document with every
-- reference replaced by what it stands for in the document as it was.
pub resolve_references-Expands :
    (p : Parser) (source w : Json) (n fuel : ℕ)
    → Expands source n source w
    → n ≤ fuel
    → resolve_references p fuel (λ doc. doc) source ≡ ok w
resolve_references-Expands p source w n fuel h le =
    resolves p source h source fuel (λ doc. doc) (same source) le (λ x q. q)
