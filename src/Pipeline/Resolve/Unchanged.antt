-- ===== src/Pipeline/Resolve/Unchanged.antt =====
-- `ResolveReferences` on values without a reference.
use cpp_oasvalidator.Prelude.{ℕ, zero, suc, ◌⊎◌, inl, inr, ◌≡◌, refl}
use cpp_oasvalidator.Common.{Result, ok, out_of_fuel}
use cpp_oasvalidator.Json.{Json, array, object, Items, item, Members, member}
use cpp_oasvalidator.Json.Library.{Parser}
use cpp_oasvalidator.Pipeline.Resolve.{finished, scan_members, resolve_items, resolve_references}
use cpp_oasvalidator.Pipeline.Resolve.Steps.{scan_foreign, scan_nested}
use cpp_oasvalidator.Pipeline.Resolve.Clean.{
  IsResolved, of_null, of_flag, of_number, of_text, of_array, of_object, AreResolved, no_items,
  more_items, HasNoReference, no_members, foreign_member, nested_member,
}

-- The result is the value, or the fuel was used up.
abbrev pub IsOr {ℓ} : {A : Type ℓ} → A → Result A → Type ℓ
IsOr a result = (result ≡ ok a) ⊎ (result ≡ out_of_fuel)

module _ (p : Parser) where
  abbrev pub Keeps : ((Json → Json) → Json → Result Json) → Type 0
  Keeps resolve = (doc : Json → Json) (v : Json) → IsResolved v → IsOr v (resolve doc v)

  items_kept :
      (resolve : (Json → Json) → Json → Result Json)
      → Keeps resolve
      → (doc : Items → Json) (xs : Items) → AreResolved xs
      → IsOr xs (resolve_items p resolve doc xs)
  unfolding resolve_items
  items_kept resolve keeps doc _ no_items = inl refl
  items_kept resolve keeps doc _ (more_items {v = v} {xs = xs} h hs) =
      elim (keeps (λ w. doc (item w xs)) v h) [
        | inr e ↦ inr (rw (resolve_items, e) refl)
        | inl e ↦ elim (items_kept resolve keeps (λ ys. doc (item v ys)) xs hs) [
          | inr f ↦ inr (rw (resolve_items, e) (rw f refl))
          | inl f ↦ inl (rw (resolve_items, e) (rw f refl))
        ]
      ]

  members_kept :
      (resolve : (Json → Json) → Json → Result Json)
      → Keeps resolve
      → (doc : Members → Json) (ms : Members) → HasNoReference ms
      → IsOr (finished ms) (scan_members p resolve doc ms)
  unfolding scan_members
  members_kept resolve keeps doc _ no_members = inl refl
  members_kept resolve keeps doc _ (foreign_member {k = k} {v = v} {ms = ms} e hs) =
      elim (members_kept resolve keeps (λ ns. doc (member k v ns)) ms hs) [
        | inr f ↦ inr (rw (scan_foreign p resolve doc k v ms e, f) refl)
        | inl f ↦ inl (rw (scan_foreign p resolve doc k v ms e, f) refl)
      ]
  members_kept resolve keeps doc _ (nested_member {k = k} {v = v} {ms = ms} e h hs) =
      elim (keeps (λ w. doc (member k w ms)) v h) [
        | inr g ↦ inr (rw (scan_nested p resolve doc k v ms e, g) refl)
        | inl g ↦ elim (members_kept resolve keeps (λ ns. doc (member k v ns)) ms hs) [
          | inr f ↦ inr (rw (scan_nested p resolve doc k v ms e, g) (rw f refl))
          | inl f ↦ inl (rw (scan_nested p resolve doc k v ms e, g) (rw f refl))
        ]
      ]

  pub resolve_references-Keeps : (fuel : ℕ) → Keeps (resolve_references p fuel)
  unfolding resolve_references
  resolve_references-Keeps zero doc v h = inr refl
  resolve_references-Keeps (suc fuel) doc _ of_null = inl refl
  resolve_references-Keeps (suc fuel) doc _ (of_flag b) = inl refl
  resolve_references-Keeps (suc fuel) doc _ (of_number s) = inl refl
  resolve_references-Keeps (suc fuel) doc _ (of_text s) = inl refl
  resolve_references-Keeps (suc fuel) doc _ (of_array {xs = xs} hs) =
      elim (items_kept (resolve_references p fuel) (resolve_references-Keeps fuel)
        (λ ys. doc (array ys)) xs hs) [
          | inr f ↦ inr (rw (resolve_references, f) refl)
          | inl f ↦ inl (rw (resolve_references, f) refl)
        ]
  resolve_references-Keeps (suc fuel) doc _ (of_object {ms = ms} hs) =
      elim (members_kept (resolve_references p fuel) (resolve_references-Keeps fuel)
        (λ ns. doc (object ns)) ms hs) [
          | inr f ↦ inr (rw (resolve_references, f) refl)
          | inl f ↦ inl (rw (resolve_references, f) refl)
        ]
