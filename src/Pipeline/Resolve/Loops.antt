-- ===== src/Pipeline/Resolve/Loops.antt =====
-- A schema that refers to itself.
use mathlib.Core.List.{map}
use cpp_oasvalidator.Prelude.{
  ℕ, zero, suc, Bytes, codes, equal, equal_refl, All, List, [], ◌∷◌, Bool-cases, true, false, ◌++◌,
  append_assoc, append-nil, ◌≡◌, refl, sym, ap, ◌∙◌, inl, inr,
}
use cpp_oasvalidator.Common.{Result, ok, out_of_fuel}
use cpp_oasvalidator.Common.Fragments.{Lacks, seek, seek_missing, path_of, ArePathDirs}
use cpp_oasvalidator.Json.{
  Json, text, object, Members, nil, member, has, get_member, json_is_object, json_is_text,
}
use cpp_oasvalidator.Json.Library.{Parser, json_library}
use cpp_oasvalidator.Pipeline.References.{
  resolve_path, Leads, here, member as through, resolve_path_iff,
}
use cpp_oasvalidator.Pipeline.Resolve.{reference, kind_of, scan_members, resolve_references}
use cpp_oasvalidator.Pipeline.Resolve.Steps.{
  not_text_kind, scan_reference, scan_foreign, scan_nested, reiterate_object,
}
use cpp_oasvalidator.Pipeline.Resolve.Clean.{
  HasNoReference, no_members, foreign_member, nested_member,
}
use cpp_oasvalidator.Pipeline.Resolve.Unchanged.{Keeps, resolve_references-Keeps}

-- The place of a value in an object: its key, and the members in front of it and behind it.
pub record Frame : Type 0 where
  pub front : Members
  pub key : Bytes
  pub behind : Members

-- The members behind others
abbrev pub followed_by : Members → Members → Members
followed_by nil ms = ms
followed_by (member k v front) ms = member k v (followed_by front ms)

abbrev pub framed : Frame → Json → Json
framed f v = object (followed_by f.front (member f.key v f.behind))

-- A value inside of objects
abbrev pub within : List Frame → Json → Json
within [] v = v
within (f ∷ fs) v = framed f (within fs v)

abbrev pub keys_of : List Frame → List Bytes
keys_of fs = map (λ (f : Frame). f.key) fs

-- No reference stands in front of the value, and no other value under its key.
pub record IsFrame (f : Frame) : Type 0 where
  pub no_reference : HasNoReference f.front
  pub first : has f.key f.front ≡ false

-- `{"$ref": "#/…"}`
abbrev pub reference_to : List Bytes → Json
reference_to path = object (member (codes "$ref") (text (codes "#/" ++ path_of path)) nil)

within-append : (ks ls : List Frame) (v : Json) → within (ks ++ ls) v ≡ within ks (within ls v)
within-append [] ls v = refl
within-append (k ∷ ks) ls v = ap (framed k) (within-append ks ls v)

All-both {ℓ κ} :
    {A : Type ℓ} (P : A → Type κ) (xs ys : List A) → All P xs → All P ys → All P (xs ++ ys)
All-both P [] ys h k = k
All-both P (x ∷ xs) ys (h, hs) k = (h, All-both P xs ys hs k)

reference_kind :
    (path : Bytes)
    → Lacks 0 path
    → kind_of (codes "$ref") (text (codes "#/" ++ path)) ≡ reference path
unfolding kind_of seek
reference_kind path h = rw (seek_missing path 0 h)

within-is_object :
    (ls : List Frame) (ds : List Bytes) → json_is_object (within ls (reference_to ds)) ≡ true
within-is_object [] ds = refl
within-is_object (l ∷ ls) ds = refl

within-is_text :
    (ls : List Frame) (ds : List Bytes) → json_is_text (within ls (reference_to ds)) ≡ false
within-is_text [] ds = refl
within-is_text (l ∷ ls) ds = refl

-- The members in front are passed over by a search for another key.
has-followed_by :
    (key : Bytes) (front : Members) (v : Json) (ms : Members)
    → has key (followed_by front (member key v ms)) ≡ true
has-followed_by key nil v ms = rw (equal_refl key) refl
has-followed_by key (member k w front) v ms = elim (Bool-cases (equal k key)) [
  | inl e ↦ rw e refl
  | inr e ↦ rw e (has-followed_by key front v ms)
]

get_member-followed_by :
    (key : Bytes) (front : Members) (v : Json) (ms : Members)
    → has key front ≡ false
    → get_member key (followed_by front (member key v ms)) ≡ v
get_member-followed_by key nil v ms h = rw (equal_refl key) refl
get_member-followed_by key (member k w front) v ms h = elim (Bool-cases (equal k key)) [
  | inl e ↦ let q = rw e at h in cc
  | inr e ↦ rw e (get_member-followed_by key front v ms (rw e at h))
]

module _ (p : Parser) where
  within-Leads :
      (ds : List Frame) (v : Json)
      → All IsFrame ds
      → Leads (json_library p) (within ds v) (keys_of ds) v
  within-Leads [] v h = here v
  within-Leads (d ∷ ds) v (h, hs) =
      through _ _ d.key (keys_of ds) refl (has-followed_by d.key d.front (within ds v) d.behind) (
        rw (get_member-followed_by d.key d.front (within ds v) d.behind h.first)
          (within-Leads ds v hs))

  -- Where the loop does not return from the members behind, it does not return.
  scan_front :
      (resolve : (Json → Json) → Json → Result Json)
      → Keeps p resolve
      → (front : Members) → HasNoReference front
      → (doc : Members → Json) (ms : Members)
      → scan_members p resolve (λ ns. doc (followed_by front ns)) ms ≡ out_of_fuel
      → scan_members p resolve doc (followed_by front ms) ≡ out_of_fuel
  scan_front resolve keeps _ no_members doc ms h = h
  scan_front resolve keeps _ (foreign_member {k = k} {v = v} {ms = front} e hs) doc ms h =
      rw
        (
          scan_foreign p resolve doc k v (followed_by front ms) e,
          scan_front resolve keeps front hs (λ ns. doc (member k v ns)) ms h,
        )
        refl
  scan_front resolve keeps _ (nested_member {k = k} {v = v} {ms = front} e r hs) doc ms h =
      elim (keeps (λ w. doc (member k w (followed_by front ms))) v r) [
        | inr g ↦ rw (scan_nested p resolve doc k v (followed_by front ms) e, g) refl
        | inl g ↦
            rw (scan_nested p resolve doc k v (followed_by front ms) e, g)
              (rw (scan_front resolve keeps front hs (λ ns. doc (member k v ns)) ms h) refl)
      ]

  -- The value that is being resolved stands in the frames `ks`.
  abbrev Stands : List Frame → (Json → Json) → Type 0
  Stands ks doc = (v : Json) → doc v ≡ within ks v

  Stands-framed :
      (ks : List Frame) (doc : Json → Json) (l : Frame)
      → Stands ks doc
      → Stands (ks ++ l ∷ []) (λ v. doc (framed l v))
  Stands-framed ks doc l h v = h (framed l v) ∙ sym (within-append ks (l ∷ []) v)

  -- Where the reference stands in the frames `ds` and `js`, it leads to what stands in `ds`.
  leads_back :
      (ds js ks : List Frame) (doc : Json → Json)
      → ArePathDirs (keys_of ds)
      → All IsFrame ds
      → Stands ks doc
      → ks ≡ ds ++ js
      → resolve_path (json_library p) (doc (reference_to (keys_of ds))) (path_of (keys_of ds))
        ≡ ok (within js (reference_to (keys_of ds)))
  leads_back ds js ks doc dirs fine h e =
      rw (h (reference_to (keys_of ds)), e, within-append ds js (reference_to (keys_of ds)))
        ((resolve_path_iff (json_library p) _ _ (keys_of ds) dirs).1
          (within-Leads ds (within js (reference_to (keys_of ds))) fine))

  resolve_loops :
      (ds : List Frame)
      → ArePathDirs (keys_of ds)
      → Lacks 0 (path_of (keys_of ds))
      → All IsFrame ds
      → (fuel : ℕ) (ks ls js : List Frame) (doc : Json → Json) → All IsFrame ls
      → All IsFrame js
      → Stands ks doc
      → ks ++ ls ≡ ds ++ js
      → resolve_references p fuel doc (within ls (reference_to (keys_of ds))) ≡ out_of_fuel
  unfolding resolve_references
  resolve_loops ds dirs no_zero fine zero ks ls js doc fl fj h e = refl
  resolve_loops ds dirs no_zero fine (suc fuel) ks (l ∷ ls) js doc (f, fl) fj h e =
      let inner = within ls (reference_to (keys_of ds)) in
      let behind =
        scan_nested p (resolve_references p fuel) (λ ns. doc (object (followed_by l.front ns)))
          l.key inner l.behind (not_text_kind l.key inner (within-is_text ls (keys_of ds))) in
      let again =
        resolve_loops ds dirs no_zero fine fuel (ks ++ l ∷ []) ls js (λ v. doc (framed l v)) fl fj
          (Stands-framed ks doc l h) (append_assoc ks (l ∷ []) ls ∙ e) in
      rw
        (
          resolve_references,
          scan_front (resolve_references p fuel) (resolve_references-Keeps p fuel) l.front
              f.no_reference (λ ns. doc (object ns)) (member l.key inner l.behind)
              (behind ∙ rw again refl),
        )
        refl
  resolve_loops ds dirs no_zero fine (suc fuel) ks [] js doc fl fj h e =
      let at : ks ≡ ds ++ js = sym (append-nil ks) ∙ e in
      rw
        (
          scan_reference p (resolve_references p fuel) (λ ms. doc (object ms)) (codes "$ref")
              (text (codes "#/" ++ path_of (keys_of ds))) nil (path_of (keys_of ds))
              (reference_kind (path_of (keys_of ds)) no_zero),
          leads_back ds js ks doc dirs fine h at,
        )
        (reiterate_object p (resolve_references p fuel doc) (within js (reference_to (keys_of ds)))
            (within-is_object js (keys_of ds))
          ∙ resolve_loops ds dirs no_zero fine fuel ks js (js ++ js) doc fj
              (All-both IsFrame js js fj fj) h (rw at (append_assoc ds js js)))

  -- Let a document hold, behind the keys of `ds`, a value with a reference to it inside: the
  -- value has an object at every key of `ls`, and the reference stands behind the last of them. Let
  -- the keys be such that a path can name them, no value in front of any of them, at any level, have
  -- a reference, and none have the same key; what stands behind them does not matter. Then the
  -- value is copied into itself without end: however much fuel there is, `ResolveReferences` does not
  -- return.
  pub resolve_references-within :
      (ds ls : List Frame) (fuel : ℕ)
      → ArePathDirs (keys_of ds)
      → Lacks 0 (path_of (keys_of ds))
      → All IsFrame ds
      → All IsFrame ls
      → resolve_references p fuel (λ doc. doc) (within ds (within ls (reference_to (keys_of ds))))
        ≡ out_of_fuel
  resolve_references-within ds ls fuel dirs no_zero fine fl =
      rw (← within-append ds ls (reference_to (keys_of ds))) (
        resolve_loops ds dirs no_zero fine fuel [] (ds ++ ls) ls (λ doc. doc)
          (All-both IsFrame ds ls fine fl) fl (λ v. refl) refl)
