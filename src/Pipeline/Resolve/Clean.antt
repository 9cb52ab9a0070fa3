-- ===== src/Pipeline/Resolve/Clean.antt =====
-- Nothing is left to resolve in what `ResolveReferences` leaves behind.
use cpp_oasvalidator.Prelude.{ℕ, zero, suc, Bytes, Bool, false, ◌≡◌, refl}
use cpp_oasvalidator.Common.{Result, ok, ok_eq, >>=-eq-ok}
use cpp_oasvalidator.Json.{
  Json, null, flag, number, text, array, object, Items, end, item, Members, nil, member,
  json_is_text,
}
use cpp_oasvalidator.Json.Library.{Parser, json_library}
use cpp_oasvalidator.Pipeline.References.{resolve_path}
use cpp_oasvalidator.Pipeline.Resolve.Steps.{
  not_text_kind, scan_reference, scan_foreign, scan_nested,
}
use cpp_oasvalidator.Pipeline.Resolve.{
  MemberKind, reference, foreign, nested, kind_of, Scanned, finished, copied, with_member,
  scan_members, resolve_items, reiterate, resolve_references,
}

-- No member is a reference into the document, at any depth.
mutual
  pub data IsResolved : Json → Type 0 where
    of_null : IsResolved null
    of_flag : (b : Bool) → IsResolved (flag b)
    of_number : (s : Bytes) → IsResolved (number s)
    of_text : (s : Bytes) → IsResolved (text s)
    of_array : {xs : Items} → AreResolved xs → IsResolved (array xs)
    of_object : {ms : Members} → HasNoReference ms → IsResolved (object ms)

  pub data AreResolved : Items → Type 0 where
    no_items : AreResolved end
    more_items : {v : Json} {xs : Items} → IsResolved v → AreResolved xs → AreResolved (item v xs)

  pub data HasNoReference : Members → Type 0 where
    no_members : HasNoReference nil
    foreign_member :
        {k : Bytes} {v : Json} {ms : Members}
        → kind_of k v ≡ foreign
        → HasNoReference ms
        → HasNoReference (member k v ms)
    nested_member :
        {k : Bytes} {v : Json} {ms : Members}
        → kind_of k v ≡ nested
        → IsResolved v
        → HasNoReference ms
        → HasNoReference (member k v ms)

-- Whether a value is a text, and which if it is.
abbrev SameText : Json → Json → Type 0
SameText (text s) w = w ≡ text s
SameText v w = json_is_text w ≡ false

SameText-kind :
    (k : Bytes) (v w : Json) → SameText v w → kind_of k v ≡ nested → kind_of k w ≡ nested
SameText-kind k (text s) w h e = rw h e
SameText-kind k null w h e = not_text_kind k w h
SameText-kind k (flag b) w h e = not_text_kind k w h
SameText-kind k (number s) w h e = not_text_kind k w h
SameText-kind k (array xs) w h e = not_text_kind k w h
SameText-kind k (object ms) w h e = not_text_kind k w h

module _ (p : Parser) where
  -- What is asked of the calls for the values inside.
  abbrev Cleans : ((Json → Json) → Json → Result Json) → Type 0
  Cleans resolve =
      (doc : Json → Json) (v w : Json) → resolve doc v ≡ ok w → IsResolved w × SameText v w

  items-AreResolved :
      (resolve : (Json → Json) → Json → Result Json)
      → Cleans resolve
      → (xs : Items) (doc : Items → Json) (ys : Items) → resolve_items p resolve doc xs ≡ ok ys
      → AreResolved ys
  unfolding resolve_items
  items-AreResolved resolve clean end doc ys e = let q : end ≡ ys = ok_eq e in rw (← q) no_items
  items-AreResolved resolve clean (item v xs) doc ys e =
      let (w, e1, e2) = >>=-eq-ok (resolve (λ w. doc (item w xs)) v) _ e in
      let (zs, e3, e4) = >>=-eq-ok (resolve_items p resolve (λ xs'. doc (item w xs')) xs) _ e2 in
      let q : item w zs ≡ ys = ok_eq e4 in
      rw (← q) (
        more_items (clean _ v w e1).0
          (items-AreResolved resolve clean xs (λ xs'. doc (item w xs')) zs e3))

  -- Where the loop runs to its end.
  abbrev LeavesNoReference : Scanned → Type 0
  LeavesNoReference (finished ms) = HasNoReference ms
  LeavesNoReference (copied w) = Unit

  with_member-foreign :
      (k : Bytes) (v : Json) (s : Scanned)
      → kind_of k v ≡ foreign
      → LeavesNoReference s
      → LeavesNoReference (with_member k v s)
  with_member-foreign k v (finished ms) e h = foreign_member e h
  with_member-foreign k v (copied w) e h = tt

  with_member-nested :
      (k : Bytes) (v : Json) (s : Scanned)
      → kind_of k v ≡ nested
      → IsResolved v
      → LeavesNoReference s
      → LeavesNoReference (with_member k v s)
  with_member-nested k v (finished ms) e r h = nested_member e r h
  with_member-nested k v (copied w) e r h = tt

  scan-LeavesNoReference :
      (resolve : (Json → Json) → Json → Result Json)
      → Cleans resolve
      → (ms : Members) (doc : Members → Json) (s : Scanned) → scan_members p resolve doc ms ≡ ok s
      → LeavesNoReference s
  unfolding scan_members
  scan-LeavesNoReference resolve clean nil doc s e =
      let q : finished nil ≡ s = ok_eq e in rw (← q) no_members
  scan-LeavesNoReference resolve clean (member k v ms) doc s e =
      go (kind_of k v) refl (scan-LeavesNoReference resolve clean ms)
    where
      go :
          (m : MemberKind)
          → kind_of k v ≡ m
          → ((doc' : Members → Json) (s' : Scanned)
              → scan_members p resolve doc' ms ≡ ok s'
              → LeavesNoReference s')
          → LeavesNoReference s
      go (reference path) k-eq ih =
          let (w, e1, e2) =
            >>=-eq-ok (resolve_path (json_library p) (doc (member k v ms)) path) _
              (rw (scan_reference p resolve doc k v ms path k-eq) at e) in
          let q : copied w ≡ s = ok_eq e2 in rw (← q) tt
      go foreign k-eq ih =
          let (s', e1, e2) =
            >>=-eq-ok (scan_members p resolve (λ ms'. doc (member k v ms')) ms) _
              (rw (scan_foreign p resolve doc k v ms k-eq) at e) in
          let q : with_member k v s' ≡ s = ok_eq e2 in
          rw (← q) (with_member-foreign k v s' k-eq (ih _ s' e1))
      go nested k-eq ih =
          let (w, e1, e2) =
            >>=-eq-ok (resolve (λ w. doc (member k w ms)) v) _
              (rw (scan_nested p resolve doc k v ms k-eq) at e) in
          let (s', e3, e4) =
            >>=-eq-ok (scan_members p resolve (λ ms'. doc (member k w ms')) ms) _ e2 in
          let q : with_member k w s' ≡ s = ok_eq e4 in
          let (r, same) = clean _ v w e1 in
          rw (← q) (with_member-nested k w s' (SameText-kind k v w same k-eq) r (ih _ s' e3))

  reiterate-Cleans :
      (resolve : (Json → Json) → Json → Result Json)
      → Cleans resolve
      → (doc : Json → Json) (s : Scanned) (w : Json) → LeavesNoReference s
      → reiterate p (resolve doc) s ≡ ok w
      → IsResolved w × (json_is_text w ≡ false)
  reiterate-Cleans resolve clean doc (finished ms) w h e =
      let q : object ms ≡ w = ok_eq e in rw (← q) (of_object h, refl)
  reiterate-Cleans resolve clean doc (copied (object ms)) w h e = clean doc (object ms) w e
  reiterate-Cleans resolve clean doc (copied null) w h e = cc
  reiterate-Cleans resolve clean doc (copied (flag b)) w h e = cc
  reiterate-Cleans resolve clean doc (copied (number n)) w h e = cc
  reiterate-Cleans resolve clean doc (copied (text t)) w h e = cc
  reiterate-Cleans resolve clean doc (copied (array xs)) w h e = cc

  resolve_references-Cleans : (fuel : ℕ) → Cleans (resolve_references p fuel)
  unfolding resolve_references
  resolve_references-Cleans zero doc v w e = cc
  resolve_references-Cleans (suc fuel) doc (object ms) w e =
      let (s, e1, e2) =
        >>=-eq-ok (scan_members p (resolve_references p fuel) (λ ms'. doc (object ms')) ms) _ e in
      reiterate-Cleans (resolve_references p fuel) (resolve_references-Cleans fuel) doc s w
        (scan-LeavesNoReference (resolve_references p fuel) (resolve_references-Cleans fuel) ms _ s
          e1)
        e2
  resolve_references-Cleans (suc fuel) doc (array xs) w e =
      let (ys, e1, e2) =
        >>=-eq-ok (resolve_items p (resolve_references p fuel) (λ xs'. doc (array xs')) xs) _ e in
      let q : array ys ≡ w = ok_eq e2 in
      rw (← q) (
        of_array (
            items-AreResolved (resolve_references p fuel) (resolve_references-Cleans fuel) xs _ ys
              e1),
        refl,
      )
  resolve_references-Cleans (suc fuel) doc null w e =
      let q : null ≡ w = ok_eq e in rw (← q) (of_null, refl)
  resolve_references-Cleans (suc fuel) doc (flag b) w e =
      let q : flag b ≡ w = ok_eq e in rw (← q) (of_flag b, refl)
  resolve_references-Cleans (suc fuel) doc (number s) w e =
      let q : number s ≡ w = ok_eq e in rw (← q) (of_number s, refl)
  resolve_references-Cleans (suc fuel) doc (text s) w e =
      let q : text s ≡ w = ok_eq e in rw (← q) (of_text s, refl)

  -- Whatever document is resolved, if `ResolveReferences` returns, then no member at any depth of
  -- what it leaves is a reference into the document.
  pub resolve_references-IsResolved :
      (fuel : ℕ) (doc : Json → Json) (v w : Json)
      → resolve_references p fuel doc v ≡ ok w
      → IsResolved w
  resolve_references-IsResolved fuel doc v w e = (resolve_references-Cleans fuel doc v w e).0
