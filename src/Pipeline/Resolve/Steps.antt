-- ===== src/Pipeline/Resolve/Steps.antt =====
-- The loop of `ResolveReferences` at a member of each kind.
use cpp_oasvalidator.Prelude.{Bytes, true, false, ◌≡◌, refl}
use cpp_oasvalidator.Common.{Result, ok, ◌>>=◌}
use cpp_oasvalidator.Json.{
  Json, null, flag, number, text, array, object, Members, member, json_is_text, json_is_object,
}
use cpp_oasvalidator.Json.Library.{Parser, json_library}
use cpp_oasvalidator.Pipeline.References.{resolve_path}
use cpp_oasvalidator.Pipeline.Resolve.{
  reference, foreign, nested, kind_of, copied, with_member, scan_members, reiterate,
}

pub not_text_kind : (k : Bytes) (v : Json) → json_is_text v ≡ false → kind_of k v ≡ nested
unfolding kind_of
not_text_kind k null h = refl
not_text_kind k (flag b) h = refl
not_text_kind k (number s) h = refl
not_text_kind k (text s) h = cc
not_text_kind k (array xs) h = refl
not_text_kind k (object ms) h = refl

module _ (p : Parser) (resolve : (Json → Json) → Json → Result Json) (doc : Members → Json)
    (k : Bytes) (v : Json) (ms : Members) where
  pub scan_reference :
      (path : Bytes)
      → kind_of k v ≡ reference path
      → scan_members p resolve doc (member k v ms)
        ≡ (resolve_path (json_library p) (doc (member k v ms)) path >>= λ w. ok (copied w))
  unfolding scan_members
  scan_reference path e = rw (e, scan_members)

  pub scan_foreign :
      kind_of k v ≡ foreign
      → scan_members p resolve doc (member k v ms)
        ≡ (scan_members p resolve (λ ms'. doc (member k v ms')) ms >>= λ s. ok (with_member k v s))
  unfolding scan_members
  scan_foreign e = rw (e, scan_members)

  pub scan_nested :
      kind_of k v ≡ nested
      → scan_members p resolve doc (member k v ms) ≡ (
          resolve (λ w. doc (member k w ms)) v >>= λ w.
          scan_members p resolve (λ ms'. doc (member k w ms')) ms >>= λ s. ok (with_member k w s))
  unfolding scan_members
  scan_nested e = rw (e, scan_members)

pub reiterate_object :
    (p : Parser) (again : Json → Result Json) (v : Json)
    → json_is_object v ≡ true
    → reiterate p again (copied v) ≡ again v
reiterate_object p again (object ms) h = refl
reiterate_object p again null h = cc
reiterate_object p again (flag b) h = cc
reiterate_object p again (number s) h = cc
reiterate_object p again (text s) h = cc
reiterate_object p again (array xs) h = cc
