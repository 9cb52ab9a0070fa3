-- ===== src/Tests/Resolution.antt =====
-- Documents with references in them.
use cpp_oasvalidator.Prelude.{String, List, ℕ, suc, codes, equal, strip, [], ◌∷◌, ◌≡◌, refl, arith}
use cpp_oasvalidator.Common.{ok, throw, out_of_fuel, undefined_behaviour}
use cpp_oasvalidator.Common.Fragments.{seek}
use cpp_oasvalidator.Json.{find_member, Json, text, array, end, object, nil, member}
use cpp_oasvalidator.Pipeline.References.{split, split_loop, resolve_loop}
use cpp_oasvalidator.Pipeline.Resolve.{kind_of, scan_members, resolve_references}
use cpp_oasvalidator.Pipeline.Resolve.Clean.{
  of_text, of_object, no_members as no_reference_left, nested_member as no_reference_at, IsResolved,
  resolve_references-IsResolved,
}
use cpp_oasvalidator.Pipeline.Resolve.Loops.{
  Frame, IsFrame, keys_of, within, reference_to, resolve_references-within,
}
use cpp_oasvalidator.Pipeline.Resolve.Expands.{
  first_reference, Way, arrived, through, Expands, leaf, in_object, followed, no_members,
  nested_member, at_reference,
}
use cpp_oasvalidator.Pipeline.Resolve.Substitutes.{resolve_references-Expands}
use cpp_oasvalidator.Tests.Documents.{parser}

abbrev schema : Json
schema = object (member (codes "type") (text (codes "integer")) nil)

abbrev to_schema : Json
to_schema = reference_to (codes "c" ∷ codes "x" ∷ [])

abbrev schemas : Json
schemas = object (member (codes "x") schema nil)

abbrev spec_of : Json → Json
spec_of v =
    object (member (codes "p") (object (member (codes "x") v nil)) (member (codes "c") schemas nil))

schema-Expands : (n : ℕ) → Expands (spec_of to_schema) (suc (suc n)) schema schema
unfolding kind_of equal seek
schema-Expands n = in_object (nested_member refl (leaf tt) no_members)

way : Way (spec_of to_schema) (split (codes "c/x")) schema
unfolding kind_of equal seek split_loop find_member first_reference
way = through refl refl (through refl refl (arrived schema))

spec-Expands : Expands (spec_of to_schema) 5 (spec_of to_schema) (spec_of schema)
unfolding kind_of equal seek strip
spec-Expands = in_object (
    nested_member refl
      (in_object
        (nested_member refl (followed (at_reference refl) way (schema-Expands 0)) no_members))
      (nested_member refl (in_object (nested_member refl (schema-Expands 1) no_members))
        no_members))

resolve_references-Expands_example :
    resolve_references parser 7 (λ doc. doc) (spec_of to_schema) ≡ ok (spec_of schema)
resolve_references-Expands_example =
    resolve_references-Expands parser (spec_of to_schema) (spec_of schema) 5 7 spec-Expands
      (omega arith)

resolve_references-IsResolved_example : IsResolved (spec_of schema)
resolve_references-IsResolved_example =
    resolve_references-IsResolved parser 7 (λ doc. doc) (spec_of to_schema) (spec_of schema)
      (resolve_references-Expands parser (spec_of to_schema) (spec_of schema) 5 7 spec-Expands
        (omega arith))

-- The place of the only member of an object
abbrev alone_under : String → Frame
alone_under key = record { front = nil; key = codes key; behind = nil }

-- The root of a document, with a path in front of the components and tags behind them
abbrev in_document : Frame
in_document = record {
  front =
      member (codes "openapi") (text (codes "3.0.0"))
        (member (codes "paths") (object (member (codes "/p") (object nil) nil)) nil);
  key = codes "components";
  behind = member (codes "tags") (array end) nil;
}

-- A schema behind its type
abbrev in_schema : Frame
in_schema = record {
  front = member (codes "type") (text (codes "object")) nil;
  key = codes "properties";
  behind = nil;
}

abbrev node_path : List Frame
node_path = in_document ∷ alone_under "schemas" ∷ alone_under "Node" ∷ []

alone_under-IsFrame : (key : String) → IsFrame (alone_under key)
alone_under-IsFrame key = record { no_reference = no_reference_left; first = refl }

in_document-IsFrame : IsFrame in_document
unfolding kind_of equal seek
in_document-IsFrame = record {
  no_reference = no_reference_at refl (of_text (codes "3.0.0")) (
      no_reference_at refl
        (of_object (no_reference_at refl (of_object no_reference_left) no_reference_left))
        no_reference_left);
  first = refl;
}

in_schema-IsFrame : IsFrame in_schema
unfolding kind_of equal seek
in_schema-IsFrame = record {
  no_reference = no_reference_at refl (of_text (codes "object")) no_reference_left;
  first = refl;
}

-- A tree whose nodes have a child of the same schema
resolve_references-within_example :
    resolve_references parser 100
      (λ doc. doc)
      (within node_path
        (within (in_schema ∷ alone_under "child" ∷ []) (reference_to (keys_of node_path))))
    ≡ out_of_fuel
resolve_references-within_example =
    resolve_references-within parser node_path (in_schema ∷ alone_under "child" ∷ []) 100
      (omega arith, (omega arith, (omega arith, λ e. cc))) (omega arith)
      (in_document-IsFrame, (alone_under-IsFrame "schemas", (alone_under-IsFrame "Node", tt)))
      (in_schema-IsFrame, (alone_under-IsFrame "child", tt))

-- A reference to a text takes the place of the object: the loop then asks a text for its members.
text_copied :
    resolve_references parser 9
      (λ doc. doc)
      (object
        (member (codes "a") (reference_to (codes "b" ∷ [])) (member (codes "b") (text []) nil)))
    ≡ throw undefined_behaviour
unfolding resolve_references scan_members kind_of equal seek strip split_loop resolve_loop
text_copied = refl
