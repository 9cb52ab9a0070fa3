-- ===== src/Pipeline/Resolve.antt =====
-- `ParseSpecs` and `ResolveReferences` of src/oas_validator_imp.cpp, and the constructor with them.
-- A value that is rewritten in place stands in the document: a context, `Json → Json`, is the
-- document with the value left out.
pub mod Steps
pub mod Clean
pub mod Unchanged
pub mod Loops
pub mod Expands
pub mod Partly
pub mod Substitutes
use cpp_oasvalidator.Prelude.{
  ℕ, zero, suc, Bytes, codes, equal, strip, List, ◌++◌, if◌then◌else◌, Option, none, some, ◌⊎◌, inl,
  inr,
}
use cpp_oasvalidator.Common.{
  Result, ok, throw, out_of_fuel, validator_init, undefined_behaviour, ◌>>=◌,
}
use cpp_oasvalidator.Json.{
  Json, null, flag, number, text, array, object, Items, end, item, Members, nil, member,
}
use cpp_oasvalidator.Json.Library.{Parser, json_library}
use cpp_oasvalidator.Validators.{c_str, ParseError}
use cpp_oasvalidator.Pipeline.{MethodMap, OasValidatorImp}
use cpp_oasvalidator.Pipeline.Spec.{construct}
use cpp_oasvalidator.Pipeline.References.{resolve_path}

-- What the loop of `ResolveReferences` does with a member: it follows the path of a reference into
-- the document, passes over any other text under `$ref`, and enters every other value.
pub data MemberKind : Type 0 where
  reference : Bytes → MemberKind
  foreign : MemberKind
  nested : MemberKind

abbrev pub kind_of_ref : Bytes → MemberKind
kind_of_ref ref = elim (strip (codes "#/") ref) [ some path ↦ reference path | none ↦ foreign ]

abbrev pub kind_of_named : Bytes → Json → MemberKind
kind_of_named name (text s) =
    if equal (c_str name) (codes "$ref") then kind_of_ref (c_str s) else nested
kind_of_named name _ = nested

-- A function by clauses of its own, so that a proof can keep it shut.
unfoldable pub kind_of : Bytes → Json → MemberKind
unfolding strip equal
kind_of name v = kind_of_named name v

-- One run of the loop over the members: it ends, or breaks off with the value copied from elsewhere.
pub data Scanned : Type 0 where
  finished : Members → Scanned
  copied : Json → Scanned

abbrev pub with_member : Bytes → Json → Scanned → Scanned
with_member name v (finished ms) = finished (member name v ms)
with_member name v (copied w) = copied w

module _ (p : Parser) where
  -- `for (auto itr = value.MemberBegin(); itr != value.MemberEnd();)`, from one member on
  unfoldable pub scan_members :
      ((Json → Json) → Json → Result Json) → (Members → Json) → Members → Result Scanned
  scan_members resolve doc nil = ok (finished nil)
  scan_members resolve doc (member name v ms) = elim (kind_of name v) [
    | reference path ↦
        resolve_path (json_library p) (doc (member name v ms)) path >>= λ w. ok (copied w)
    | foreign ↦
        scan_members resolve (λ ms'. doc (member name v ms')) ms >>= λ s. ok (with_member name v s)
    | nested ↦ resolve (λ w. doc (member name w ms)) v >>= λ w.
        scan_members resolve (λ ms'. doc (member name w ms')) ms >>= λ s. ok (with_member name w s)
  ]

  -- `for (rapidjson::SizeType i = 0; i < value.Size(); i++)`
  unfoldable pub resolve_items :
      ((Json → Json) → Json → Result Json) → (Items → Json) → Items → Result Items
  resolve_items resolve doc end = ok end
  resolve_items resolve doc (item v xs) = resolve (λ w. doc (item w xs)) v >>= λ w.
      resolve_items resolve (λ xs'. doc (item w xs')) xs >>= λ ys. ok (item w ys)

  -- `while (should_reiterate)`; the loop asks for the members of what was copied, whatever that is.
  abbrev pub reiterate : (Json → Result Json) → Scanned → Result Json
  reiterate again (finished ms) = ok (object ms)
  reiterate again (copied (object ms)) = again (object ms)
  reiterate again (copied _) = throw undefined_behaviour

  -- `ResolveReferences`, with fuel for its calls and for the runs of its loop
  unfoldable pub resolve_references : ℕ → (Json → Json) → Json → Result Json
  resolve_references zero doc value = out_of_fuel
  resolve_references (suc fuel) doc (object ms) =
      scan_members (resolve_references fuel) (λ ms'. doc (object ms')) ms
      >>= reiterate (resolve_references fuel doc)
  resolve_references (suc fuel) doc (array xs) =
      resolve_items (resolve_references fuel) (λ xs'. doc (array xs')) xs >>= λ ys. ok (array ys)
  resolve_references (suc fuel) doc v = ok v

  -- `ParseSpecs`: the text is the name of a file, if a file of that name opens, or the document.
  unfoldable pub parse_specs : (Bytes → Option Bytes) → Bytes → Result Json
  parse_specs open_file oas_specs =
      let parsed : ParseError ⊎ Json = elim (open_file oas_specs) [
        | some content ↦ p.parse (c_str content)
        | none ↦ p.parse (c_str oas_specs)
      ] in
      elim parsed [
        | inr doc ↦ ok doc
        | inl e ↦ throw (
            validator_init (
              codes "Unable to parse specs: "
              ++ (oas_specs
                  ++ (codes " \nError code: "
                      ++ (e.code
                          ++ (codes " at offset: "
                              ++ (e.offset ++ (codes " Error message: " ++ e.description))))))))
      ]

  -- `OASValidatorImp::OASValidatorImp`
  unfoldable pub load :
      ℕ → (Bytes → Option Bytes) → Bytes → MethodMap → Result (OasValidatorImp (json_library p))
  load fuel open_file oas_specs method_map = parse_specs open_file oas_specs >>= λ doc.
      resolve_references fuel (λ value. value) doc >>= λ resolved.
      construct (json_library p) resolved method_map
