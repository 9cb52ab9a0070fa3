-- ===== src/Validators/Messages/Reports.antt =====
-- Errors of the form that rapidjson reports where it stops at the first one, and their texts.
use cpp_oasvalidator.Prelude.{
  Bytes, codes, equal, List, [], ◌∷◌, ◌++◌, append_assoc, append-nil, Bool, Bool-cases, true, false,
  Option, none, some, inl, inr, ◌≡◌, refl, sym, ap, ◌∙◌, arith,
}
use cpp_oasvalidator.Common.{Result, ok, ◌>>=◌}
use cpp_oasvalidator.Json.{
  Json, number, text, array, object, Items, end, item, Members, nil, member, find_member,
}
use cpp_oasvalidator.Validators.{c_str}
use cpp_oasvalidator.Validators.Messages.{
  is_empty, insert_loop, head_text, context_text, error_head, open_brace, close_brace,
}
use cpp_oasvalidator.Validators.Messages.Render.{
  joined, both, framed, render, render_children, child_texts, item_texts, member_texts,
}
use cpp_oasvalidator.Validators.Messages.Grammar.{
  IsPlain, is_object, is_array, ArePairs, one_pair, AreValues, no_values, more_values, string_pair,
  string_then, ArePairs-append,
}

schema_pairs :
    (s context : Bytes)
    → IsPlain s
    → IsPlain context
    → ArePairs (codes "\"schema\":\"" ++ (s ++ (codes "\"" ++ context_text context)))
schema_pairs s [] hs hc = string_pair (codes "schema") s (omega arith) hs
schema_pairs s (c ∷ context) hs hc =
    string_then (codes "schema") s _ (omega arith) hs
      (string_pair (codes "context") (c ∷ context) (omega arith) hc)

pub head_pairs :
    (name message i s context : Bytes)
    → IsPlain name
    → IsPlain message
    → IsPlain i
    → IsPlain s
    → IsPlain context
    → ArePairs (head_text name message i s context)
head_pairs name message i s context hn hm hi hs hc =
    string_then (codes "code") name _ (omega arith) hn (
      string_then (codes "description") message _ (omega arith) hm
        (string_then (codes "instance") i _ (omega arith) hi (schema_pairs s context hs hc)))

module _ (describe : Bytes → Bytes) where
  -- One error of one kind, with its texts free of bytes that JSON escapes, and the errors inside of
  -- it, if it has any, in an array or behind the keys of an object.
  mutual
    pub data IsReport : Json → Type 0 where
      report :
          {name code instance_ref schema_ref : Bytes} {error : Members}
          → IsPlain (c_str name)
          → is_empty error ≡ false
          → find_member (codes "errorCode") error ≡ some (number code)
          → find_member (codes "instanceRef") error ≡ some (text instance_ref)
          → find_member (codes "schemaRef") error ≡ some (text schema_ref)
          → IsPlain (insert_loop error (describe code))
          → IsPlain (c_str instance_ref)
          → IsPlain (c_str schema_ref)
          → (inside : Option Json) → find_member (codes "errors") error ≡ inside
          → AreInside inside
          → IsReport (object (member name (object error) nil))

    pub data AreInside : Option Json → Type 0 where
      none_inside : AreInside none
      inside_array : {xs : Items} → AreReports xs → AreInside (some (array xs))
      inside_object : {ms : Members} → HaveReports ms → AreInside (some (object ms))

    pub data AreReports : Items → Type 0 where
      no_reports : AreReports end
      more_reports : {v : Json} {xs : Items} → IsReport v → AreReports xs → AreReports (item v xs)

    pub data HaveReports : Members → Type 0 where
      none_there : HaveReports nil
      more_there :
          {key : Bytes} {v : Json} {ms : Members}
          → IsReport v
          → HaveReports ms
          → HaveReports (member key v ms)

  -- What `HandleError` makes of the errors inside.
  abbrev inside_text : Bytes → Option Json → Result Bytes
  inside_text name none = ok []
  inside_text name (some v) =
      child_texts describe name v >>= λ ts. ok (codes ",\"errors\":[" ++ (joined ts ++ codes "]"))

  render_children-inside :
      (name : Bytes) (error : Members)
      → render_children describe name error ≡ inside_text name (find_member (codes "errors") error)
  unfolding render find_member
  render_children-inside name nil = refl
  render_children-inside name (member key v error) =
      elim (Bool-cases (equal key (codes "errors"))) [
        | inl e ↦ rw (e, render_children)
        | inr e ↦ rw (e, render_children) (render_children-inside name error)
      ]

  -- The text of a report is the members of an object, in braces where it stands in another.
  abbrev pub HasPairs : Json → Bytes → Type 0
  HasPairs v context =
      (t : Bytes) × ArePairs t
      × ((recursive : Bool)
          → render describe v context recursive
            ≡ ok (open_brace describe recursive ++ (t ++ close_brace describe recursive)))

  frame_text :
      (name context head inner : Bytes) (error : Members) (recursive : Bool)
      → is_empty error ≡ false
      → error_head describe name error context ≡ ok head
      → render_children describe name error ≡ ok inner
      → both
          (framed describe name error context recursive (render_children describe name error))
          (ok [])
        ≡ ok (open_brace describe recursive ++ ((head ++ inner) ++ close_brace describe recursive))
  unfolding framed
  frame_text name context head inner error recursive e h i =
      rw (e, framed, h, i)
        (ap ok (
          append-nil _
          ∙ append_assoc (open_brace describe recursive) head
              (inner ++ close_brace describe recursive)
          ∙ ap (λ z. open_brace describe recursive ++ z)
              (sym (append_assoc head inner (close_brace describe recursive)))))

  head_given :
      (name context : Bytes) (error : Members) {code instance_ref schema_ref : Bytes}
      → find_member (codes "errorCode") error ≡ some (number code)
      → find_member (codes "instanceRef") error ≡ some (text instance_ref)
      → find_member (codes "schemaRef") error ≡ some (text schema_ref)
      → error_head describe name error context
        ≡ ok (
            head_text name
              (insert_loop error (describe code))
              (c_str instance_ref)
              (c_str schema_ref)
              context)
  unfolding error_head
  head_given name context error c i s = rw (c, i, s)

  mutual
    unfolding render

    pub report_pairs :
        {v : Json} → IsReport v → (context : Bytes) → IsPlain context → HasPairs v context
    report_pairs (report {name = name} {error = error} hn ne c i s hm hi hs inside o h) context hc =
        let head = head_given (c_str name) context error c i s in
        let (t, e, q) =
          inside_pairs h (c_str name) hn _ (head_pairs (c_str name) _ _ _ context hn hm hi hs hc) in
        (
          _,
          q,
          λ recursive.
              frame_text (c_str name) context _ t error recursive ne head
                (render_children-inside (c_str name) error ∙ rw o e),
        )

    inside_pairs :
        {inside : Option Json}
        → AreInside inside
        → (name : Bytes) → IsPlain name
        → (head : Bytes) → ArePairs head
        → (t : Bytes) × (inside_text name inside ≡ ok t) × ArePairs (head ++ t)
    inside_pairs none_inside name hn head h = ([], refl, rw append-nil h)
    inside_pairs (inside_array hs) name hn head h =
        let (ts, e, vs) = item_values hs name hn in
        (
          _,
          rw e refl,
          ArePairs-append _ h
              (one_pair (codes "errors") _ _ (omega arith) (is_array ts _ vs refl) refl),
        )
    inside_pairs (inside_object hs) name hn head h =
        let (ts, e, vs) = member_values hs name hn in
        (
          _,
          rw e refl,
          ArePairs-append _ h
              (one_pair (codes "errors") _ _ (omega arith) (is_array ts _ vs refl) refl),
        )

    item_values :
        {xs : Items}
        → AreReports xs
        → (name : Bytes) → IsPlain name
        → (ts : List Bytes) × (item_texts describe name xs ≡ ok ts) × AreValues ts
    item_values no_reports name hn = ([], refl, no_values)
    item_values (more_reports h hs) name hn =
        let (t, q, e) = report_pairs h name hn in
        let (ts, f, vs) = item_values hs name hn in
        (_, rw (e true, f) refl, more_values (is_object t _ q refl) vs)

    member_values :
        {ms : Members}
        → HaveReports ms
        → (name : Bytes) → IsPlain name
        → (ts : List Bytes) × (member_texts describe name ms ≡ ok ts) × AreValues ts
    member_values none_there name hn = ([], refl, no_values)
    member_values (more_there h hs) name hn =
        let (t, q, e) = report_pairs h name hn in
        let (ts, f, vs) = member_values hs name hn in
        (_, rw (e true, f) refl, more_values (is_object t _ q refl) vs)
