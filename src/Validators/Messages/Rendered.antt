-- ===== src/Validators/Messages/Rendered.antt =====
-- `CreateErrorMessages` puts a comma behind each error inside of another and takes the last comma
-- away.
use cpp_oasvalidator.Prelude.{
  Bytes, codes, equal, ◌++◌, append-nil, Bool, Bool-cases, true, inl, inr, ◌≡◌, refl, sym, ap,
}
use cpp_oasvalidator.Common.{ok, ◌>>=◌}
use cpp_oasvalidator.Json.{
  Json, null, flag, number, text, array, object, Items, end, item, Members, nil, member,
}
use cpp_oasvalidator.Validators.{c_str}
use cpp_oasvalidator.Validators.Messages.{
  create_error_messages, error_types_loop, error_content, contents_loop, handle_error, child_errors,
  child_messages, child_items_loop, child_members_loop,
}
use cpp_oasvalidator.Validators.Messages.Render.{
  joined, render, render_types, render_content, render_contents, render_error, render_children,
  child_texts, item_texts, member_texts,
}
use cpp_oasvalidator.Validators.Messages.Appends.{
  Appends, AppendsEnded, Appends-nothing, Appends-both, AppendsEnded-more, handle_members-framed,
  pop_comma-AppendsEnded, bracket_closed,
}

module _ (describe : Bytes → Bytes) where
  mutual
    unfolding create_error_messages render

    create-Appends :
        (v : Json) (context : Bytes) (recursive : Bool)
        → Appends
            (create_error_messages describe v context recursive)
            (render describe v context recursive)
    create-Appends (object errors) context recursive msg = types_append errors context recursive msg
    create-Appends null context recursive msg = refl
    create-Appends (flag b) context recursive msg = refl
    create-Appends (number s) context recursive msg = refl
    create-Appends (text s) context recursive msg = refl
    create-Appends (array xs) context recursive msg = refl

    types_append :
        (errors : Members) (context : Bytes) (recursive : Bool)
        → Appends
            (error_types_loop describe errors context recursive)
            (render_types describe errors context recursive)
    types_append nil context recursive msg = Appends-nothing msg
    types_append (member name content errors) context recursive msg =
        Appends-both (error_content describe (c_str name) content context recursive)
          (error_types_loop describe errors context recursive)
          (render_content describe (c_str name) content context recursive)
          (render_types describe errors context recursive)
          (content-Appends (c_str name) content context recursive)
          (types_append errors context recursive) msg

    content-Appends :
        (name : Bytes) (content : Json) (context : Bytes) (recursive : Bool)
        → Appends
            (error_content describe name content context recursive)
            (render_content describe name content context recursive)
    content-Appends name (array contents) context recursive msg =
        contents_append name contents context recursive msg
    content-Appends name (object error) context recursive msg =
        handle_members-framed describe name error context recursive
          (child_errors describe name error) (render_children describe name error)
          (children_append name error) msg
    content-Appends name null context recursive msg = Appends-nothing msg
    content-Appends name (flag b) context recursive msg = Appends-nothing msg
    content-Appends name (number s) context recursive msg = Appends-nothing msg
    content-Appends name (text s) context recursive msg = Appends-nothing msg

    contents_append :
        (name : Bytes) (contents : Items) (context : Bytes) (recursive : Bool)
        → Appends
            (contents_loop describe name contents context recursive)
            (render_contents describe name contents context recursive)
    contents_append name end context recursive msg = Appends-nothing msg
    contents_append name (item content contents) context recursive msg =
        Appends-both (handle_error describe name content context recursive)
          (contents_loop describe name contents context recursive)
          (render_error describe name content context recursive)
          (render_contents describe name contents context recursive)
          (error-Appends name content context recursive)
          (contents_append name contents context recursive) msg

    error-Appends :
        (name : Bytes) (content : Json) (context : Bytes) (recursive : Bool)
        → Appends
            (handle_error describe name content context recursive)
            (render_error describe name content context recursive)
    error-Appends name (object error) context recursive msg =
        handle_members-framed describe name error context recursive
          (child_errors describe name error) (render_children describe name error)
          (children_append name error) msg
    error-Appends name null context recursive msg = refl
    error-Appends name (flag b) context recursive msg = refl
    error-Appends name (number s) context recursive msg = refl
    error-Appends name (text s) context recursive msg = refl
    error-Appends name (array xs) context recursive msg = refl

    children_append :
        (name : Bytes) (error : Members)
        → Appends (child_errors describe name error) (render_children describe name error)
    children_append name nil msg = Appends-nothing msg
    children_append name (member key v error) msg = elim (Bool-cases (equal key (codes "errors"))) [
      | inl e ↦
          rw (e, child_errors, render_children)
            (rw (child_messages_append name v msg)
              (bracket_closed msg (child_texts describe name v)))
      | inr e ↦ rw (e, child_errors, render_children) (children_append name error msg)
    ]

    child_messages_append :
        (name : Bytes) (v : Json) (msg : Bytes)
        → child_messages describe name v (msg ++ codes ",\"errors\":[")
          ≡ (child_texts describe name v >>= λ ts. ok ((msg ++ codes ",\"errors\":[") ++ joined ts))
    child_messages_append name (array xs) msg =
        pop_comma-AppendsEnded (child_items_loop describe name xs) (item_texts describe name xs)
          (items_append name xs) msg
    child_messages_append name (object ms) msg =
        pop_comma-AppendsEnded (child_members_loop describe name ms) (member_texts describe name ms)
          (members_append name ms) msg
    child_messages_append name null msg = ap ok (sym (append-nil _))
    child_messages_append name (flag b) msg = ap ok (sym (append-nil _))
    child_messages_append name (number s) msg = ap ok (sym (append-nil _))
    child_messages_append name (text s) msg = ap ok (sym (append-nil _))

    items_append :
        (name : Bytes) (xs : Items)
        → AppendsEnded (child_items_loop describe name xs) (item_texts describe name xs)
    items_append name end msg = ap ok (sym (append-nil msg))
    items_append name (item child xs) msg =
        AppendsEnded-more (create_error_messages describe child name true)
          (child_items_loop describe name xs) (render describe child name true)
          (item_texts describe name xs) (create-Appends child name true) (items_append name xs) msg

    members_append :
        (name : Bytes) (ms : Members)
        → AppendsEnded (child_members_loop describe name ms) (member_texts describe name ms)
    members_append name nil msg = ap ok (sym (append-nil msg))
    members_append name (member key child ms) msg =
        AppendsEnded-more (create_error_messages describe child name true)
          (child_members_loop describe name ms) (render describe child name true)
          (member_texts describe name ms) (create-Appends child name true) (members_append name ms)
          msg

  -- `CreateErrorMessages`, which puts a comma behind each error inside of another and takes the last
  -- comma of the whole message away, appends the text that is written as a whole, with commas between
  -- the errors: it fails where that cannot be written, and what was in the message stays, whatever it
  -- is.
  pub create_error_messages-render :
      (v : Json) (context : Bytes) (recursive : Bool) (msg : Bytes)
      → create_error_messages describe v context recursive msg
        ≡ (render describe v context recursive >>= λ t. ok (msg ++ t))
  create_error_messages-render v context recursive msg = create-Appends v context recursive msg
