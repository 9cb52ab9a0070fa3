-- ===== src/Validators/Messages.antt =====
-- `CreateErrorMessages`, `HandleError` and `GetString` of src/validators/json_validator.cpp, on the
-- errors that a schema validator of rapidjson reports.
pub mod Render
pub mod Appends
pub mod Rendered
pub mod Grammar
pub mod Reports
pub mod Whole
use cpp_oasvalidator.Prelude.{
  Bytes, codes, equal, strip, [], ◌∷◌, ◌++◌, ◌==◌, if◌then◌else◌, Bool, true, false, Option, none,
  some,
}
use cpp_oasvalidator.Common.{Result, ok, throw, undefined_behaviour, ◌>>=◌}
use cpp_oasvalidator.Json.{
  Json, null, flag, number, text, array, object, Items, end, item, Members, nil, member,
  find_member,
}
use cpp_oasvalidator.Validators.{c_str}

-- `GetString`
unfoldable pub string_of : Json → Bytes
string_of (text s) = c_str s
string_of (number s) = s
string_of (flag true) = codes "true"
string_of (flag false) = codes "false"
string_of _ = []

-- `message.find(…)` and `message.replace(…)`; the name begins with a percent sign.
unfoldable pub replace_first : Bytes → Bytes → Bytes → Bytes
replace_first name insert [] = []
replace_first name insert (c ∷ message) = elim (strip name (c ∷ message)) [
  | some rest ↦ insert ++ rest
  | none ↦ c ∷ replace_first name insert message
]

-- The loop over the items of an array that is inserted.
unfoldable pub join_items : Bytes → Items → Bytes
join_items insert end = insert
join_items [] (item v xs) = join_items (string_of v) xs
join_items (c ∷ insert) (item v xs) = join_items ((c ∷ insert) ++ b',' ∷ string_of v) xs

unfoldable pub insert_string : Json → Bytes
insert_string (array xs) = join_items [] xs
insert_string v = string_of v

-- `for (const auto& insert : error.GetObject())`
unfoldable pub insert_loop : Members → Bytes → Bytes
insert_loop nil message = message
insert_loop (member name v ms) message =
    insert_loop ms (replace_first (b'%' ∷ c_str name) (insert_string v) message)

-- `error[key].GetInt()` and `error[key].GetString()`
abbrev pub number_in : Option Json → Result Bytes
number_in (some (number n)) = ok n
number_in _ = throw undefined_behaviour

abbrev pub text_in : Option Json → Result Bytes
text_in (some (text s)) = ok (c_str s)
text_in _ = throw undefined_behaviour

abbrev pub is_empty : Members → Bool
is_empty nil = true
is_empty (member name v ms) = false

-- `if (!context.empty())`
abbrev pub context_text : Bytes → Bytes
context_text [] = []
context_text (c ∷ context) = codes ",\"context\":\"" ++ ((c ∷ context) ++ codes "\"")

-- What is put together of the texts of one error
abbrev pub head_text : Bytes → Bytes → Bytes → Bytes → Bytes → Bytes
head_text error_name message instance_ref schema_ref context =
    codes "\"code\":\""
    ++ (error_name
        ++ (codes "\",\"description\":\""
            ++ (message
                ++ (codes "\",\"instance\":\""
                    ++ (instance_ref
                        ++ (codes "\",\"schema\":\""
                            ++ (schema_ref ++ (codes "\"" ++ context_text context))))))))

-- `if (error_msg.back() == ',') error_msg.pop_back();`
unfoldable pub pop_comma : Bytes → Bytes
pop_comma [] = []
pop_comma (c ∷ []) = if c == b',' then [] else c ∷ []
pop_comma (c ∷ d ∷ msg) = c ∷ pop_comma (d ∷ msg)

module _ (describe : Bytes → Bytes) where
  -- `HandleError` up to the errors inside: what it appends of the error itself.
  unfoldable pub error_head : Bytes → Members → Bytes → Result Bytes
  error_head error_name error context = do
    code ← number_in (find_member (codes "errorCode") error)
    instance_ref ← text_in (find_member (codes "instanceRef") error)
    schema_ref ← text_in (find_member (codes "schemaRef") error)
    let message = insert_loop error (describe code)
    ok (head_text error_name message instance_ref schema_ref context)

  abbrev pub open_brace : Bool → Bytes
  open_brace recursive = if recursive then codes "{" else []

  abbrev pub close_brace : Bool → Bytes
  close_brace recursive = if recursive then codes "}" else []

  -- `HandleError` on an object, with what it makes of the errors inside of it
  unfoldable pub handle_members :
      Bytes → Members → Bytes → Bool → (Bytes → Result Bytes) → Bytes → Result Bytes
  handle_members name error context recursive children msg = elim (is_empty error) [
    | true ↦ ok msg
    | false ↦ error_head name error context >>= λ head.
        children (msg ++ (open_brace recursive ++ head)) >>= λ msg'.
        ok (msg' ++ close_brace recursive)
  ]

  unfoldable mutual
    -- `CreateErrorMessages`
    pub create_error_messages : Json → Bytes → Bool → Bytes → Result Bytes
    create_error_messages (object errors) context recursive msg =
        error_types_loop errors context recursive msg
    create_error_messages _ context recursive msg = throw undefined_behaviour

    pub error_types_loop : Members → Bytes → Bool → Bytes → Result Bytes
    error_types_loop nil context recursive msg = ok msg
    error_types_loop (member name content errors) context recursive msg =
        error_content (c_str name) content context recursive msg >>= λ msg'.
        error_types_loop errors context recursive msg'

    pub error_content : Bytes → Json → Bytes → Bool → Bytes → Result Bytes
    error_content name (array contents) context recursive msg =
        contents_loop name contents context recursive msg
    error_content name (object error) context recursive msg =
        handle_members name error context recursive (child_errors name error) msg
    error_content name _ context recursive msg = ok msg

    pub contents_loop : Bytes → Items → Bytes → Bool → Bytes → Result Bytes
    contents_loop name end context recursive msg = ok msg
    contents_loop name (item content contents) context recursive msg =
        handle_error name content context recursive msg >>= λ msg'.
        contents_loop name contents context recursive msg'

    -- `HandleError`
    pub handle_error : Bytes → Json → Bytes → Bool → Bytes → Result Bytes
    handle_error name (object error) context recursive msg =
        handle_members name error context recursive (child_errors name error) msg
    handle_error name _ context recursive msg = throw undefined_behaviour

    -- `if (error.HasMember("errors"))`
    pub child_errors : Bytes → Members → Bytes → Result Bytes
    child_errors name nil msg = ok msg
    child_errors name (member key v error) msg = elim (equal key (codes "errors")) [
      | true ↦
          child_messages name v (msg ++ codes ",\"errors\":[") >>= λ msg'. ok (msg' ++ codes "]")
      | false ↦ child_errors name error msg
    ]

    pub child_messages : Bytes → Json → Bytes → Result Bytes
    child_messages name (array xs) msg =
        child_items_loop name xs msg >>= λ msg'. ok (pop_comma msg')
    child_messages name (object ms) msg =
        child_members_loop name ms msg >>= λ msg'. ok (pop_comma msg')
    child_messages name _ msg = ok msg

    pub child_items_loop : Bytes → Items → Bytes → Result Bytes
    child_items_loop name end msg = ok msg
    child_items_loop name (item child xs) msg =
        create_error_messages child name true msg >>= λ msg'.
        child_items_loop name xs (msg' ++ codes ",")

    pub child_members_loop : Bytes → Members → Bytes → Result Bytes
    child_members_loop name nil msg = ok msg
    child_members_loop name (member key child ms) msg =
        create_error_messages child name true msg >>= λ msg'.
        child_members_loop name ms (msg' ++ codes ",")
