-- ===== src/Validators/Messages/Render.antt =====
-- The text of an error, written as a whole.
use cpp_oasvalidator.Prelude.{Bytes, codes, equal, List, [], ◌∷◌, ◌++◌, Bool, true, false}
use cpp_oasvalidator.Common.{Result, ok, throw, undefined_behaviour, ◌>>=◌}
use cpp_oasvalidator.Json.{Json, array, object, Items, end, item, Members, nil, member}
use cpp_oasvalidator.Validators.{c_str}
use cpp_oasvalidator.Validators.Messages.{is_empty, error_head, open_brace, close_brace}

-- Texts with commas between them
abbrev pub joined : List Bytes → Bytes
joined [] = []
joined (t ∷ []) = t
joined (t ∷ u ∷ ts) = t ++ b',' ∷ joined (u ∷ ts)

-- Texts with a comma behind each
abbrev pub ended : List Bytes → Bytes
ended [] = []
ended (t ∷ ts) = t ++ b',' ∷ ended ts

-- The texts of one part and of the next
abbrev pub both : Result Bytes → Result Bytes → Result Bytes
both r s = r >>= λ a. s >>= λ b. ok (a ++ b)

module _ (describe : Bytes → Bytes) where
  -- An error with what stands inside of it, in braces where it is itself inside of another.
  unfoldable pub framed : Bytes → Members → Bytes → Bool → Result Bytes → Result Bytes
  framed name error context recursive inner = elim (is_empty error) [
    | true ↦ ok []
    | false ↦ error_head describe name error context >>= λ head. inner >>= λ t.
        ok ((open_brace describe recursive ++ head) ++ (t ++ close_brace describe recursive))
  ]

  unfoldable mutual
    pub render : Json → Bytes → Bool → Result Bytes
    render (object errors) context recursive = render_types errors context recursive
    render _ context recursive = throw undefined_behaviour

    pub render_types : Members → Bytes → Bool → Result Bytes
    render_types nil context recursive = ok []
    render_types (member name content errors) context recursive =
        both (render_content (c_str name) content context recursive)
          (render_types errors context recursive)

    pub render_content : Bytes → Json → Bytes → Bool → Result Bytes
    render_content name (array contents) context recursive =
        render_contents name contents context recursive
    render_content name (object error) context recursive =
        framed name error context recursive (render_children name error)
    render_content name _ context recursive = ok []

    pub render_contents : Bytes → Items → Bytes → Bool → Result Bytes
    render_contents name end context recursive = ok []
    render_contents name (item content contents) context recursive =
        both (render_error name content context recursive)
          (render_contents name contents context recursive)

    pub render_error : Bytes → Json → Bytes → Bool → Result Bytes
    render_error name (object error) context recursive =
        framed name error context recursive (render_children name error)
    render_error name _ context recursive = throw undefined_behaviour

    -- The errors inside, as a JSON array
    pub render_children : Bytes → Members → Result Bytes
    render_children name nil = ok []
    render_children name (member key v error) = elim (equal key (codes "errors")) [
      | true ↦ child_texts name v >>= λ ts. ok (codes ",\"errors\":[" ++ (joined ts ++ codes "]"))
      | false ↦ render_children name error
    ]

    pub child_texts : Bytes → Json → Result (List Bytes)
    child_texts name (array xs) = item_texts name xs
    child_texts name (object ms) = member_texts name ms
    child_texts name _ = ok []

    pub item_texts : Bytes → Items → Result (List Bytes)
    item_texts name end = ok []
    item_texts name (item child xs) =
        render child name true >>= λ t. item_texts name xs >>= λ ts. ok (t ∷ ts)

    pub member_texts : Bytes → Members → Result (List Bytes)
    member_texts name nil = ok []
    member_texts name (member key child ms) =
        render child name true >>= λ t. member_texts name ms >>= λ ts. ok (t ∷ ts)
