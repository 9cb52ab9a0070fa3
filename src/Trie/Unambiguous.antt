-- ===== src/Trie/Unambiguous.antt =====
-- The loop of `PathTrie::Search` follows a template that an unambiguous trie holds.
use mathlib.Core.Path.{subst}
use cpp_oasvalidator.Prelude.{
  ℕ, ◌+◌, Bytes, equal, equal_iff, List, [], ◌∷◌, ◌++◌, append_assoc, append-nil, if◌then◌else◌,
  Bool, Bool-cases, inl, inr, true, false, ◌≡◌, ◌∙◌, none, some, arith, codes,
}
use cpp_oasvalidator.Common.Fragments.{Fragment}
use cpp_oasvalidator.Trie.{
  Node, node, Children, empty, child, find, keys, begins_brace, HashOrder, begin_child, ParamIdxs,
  range_of, emplace, pop_back, search_loop,
}
use cpp_oasvalidator.Trie.Shape.{IsWellFormed, child-IsWellFormed}
use cpp_oasvalidator.Trie.Round.{frag_idx-depth, search_end, search_literal, search_param}

-- A trie holds a template if there is a node for each of its fragments, and the node above a
-- parameter has `is_param` set.
pub data Holds : List Bytes → Node → Type 0 where
  here : {n : Node} → Holds [] n
  below :
      {d dir : Bytes} {ds : List Bytes} {is_param : Bool} {x : ℕ} {cs : Children} (n : Node)
      → (begins_brace d ≡ true → is_param ≡ true)
      → find d cs ≡ some n
      → Holds ds n
      → Holds (d ∷ ds) (node dir is_param x cs)

-- A parameter node has one child, its parameter.
mutual
  pub data IsUnambiguous : Node → Type 0 where
    unambiguous :
        {dir : Bytes} {is_param : Bool} {x : ℕ} {cs : Children}
        → (is_param ≡ true → keys cs ≡ dir ∷ [])
        → AreUnambiguous cs
        → IsUnambiguous (node dir is_param x cs)

  pub data AreUnambiguous : Children → Type 0 where
    no_child : AreUnambiguous empty
    one_more :
        {key : Bytes} {n : Node} {cs : Children}
        → IsUnambiguous n
        → AreUnambiguous cs
        → AreUnambiguous (child key n cs)

find-IsUnambiguous :
    {cs : Children} (d : Bytes) (n : Node)
    → AreUnambiguous cs
    → find d cs ≡ some n
    → IsUnambiguous n
unfolding find
find-IsUnambiguous d n no_child e = cc
find-IsUnambiguous d n (one_more {key = k} {n = m} u us) e = elim (Bool-cases (equal k d)) [
  | inl same ↦ let p : m ≡ n = ground arith in subst IsUnambiguous p u
  | inr other ↦ find-IsUnambiguous d n us (rw other at e)
]

-- A fragment of a path is an instance of a fragment of a template: it is the same literal, or the
-- template's is a parameter that the path does not spell out.
pub data Fits : Bytes → Bytes → Type 0 where
  same : {d v : Bytes} → v ≡ d → begins_brace d ≡ false → Fits d v
  value : {d v : Bytes} → begins_brace d ≡ true → equal d v ≡ false → Fits d v

pub data Instance : List Bytes → List Fragment → Type 0 where
  done : Instance [] []
  more :
      {d : Bytes} {ds : List Bytes} {f : Fragment} {fs : List Fragment}
      → Fits d f.dir
      → Instance ds fs
      → Instance (d ∷ ds) (f ∷ fs)

-- The ranges of the parameters of a template whose first fragment has the number `i`.
unfoldable pub captures : Bytes → ℕ → List Bytes → List Fragment → ParamIdxs → ParamIdxs
captures after i (d ∷ ds) (f ∷ fs) m =
    captures after (i + 1) ds fs (if begins_brace d then emplace i (range_of f after) m else m)
captures after i _ _ m = m

-- The template with a slash behind each fragment, as the loop builds it.
abbrev pub slashed : List Bytes → Bytes
slashed [] = []
slashed (d ∷ ds) = (d ++ codes "/") ++ slashed ds

only_child :
    (order : HashOrder) (dir d : Bytes) (cs : Children) {n : Node}
    → keys cs ≡ dir ∷ []
    → find d cs ≡ some n
    → (dir ≡ d) × (begin_child order cs ≡ some n)
unfolding find keys
only_child order dir d empty k e = cc
only_child order dir d (child a m (child b m' cs)) k e = cc
only_child order dir d (child a m empty) k e =
    ground (arith, equal_iff a d, equal_iff a dir, order.first_contained a [])

missing_child :
    (dir v : Bytes) (cs : Children) → keys cs ≡ dir ∷ [] → equal dir v ≡ false → find v cs ≡ none
unfolding find keys
missing_child dir v empty k h = cc
missing_child dir v (child a m (child b m' cs)) k h = cc
missing_child dir v (child a m empty) k h = ground (arith, equal_iff a v, equal_iff dir v)

unambiguous_keys :
    {dir : Bytes} {q : Bool} {x : ℕ} {cs : Children}
    → IsUnambiguous (node dir q x cs)
    → q ≡ true
    → keys cs ≡ dir ∷ []
unambiguous_keys (unambiguous k us) = k

unambiguous_children :
    {dir : Bytes} {q : Bool} {x : ℕ} {cs : Children}
    → IsUnambiguous (node dir q x cs)
    → AreUnambiguous cs
unambiguous_children (unambiguous k us) = us

module _ (order : HashOrder) (after : Bytes) where
  abbrev captured : Bytes → ℕ → Fragment → ParamIdxs → ParamIdxs
  captured d depth f m = if begins_brace d then emplace depth (range_of f after) m else m

  -- One round goes on at the template's child, and appends the template's fragment.
  round_finds :
      (d : Bytes) (f : Fragment) (fs : List Fragment) (depth : ℕ) (dir : Bytes) (q : Bool) (x : ℕ)
      (cs : Children) (n : Node) (p : Bytes) (m : ParamIdxs)
      → x ≡ depth
      → (q ≡ true → keys cs ≡ dir ∷ [])
      → (begins_brace d ≡ true → q ≡ true)
      → find d cs ≡ some n
      → Fits d f.dir
      → search_loop order after (f ∷ fs) (node dir q x cs) p m
        ≡ search_loop order after fs n (p ++ (d ++ codes "/")) (captured d depth f m)
  round_finds d f fs depth dir q x cs n p m w u t e (same v b) =
      search_literal order after f fs dir q x cs p m n (rw v e) ∙ rw (v, b)
  round_finds d f fs depth dir q x cs n p m w u t e (value b v) =
      let (k, c) = only_child order dir d cs (u (t b)) e in
      search_param order after f fs dir q x cs p m n (missing_child dir f.dir cs (u (t b)) (rw k v))
        (t b) c
      ∙ rw (k, b, w)

  pub search_loop_finds :
      (ds : List Bytes) (fs : List Fragment) (depth : ℕ) (n : Node) (p : Bytes) (m : ParamIdxs)
      → IsWellFormed depth n
      → IsUnambiguous n
      → Holds ds n
      → Instance ds fs
      → search_loop order after fs n p m
        ≡ some (record {
          found = true;
          oas_path = pop_back (p ++ slashed ds);
          param_idxs = captures after depth ds fs m;
        })
  unfolding captures
  search_loop_finds _ _ depth n p m w u h done = rw (search_end order after n p m, append-nil p)
  search_loop_finds (d ∷ ds) (f ∷ fs) depth (node dir q x cs) p m w u (below n t e h) (more g i) =
      round_finds d f fs depth dir q x cs n p m (frag_idx-depth w) (unambiguous_keys u) t e g
      ∙ search_loop_finds ds fs (depth + 1) n (p ++ (d ++ codes "/")) _ (child-IsWellFormed w d n e)
          (find-IsUnambiguous d n (unambiguous_children u) e) h i
      ∙ rw (append_assoc p (d ++ codes "/") (slashed ds))
