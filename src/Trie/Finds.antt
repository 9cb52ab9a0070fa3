-- ===== src/Trie/Finds.antt =====
-- `PathTrie::Search` after `PathTrie::Insert`: the template is found.
use cpp_oasvalidator.Prelude.{
  ℕ, ◌+◌, Bytes, equal, equal_iff, equal_refl, List, [], ◌∷◌, ◌++◌, append_assoc, append-nil,
  Bool-cases, inl, inr, true, ◌≡◌, ◌≢◌, refl, ap, ◌∙◌, some, arith, codes,
}
use cpp_oasvalidator.Common.Fragments.{
  fragments, dirs, path_of, ArePathDirs, dirs-path_of, path_of-dirs-slash,
}
use cpp_oasvalidator.Trie.{
  Node, node, find, insert_loop, HashOrder, ParamIdxs, pop_back, search, insert, insert_all,
  root_node,
}
use cpp_oasvalidator.Trie.Shape.{
  find-descend, or_new, insert_all-IsWellFormed, root_node-IsWellFormed,
}
use cpp_oasvalidator.Trie.Unambiguous.{
  Holds, here, below, IsUnambiguous, Instance, captures, slashed, search_loop_finds,
}

insert_loop-Holds : (ds : List Bytes) (i : ℕ) (n : Node) → Holds ds (insert_loop ds i n)
unfolding insert_loop
insert_loop-Holds [] i n = here
insert_loop-Holds (d ∷ ds) i (node dir q x cs) =
    below (insert_loop ds (i + 1) (or_new (i + 1) (find d cs))) (λ b. rw b)
      (rw (find-descend, equal_refl d)) (insert_loop-Holds ds (i + 1) _)

insert_loop_keeps :
    (ds es : List Bytes) (i : ℕ) (n : Node) → Holds es n → Holds es (insert_loop ds i n)
unfolding insert_loop
insert_loop_keeps [] es i n h = h
insert_loop_keeps (d ∷ ds) _ i n here = here
insert_loop_keeps (d ∷ ds) (e ∷ es) i (node dir q x cs) (below n t f h) =
    elim (Bool-cases (equal d e)) [
      | inl same ↦
          let p : d ≡ e = (equal_iff d e).0 same in
          below (insert_loop ds (i + 1) n) (λ b. ground (arith, t b))
            (rw (find-descend, same, p, f)) (insert_loop_keeps ds es (i + 1) n h)
      | inr other ↦ below n (λ b. ground (arith, t b)) (rw (find-descend, other) f) h
    ]

insert_all_keeps : (paths es : List Bytes) (n : Node) → Holds es n → Holds es (insert_all paths n)
unfolding insert_all insert
insert_all_keeps [] es n h = h
insert_all_keeps (p ∷ ps) es n h = insert_all_keeps ps es _ (insert_loop_keeps (dirs p) es 0 n h)

-- A trie holds each template that was inserted, whatever was inserted before and after it.
pub insert_all-Holds :
    (before later : List Bytes) (template : Bytes) (n : Node)
    → Holds (dirs template) (insert_all (before ++ template ∷ later) n)
unfolding insert_all insert
insert_all-Holds [] later template n =
    insert_all_keeps later (dirs template) _ (insert_loop-Holds (dirs template) 0 n)
insert_all-Holds (p ∷ ps) later template n = insert_all-Holds ps later template _

pop_back-append : (a : Bytes) (x : ℕ) (b : Bytes) → pop_back (a ++ x ∷ b) ≡ a ++ pop_back (x ∷ b)
unfolding pop_back
pop_back-append [] x b = refl
pop_back-append (y ∷ []) x b = refl
pop_back-append (y ∷ z ∷ a) x b = ap (◌∷◌ y) (pop_back-append (z ∷ a) x b)

pop_back-cons : (x : ℕ) (s : Bytes) → s ≢ [] → pop_back (x ∷ s) ≡ x ∷ pop_back s
unfolding pop_back
pop_back-cons x [] h = absurd (h refl)
pop_back-cons x (y ∷ s) h = refl

slashed-ne-nil : (d : Bytes) (ds : List Bytes) → slashed (d ∷ ds) ≢ []
slashed-ne-nil [] ds e = cc
slashed-ne-nil (x ∷ d) ds e = cc

pop_back-slashed : (ds : List Bytes) → pop_back (slashed ds) ≡ path_of ds
pop_back-slashed [] = unfold pop_back in refl
pop_back-slashed (d ∷ []) =
    rw (append-nil, pop_back-append d b'/' []) (unfold pop_back in rw append-nil)
pop_back-slashed (d ∷ e ∷ ds) = rw (
  append_assoc d (codes "/") (slashed (e ∷ ds)),
  pop_back-append d b'/' (slashed (e ∷ ds)),
  pop_back-cons b'/' (slashed (e ∷ ds)) (slashed-ne-nil e ds),
  pop_back-slashed (e ∷ ds),
)

-- The search for an inserted template
search_template :
    (order : HashOrder) (before later : List Bytes) (template path after : Bytes) (m : ParamIdxs)
    → IsUnambiguous (insert_all (before ++ template ∷ later) root_node)
    → Instance (dirs template) (fragments path)
    → search order path after (insert_all (before ++ template ∷ later) root_node) m
      ≡ some (record {
        found = true;
        oas_path = path_of (dirs template);
        param_idxs = captures after 0 (dirs template) (fragments path) m;
      })
unfolding search
search_template order before later template path after m u i =
    search_loop_finds order after (dirs template) (fragments path) 0 _ [] m
      (insert_all-IsWellFormed _ root_node root_node-IsWellFormed) u
      (insert_all-Holds before later template root_node) i
    ∙ rw pop_back-slashed

-- The same for a template that is written from its fragments
pub search-path_of :
    (order : HashOrder) (before later ds : List Bytes) (path after : Bytes) (m : ParamIdxs)
    → ArePathDirs ds
    → IsUnambiguous (insert_all (before ++ path_of ds ∷ later) root_node)
    → Instance ds (fragments path)
    → search order path after (insert_all (before ++ path_of ds ∷ later) root_node) m
      ≡ some (record {
        found = true;
        oas_path = path_of ds;
        param_idxs = captures after 0 ds (fragments path) m;
      })
search-path_of order before later ds path after m h u i =
    let e = dirs-path_of ds h in
    rw e at (search_template order before later (path_of ds) path after m u (rw e i))

-- In an unambiguous trie `Search` finds every template that was inserted, for every path that is
-- an instance of its fragments: it writes the fragments, with a slash between two of them, to
-- `oas_path`, and the range of each parameter under the number of its fragment. What it writes is
-- the template itself, if the last fragment of the template is not empty: a slash at the end of a
-- template is lost.
pub search-insert_all :
    (order : HashOrder) (before later : List Bytes) (template path after : Bytes) (m : ParamIdxs)
    → IsUnambiguous (insert_all (before ++ template ∷ later) root_node)
    → Instance (dirs template) (fragments path)
    → (search order path after (insert_all (before ++ template ∷ later) root_node) m
        ≡ some (record {
          found = true;
          oas_path = path_of (dirs template);
          param_idxs = captures after 0 (dirs template) (fragments path) m;
        }))
      × ((ds : List Bytes)
          → ArePathDirs ds
          → template ≡ path_of ds
          → path_of (dirs template) ≡ template)
      × ((ds : List Bytes)
          → ArePathDirs ds
          → template ≡ path_of ds ++ b'/' ∷ []
          → path_of (dirs template) ≡ path_of ds)
search-insert_all order before later template path after m u i = (
  search_template order before later template path after m u i,
  λ ds h e. rw e (ap path_of (dirs-path_of ds h)),
  λ ds h e. rw e (path_of-dirs-slash ds h),
)
