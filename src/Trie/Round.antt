-- ===== src/Trie/Round.antt =====
-- One round of `PathTrie::Search`: the three ways it can go at a well-formed node, and what each
-- overload does then.
use cpp_oasvalidator.Prelude.{
  ℕ, ◌+◌, Bytes, equal, List, [], ◌∷◌, ◌++◌, Bool, Bool-cases, true, false, ◌≡◌, refl, Option, none,
  some, arith, inl, inr, codes,
}
use cpp_oasvalidator.Common.Fragments.{Fragment}
use cpp_oasvalidator.Trie.{
  Node, node, Children, empty, child, find, keys, contains, begins_brace, HashOrder, begin_child,
  ParamIdxs, range_of, emplace, pop_back, search_loop,
}
use cpp_oasvalidator.Trie.Shape.{IsWellFormed, well_formed, find-IsWellFormed}

find-contains :
    (d : Bytes) (cs : Children) → contains d (keys cs) ≡ true → (n : Node) × (find d cs ≡ some n)
unfolding find keys
find-contains d empty h = cc
find-contains d (child k n cs) h = elim (Bool-cases (equal k d)) [
  | inl same ↦ (n, rw same)
  | inr other ↦ rw other (find-contains d cs (ground arith))
]

-- `begin()` of a node that has a child is a child.
begin_child_found :
    (order : HashOrder) (dir : Bytes) (cs : Children) {n : Node}
    → find dir cs ≡ some n
    → (m : Node) × (begin_child order cs ≡ some m)
unfolding keys
begin_child_found order dir empty e = unfold find in cc
begin_child_found order dir (child k n cs) e =
    find-contains (order.first (k ∷ keys cs)) (child k n cs) (order.first_contained k (keys cs))

-- What a round at `node dir is_param _ cs` finds for the fragment `d`.
pub data Round (order : HashOrder) (depth : ℕ) (dir : Bytes) (is_param : Bool) (cs : Children)
    (d : Bytes) : Type 0 where
  literal :
      (n : Node)
      → find d cs ≡ some n
      → IsWellFormed (depth + 1) n
      → Round order depth dir is_param cs d
  param :
      (n : Node)
      → find d cs ≡ none
      → is_param ≡ true
      → begins_brace dir ≡ true
      → begin_child order cs ≡ some n
      → IsWellFormed (depth + 1) n
      → Round order depth dir is_param cs d
  stop : find d cs ≡ none → is_param ≡ false → Round order depth dir is_param cs d

pub Round-cases :
    (order : HashOrder) {depth x : ℕ} {dir : Bytes} {is_param : Bool} {cs : Children} (d : Bytes)
    → IsWellFormed depth (node dir is_param x cs)
    → Round order depth dir is_param cs d
Round-cases order {depth} {is_param = is_param} {cs = cs} d (well_formed {dir = dir} e s ws) =
    go (find d cs) refl is_param refl
  where
    go :
        (o : Option Node)
        → find d cs ≡ o
        → (b : Bool) → is_param ≡ b
        → Round order depth dir is_param cs d
    go (some n) found b p = literal n found (find-IsWellFormed d n ws found)
    go none missing true p =
        let (n, b) = begin_child_found order dir cs (s p).present in
        param n missing p (s p).braced b (find-IsWellFormed (order.first (keys cs)) n ws b)
    go none missing false p = stop missing p

pub frag_idx-depth :
    {depth x : ℕ} {dir : Bytes} {is_param : Bool} {cs : Children}
    → IsWellFormed depth (node dir is_param x cs)
    → x ≡ depth
frag_idx-depth (well_formed e s ws) = e

pub search_end :
    (order : HashOrder) (after : Bytes) (n : Node) (p : Bytes) (m : ParamIdxs)
    → search_loop order after [] n p m
      ≡ some (record { found = true; oas_path = pop_back p; param_idxs = m })
unfolding search_loop
search_end order after n p m = refl

module _ (order : HashOrder) (after : Bytes) (f : Fragment) (fs : List Fragment) (dir : Bytes)
    (is_param : Bool) (x : ℕ) (cs : Children) (p : Bytes) (m : ParamIdxs) where
  pub search_literal :
      (n : Node)
      → find f.dir cs ≡ some n
      → search_loop order after (f ∷ fs) (node dir is_param x cs) p m
        ≡ search_loop order after fs n (p ++ (f.dir ++ codes "/")) m
  unfolding search_loop
  search_literal n found = rw (found, search_loop)

  pub search_param :
      (n : Node)
      → find f.dir cs ≡ none
      → is_param ≡ true
      → begin_child order cs ≡ some n
      → search_loop order after (f ∷ fs) (node dir is_param x cs) p m
        ≡ search_loop order after fs n (p ++ (dir ++ codes "/")) (emplace x (range_of f after) m)
  unfolding search_loop
  search_param n missing h b = rw (missing, h, b, search_loop)

  pub search_stop :
      find f.dir cs ≡ none
      → is_param ≡ false
      → search_loop order after (f ∷ fs) (node dir is_param x cs) p m
        ≡ some (record { found = false; oas_path = []; param_idxs = m })
  unfolding search_loop
  search_stop missing h = rw (missing, h, search_loop)
