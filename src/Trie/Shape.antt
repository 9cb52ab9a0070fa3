-- ===== src/Trie/Shape.antt =====
-- The shape that `Insert` gives a trie: `frag_idx` is the depth, and a parameter node has the child
-- that its `dir` names.
use mathlib.Core.Path.{subst}
use cpp_oasvalidator.Prelude.{
  ℕ, ◌+◌, Bytes, equal, equal_iff, equal_refl, List, [], ◌∷◌, if◌then◌else◌, Bool, Bool-cases, true,
  false, ◌≡◌, refl, Option, none, some, arith, inl, inr,
}
use cpp_oasvalidator.Common.Fragments.{dirs}
use cpp_oasvalidator.Trie.{
  Node, node, Children, empty, child, find, begins_brace, new_node, descend, insert_loop, insert,
  insert_all, root_node,
}

-- What a node with `is_param` set may rely on.
pub record ParamShape (dir : Bytes) (cs : Children) : Type 0 where
  pub braced : begins_brace dir ≡ true
  pub target : Node
  pub present : find dir cs ≡ some target

mutual
  pub data IsWellFormed : ℕ → Node → Type 0 where
    well_formed :
        {depth frag_idx : ℕ} {dir : Bytes} {is_param : Bool} {cs : Children}
        → frag_idx ≡ depth
        → (is_param ≡ true → ParamShape dir cs)
        → AreWellFormed (depth + 1) cs
        → IsWellFormed depth (node dir is_param frag_idx cs)

  pub data AreWellFormed : ℕ → Children → Type 0 where
    no_child : {depth : ℕ} → AreWellFormed depth empty
    one_more :
        {depth : ℕ} {key : Bytes} {n : Node} {cs : Children}
        → IsWellFormed depth n
        → AreWellFormed depth cs
        → AreWellFormed depth (child key n cs)

pub find-IsWellFormed :
    {depth : ℕ} {cs : Children} (d : Bytes) (n : Node)
    → AreWellFormed depth cs
    → find d cs ≡ some n
    → IsWellFormed depth n
unfolding find
find-IsWellFormed d n no_child e = cc
find-IsWellFormed {depth} d n (one_more {key = k} {n = m} w ws) e = elim (Bool-cases (equal k d)) [
  | inl same ↦ let p : m ≡ n = ground arith in subst (IsWellFormed depth) p w
  | inr other ↦ find-IsWellFormed d n ws (rw other at e)
]

pub child-IsWellFormed :
    {depth x : ℕ} {dir : Bytes} {is_param : Bool} {cs : Children}
    → IsWellFormed depth (node dir is_param x cs)
    → (d : Bytes) (n : Node) → find d cs ≡ some n
    → IsWellFormed (depth + 1) n
child-IsWellFormed (well_formed e s ws) d n f = find-IsWellFormed d n ws f

pub descend-AreWellFormed :
    {depth : ℕ} {cs : Children} (d : Bytes) (go : Node → Node)
    → ((n : Node) → IsWellFormed depth n → IsWellFormed depth (go n))
    → AreWellFormed depth cs
    → AreWellFormed depth (descend d depth go cs)
unfolding descend
descend-AreWellFormed d go h no_child =
    one_more (h _ (well_formed refl (λ e. cc) no_child)) no_child
descend-AreWellFormed {depth} d go h (one_more {key = k} {n} {cs} w ws) =
    elim (Bool-cases (equal k d)) [
      | inl same ↦ rw same (one_more (h n w) ws)
      | inr other ↦ rw other (one_more w (descend-AreWellFormed d go h ws))
    ]

abbrev pub or_new : ℕ → Option Node → Node
or_new j none = new_node j
or_new j (some n) = n

-- After `node->children[dir]` the child is there, and the other children are as they were.
pub find-descend :
    (k d : Bytes) (j : ℕ) (go : Node → Node) (cs : Children)
    → find k (descend d j go cs)
      ≡ (if equal d k then some (go (or_new j (find d cs))) else find k cs)
unfolding find descend
find-descend k d j go empty = refl
find-descend k d j go (child e n cs) =
    ground (arith, equal_iff e d, equal_iff e k, equal_iff d k, find-descend k d j go cs)

ParamShape-new :
    (d : Bytes) (j : ℕ) (go : Node → Node) (cs : Children)
    → begins_brace d ≡ true
    → ParamShape d (descend d j go cs)
ParamShape-new d j go cs h = record {
  braced = h;
  target = go (or_new j (find d cs));
  present = rw (find-descend, equal_refl d);
}

ParamShape-descend :
    {dir : Bytes} (d : Bytes) (j : ℕ) (go : Node → Node) (cs : Children)
    → ParamShape dir cs
    → ParamShape dir (descend d j go cs)
ParamShape-descend {dir} d j go cs s = elim (Bool-cases (equal d dir)) [
  | inl same ↦ record {
    braced = s.braced;
    target = go (or_new j (find d cs));
    present = rw (find-descend, same);
  }
  | inr other ↦ record {
    braced = s.braced;
    target = s.target;
    present = rw (find-descend, other) s.present;
  }
]

insert_loop-IsWellFormed :
    (ds : List Bytes) (depth : ℕ) (n : Node)
    → IsWellFormed depth n
    → IsWellFormed depth (insert_loop ds depth n)
unfolding insert_loop
insert_loop-IsWellFormed [] depth n w = w
insert_loop-IsWellFormed (d ∷ ds) depth (node dir p x cs) (well_formed e s ws) =
    well_formed e (shape (begins_brace d) refl)
      (descend-AreWellFormed d _ (insert_loop-IsWellFormed ds (depth + 1)) ws)
  where
    shape :
        (b : Bool)
        → begins_brace d ≡ b
        → (if b then true else p) ≡ true
        → ParamShape (if b then d else dir) (descend d (depth + 1) (insert_loop ds (depth + 1)) cs)
    shape true h k = ParamShape-new d _ _ cs h
    shape false h k = ParamShape-descend d _ _ cs (s k)

pub insert-IsWellFormed :
    (path : Bytes) (root : Node) → IsWellFormed 0 root → IsWellFormed 0 (insert path root)
unfolding insert
insert-IsWellFormed path root = insert_loop-IsWellFormed (dirs path) 0 root

pub root_node-IsWellFormed : IsWellFormed 0 root_node
root_node-IsWellFormed = well_formed refl (λ e. cc) no_child

-- Whatever paths are inserted, each node's `frag_idx` is its depth, and each node with `is_param`
-- set has a `dir` that begins with a brace and names one of its children.
pub insert_all-IsWellFormed :
    (paths : List Bytes) (root : Node)
    → IsWellFormed 0 root
    → IsWellFormed 0 (insert_all paths root)
unfolding insert_all
insert_all-IsWellFormed [] root w = w
insert_all-IsWellFormed (p ∷ ps) root w =
    insert_all-IsWellFormed ps _ (insert-IsWellFormed p root w)
