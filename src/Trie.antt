-- ===== src/Trie.antt =====
-- include/utils/path_trie.hpp and src/utils/path_trie.cpp: the trie of path templates. A node owns
-- its children and has one parent, so a tree of values stands for the pointers.
pub mod Shape
pub mod Round
pub mod Total
pub mod Ranges
pub mod Unambiguous
pub mod Finds
pub mod Memory
pub mod Stands
pub mod Writes
pub mod Packed
pub mod Copy
pub mod Delete
use cpp_oasvalidator.Prelude.{
  ℕ, ◌+◌, Bytes, equal, List, [], ◌∷◌, ◌++◌, ◌==◌, if◌then◌else◌, Bool, true, false, ◌≡◌, Option,
  none, some, ◌||◌, codes,
}
use cpp_oasvalidator.Common.Fragments.{Fragment, fragments, dirs}

-- `PathTrie::Node`: dir, is_param, frag_idx, and the children by name.
mutual
  pub data Node : Type 0 where
    node : Bytes → Bool → ℕ → Children → Node

  pub data Children : Type 0 where
    empty : Children
    child : Bytes → Node → Children → Children

-- `new Node()`, with its `frag_idx` set
abbrev pub new_node : ℕ → Node
new_node frag_idx = node [] false frag_idx empty

-- `children.find`
unfoldable pub find : Bytes → Children → Option Node
find dir empty = none
find dir (child d n cs) = if equal d dir then some n else find dir cs

-- `dir[0] == '{'`; a string's byte behind its last one is 0.
abbrev pub begins_brace : Bytes → Bool
begins_brace [] = false
begins_brace (c ∷ dir) = c == b'{'

-- `children[dir]` with a new node where there is none, and what the rest of the loop, `go`, makes
-- of that child.
pub descend : Bytes → ℕ → (Node → Node) → Children → Children
descend dir frag_idx go empty = child dir (go (new_node frag_idx)) empty
descend dir frag_idx go (child d n cs) =
    if equal d dir then child d (go n) cs else child d n (descend dir frag_idx go cs)

-- The loop of `Insert` over the fragments that are left; the number counts those behind it.
pub insert_loop : List Bytes → ℕ → Node → Node
insert_loop [] fragment_index n = n
insert_loop (d ∷ ds) fragment_index (node dir is_param frag_idx cs) =
    node (if begins_brace d then d else dir) (if begins_brace d then true else is_param) frag_idx
      (descend d (fragment_index + 1) (insert_loop ds (fragment_index + 1)) cs)

unfoldable pub insert : Bytes → Node → Node
unfolding insert_loop descend
insert path root = insert_loop (dirs path) 0 root

-- The names of the children.
unfoldable pub keys : Children → List Bytes
keys empty = []
keys (child d n cs) = d ∷ keys cs

abbrev pub contains : Bytes → List Bytes → Bool
contains d [] = false
contains d (k ∷ ks) = equal k d || contains d ks

-- The iteration order of `std::unordered_map`: which key `begin()` stands at. The standard says
-- only that it is one of the keys.
pub record HashOrder : Type 0 where
  pub first : List Bytes → Bytes
  pub first_contained : (k : Bytes) (ks : List Bytes) → contains (first (k ∷ ks)) (k ∷ ks) ≡ true

-- `children.begin()->second`; `none` is the undefined dereference of `end()`.
abbrev pub begin_child : HashOrder → Children → Option Node
begin_child order cs = find (order.first (keys cs)) cs

-- `ParamRange`: the text between `beg` and `end`, and what stands from `end` on.
pub record ParamRange : Type 0 where
  pub within : Bytes
  pub beyond : Bytes

-- `std::unordered_map<size_t, ParamRange>`
abbrev pub ParamIdxs : Type 0
ParamIdxs = List (ℕ × ParamRange)

unfoldable pub at_idx : ℕ → ParamIdxs → Option ParamRange
at_idx i [] = none
at_idx i ((j, r) ∷ m) = if j == i then some r else at_idx i m

-- `emplace` leaves an entry that is there.
unfoldable pub emplace : ℕ → ParamRange → ParamIdxs → ParamIdxs
emplace i r [] = (i, r) ∷ []
emplace i r ((j, q) ∷ m) = if j == i then (j, q) ∷ m else (j, q) ∷ emplace i r m

-- `if (!oas_path.empty()) oas_path.pop_back();`
unfoldable pub pop_back : Bytes → Bytes
pop_back [] = []
pop_back (x ∷ []) = []
pop_back (x ∷ y ∷ s) = x ∷ pop_back (y ∷ s)

-- What `Search` returns and writes through its references.
pub record Found : Type 0 where
  pub found : Bool
  pub oas_path : Bytes
  pub param_idxs : ParamIdxs

-- The pointers into the fragment, in a path with `after` behind its `end`.
abbrev pub range_of : Fragment → Bytes → ParamRange
range_of f after = record { within = f.dir; beyond = f.rest ++ after }

-- The loop of the second `Search`. `none` is a dereference of `end()`.
pub search_loop : HashOrder → Bytes → List Fragment → Node → Bytes → ParamIdxs → Option Found
search_loop order after [] n oas_path idxs =
    some (record { found = true; oas_path = pop_back oas_path; param_idxs = idxs })
search_loop order after (f ∷ fs) (node dir is_param frag_idx cs) oas_path idxs =
    elim (find f.dir cs) [
      | some n ↦ search_loop order after fs n (oas_path ++ (f.dir ++ codes "/")) idxs
      | none ↦ elim is_param [
        | true ↦ elim (begin_child order cs) [
          | some n ↦
              search_loop order after fs n (oas_path ++ (dir ++ codes "/"))
                (emplace frag_idx (range_of f after) idxs)
          | none ↦ none
        ]
        | false ↦ some (record { found = false; oas_path = []; param_idxs = idxs })
      ]
    ]

-- `Search(beg, end, oas_path, param_idxs)`, with `path` between the pointers.
unfoldable pub search : HashOrder → Bytes → Bytes → Node → ParamIdxs → Option Found
unfolding search_loop find keys
search order path after root idxs = search_loop order after (fragments path) root [] idxs

-- The loop of the first `Search`, which keeps no ranges.
pub search_path_loop : HashOrder → List Fragment → Node → Bytes → Option (Bool × Bytes)
search_path_loop order [] n oas_path = some (true, pop_back oas_path)
search_path_loop order (f ∷ fs) (node dir is_param frag_idx cs) oas_path = elim (find f.dir cs) [
  | some n ↦ search_path_loop order fs n (oas_path ++ (f.dir ++ codes "/"))
  | none ↦ elim is_param [
    | true ↦ elim (begin_child order cs) [
      | some n ↦ search_path_loop order fs n (oas_path ++ (dir ++ codes "/"))
      | none ↦ none
    ]
    | false ↦ some (false, [])
  ]
]

-- `Search(beg, end, oas_path)`
unfoldable pub search_path : HashOrder → Bytes → Node → Option (Bool × Bytes)
unfolding search_path_loop find keys
search_path order path root = search_path_loop order (fragments path) root []

-- `PathTrie::PathTrie()` and a trie after some calls of `Insert`.
abbrev pub root_node : Node
root_node = new_node 0

unfoldable pub insert_all : List Bytes → Node → Node
unfolding insert
insert_all [] root = root
insert_all (path ∷ paths) root = insert_all paths (insert path root)
