-- ===== src/Trie/Memory.antt =====
-- src/utils/path_trie.cpp: the copy constructor, `operator=`, `CopyNode`, `DeleteNode` and the
-- destructor of `PathTrie`, on a memory of nodes. The address 0 is the null pointer.
use cpp_oasvalidator.Prelude.{
  ℕ, zero, suc, ◌+◌, Bytes, equal, List, [], ◌∷◌, ◌==◌, if◌then◌else◌, Bool, true, false, Option,
  none, some,
}
use cpp_oasvalidator.Common.{undefined_behaviour, Result, ok, throw, out_of_fuel, ◌>>=◌}

-- A `PathTrie::Node` in memory, whose children are pointers.
pub record Cell : Type 0 where
  pub dir : Bytes
  pub is_param : Bool
  pub frag_idx : ℕ
  pub children : List (Bytes × ℕ)

-- What `new` has made and `delete` has not taken away; `next` is the address that comes next.
pub record NodeMemory : Type 0 where
  pub next : ℕ
  pub cell : ℕ → Option Cell

-- What stands at an address from now on.
unfoldable pub put : ℕ → Option Cell → NodeMemory → NodeMemory
put a c mem = record mem { cell = λ x. if x == a then c else mem.cell x }

-- `new Node(…)`; the node is at `mem.next`.
abbrev pub allocate : Cell → NodeMemory → NodeMemory
allocate c mem = record (put mem.next (some c) mem) { next = mem.next + 1 }

-- `children[key] = b`
unfoldable pub set_child : Bytes → ℕ → List (Bytes × ℕ) → List (Bytes × ℕ)
set_child key b [] = (key, b) ∷ []
set_child key b ((d, a) ∷ ptrs) =
    if equal key d then (d, b) ∷ ptrs else (d, a) ∷ set_child key b ptrs

abbrev pub with_child : Bytes → ℕ → Cell → Cell
with_child key b c = record c { children = set_child key b c.children }

-- The pointer that `thisNode` refers to: `root_`, or `children[key]` of the node at an address.
pub data Slot : Type 0 where
  root_slot : Slot
  child_slot : ℕ → Bytes → Slot

-- `thisNode = …`; a pointer `root_` is not in the memory of nodes.
unfoldable pub assign : Slot → ℕ → NodeMemory → NodeMemory
assign root_slot b mem = mem
assign (child_slot w key) b mem =
    put w (elim (mem.cell w) [ some c ↦ some (with_child key b c) | none ↦ none ]) mem

-- The loop of `CopyNode`; `copy` is the nested call.
unfoldable pub copy_children :
    (Slot → ℕ → NodeMemory → Result NodeMemory)
    → ℕ
    → List (Bytes × ℕ)
    → NodeMemory
    → Result NodeMemory
copy_children copy this [] mem = ok mem
copy_children copy this ((key, b) ∷ ptrs) mem =
    copy (child_slot this key) b mem >>= copy_children copy this ptrs

-- `CopyNode`, with fuel for the nested calls
unfoldable pub copy_node : ℕ → Slot → ℕ → NodeMemory → Result NodeMemory
unfolding copy_children
copy_node zero slot other mem = out_of_fuel
copy_node (suc fuel) slot other mem = elim (other == 0) [
  | true ↦ ok mem
  | false ↦ elim (mem.cell other) [
    | none ↦ throw undefined_behaviour
    | some c ↦
        copy_children (copy_node fuel) mem.next c.children (assign slot mem.next (allocate c mem))
  ]
]

-- `PathTrie(const PathTrie& other)`: the new `root_`. `CopyNode` overwrites the first node's address.
unfoldable pub copy_trie : ℕ → ℕ → NodeMemory → Result (ℕ × NodeMemory)
copy_trie fuel other mem = elim (other == 0) [
  | true ↦ ok (0, mem)
  | false ↦ elim (mem.cell other) [
    | none ↦ throw undefined_behaviour
    | some c ↦
        let made = allocate c mem in
        copy_node fuel root_slot other made >>= λ mem'. ok (made.next, mem')
  ]
]

-- The loop of `DeleteNode`; `delete` is the nested call.
unfoldable pub delete_children :
    (ℕ → NodeMemory → Result NodeMemory) → List (Bytes × ℕ) → NodeMemory → Result NodeMemory
delete_children delete [] mem = ok mem
delete_children delete ((key, b) ∷ ptrs) mem = delete b mem >>= delete_children delete ptrs

-- `DeleteNode`, with fuel for the nested calls
unfoldable pub delete_node : ℕ → ℕ → NodeMemory → Result NodeMemory
unfolding delete_children
delete_node zero a mem = out_of_fuel
delete_node (suc fuel) a mem = elim (mem.cell a) [
  | none ↦ throw undefined_behaviour
  | some c ↦ delete_children (delete_node fuel) c.children mem >>= λ mem'. ok (put a none mem')
]

-- `operator=`: the new `root_`. The flag says whether both are one object.
unfoldable pub assign_trie : ℕ → Bool → ℕ → ℕ → NodeMemory → Result (ℕ × NodeMemory)
assign_trie fuel true root other mem = ok (root, mem)
assign_trie fuel false root other mem = delete_node fuel root mem >>= copy_trie fuel other

-- `~PathTrie`
abbrev pub destroy_trie : ℕ → ℕ → NodeMemory → Result NodeMemory
destroy_trie fuel root mem = delete_node fuel root mem
