-- ===== src/Trie/Packed.antt =====
-- src/utils/path_trie.cpp: trees whose nodes fill the addresses from one to another, as the new
-- nodes of `CopyNode` do.
use cpp_oasvalidator.Prelude.{
  ℕ, ◌+◌, ◌≤◌, ◌<◌, Bytes, Bool, List, [], ◌∷◌, none, some, ◌≡◌, refl, ◌∙◌, arith,
}
use cpp_oasvalidator.Trie.{Node, Children, node, empty, child, find}
use cpp_oasvalidator.Trie.Memory.{NodeMemory}
use cpp_oasvalidator.Trie.Stands.{
  Stands, stands, AllStand, no_children, one_more, SameFrom, Stands-same, AllStand-same,
}

-- The tree at `lo`; its nodes have all addresses from there to before `hi`, each once.
mutual
  pub data Packed (mem : NodeMemory) : ℕ → ℕ → Node → Type 0 where
    packed :
        (lo hi : ℕ) (dir : Bytes) (is_param : Bool) (frag_idx : ℕ) (ptrs : List (Bytes × ℕ))
        (cs : Children)
        → 0 < lo
        → mem.cell lo
          ≡ some (record { dir = dir; is_param = is_param; frag_idx = frag_idx; children = ptrs })
        → AllPacked mem (lo + 1) hi ptrs cs
        → Packed mem lo hi (node dir is_param frag_idx cs)

  pub data AllPacked (mem : NodeMemory) : ℕ → ℕ → List (Bytes × ℕ) → Children → Type 0 where
    packed_end : (lo : ℕ) → AllPacked mem lo lo [] empty
    packed_more :
        (lo mid hi : ℕ) (key : Bytes) (n : Node) (ptrs : List (Bytes × ℕ)) (cs : Children)
        → Packed mem lo mid n
        → AllPacked mem mid hi ptrs cs
        → find key cs ≡ none
        → AllPacked mem lo hi ((key, lo) ∷ ptrs) (child key n cs)

mutual
  pub Packed-bounds : (mem : NodeMemory) (lo hi : ℕ) (n : Node) → Packed mem lo hi n → lo < hi
  Packed-bounds mem _ _ _ (packed lo hi dir p i ptrs cs pos at all) =
      let h = AllPacked-bounds mem (lo + 1) hi ptrs cs all in omega arith

  pub AllPacked-bounds :
      (mem : NodeMemory) (lo hi : ℕ) (ptrs : List (Bytes × ℕ)) (cs : Children)
      → AllPacked mem lo hi ptrs cs
      → lo ≤ hi
  AllPacked-bounds mem _ _ _ _ (packed_end lo) = omega arith
  AllPacked-bounds mem _ _ _ _ (packed_more lo mid hi key n ptrs cs one all new) =
      let h = Packed-bounds mem lo mid n one in
      let k = AllPacked-bounds mem mid hi ptrs cs all in omega arith

mutual
  pub Packed-same :
      (mem mem' : NodeMemory) (lo hi : ℕ) (n : Node)
      → SameFrom lo hi mem mem'
      → Packed mem lo hi n
      → Packed mem' lo hi n
  Packed-same mem mem' _ _ _ same (packed lo hi dir p i ptrs cs pos at all) =
      let h = AllPacked-bounds mem (lo + 1) hi ptrs cs all in
      packed lo hi dir p i ptrs cs pos (same lo (omega arith) (omega arith) ∙ at)
        (AllPacked-same mem mem' (lo + 1) hi ptrs cs (λ x l u. same x (omega arith) u) all)

  pub AllPacked-same :
      (mem mem' : NodeMemory) (lo hi : ℕ) (ptrs : List (Bytes × ℕ)) (cs : Children)
      → SameFrom lo hi mem mem'
      → AllPacked mem lo hi ptrs cs
      → AllPacked mem' lo hi ptrs cs
  AllPacked-same mem mem' _ _ _ _ same (packed_end lo) = packed_end lo
  AllPacked-same mem mem' _ _ _ _ same (packed_more lo mid hi key n ptrs cs one all new) =
      let h = Packed-bounds mem lo mid n one in
      let k = AllPacked-bounds mem mid hi ptrs cs all in
      packed_more lo mid hi key n ptrs cs
        (Packed-same mem mem' lo mid n (λ x l u. same x l (omega arith)) one)
        (AllPacked-same mem mem' mid hi ptrs cs (λ x l u. same x (omega arith) u) all) new

mutual
  pub Packed-Stands :
      (mem : NodeMemory) (lo hi : ℕ) (n : Node) → Packed mem lo hi n → Stands mem lo hi lo n
  Packed-Stands mem _ _ _ (packed lo hi dir p i ptrs cs pos at all) =
      let h = AllPacked-bounds mem (lo + 1) hi ptrs cs all in
      stands lo dir p i ptrs cs (omega arith) (omega arith) pos at (
        AllStand-same mem mem (lo + 1) hi lo hi (λ x l u. refl) (omega arith) (omega arith) ptrs cs
          (AllPacked-AllStand mem (lo + 1) hi ptrs cs all))

  pub AllPacked-AllStand :
      (mem : NodeMemory) (lo hi : ℕ) (ptrs : List (Bytes × ℕ)) (cs : Children)
      → AllPacked mem lo hi ptrs cs
      → AllStand mem lo hi ptrs cs
  AllPacked-AllStand mem _ _ _ _ (packed_end lo) = no_children
  AllPacked-AllStand mem _ _ _ _ (packed_more lo mid hi key n ptrs cs one all new) =
      let h = Packed-bounds mem lo mid n one in
      let k = AllPacked-bounds mem mid hi ptrs cs all in
      one_more key lo n ptrs cs
        (Stands-same mem mem lo mid lo hi (λ x l u. refl) (omega arith) k lo n
          (Packed-Stands mem lo mid n one))
        (AllStand-same mem mem mid hi lo hi (λ x l u. refl) (omega arith) (omega arith) ptrs cs
          (AllPacked-AllStand mem mid hi ptrs cs all))
        new
