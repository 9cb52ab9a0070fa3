-- ===== src/Tests/Nodes.antt =====
-- A trie with one path in a memory of nodes.
use cpp_oasvalidator.Prelude.{
  ℕ, ◌+◌, ◌<◌, codes, ◌==◌, [], ◌∷◌, true, false, none, some, ◌≡◌, refl, arith,
}
use cpp_oasvalidator.Common.{ok}
use cpp_oasvalidator.Trie.{Node, node, empty, child, find}
use cpp_oasvalidator.Trie.Memory.{Cell, NodeMemory, copy_trie, destroy_trie}
use cpp_oasvalidator.Trie.Stands.{size, Stands, stands, no_children, one_more}
use cpp_oasvalidator.Trie.Copy.{copy_trie-Stands}
use cpp_oasvalidator.Trie.Delete.{destroy_trie-copy_trie}

abbrev leaf : Node
leaf = node [] false 1 empty

abbrev pets : Node
pets = node [] false 0 (child (codes "pets") leaf empty)

-- The root at 1 and its child at 2
abbrev two_nodes : NodeMemory
two_nodes = record {
  next = 3;
  cell = λ x. elim (x == 1) [
    | true ↦
        some
          (record { dir = []; is_param = false; frag_idx = 0; children = (codes "pets", 2) ∷ [] })
    | false ↦ some (record { dir = []; is_param = false; frag_idx = 1; children = [] })
  ];
}

pets-Stands : Stands two_nodes 0 3 1 pets
unfolding find
pets-Stands =
    stands 1 [] false 0 ((codes "pets", 2) ∷ []) (child (codes "pets") leaf empty) (omega arith)
      (omega arith) (omega arith) refl
      (one_more (codes "pets") 2 leaf [] empty
        (stands 2 [] false 1 [] empty (omega arith) (omega arith) (omega arith) refl no_children)
        no_children refl)

size-pets : size pets ≡ 2
unfolding size
size-pets = refl

copy_trie-Stands_example :
    (root' : ℕ) × (mem' : NodeMemory) × (copy_trie 2 1 two_nodes ≡ ok (root', mem'))
    × Stands mem' (two_nodes.next + 1) mem'.next root' pets
    × Stands mem' 0 two_nodes.next 1 pets
copy_trie-Stands_example =
    copy_trie-Stands two_nodes 2 1 pets pets-Stands (omega (arith, size-pets))

destroy_trie-copy_trie_example :
    (root' : ℕ) × (mem' mem'' : NodeMemory) × (c : Cell) × (copy_trie 2 1 two_nodes
      ≡ ok (root', mem'))
    × (destroy_trie 2 root' mem' ≡ ok mem'')
    × ((x : ℕ) → x < two_nodes.next → mem''.cell x ≡ two_nodes.cell x)
    × (mem''.cell two_nodes.next ≡ some c)
    × ((x : ℕ) → two_nodes.next < x → x < mem'.next → mem''.cell x ≡ none)
destroy_trie-copy_trie_example =
    destroy_trie-copy_trie two_nodes 2 1 pets pets-Stands (omega (arith, size-pets))
