-- ===== src/Trie/Delete.antt =====
-- src/utils/path_trie.cpp: `DeleteNode` of a copied trie.
use cpp_oasvalidator.Prelude.{
  ℕ, zero, suc, ◌+◌, ◌≤◌, ◌<◌, Bytes, Bool-cases, ==_iff, List, [], ◌∷◌, ◌==◌, ltb, none, some, ◌≡◌,
  ◌≢◌, ◌⊎◌, refl, ◌∙◌, arith, inl, inr,
}
use cpp_oasvalidator.Common.{Result, ok}
use cpp_oasvalidator.Trie.{Node, Children, node}
use cpp_oasvalidator.Trie.Memory.{
  Cell, NodeMemory, put, delete_children, delete_node, copy_trie, destroy_trie,
}
use cpp_oasvalidator.Trie.Stands.{size, size_all, Stands}
use cpp_oasvalidator.Trie.Packed.{
  Packed, packed, AllPacked, packed_end, packed_more, Packed-bounds, AllPacked-bounds,
  AllPacked-same,
}
use cpp_oasvalidator.Trie.Writes.{put_here, put_elsewhere}
use cpp_oasvalidator.Trie.Copy.{copy_trie-Packed}

-- The nodes from `lo` to before `hi` are gone, and no other has changed.
abbrev Cleared : ℕ → ℕ → NodeMemory → NodeMemory → Type 0
Cleared lo hi mem mem' =
    ((x : ℕ) → lo ≤ x → x < hi → mem'.cell x ≡ none)
    × ((x : ℕ) → (x < lo) ⊎ (hi ≤ x) → mem'.cell x ≡ mem.cell x)

-- What `DeleteNode` does with trees of which `fuel` is enough.
abbrev Deletes : ℕ → Type 0
Deletes fuel =
    (mem : NodeMemory) (lo hi : ℕ) (n : Node)
    → Packed mem lo hi n
    → size n ≤ fuel
    → (mem' : NodeMemory) × (delete_node fuel lo mem ≡ ok mem') × Cleared lo hi mem mem'

delete_children-next :
    (delete : ℕ → NodeMemory → Result NodeMemory) (b : ℕ) (key : Bytes) (ptrs : List (Bytes × ℕ))
    (mem mem' : NodeMemory)
    → delete b mem ≡ ok mem'
    → delete_children delete ((key, b) ∷ ptrs) mem ≡ delete_children delete ptrs mem'
unfolding delete_children
delete_children-next delete b key ptrs mem mem' e = rw (delete_children, e) refl

decide_lt : (a b : ℕ) → (a < b) ⊎ (b ≤ a)
decide_lt a b = elim (Bool-cases (ltb a b)) [
  | inl e ↦ inl (ground arith)
  | inr e ↦ inr (ground arith)
]

-- Two stretches next to each other
Cleared-both :
    (lo mid hi : ℕ) (mem made mem' : NodeMemory)
    → lo ≤ mid
    → mid ≤ hi
    → Cleared lo mid mem made
    → Cleared mid hi made mem'
    → Cleared lo hi mem mem'
Cleared-both lo mid hi mem made mem' h k (gone, same) (gone', same') = (
  λ x l u. elim (decide_lt x mid) [ inl b ↦ same' x (inl b) ∙ gone x l b | inr b ↦ gone' x b u ],
  λ x o. elim o [
    | inl b ↦ same' x (inl (omega arith)) ∙ same x (inl b)
    | inr b ↦ same' x (inr b) ∙ same x (inr (omega arith))
  ],
)

delete_children-Cleared :
    (fuel : ℕ)
    → Deletes fuel
    → (lo hi : ℕ) (ptrs : List (Bytes × ℕ)) (cs : Children) (mem : NodeMemory)
    → AllPacked mem lo hi ptrs cs
    → size_all cs ≤ fuel
    → (mem' : NodeMemory) × (delete_children (delete_node fuel) ptrs mem ≡ ok mem')
      × Cleared lo hi mem mem'
unfolding delete_children size
delete_children-Cleared fuel deletes _ _ [] _ mem (packed_end lo) f =
    (mem, refl, (λ x l u. absurd (omega arith), λ x o. refl))
delete_children-Cleared fuel deletes _ _ (_ ∷ ptrs) _ mem
      (packed_more lo mid hi key n _ cs one all new) f =
    let h = Packed-bounds mem lo mid n one in
    let k = AllPacked-bounds mem mid hi ptrs cs all in
    let (made, deleted, cleared) = deletes mem lo mid n one (omega arith) in
    let all' = AllPacked-same mem made mid hi ptrs cs (λ x l u. cleared.1 x (inr l)) all in
    let (mem', looped, cleared') =
      delete_children-Cleared fuel deletes mid hi ptrs cs made all' (omega arith) in
    (
      mem',
      delete_children-next (delete_node fuel) lo key ptrs mem made deleted ∙ looped,
      Cleared-both lo mid hi mem made mem' (omega arith) k cleared cleared',
    )

delete_node-found :
    (fuel a : ℕ) (mem mem' : NodeMemory) (c : Cell)
    → mem.cell a ≡ some c
    → delete_children (delete_node fuel) c.children mem ≡ ok mem'
    → delete_node (suc fuel) a mem ≡ ok (put a none mem')
unfolding delete_node
delete_node-found fuel a mem mem' c e f = rw (delete_node, e) (rw f refl)

-- `delete node`, behind its children
Cleared-root :
    (lo hi : ℕ) (mem mem' : NodeMemory)
    → lo < hi
    → Cleared (lo + 1) hi mem mem'
    → Cleared lo hi mem (put lo none mem')
Cleared-root lo hi mem mem' h (gone, same) = (
  λ x l u. elim (Bool-cases (x == lo)) [
    | inl e ↦ let q : x ≡ lo = (==_iff x lo).0 e in rw q (put_here lo none mem')
    | inr e ↦
        let q : x ≢ lo = (λ p. let t = (==_iff x lo).1 p in cc) in
        put_elsewhere lo none mem' x q ∙ gone x (omega arith) u
  ],
  λ x o. elim o [
    | inl b ↦ put_elsewhere lo none mem' x (λ q. omega arith) ∙ same x (inl (omega arith))
    | inr b ↦ put_elsewhere lo none mem' x (λ q. omega arith) ∙ same x (inr b)
  ],
)

delete_node-Deletes : (fuel : ℕ) → Deletes fuel
unfolding size
delete_node-Deletes zero mem lo hi (node dir p i cs) one f = absurd (omega arith)
delete_node-Deletes (suc fuel) mem _ _ _ (packed lo hi dir p i ptrs cs pos at all) f =
    let h = AllPacked-bounds mem (lo + 1) hi ptrs cs all in
    let (mem', looped, cleared) =
      delete_children-Cleared fuel (delete_node-Deletes fuel) (lo + 1) hi ptrs cs mem all
        (omega arith) in
    (
      put lo none mem',
      delete_node-found fuel lo mem mem' _ at looped,
      Cleared-root lo hi mem mem' (omega arith) cleared,
    )

-- Let a tree stand at `root`, in nodes that have been made, and let the fuel be at least the number
-- of its nodes. Then the copy constructor and the destructor of the copy return, and leave each node
-- that was there as it was, and no new one: but the one at the next address, the first that the
-- copy constructor makes, stays.
pub destroy_trie-copy_trie :
    (mem : NodeMemory) (fuel root : ℕ) (n : Node)
    → Stands mem 0 mem.next root n
    → size n ≤ fuel
    → (root' : ℕ) × (mem' mem'' : NodeMemory) × (c : Cell) × (copy_trie fuel root mem
        ≡ ok (root', mem'))
      × (destroy_trie fuel root' mem' ≡ ok mem'')
      × ((x : ℕ) → x < mem.next → mem''.cell x ≡ mem.cell x)
      × (mem''.cell mem.next ≡ some c)
      × ((x : ℕ) → mem.next < x → x < mem'.next → mem''.cell x ≡ none)
destroy_trie-copy_trie mem fuel root n one f =
    let (mem', c, copied, stood, same, left) = copy_trie-Packed mem fuel root n one f in
    let (mem'', deleted, cleared) =
      delete_node-Deletes fuel mem' (mem.next + 1) mem'.next n stood f in
    (
      mem.next + 1,
      mem',
      mem'',
      c,
      copied,
      deleted,
      λ x h. cleared.1 x (inl (omega arith)) ∙ same x (omega arith) h,
      cleared.1 mem.next (inl (omega arith)) ∙ left,
      λ x h u. cleared.0 x (omega arith) u,
    )
