-- ===== src/Trie/Copy.antt =====
-- src/utils/path_trie.cpp: what a copied trie is.
use cpp_oasvalidator.Prelude.{
  ℕ, zero, suc, ◌+◌, ◌≤◌, ◌<◌, Bytes, List, [], ◌∷◌, some, ◌≡◌, ◌≢◌, refl, ◌∙◌, ap, arith,
}
use mathlib.Core.Path.{subst}
use cpp_oasvalidator.Common.{Result, ok}
use cpp_oasvalidator.Trie.{Node, Children, node}
use cpp_oasvalidator.Trie.Memory.{
  Cell, NodeMemory, allocate, with_child, Slot, root_slot, child_slot, assign, copy_children,
  copy_node, copy_trie,
}
use cpp_oasvalidator.Trie.Stands.{
  size, size_all, Stands, stands, AllStand, no_children, one_more, SameFrom, Stands-same,
  AllStand-same, set_children, set_children-all,
}
use cpp_oasvalidator.Trie.Packed.{
  Packed, packed, AllPacked, packed_end, packed_more, Packed-same, Packed-Stands,
  AllPacked-AllStand,
}
use cpp_oasvalidator.Trie.Writes.{
  different, put_here, IsOutside, assign-next, assign-child, assign_child-other, placed,
  allocate-elsewhere, placed_before, placed-here, placed-old,
}

-- What `CopyNode` does with trees of which `fuel` is enough.
abbrev Copies : ℕ → Type 0
Copies fuel =
    (slot : Slot) (mem : NodeMemory) (lo hi a : ℕ) (n : Node)
    → Stands mem lo hi a n
    → hi ≤ mem.next
    → size n ≤ fuel
    → IsOutside slot hi mem
    → (mem' : NodeMemory) × (copy_node fuel slot a mem ≡ ok mem')
      × (mem.next < mem'.next)
      × SameFrom 0 mem.next (assign slot mem.next mem) mem'
      × Packed mem' mem.next mem'.next n

copy_children-next :
    (copy : Slot → ℕ → NodeMemory → Result NodeMemory) (this b : ℕ) (key : Bytes)
    (ptrs : List (Bytes × ℕ)) (mem mem' : NodeMemory)
    → copy (child_slot this key) b mem ≡ ok mem'
    → copy_children copy this ((key, b) ∷ ptrs) mem ≡ copy_children copy this ptrs mem'
unfolding copy_children
copy_children-next copy this b key ptrs mem mem' e = rw (copy_children, e) refl

copy_children-all :
    (fuel : ℕ)
    → Copies fuel
    → (w lo hi : ℕ) (ptrs : List (Bytes × ℕ)) (cs : Children) (mem : NodeMemory) (c : Cell)
    → AllStand mem lo hi ptrs cs
    → hi ≤ w
    → w < mem.next
    → size_all cs ≤ fuel
    → mem.cell w ≡ some c
    → (mem' : NodeMemory) × (news : List (Bytes × ℕ)) × (copy_children (copy_node fuel) w ptrs mem
        ≡ ok mem')
      × (mem.next ≤ mem'.next)
      × ((x : ℕ) → x < mem.next → x ≢ w → mem'.cell x ≡ mem.cell x)
      × (mem'.cell w ≡ some (record c { children = set_children news c.children }))
      × AllPacked mem' mem.next mem'.next news cs
unfolding copy_children set_children size
copy_children-all fuel copies w lo hi [] _ mem c no_children l u f e =
    (mem, [], refl, omega arith, λ x h k. refl, e, packed_end mem.next)
copy_children-all fuel copies w lo hi ((key, b) ∷ ptrs) _ mem c (one_more _ _ n _ cs one all new) l
      u f e =
    let slot = child_slot w key in
    let (made, copied, more, same, stood) =
      copies slot mem lo hi b n one (omega arith) (omega arith) (l, u) in
    let at = same w (omega arith) u ∙ assign-child w key mem.next mem c e in
    let kept : (x : ℕ) → x < mem.next → x ≢ w → made.cell x ≡ mem.cell x =
      (λ x h k. same x (omega arith) h ∙ assign_child-other w key mem.next mem x k) in
    let all' =
      AllStand-same mem made lo hi lo hi (λ x h k. kept x (omega arith) (λ q. omega arith))
        (omega arith) (omega arith) ptrs cs all in
    let (mem', news, looped, grown, rest, final, stood') =
      copy_children-all fuel copies w lo hi ptrs cs made (with_child key mem.next c) all' l
        (omega arith) (omega arith) at in
    (
      mem',
      (key, mem.next) ∷ news,
      copy_children-next (copy_node fuel) w b key ptrs mem made copied ∙ looped,
      omega arith,
      λ x h k. rest x (omega arith) k ∙ kept x h k,
      final,
      packed_more mem.next made.next mem'.next key n news cs
          (Packed-same made mem' mem.next made.next n (λ x h k. rest x k (λ q. omega arith)) stood)
          stood' new,
    )

copy_node-found :
    (fuel : ℕ) (slot : Slot) (a : ℕ) (mem : NodeMemory) (c : Cell)
    → 0 < a
    → mem.cell a ≡ some c
    → copy_node (suc fuel) slot a mem
      ≡ copy_children (copy_node fuel) mem.next c.children (placed slot c mem)
unfolding copy_node
copy_node-found fuel slot a mem c h e = rw (copy_node, different a 0 (λ q. omega arith)) (rw e refl)

copy_node-Copies : (fuel : ℕ) → Copies fuel
unfolding size
copy_node-Copies zero slot mem lo hi a (node dir p i cs) one h f o = absurd (omega arith)
copy_node-Copies (suc fuel) slot mem lo hi a _ (stands _ dir p i ptrs cs al ah pos at all) h f o =
    let c : Cell = record { dir = dir; is_param = p; frag_idx = i; children = ptrs } in
    let made = placed slot c mem in
    let nexts : made.next ≡ mem.next + 1 = assign-next slot mem.next (allocate c mem) in
    let here = placed-here slot hi c mem o in
    let all' =
      AllStand-same mem made lo hi lo hi (λ x l u. placed-old slot hi c mem x o u (omega arith))
        (omega arith) (omega arith) ptrs cs all in
    let (mem', news, looped, grown, rest, final, stood) =
      copy_children-all fuel (copy_node-Copies fuel) mem.next lo hi ptrs cs made c all' h
        (omega arith) (omega arith) here in
    (
      mem',
      copy_node-found fuel slot a mem c pos at ∙ looped,
      omega arith,
      λ x l u. rest x (omega arith) (λ q. omega arith) ∙ placed_before slot c mem x u,
      packed mem.next mem'.next dir p i news cs (omega arith)
          (final
            ∙ ap (λ l. some (record c { children = l }))
                (set_children-all made mem' lo hi made.next mem'.next ptrs news cs all'
                  (AllPacked-AllStand mem' made.next mem'.next news cs stood)))
          (subst (λ l. AllPacked mem' l mem'.next news cs) nexts stood),
    )

copy_trie-found :
    (fuel root : ℕ) (mem mem' : NodeMemory) (c : Cell)
    → 0 < root
    → mem.cell root ≡ some c
    → copy_node fuel root_slot root (allocate c mem) ≡ ok mem'
    → copy_trie fuel root mem ≡ ok (mem.next + 1, mem')
unfolding copy_trie
copy_trie-found fuel root mem mem' c h e f =
    rw (copy_trie, different root 0 (λ q. omega arith)) (rw (e, f) refl)

root_slot-same :
    (mem mem' : NodeMemory)
    → SameFrom 0 mem.next (assign root_slot mem.next mem) mem'
    → SameFrom 0 mem.next mem mem'
unfolding assign
root_slot-same mem mem' same = same

pub copy_trie-Packed :
    (mem : NodeMemory) (fuel root : ℕ) (n : Node)
    → Stands mem 0 mem.next root n
    → size n ≤ fuel
    → (mem' : NodeMemory) × (c : Cell) × (copy_trie fuel root mem ≡ ok (mem.next + 1, mem'))
      × Packed mem' (mem.next + 1) mem'.next n
      × SameFrom 0 mem.next mem mem'
      × (mem'.cell mem.next ≡ some c)
copy_trie-Packed mem fuel root _ (stands _ dir p i ptrs cs al ah pos at all) f =
    let c : Cell = record { dir = dir; is_param = p; frag_idx = i; children = ptrs } in
    let made = allocate c mem in
    let one = stands root dir p i ptrs cs al ah pos at all in
    let kept =
      Stands-same mem made 0 mem.next 0 mem.next (λ x l u. allocate-elsewhere c mem x u)
        (omega arith) (omega arith) root (node dir p i cs) one in
    let (mem', copied, more, same, stood) =
      copy_node-Copies fuel root_slot made 0 mem.next root (node dir p i cs) kept (omega arith) f
        tt in
    let old = root_slot-same made mem' same in
    (
      mem',
      c,
      copy_trie-found fuel root mem mem' c pos at copied,
      stood,
      λ x l u. old x l (omega arith) ∙ allocate-elsewhere c mem x u,
      old mem.next (omega arith) (omega arith) ∙ put_here mem.next (some c) mem,
    )

-- Let a tree stand at `root`, in nodes that have been made, each node with different keys, and let
-- the fuel be at least the number of its nodes. Then the copy constructor returns a pointer at which
-- the same tree stands, in new nodes, and the old tree stands where it stood.
pub copy_trie-Stands :
    (mem : NodeMemory) (fuel root : ℕ) (n : Node)
    → Stands mem 0 mem.next root n
    → size n ≤ fuel
    → (root' : ℕ) × (mem' : NodeMemory) × (copy_trie fuel root mem ≡ ok (root', mem'))
      × Stands mem' (mem.next + 1) mem'.next root' n
      × Stands mem' 0 mem.next root n
copy_trie-Stands mem fuel root n one f =
    let (mem', c, copied, stood, same, left) = copy_trie-Packed mem fuel root n one f in
    (
      mem.next + 1,
      mem',
      copied,
      Packed-Stands mem' (mem.next + 1) mem'.next n stood,
      Stands-same mem mem' 0 mem.next 0 mem.next same (omega arith) (omega arith) root n one,
    )
