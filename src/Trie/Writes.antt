-- ===== src/Trie/Writes.antt =====
-- src/utils/path_trie.cpp: writes to a memory of nodes.
use cpp_oasvalidator.Prelude.{
  ℕ, ◌≤◌, ◌<◌, Bytes, Bool-cases, ==_iff, ◌==◌, false, Option, some, ◌≡◌, ◌≢◌, refl, ◌∙◌, arith,
  inl, inr,
}
use cpp_oasvalidator.Trie.Memory.{
  Cell, NodeMemory, put, allocate, with_child, Slot, root_slot, child_slot, assign,
}

pub different : (a b : ℕ) → a ≢ b → a == b ≡ false
different a b h = elim (Bool-cases (a == b)) [ inl e ↦ absurd (h ((==_iff a b).0 e)) | inr e ↦ e ]

pub put_here : (a : ℕ) (c : Option Cell) (mem : NodeMemory) → (put a c mem).cell a ≡ c
unfolding put
put_here a c mem = rw ((==_iff a a).1 refl) refl

pub put_elsewhere :
    (a : ℕ) (c : Option Cell) (mem : NodeMemory) (x : ℕ) → x ≢ a → (put a c mem).cell x ≡ mem.cell x
unfolding put
put_elsewhere a c mem x h = rw (different x a h) refl

-- The slot is no node, or a node that is there and not between `lo` and `hi`.
abbrev pub IsOutside : Slot → ℕ → NodeMemory → Type 0
IsOutside root_slot hi mem = Unit {0}
IsOutside (child_slot w key) hi mem = (hi ≤ w) × (w < mem.next)

pub assign-next : (slot : Slot) (b : ℕ) (mem : NodeMemory) → (assign slot b mem).next ≡ mem.next
unfolding assign put
assign-next root_slot b mem = refl
assign-next (child_slot w key) b mem = refl

-- The write of a pointer into a node
pub assign-child :
    (w : ℕ) (key : Bytes) (b : ℕ) (mem : NodeMemory) (c : Cell)
    → mem.cell w ≡ some c
    → (assign (child_slot w key) b mem).cell w ≡ some (with_child key b c)
unfolding assign
assign-child w key b mem c e = put_here w _ mem ∙ rw e refl

pub assign_child-other :
    (w : ℕ) (key : Bytes) (b : ℕ) (mem : NodeMemory) (x : ℕ)
    → x ≢ w
    → (assign (child_slot w key) b mem).cell x ≡ mem.cell x
unfolding assign
assign_child-other w key b mem x h = put_elsewhere w _ mem x h

pub assign-elsewhere :
    (slot : Slot) (hi b : ℕ) (mem : NodeMemory) (x : ℕ)
    → IsOutside slot hi mem
    → x < hi
    → (assign slot b mem).cell x ≡ mem.cell x
unfolding assign
assign-elsewhere root_slot hi b mem x o h = refl
assign-elsewhere (child_slot w key) hi b mem x (l, u) h =
    assign_child-other w key b mem x (λ q. omega arith)

-- Behind `new Node(…)` and `thisNode = …`
abbrev pub placed : Slot → Cell → NodeMemory → NodeMemory
placed slot c mem = assign slot mem.next (allocate c mem)

pub allocate-elsewhere :
    (c : Cell) (mem : NodeMemory) (x : ℕ) → x < mem.next → (allocate c mem).cell x ≡ mem.cell x
allocate-elsewhere c mem x h = put_elsewhere mem.next (some c) mem x (λ q. omega arith)

-- Neither write sees the other.
pub placed_before :
    (slot : Slot) (c : Cell) (mem : NodeMemory) (x : ℕ)
    → x < mem.next
    → (placed slot c mem).cell x ≡ (assign slot mem.next mem).cell x
unfolding assign put
placed_before root_slot c mem x h = rw (different x mem.next (λ q. omega arith)) refl
placed_before (child_slot w key) c mem x h = elim (Bool-cases (x == w)) [
  | inl e ↦ let q : x ≡ w = (==_iff x w).0 e in rw (e, different w mem.next (λ p. omega arith)) refl
  | inr e ↦ rw (e, different x mem.next (λ q. omega arith)) refl
]

IsOutside-allocate :
    (slot : Slot) (hi : ℕ) (c : Cell) (mem : NodeMemory)
    → IsOutside slot hi mem
    → IsOutside slot hi (allocate c mem)
IsOutside-allocate root_slot hi c mem o = o
IsOutside-allocate (child_slot w key) hi c mem (l, u) = (l, omega arith)

pub placed-here :
    (slot : Slot) (hi : ℕ) (c : Cell) (mem : NodeMemory)
    → IsOutside slot hi mem
    → (placed slot c mem).cell mem.next ≡ some c
unfolding assign
placed-here root_slot hi c mem o = put_here mem.next (some c) mem
placed-here (child_slot w key) hi c mem (l, u) =
    assign_child-other w key mem.next (allocate c mem) mem.next (λ q. omega arith)
    ∙ put_here mem.next (some c) mem

pub placed-old :
    (slot : Slot) (hi : ℕ) (c : Cell) (mem : NodeMemory) (x : ℕ)
    → IsOutside slot hi mem
    → x < hi
    → x < mem.next
    → (placed slot c mem).cell x ≡ mem.cell x
placed-old slot hi c mem x o h k =
    assign-elsewhere slot hi mem.next (allocate c mem) x (IsOutside-allocate slot hi c mem o) h
    ∙ allocate-elsewhere c mem x k
