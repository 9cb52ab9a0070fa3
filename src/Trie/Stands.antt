-- ===== src/Trie/Stands.antt =====
-- src/utils/path_trie.cpp: the trees that stand in a memory of nodes.
use cpp_oasvalidator.Prelude.{
  ℕ, ◌+◌, ◌≤◌, ◌<◌, Bytes, equal, equal_refl, Bool-cases, List, [], ◌∷◌, Bool, none, some, ◌≡◌,
  refl, ◌∙◌, ap, arith, inl, inr,
}
use cpp_oasvalidator.Trie.{Node, Children, node, empty, child, find}
use cpp_oasvalidator.Trie.Memory.{NodeMemory, set_child}

-- How many nodes there are.
unfoldable mutual
  pub size : Node → ℕ
  size (node dir is_param frag_idx cs) = 1 + size_all cs

  pub size_all : Children → ℕ
  size_all empty = 0
  size_all (child d n cs) = size n + size_all cs

-- The tree at an address, where all its nodes have addresses from `lo` to before `hi`.
mutual
  pub data Stands (mem : NodeMemory) (lo hi : ℕ) : ℕ → Node → Type 0 where
    stands :
        (a : ℕ) (dir : Bytes) (is_param : Bool) (frag_idx : ℕ) (ptrs : List (Bytes × ℕ))
        (cs : Children)
        → lo ≤ a
        → a < hi
        → 0 < a
        → mem.cell a
          ≡ some (record { dir = dir; is_param = is_param; frag_idx = frag_idx; children = ptrs })
        → AllStand mem lo hi ptrs cs
        → Stands mem lo hi a (node dir is_param frag_idx cs)

  -- The children behind pointers, with different keys
  pub data AllStand (mem : NodeMemory) (lo hi : ℕ) : List (Bytes × ℕ) → Children → Type 0 where
    no_children : AllStand mem lo hi [] empty
    one_more :
        (key : Bytes) (b : ℕ) (n : Node) (ptrs : List (Bytes × ℕ)) (cs : Children)
        → Stands mem lo hi b n
        → AllStand mem lo hi ptrs cs
        → find key cs ≡ none
        → AllStand mem lo hi ((key, b) ∷ ptrs) (child key n cs)

-- Two memories agree on addresses.
abbrev pub SameFrom : ℕ → ℕ → NodeMemory → NodeMemory → Type 0
SameFrom lo hi mem mem' = (x : ℕ) → lo ≤ x → x < hi → mem'.cell x ≡ mem.cell x

mutual
  pub Stands-same :
      (mem mem' : NodeMemory) (lo hi lo' hi' : ℕ)
      → SameFrom lo hi mem mem'
      → lo' ≤ lo
      → hi ≤ hi'
      → (a : ℕ) (n : Node) → Stands mem lo hi a n
      → Stands mem' lo' hi' a n
  Stands-same mem mem' lo hi lo' hi' same l h a _ (stands _ dir p i ptrs cs al ah pos at all) =
      stands a dir p i ptrs cs (omega arith) (omega arith) pos (same a al ah ∙ at)
        (AllStand-same mem mem' lo hi lo' hi' same l h ptrs cs all)

  pub AllStand-same :
      (mem mem' : NodeMemory) (lo hi lo' hi' : ℕ)
      → SameFrom lo hi mem mem'
      → lo' ≤ lo
      → hi ≤ hi'
      → (ptrs : List (Bytes × ℕ)) (cs : Children) → AllStand mem lo hi ptrs cs
      → AllStand mem' lo' hi' ptrs cs
  AllStand-same mem mem' lo hi lo' hi' same l h _ _ no_children = no_children
  AllStand-same mem mem' lo hi lo' hi' same l h _ _ (one_more key b n ptrs cs one all new) =
      one_more key b n ptrs cs (Stands-same mem mem' lo hi lo' hi' same l h b n one)
        (AllStand-same mem mem' lo hi lo' hi' same l h ptrs cs all) new

-- All `children[key] = b` of a loop
unfoldable pub set_children : List (Bytes × ℕ) → List (Bytes × ℕ) → List (Bytes × ℕ)
set_children [] cur = cur
set_children ((key, b) ∷ news) cur = set_children news (set_child key b cur)

-- A key that the loop does not come to
set_children-skip :
    (mem : NodeMemory) (lo hi : ℕ) (news cur : List (Bytes × ℕ)) (cs : Children) (key : Bytes)
    (b : ℕ)
    → AllStand mem lo hi news cs
    → find key cs ≡ none
    → set_children news ((key, b) ∷ cur) ≡ (key, b) ∷ set_children news cur
unfolding set_children set_child find
set_children-skip mem lo hi _ cur _ key b no_children h = refl
set_children-skip mem lo hi _ cur _ key b (one_more k c n news cs one all new) h =
    elim (Bool-cases (equal k key)) [
      | inl e ↦ let q = rw e at h in cc
      | inr e ↦ rw e (set_children-skip mem lo hi news (set_child k c cur) cs key b all (rw e at h))
    ]

-- The loop sets all children.
pub set_children-all :
    (mem mem' : NodeMemory) (lo hi lo' hi' : ℕ) (ptrs news : List (Bytes × ℕ)) (cs : Children)
    → AllStand mem lo hi ptrs cs
    → AllStand mem' lo' hi' news cs
    → set_children news ptrs ≡ news
unfolding set_children set_child
set_children-all mem mem' lo hi lo' hi' _ _ _ no_children no_children = refl
set_children-all mem mem' lo hi lo' hi' _ _ _ (one_more k b n ptrs cs one all new)
      (one_more _ b' _ news _ one' all' new') =
    rw (equal_refl k) (
      set_children-skip mem' lo' hi' news ptrs cs k b' all' new'
      ∙ ap (◌∷◌ (k, b')) (set_children-all mem mem' lo hi lo' hi' ptrs news cs all all'))
