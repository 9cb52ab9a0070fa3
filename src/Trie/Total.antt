-- ===== src/Trie/Total.antt =====
-- `Search` on a well-formed trie: no dereference of `end()`, and the two overloads agree.
use cpp_oasvalidator.Prelude.{
  ℕ, ◌+◌, Bytes, List, [], ◌∷◌, Bool, true, false, ◌≡◌, refl, Option, none, some,
}
use cpp_oasvalidator.Common.Fragments.{Fragment, fragments}
use cpp_oasvalidator.Trie.{
  Node, node, find, HashOrder, begin_child, ParamIdxs, Found, search_loop, search, search_path_loop,
  search_path, insert_all, root_node,
}
use cpp_oasvalidator.Trie.Shape.{IsWellFormed, insert_all-IsWellFormed, root_node-IsWellFormed}
use cpp_oasvalidator.Trie.Round.{
  literal, param, stop, Round-cases, search_literal, search_param, search_stop,
}

module _ (order : HashOrder) (after : Bytes) where
  search_loop_total :
      (fs : List Fragment) (depth : ℕ) (n : Node) (p : Bytes) (m : ParamIdxs)
      → IsWellFormed depth n
      → (r : Found) × (search_loop order after fs n p m ≡ some r)
  search_loop_total [] depth n p m w = unfold search_loop in (_, refl)
  search_loop_total (f ∷ fs) depth (node dir q x cs) p m w = elim (Round-cases order f.dir w) [
    | literal n e w' ↦
        rw (search_literal order after f fs dir q x cs p m n e)
          (search_loop_total fs (depth + 1) n _ m w')
    | param n e h _ b w' ↦
        rw (search_param order after f fs dir q x cs p m n e h b)
          (search_loop_total fs (depth + 1) n _ _ w')
    | stop e h ↦ (_, search_stop order after f fs dir q x cs p m e h)
  ]

-- After any calls of `Insert`, `Search` ends and never dereferences `end()`, whatever the path and
-- the iteration order of the maps.
pub search_total :
    (order : HashOrder) (templates : List Bytes) (path after : Bytes) (m : ParamIdxs)
    → (r : Found) × (search order path after (insert_all templates root_node) m ≡ some r)
unfolding search
search_total order templates path after m =
    search_loop_total order after (fragments path) 0 (insert_all templates root_node) [] m
      (insert_all-IsWellFormed templates root_node root_node-IsWellFormed)

abbrev pub without_ranges : Option Found → Option (Bool × Bytes)
without_ranges none = none
without_ranges (some r) = some (r.found, r.oas_path)

search_path_loop-search_loop :
    (order : HashOrder) (after : Bytes) (fs : List Fragment) (n : Node) (p : Bytes) (m : ParamIdxs)
    → search_path_loop order fs n p ≡ without_ranges (search_loop order after fs n p m)
unfolding search_path_loop search_loop
search_path_loop-search_loop order after [] n p m = refl
search_path_loop-search_loop order after (f ∷ fs) (node dir q x cs) p m =
    go (search_path_loop-search_loop order after fs) (find f.dir cs) refl q refl
      (begin_child order cs) refl
  where
    go :
        ((n : Node) (p : Bytes) (m : ParamIdxs)
          → search_path_loop order fs n p ≡ without_ranges (search_loop order after fs n p m))
        → (o : Option Node) → find f.dir cs ≡ o
        → (b : Bool) → q ≡ b
        → (c : Option Node) → begin_child order cs ≡ c
        → search_path_loop order (f ∷ fs) (node dir q x cs) p
          ≡ without_ranges (search_loop order after (f ∷ fs) (node dir q x cs) p m)
    go ih (some n) e b h c k = rw (e, search_path_loop, search_loop) (ih n _ _)
    go ih none e true h (some n) k = rw (e, h, k, search_path_loop, search_loop) (ih n _ _)
    go ih none e true h none k = rw (e, h, k, search_path_loop, search_loop)
    go ih none e false h c k = rw (e, h, search_path_loop, search_loop)

-- The first overload of `Search` gives the same answer and the same template as the second, and
-- dereferences `end()` on the same inputs.
pub search_path-search :
    (order : HashOrder) (path after : Bytes) (root : Node) (m : ParamIdxs)
    → search_path order path root ≡ without_ranges (search order path after root m)
unfolding search search_path
search_path-search order path after root m =
    search_path_loop-search_loop order after (fragments path) root [] m
