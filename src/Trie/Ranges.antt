-- ===== src/Trie/Ranges.antt =====
-- The parameter ranges that `PathTrie::Search` hands to the path parameter validators.
use mathlib.Core.Path.{subst}
use cpp_oasvalidator.Prelude.{
  ℕ, ◌+◌, Bytes, length, length-append, get_elem?, get_elem?-append_middle, All, List, [], ◌∷◌,
  ◌++◌, append_assoc, ◌==◌, Bool-cases, inl, inr, ◌≡◌, refl, sym, ap, ◌∙◌, some, arith,
}
use cpp_oasvalidator.Common.Fragments.{Fragment, fragments}
use cpp_oasvalidator.Trie.{
  Node, node, HashOrder, ParamRange, ParamIdxs, range_of, emplace, Found, search_loop, search,
  insert_all, root_node,
}
use cpp_oasvalidator.Trie.Shape.{IsWellFormed, insert_all-IsWellFormed, root_node-IsWellFormed}
use cpp_oasvalidator.Trie.Round.{
  literal, param, stop, Round-cases, frag_idx-depth, search_end, search_literal, search_param,
  search_stop,
}

-- The entry's key is the position of a fragment, and its range is that fragment.
pub record IsRangeIn (all : List Fragment) (after : Bytes) (i : ℕ) (r : ParamRange) : Type 0 where
  pub fragment : Fragment
  pub position : get_elem? all i ≡ some fragment
  pub range : r ≡ range_of fragment after

abbrev pub AreRangesIn : List Fragment → Bytes → ParamIdxs → Type 0
AreRangesIn all after = All (λ (e : ℕ × ParamRange). IsRangeIn all after e.0 e.1)

emplace-AreRangesIn :
    (all : List Fragment) (after : Bytes) (i : ℕ) (r : ParamRange) (m : ParamIdxs)
    → IsRangeIn all after i r
    → AreRangesIn all after m
    → AreRangesIn all after (emplace i r m)
unfolding emplace
emplace-AreRangesIn all after i r [] h _ = (h, tt)
emplace-AreRangesIn all after i r ((j, q) ∷ m) h (k, ks) = elim (Bool-cases (j == i)) [
  | inl same ↦ rw same (k, ks)
  | inr other ↦ rw other (k, emplace-AreRangesIn all after i r m h ks)
]

some_eq : {a r : Found} → some a ≡ some r → a ≡ r
some_eq e = cc

same_idxs : {a r : Found} → some a ≡ some r → a.param_idxs ≡ r.param_idxs
same_idxs e = let q = some_eq e in ap (λ (f : Found). f.param_idxs) q

module _ (order : HashOrder) (after : Bytes) where
  search_loop-AreRangesIn :
      (fs before : List Fragment) (depth : ℕ) (n : Node) (p : Bytes) (m : ParamIdxs) (r : Found)
      → length before ≡ depth
      → IsWellFormed depth n
      → AreRangesIn (before ++ fs) after m
      → search_loop order after fs n p m ≡ some r
      → AreRangesIn (before ++ fs) after r.param_idxs
  search_loop-AreRangesIn [] before depth n p m r l w h e =
      subst (AreRangesIn (before ++ []) after) (same_idxs (sym (search_end order after n p m) ∙ e))
        h
  search_loop-AreRangesIn (f ∷ fs) before depth (node dir q x cs) p m r l w h e =
      elim (Round-cases order f.dir w) [
        | literal n k w' ↦ rw moved (
            search_loop-AreRangesIn fs (before ++ f ∷ []) (depth + 1) n _ m r longer w'
              (rw moved at h) (sym (search_literal order after f fs dir q x cs p m n k) ∙ e))
        | param n k t _ b w' ↦ rw moved (
            search_loop-AreRangesIn fs (before ++ f ∷ []) (depth + 1) n _ _ r longer w'
              (rw moved at (emplace-AreRangesIn _ after x (range_of f after) m here h))
              (sym (search_param order after f fs dir q x cs p m n k t b) ∙ e))
        | stop k t ↦
            subst (AreRangesIn (before ++ f ∷ fs) after)
              (same_idxs (sym (search_stop order after f fs dir q x cs p m k t) ∙ e)) h
      ]
    where
      moved : before ++ f ∷ fs ≡ (before ++ f ∷ []) ++ fs
      moved = sym (append_assoc before (f ∷ []) fs)

      longer : length (before ++ f ∷ []) ≡ depth + 1
      longer = omega (arith, length-append before (f ∷ []))

      here : IsRangeIn (before ++ f ∷ fs) after x (range_of f after)
      here = record {
        fragment = f;
        position = rw (frag_idx-depth w, ← l) (get_elem?-append_middle before fs f);
        range = refl;
      }

-- If the ranges that are there before a `Search` are fragments of the path at their keys, so are
-- those that are there after it. This holds for a search that fails, too, so ranges left over from
-- it do not mislead the next search of the same path.
pub search-AreRangesIn :
    (order : HashOrder) (templates : List Bytes) (path after : Bytes) (m : ParamIdxs) (r : Found)
    → AreRangesIn (fragments path) after m
    → search order path after (insert_all templates root_node) m ≡ some r
    → AreRangesIn (fragments path) after r.param_idxs
unfolding search
search-AreRangesIn order templates path after m r =
    search_loop-AreRangesIn order after (fragments path) [] 0 _ [] m r refl
      (insert_all-IsWellFormed templates root_node root_node-IsWellFormed)
