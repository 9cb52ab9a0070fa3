-- ===== src/Pipeline/Templates.antt =====
-- A request for a template comes to the validators of the template.
use cpp_oasvalidator.Prelude.{
  Bytes, List, [], ◌∷◌, ◌++◌, Option-cases, inl, inr, true, ◌≡◌, refl, ap, ◌∙◌, none, some,
}
use cpp_oasvalidator.Common.Fragments.{seek, fragments, path_of, ArePathDirs}
use cpp_oasvalidator.Trie.{HashOrder, ParamIdxs, insert_all, root_node}
use cpp_oasvalidator.Trie.Unambiguous.{IsUnambiguous, Instance, captures}
use cpp_oasvalidator.Trie.Finds.{search-path_of}
use cpp_oasvalidator.Validators.{lookup, Rapidjson}
use cpp_oasvalidator.Validators.Store.{Store}
use cpp_oasvalidator.Pipeline.{
  PerMethod, Outs, routed, write_query, search_trie, route_at, route_in,
}

write_query_idxs : (from : Bytes) (o : Outs) → (write_query from o).param_idxs ≡ o.param_idxs
unfolding write_query
write_query_idxs [] o = refl
write_query_idxs (c ∷ from) o = elim (Option-cases o.query) [
  | inl e ↦ rw (e, write_query)
  | inr (q, e) ↦ rw (e, write_query)
]

write_query_message : (from : Bytes) (o : Outs) → (write_query from o).error_msg ≡ o.error_msg
unfolding write_query
write_query_message [] o = refl
write_query_message (c ∷ from) o = elim (Option-cases o.query) [
  | inl e ↦ rw (e, write_query)
  | inr (q, e) ↦ rw (e, write_query)
]

search_trie_template :
    (order : HashOrder) (before later ds : List Bytes) (path from : Bytes) (o : Outs)
    (idxs : ParamIdxs)
    → o.param_idxs ≡ some idxs
    → ArePathDirs ds
    → IsUnambiguous (insert_all (before ++ path_of ds ∷ later) root_node)
    → Instance ds (fragments path)
    → search_trie order path from (insert_all (before ++ path_of ds ∷ later) root_node) o
      ≡ some (
        true,
        path_of ds,
        (record {
          error_msg = o.error_msg;
          param_idxs = some (captures from 0 ds (fragments path) idxs);
          query = o.query;
        }),
      )
unfolding search_trie
search_trie_template order before later ds path from o idxs i h u inst =
    rw (i, search-path_of order before later ds path from idxs h u inst, search_trie)

module _ (lib : Rapidjson) (order : HashOrder) (p : PerMethod lib) where
  -- Let the trie of a method come from calls of `Insert`, be unambiguous, and hold a template that
  -- has validators and whose last fragment is not empty, so that it does not end with a slash. A
  -- request whose path in front of the first `?` is no literal path of the table
  -- and is an instance of the template is routed to the validators of the template, with the
  -- fragments for its parameters in `param_idxs` and an unchanged `error_msg`.
  pub route_in_template :
      (before later ds : List Bytes) (store : Store lib) (method http_path path from : Bytes)
      (o : Outs) (idxs : ParamIdxs)
      → seek http_path b'?' ≡ (path, from)
      → p.path_trie ≡ insert_all (before ++ path_of ds ∷ later) root_node
      → lookup path p.per_path_validators ≡ none
      → lookup (path_of ds) p.per_path_validators ≡ some store
      → o.param_idxs ≡ some idxs
      → ArePathDirs ds
      → IsUnambiguous (insert_all (before ++ path_of ds ∷ later) root_node)
      → Instance ds (fragments path)
      → route_in lib order p method http_path o
        ≡ some (
            routed store (record {
              error_msg = o.error_msg;
              param_idxs = some (captures from 0 ds (fragments path) idxs);
              query = (write_query from o).query;
            }))
  unfolding route_in route_at
  route_in_template before later ds store method http_path path from o idxs s t n k i h u inst =
      let s0 : (seek http_path b'?').0 ≡ path = ap (λ (x : Bytes × Bytes). x.0) s in
      let s1 : (seek http_path b'?').1 ≡ from = ap (λ (x : Bytes × Bytes). x.1) s in
      rw (
        route_in,
        s0,
        n,
        s0,
        s1,
        t,
        search_trie_template order before later ds path from (write_query from o) idxs
            (write_query_idxs from o ∙ i) h u inst,
        route_at,
        k,
        write_query_message from o,
      )
