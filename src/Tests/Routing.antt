-- ===== src/Tests/Routing.antt =====
-- src/utils/path_trie.cpp on concrete paths, among them those of test/unittest/src/utils/path_trie.cpp.
use cpp_oasvalidator.Prelude.{
  ◌++◌, Bytes, codes, get_elem?, equal, equal_refl, List, [], ◌∷◌, ◌≡◌, refl, true, false, some,
  arith,
}
use cpp_oasvalidator.Common.Fragments.{
  dirs, dirs-path_of, ArePathDirs, Fragment, fragments, path_of,
}
use cpp_oasvalidator.Trie.{
  HashOrder, contains, emplace, at_idx, range_of, keys, pop_back, Found, search, search_path,
  insert_all, root_node,
}
use cpp_oasvalidator.Trie.Shape.{IsWellFormed, insert_all-IsWellFormed, root_node-IsWellFormed}
use cpp_oasvalidator.Trie.Total.{search_total, search_path-search, without_ranges}
use cpp_oasvalidator.Trie.Ranges.{AreRangesIn, search-AreRangesIn}
use cpp_oasvalidator.Trie.Unambiguous.{
  IsUnambiguous, unambiguous, no_child, one_more, Instance, done, more, same, value, captures,
}
use cpp_oasvalidator.Trie.Finds.{search-insert_all}
use cpp_oasvalidator.Validators.{lookup, emplace_key}
use cpp_oasvalidator.Validators.Store.{
  get_path_param_indices, path_param_indices_loop, braced_name, before_brace,
}
use cpp_oasvalidator.Validators.Store.Indices.{braces, search-path_param_indices}

-- `begin()` stands at the child that was inserted first.
abbrev pub first_key : List Bytes → Bytes
first_key [] = []
first_key (k ∷ ks) = k

pub first_key_contained :
    (k : Bytes) (ks : List Bytes) → contains (first_key (k ∷ ks)) (k ∷ ks) ≡ true
first_key_contained k ks = ground (arith, equal_refl k)

abbrev pub oldest_first : HashOrder
oldest_first = record { first = first_key; first_contained = first_key_contained }

abbrev pub user_posts : List Bytes
user_posts = codes "" ∷ codes "users" ∷ codes "{id}" ∷ codes "posts" ∷ []

abbrev pub items : Bytes
items = codes "/items"

abbrev pub templates : List Bytes
templates = items ∷ path_of user_posts ∷ []

abbrev pub request : Bytes
request = codes "/users/42/posts"

search_user_posts :
    search oldest_first request [] (insert_all templates root_node) []
    ≡ some (record {
      found = true;
      oas_path = codes "/users/{id}/posts";
      param_idxs = (2, record { within = codes "42"; beyond = codes "/posts" }) ∷ [];
    })
unfolding search insert_all fragments equal pop_back emplace
search_user_posts = refl

pub templates-IsUnambiguous : IsUnambiguous (insert_all templates root_node)
unfolding insert_all fragments equal keys
templates-IsUnambiguous =
    unambiguous (λ h. cc)
      (one_more
        (unambiguous (λ h. cc)
          (one_more (unambiguous (λ h. cc) no_child) (
            one_more
              (unambiguous (λ h. refl)
                (one_more
                  (unambiguous (λ h. cc) (one_more (unambiguous (λ h. cc) no_child) no_child))
                  no_child))
              no_child)))
        no_child)

pub request-Instance : Instance user_posts (fragments request)
unfolding fragments equal
request-Instance =
    more (same refl refl)
      (more (same refl refl) (more (value refl refl) (more (same refl refl) done)))

-- `user_posts` as a text
abbrev user_template : Bytes
user_template = path_of user_posts

user_template-Instance : Instance (dirs user_template) (fragments request)
user_template-Instance =
    rw (dirs-path_of user_posts (tt, (omega arith, (omega arith, (omega arith, λ e. cc)))))
      request-Instance

search-insert_all_example :
    (search oldest_first request [] (insert_all templates root_node) []
      ≡ some (record {
        found = true;
        oas_path = path_of (dirs user_template);
        param_idxs = captures [] 0 (dirs user_template) (fragments request) [];
      }))
    × ((ds : List Bytes)
        → ArePathDirs ds
        → user_template ≡ path_of ds
        → path_of (dirs user_template) ≡ user_template)
    × ((ds : List Bytes)
        → ArePathDirs ds
        → user_template ≡ path_of ds ++ b'/' ∷ []
        → path_of (dirs user_template) ≡ path_of ds)
search-insert_all_example =
    search-insert_all oldest_first (items ∷ []) [] user_template request [] []
      templates-IsUnambiguous user_template-Instance

insert_all-IsWellFormed_example : IsWellFormed 0 (insert_all templates root_node)
insert_all-IsWellFormed_example = insert_all-IsWellFormed templates root_node root_node-IsWellFormed

search_total_example :
    (r : Found) × (search oldest_first request [] (insert_all templates root_node) [] ≡ some r)
search_total_example = search_total oldest_first templates request [] []

search_path-search_example :
    search_path oldest_first request (insert_all templates root_node)
    ≡ without_ranges (search oldest_first request [] (insert_all templates root_node) [])
search_path-search_example =
    search_path-search oldest_first request [] (insert_all templates root_node) []

search-AreRangesIn_example :
    AreRangesIn
      (fragments request)
      []
      ((2, record { within = codes "42"; beyond = codes "/posts" }) ∷ [])
search-AreRangesIn_example =
    search-AreRangesIn oldest_first templates request [] [] _ tt search_user_posts

id_index : lookup (codes "id") (get_path_param_indices (path_of user_posts)) ≡ some 2
unfolding lookup get_path_param_indices path_param_indices_loop braced_name before_brace emplace_key
    fragments equal
id_index = refl

search-path_param_indices_example :
    (r : Found) × (f : Fragment) × (search oldest_first request []
        (insert_all templates root_node)
        []
      ≡ some r)
    × (r.found ≡ true)
    × (get_elem? user_posts 2 ≡ some (braces (codes "id")))
    × (get_elem? (fragments request) 2 ≡ some f)
    × (at_idx 2 r.param_idxs ≡ some (range_of f []))
search-path_param_indices_example =
    search-path_param_indices oldest_first (items ∷ []) [] user_posts request [] (codes "id") 2
      (tt, (omega arith, (omega arith, (omega arith, λ e. cc)))) templates-IsUnambiguous
      request-Instance id_index

-- A literal fragment that was inserted hides the parameter beside it: there is no way back to it.
literal_hides_parameter :
    search oldest_first
      (codes "/a/l/b")
      []
      (insert_all (codes "/a/{x}/b" ∷ codes "/a/l/c" ∷ []) root_node)
      []
    ≡ some (record { found = false; oas_path = []; param_idxs = [] })
unfolding search insert_all fragments equal
literal_hides_parameter = refl

-- The second name for a parameter at the same place takes the place of the first in `oas_path`:
-- the text that is found is the template of no insertion.
second_name_wins :
    search oldest_first
      (codes "/a/1/b")
      []
      (insert_all (codes "/a/{x}/b" ∷ codes "/a/{y}/c" ∷ []) root_node)
      []
    ≡ some (record {
      found = true;
      oas_path = codes "/a/{y}/b";
      param_idxs = (2, record { within = codes "1"; beyond = codes "/b" }) ∷ [];
    })
unfolding search insert_all fragments equal pop_back emplace
second_name_wins = refl
