-- ===== src/Tests/Tables.antt =====
-- The tables of one method, and the validators of one path.
use mathlib.Core.List.{map}
use cpp_oasvalidator.Prelude.{
  codes, equal, [], ◌∷◌, true, false, ◌↔◌, All, ◌≡◌, refl, none, some, arith, ◌<◌, ◌⊎◌,
}
use cpp_oasvalidator.Common.{integer, none_error, invalid_path_param, invalid_header_param, ok}
use cpp_oasvalidator.Common.Fragments.{seek, fragments, path_of}
use cpp_oasvalidator.Trie.{ParamIdxs, insert_all, root_node}
use cpp_oasvalidator.Trie.Unambiguous.{captures}
use cpp_oasvalidator.Validators.{lookup, base_validator_at}
use cpp_oasvalidator.Validators.Param.{ParamValidator, of_primitive}
use cpp_oasvalidator.Validators.Store.{Store, validate_path_params, validate_header_params}
use cpp_oasvalidator.Validators.Store.Headers.{IsHeaderFine, validate_header_params_iff}
use cpp_oasvalidator.Validators.Store.Accepts.{IsFound, validate_path_params_iff}
use cpp_oasvalidator.Pipeline.{
  MethodMap, PerMethod, to_lower, to_upper, build_case_insensitive_map, routed, route_in,
  write_query,
}
use cpp_oasvalidator.Pipeline.Requests.{both_outs}
use cpp_oasvalidator.Pipeline.MethodNames.{last_for, lookup-build_case_insensitive_map}
use cpp_oasvalidator.Pipeline.Templates.{route_in_template}
use cpp_oasvalidator.Tests.Routing.{
  oldest_first, user_posts, items, templates, request, templates-IsUnambiguous, request-Instance,
}
use cpp_oasvalidator.Json.{object, nil}
use cpp_oasvalidator.Tests.Documents.{library}

abbrev id_validator : ParamValidator library
id_validator = record {
  json = record {
    base = base_validator_at (codes "paths" ∷ []) invalid_path_param;
    schema = object nil;
  };
  name = codes "id";
  required = true;
  deserializer = of_primitive (record {
    base = record { param_name = codes "id"; start = 0; skip_name = false };
    param_type = integer;
  });
}

abbrev posts_store : Store library
posts_store = record {
  body_validator = none;
  path_param_validators = (2, id_validator) ∷ [];
  query_param_validators = [];
  header_param_validators = [];
}

abbrev get_table : PerMethod library
get_table = record {
  per_path_validators = (codes "/users/{id}/posts", posts_store) ∷ [];
  path_trie = insert_all templates root_node;
}

no_literal : lookup request get_table.per_path_validators ≡ none
unfolding lookup equal
no_literal = refl

posts_stored : lookup (path_of user_posts) get_table.per_path_validators ≡ some posts_store
unfolding lookup equal
posts_stored = refl

query_split : seek (codes "/users/42/posts?page=2") b'?' ≡ (request, codes "?page=2")
unfolding seek
query_split = refl

route_in_template_example :
    route_in library oldest_first get_table
      (codes "GET")
      (codes "/users/42/posts?page=2")
      (both_outs [])
    ≡ some (
        routed posts_store (record {
          error_msg = [];
          param_idxs = some (captures (codes "?page=2") 0 user_posts (fragments request) []);
          query = (write_query (codes "?page=2") (both_outs [])).query;
        }))
route_in_template_example =
    route_in_template library oldest_first get_table (items ∷ []) [] user_posts posts_store
      (codes "GET") (codes "/users/42/posts?page=2") request (codes "?page=2") (both_outs []) []
      query_split refl no_literal posts_stored refl
      (tt, (omega arith, (omega arith, (omega arith, λ e. cc)))) templates-IsUnambiguous
      request-Instance

abbrev posts_idxs : ParamIdxs
posts_idxs = (2, record { within = codes "42"; beyond = codes "/posts" }) ∷ []

validate_path_params_iff_example :
    (validate_path_params library posts_store posts_idxs [] ≡ ok (none_error, []))
    ↔ All (IsFound library posts_idxs) posts_store.path_param_validators
validate_path_params_iff_example =
    validate_path_params_iff library posts_store posts_idxs [] (λ e. cc, tt)

-- `Head` and `GET` stand for themselves and for `HEAD`, `head` and `get`.
abbrev some_methods : MethodMap
some_methods = (codes "GET", codes "POST" ∷ []) ∷ (codes "Head", codes "GET" ∷ []) ∷ []

lookup-build_case_insensitive_map_example :
    (lookup (codes "get") (build_case_insensitive_map some_methods)
      ≡ last_for (codes "get") some_methods none)
    × All (λ c. (c < 65) ⊎ (90 < c)) (map to_lower (codes "Head"))
    × All (λ c. (c < 97) ⊎ (122 < c)) (map to_upper (codes "Head"))
lookup-build_case_insensitive_map_example =
    lookup-build_case_insensitive_map (codes "get") (codes "Head") some_methods

get_named : last_for (codes "get") some_methods none ≡ some (codes "POST" ∷ [])
unfolding last_for to_lower to_upper equal
get_named = refl

-- A header parameter that is not required
abbrev trace_validator : ParamValidator library
trace_validator = record {
  json = record {
    base = base_validator_at (codes "paths" ∷ []) invalid_header_param;
    schema = object nil;
  };
  name = codes "X-Trace";
  required = false;
  deserializer = of_primitive (record {
    base = record { param_name = codes "X-Trace"; start = 0; skip_name = false };
    param_type = integer;
  });
}

abbrev header_store : Store library
header_store = record {
  body_validator = none;
  path_param_validators = [];
  query_param_validators = [];
  header_param_validators = (codes "X-Trace", trace_validator) ∷ [];
}

validate_header_params_iff_example :
    (validate_header_params library header_store ((codes "X-Trace", codes "7") ∷ []) []
      ≡ ok (none_error, []))
    ↔ All
        (IsHeaderFine library ((codes "X-Trace", codes "7") ∷ []))
        header_store.header_param_validators
validate_header_params_iff_example =
    validate_header_params_iff library header_store ((codes "X-Trace", codes "7") ∷ []) []
      (λ e. cc, tt)
