-- ===== src/Pipeline.antt =====
-- include/oas_validator_imp.hpp and src/oas_validator_imp.cpp: from a method and a path to the
-- validators of an operation. Requests has the entry points, and Spec the constructor.
pub mod Requests
pub mod Spec
pub mod Keys
pub mod Tables
pub mod Answers
pub mod Agreement
pub mod Stages
pub mod Templates
pub mod MethodNames
pub mod References
pub mod Resolve
use mathlib.Core.List.{map}
use cpp_oasvalidator.Prelude.{
  ℕ, ◌+◌, ◌-◌, Bytes, codes, leb, equal, List, [], ◌∷◌, ◌++◌, if◌then◌else◌, Bool, true, false,
  ◌&&◌, Option, none, some,
}
use cpp_oasvalidator.Common.{
  ValidationError, none_error, invalid_route, HttpMethod, get, post, put, delete, head, options,
  patch, connect, trace, Exception, out_of_range, Result, ok, throw, out_of_fuel,
}
use cpp_oasvalidator.Common.Fragments.{seek}
use cpp_oasvalidator.Trie.{Node, HashOrder, ParamIdxs, search, search_path, Found}
use cpp_oasvalidator.Validators.{lookup, Rapidjson, validate_method}
use cpp_oasvalidator.Validators.Store.{Store}

-- `kStringToMethod`
abbrev pub string_to_method : List (Bytes × HttpMethod)
string_to_method =
    (codes "GET", get)
    ∷ (codes "POST", post)
    ∷ (codes "PUT", put)
    ∷ (codes "DELETE", delete)
    ∷ (codes "HEAD", head)
    ∷ (codes "OPTIONS", options)
    ∷ (codes "PATCH", patch)
    ∷ (codes "CONNECT", connect)
    ∷ (codes "TRACE", trace)
    ∷ (codes "get", get)
    ∷ (codes "post", post)
    ∷ (codes "put", put)
    ∷ (codes "delete", delete)
    ∷ (codes "head", head)
    ∷ (codes "options", options)
    ∷ (codes "patch", patch)
    ∷ (codes "connect", connect)
    ∷ (codes "trace", trace)
    ∷ []

-- `::tolower` and `::toupper`
unfoldable pub to_lower : ℕ → ℕ
to_lower c = if leb b'A' c && leb c b'Z' then c + 32 else c

unfoldable pub to_upper : ℕ → ℕ
to_upper c = if leb b'a' c && leb c b'z' then c - 32 else c

-- `m[key] = x`
unfoldable pub set_key {ℓ} : {A : Type ℓ} → Bytes → A → List (Bytes × A) → List (Bytes × A)
set_key key x [] = (key, x) ∷ []
set_key key x ((k, y) ∷ m) = if equal k key then (k, x) ∷ m else (k, y) ∷ set_key key x m

-- The map from a method to the methods that may stand in for it. A set stands in the order in
-- which it is iterated.
abbrev pub MethodMap : Type 0
MethodMap = List (Bytes × List Bytes)

unfoldable pub case_insensitive_loop : MethodMap → MethodMap → MethodMap
case_insensitive_loop [] made = made
case_insensitive_loop ((key, methods) ∷ entries) made =
    case_insensitive_loop entries
      (set_key (map to_upper key) methods (set_key (map to_lower key) methods made))

-- `BuildCaseInsensitiveMap`
abbrev pub build_case_insensitive_map : MethodMap → MethodMap
build_case_insensitive_map method_map = case_insensitive_loop method_map []

-- `PerMethod`
pub record PerMethod (lib : Rapidjson) : Type 0 where
  pub per_path_validators : List (Bytes × Store lib)
  pub path_trie : Node

-- The fields of `OASValidatorImp` that keep state.
pub record OasValidatorImp (lib : Rapidjson) : Type 0 where
  pub method_map : MethodMap
  pub oas_validators : HttpMethod → PerMethod lib

-- What stands behind the references and pointers that `GetValidators` writes through; `none` is a
-- null pointer.
pub record Outs : Type 0 where
  pub error_msg : Bytes
  pub param_idxs : Option ParamIdxs
  pub query : Option Bytes

-- What `GetValidators` returns. With `NONE` it has written a pointer to `validators`.
pub data Route (lib : Rapidjson) : Type 0 where
  routed : Store lib → Outs → Route lib
  refused : ValidationError → Outs → Route lib

-- `if (std::string::npos != query_pos && query) *query = http_path.substr(query_pos);`
unfoldable pub write_query : Bytes → Outs → Outs
write_query [] o = o
write_query (c ∷ from) o = elim o.query [
  | none ↦ o
  | some q ↦ record { error_msg = o.error_msg; param_idxs = o.param_idxs; query = some (c ∷ from) }
]

-- `error_msg = …`, on the two ways to miss a route
unfoldable pub route_error : Bytes → Bytes → Outs → Outs
route_error method http_path o = record {
  error_msg =
      codes "{\"errorCode\":\"INVALID_ROUTE\",\"details\":{\"description\": \"Invalid HTTP method '"
      ++ (method ++ (codes "' or path: '" ++ (http_path ++ codes "'\"}}")));
  param_idxs = o.param_idxs;
  query = o.query;
}

-- `param_idxs ? path_trie.Search(beg, end, map_key, *param_idxs) : path_trie.Search(beg, end, map_key)`:
-- whether a template was found, which, and what is left behind the pointers.
unfoldable pub search_trie : HashOrder → Bytes → Bytes → Node → Outs → Option (Bool × Bytes × Outs)
search_trie order path after trie o = elim o.param_idxs [
  | some idxs ↦ elim (search order path after trie idxs) [
    | some r ↦ some (
      r.found,
      r.oas_path,
      (record { error_msg = o.error_msg; param_idxs = some r.param_idxs; query = o.query }),
    )
    | none ↦ none
  ]
  | none ↦ elim (search_path order path trie) [ some r ↦ some (r.0, r.1, o) | none ↦ none ]
]

module _ (lib : Rapidjson) (order : HashOrder) where
  -- `per_path_validators.at(map_key)` behind a search
  unfoldable pub route_at :
      List (Bytes × Store lib) → Bytes → Bytes → Bool × Bytes × Outs → Route lib
  route_at per_path method http_path (true, map_key, o) = elim (lookup map_key per_path) [
    | some store ↦ routed store o
    | none ↦ refused invalid_route (route_error method http_path o)
  ]
  route_at per_path method http_path (false, map_key, o) =
      refused invalid_route (route_error method http_path o)

  -- The two tries of `GetValidators`, in the tables of one method.
  unfoldable pub route_in : PerMethod lib → Bytes → Bytes → Outs → Option (Route lib)
  route_in p method http_path o =
      let (path, from) = seek http_path b'?' in
      elim (lookup path p.per_path_validators) [
        | some store ↦ some (routed store (write_query from o))
        | none ↦ elim (search_trie order path from p.path_trie (write_query from o)) [
          | some r ↦ some (route_at p.per_path_validators method http_path r)
          | none ↦ none
        ]
      ]

  -- `GetValidators` for a mapped method. `none` is a dereference of `end()` in the trie.
  unfoldable pub get_mapped_validators :
      OasValidatorImp lib → Bytes → Bytes → Bytes → Outs → Option (Result (Route lib))
  get_mapped_validators v method mapped_method http_path o =
      elim (lookup mapped_method string_to_method) [
        | some m ↦ elim (route_in (v.oas_validators m) method http_path o) [
          | some r ↦ some (ok r)
          | none ↦ none
        ]
        | none ↦ some (throw out_of_range)
      ]

  -- What the loop over the mapped methods makes of a result, with `err_code` and what was written
  -- so far. A name that is no method throws inside of the `try` block, before anything is written.
  abbrev pub try_next :
      ValidationError
      → Outs
      → (ValidationError → Outs → Option (Result (Route lib)))
      → Option (Result (Route lib))
      → Option (Result (Route lib))
  try_next err_code o go (some (ok (routed store o'))) = some (ok (routed store o'))
  try_next err_code o go (some (ok (refused err_code' o'))) = go err_code' o'
  try_next err_code o go (some (throw out_of_range)) = some (ok (refused err_code o))
  try_next err_code o go (some (throw exc)) = some (throw exc)
  try_next err_code o go (some out_of_fuel) = some out_of_fuel
  try_next err_code o go none = none

  unfoldable pub mapped_loop :
      OasValidatorImp lib
      → Bytes
      → Bytes
      → List Bytes
      → ValidationError
      → Outs
      → Option (Result (Route lib))
  mapped_loop v method http_path [] err_code o = some (ok (refused err_code o))
  mapped_loop v method http_path (mapped_method ∷ rest) err_code o =
      try_next err_code o (mapped_loop v method http_path rest)
        (get_mapped_validators v method mapped_method http_path o)

  -- What `GetValidators` does behind the first attempt.
  unfoldable pub after_first :
      OasValidatorImp lib
      → Bytes
      → Bytes
      → Option (Result (Route lib))
      → Option (Result (Route lib))
  after_first v method http_path (some (ok (refused invalid_route o))) =
      elim (lookup method v.method_map) [
        | some mapped_methods ↦ mapped_loop v method http_path mapped_methods invalid_route o
        | none ↦ some (ok (refused invalid_route o))
      ]
  after_first v method http_path result = result

  -- `GetValidators`
  unfoldable pub get_validators :
      OasValidatorImp lib → Bytes → Bytes → Outs → Option (Result (Route lib))
  get_validators v method http_path o =
      let (err_code, msg) = validate_method method o.error_msg in
      elim err_code [
        | none_error ↦
            after_first v method http_path (get_mapped_validators v method method http_path o)
        | other ↦ some (
            ok (
              refused other
                (record { error_msg = msg; param_idxs = o.param_idxs; query = o.query })))
      ]
