-- ===== src/Pipeline/Agreement.antt =====
-- The entry points agree on the route: it does not depend on which out parameters a caller passes.
use cpp_oasvalidator.Prelude.{
  Bytes, List, [], ◌∷◌, Bool, Bool-cases, true, false, Option, Option-cases, inl, inr, ◌≡◌, sym, ap,
  ◌∙◌, none, some,
}
use cpp_oasvalidator.Common.{
  ValidationError, invalid_route, Exception, out_of_range, Result, ok, throw, out_of_fuel,
}
use cpp_oasvalidator.Common.Fragments.{seek}
use cpp_oasvalidator.Trie.{HashOrder, Node, search, search_path}
use cpp_oasvalidator.Trie.Total.{search_path-search}
use cpp_oasvalidator.Validators.{lookup, Rapidjson, validate_method, valid_methods, contains}
use cpp_oasvalidator.Validators.Store.{Store}
use cpp_oasvalidator.Pipeline.{
  string_to_method, PerMethod, OasValidatorImp, Outs, Route, routed, refused, search_trie, route_at,
  route_in, get_mapped_validators, try_next, mapped_loop, after_first, get_validators,
}

-- The answer of a search without what was written.
abbrev answer : Option (Bool × Bytes × Outs) → Option (Bool × Bytes)
answer none = none
answer (some (found, map_key, o)) = some (found, map_key)

some_eq {ℓ} : {A : Type ℓ} {a b : A} → some a ≡ some b → a ≡ b
some_eq e = cc

answer-search_trie :
    (order : HashOrder) (path after : Bytes) (trie : Node) (o : Outs)
    → answer (search_trie order path after trie o) ≡ search_path order path trie
unfolding search_trie
answer-search_trie order path after trie o = elim (Option-cases o.param_idxs) [
  | inl e ↦ elim (Option-cases (search_path order path trie)) [
    | inl f ↦ rw (e, f, search_trie)
    | inr (r, f) ↦ rw (e, f, search_trie)
  ]
  | inr (idxs, e) ↦ elim (Option-cases (search order path after trie idxs)) [
    | inl f ↦ rw (search_path-search order path after trie idxs, e, f, search_trie)
    | inr (r, f) ↦ rw (search_path-search order path after trie idxs, e, f, search_trie)
  ]
]

-- Two results that find the same validators, return the same error, or end alike.
pub data SameRoute (lib : Rapidjson)
    : Option (Result (Route lib)) → Option (Result (Route lib)) → Type 0 where
  same_store :
      (store : Store lib) (o o' : Outs)
      → SameRoute lib (some (ok (routed store o))) (some (ok (routed store o')))
  same_error :
      (e : ValidationError) (o o' : Outs)
      → SameRoute lib (some (ok (refused e o))) (some (ok (refused e o')))
  same_exception : (exc : Exception) → SameRoute lib (some (throw exc)) (some (throw exc))
  same_end : SameRoute lib none none
  same_fuel : SameRoute lib (some out_of_fuel) (some out_of_fuel)

module _ (lib : Rapidjson) (order : HashOrder) where
  route_at-SameRoute :
      (per_path : List (Bytes × Store lib)) (method http_path : Bytes) (a : Bool × Bytes)
      (o o' : Outs)
      → SameRoute lib
          (some (ok (route_at lib order per_path method http_path (a.0, a.1, o))))
          (some (ok (route_at lib order per_path method http_path (a.0, a.1, o'))))
  unfolding route_at
  route_at-SameRoute per_path method http_path (false, key) o o' = same_error _ _ _
  route_at-SameRoute per_path method http_path (true, key) o o' =
      elim (Option-cases (lookup key per_path)) [
        | inl e ↦ rw (e, route_at) (same_error _ _ _)
        | inr (store, e) ↦ rw (e, route_at) (same_store _ _ _)
      ]

  abbrev lifted : Option (Route lib) → Option (Result (Route lib))
  lifted none = none
  lifted (some r) = some (ok r)

  -- What `route_in` makes of two searches with the same answer.
  searched :
      (per_path : List (Bytes × Store lib)) (method http_path : Bytes)
      (s s' : Option (Bool × Bytes × Outs))
      → answer s ≡ answer s'
      → SameRoute lib
          (lifted (elim s [
            | some r ↦ some (route_at lib order per_path method http_path r)
            | none ↦ none
          ]))
          (lifted (elim s' [
            | some r ↦ some (route_at lib order per_path method http_path r)
            | none ↦ none
          ]))
  searched per_path method http_path none none e = same_end
  searched per_path method http_path none (some r) e = cc
  searched per_path method http_path (some r) none e = cc
  searched per_path method http_path (some (a, k, o)) (some (a', k', o')) e =
      let q : (a, k) ≡ (a', k') = some_eq e in
      let p : a ≡ a' = ap (λ (x : Bool × Bytes). x.0) q in
      let p' : k ≡ k' = ap (λ (x : Bool × Bytes). x.1) q in
      rw (p, p') (route_at-SameRoute per_path method http_path (a', k') o o')

  route_in-SameRoute :
      (p : PerMethod lib) (method http_path : Bytes) (o o' : Outs)
      → SameRoute lib
          (lifted (route_in lib order p method http_path o))
          (lifted (route_in lib order p method http_path o'))
  unfolding route_in
  route_in-SameRoute p method http_path o o' =
      elim (Option-cases (lookup (seek http_path b'?').0 p.per_path_validators)) [
        | inr (store, e) ↦ rw (e, route_in) (same_store _ _ _)
        | inl e ↦
            rw (e, route_in)
              (searched p.per_path_validators method http_path _ _ (
                answer-search_trie order _ _ p.path_trie _
                ∙ sym (answer-search_trie order _ (seek http_path b'?').1 p.path_trie _)))
      ]

  mapped-SameRoute :
      (v : OasValidatorImp lib) (method mapped_method http_path : Bytes) (o o' : Outs)
      → SameRoute lib
          (get_mapped_validators lib order v method mapped_method http_path o)
          (get_mapped_validators lib order v method mapped_method http_path o')
  unfolding get_mapped_validators
  mapped-SameRoute v method mapped_method http_path o o' =
      elim (Option-cases (lookup mapped_method string_to_method)) [
        | inl e ↦ rw (e, get_mapped_validators) (same_exception out_of_range)
        | inr (m, e) ↦
            rw (e, get_mapped_validators)
              (route_in-SameRoute (v.oas_validators m) method http_path o o')
      ]

  try_next-SameRoute :
      {a b : Option (Result (Route lib))} (e : ValidationError) (o o' : Outs)
      (go : ValidationError → Outs → Option (Result (Route lib)))
      → SameRoute lib a b
      → ((e : ValidationError) (o o' : Outs) → SameRoute lib (go e o) (go e o'))
      → SameRoute lib (try_next lib order e o go a) (try_next lib order e o' go b)
  try_next-SameRoute e o o' go (same_store store p p') h = same_store store p p'
  try_next-SameRoute e o o' go (same_error e' p p') h = h e' p p'
  try_next-SameRoute e o o' go (same_exception out_of_range) h = same_error e o o'
  try_next-SameRoute e o o' go (same_exception exc) h = same_exception exc
  try_next-SameRoute e o o' go same_end h = same_end
  try_next-SameRoute e o o' go same_fuel h = same_fuel

  mapped_loop-SameRoute :
      (v : OasValidatorImp lib) (method http_path : Bytes) (ms : List Bytes) (e : ValidationError)
      (o o' : Outs)
      → SameRoute lib
          (mapped_loop lib order v method http_path ms e o)
          (mapped_loop lib order v method http_path ms e o')
  unfolding mapped_loop
  mapped_loop-SameRoute v method http_path [] e o o' = same_error e o o'
  mapped_loop-SameRoute v method http_path (m ∷ ms) e o o' =
      try_next-SameRoute e o o' (mapped_loop lib order v method http_path ms)
        (mapped-SameRoute v method m http_path o o') (mapped_loop-SameRoute v method http_path ms)

  after_first-SameRoute :
      {a b : Option (Result (Route lib))} (v : OasValidatorImp lib) (method http_path : Bytes)
      → SameRoute lib a b
      → SameRoute lib
          (after_first lib order v method http_path a)
          (after_first lib order v method http_path b)
  unfolding after_first
  after_first-SameRoute v method http_path (same_error invalid_route o o') =
      elim (Option-cases (lookup method v.method_map)) [
        | inl e ↦ rw (e, after_first) (same_error invalid_route o o')
        | inr (ms, e) ↦
            rw (e, after_first) (mapped_loop-SameRoute v method http_path ms invalid_route o o')
      ]
  after_first-SameRoute v method http_path (same_error e o o') = same_error e o o'
  after_first-SameRoute v method http_path (same_store store o o') = same_store store o o'
  after_first-SameRoute v method http_path (same_exception exc) = same_exception exc
  after_first-SameRoute v method http_path same_end = same_end
  after_first-SameRoute v method http_path same_fuel = same_fuel

  -- `GetValidators` finds the same validators, or returns the same error, whichever of the out
  -- parameters a caller passes and whatever stands behind them: the entry points that need the
  -- path parameters are routed as those that do not.
  pub get_validators-SameRoute :
      (v : OasValidatorImp lib) (method http_path : Bytes) (o o' : Outs)
      → SameRoute lib
          (get_validators lib order v method http_path o)
          (get_validators lib order v method http_path o')
  unfolding get_validators validate_method
  get_validators-SameRoute v method http_path o o' =
      elim (Bool-cases (contains method valid_methods)) [
        | inl b ↦
            rw (b, get_validators, validate_method)
              (after_first-SameRoute v method http_path
                (mapped-SameRoute v method method http_path o o'))
        | inr b ↦ rw (b, get_validators, validate_method) (same_error _ _ _)
      ]
