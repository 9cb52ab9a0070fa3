-- ===== src/Pipeline/Answers.antt =====
-- `GetValidators` always comes to an answer.
use mathlib.Core.List.{map}
use cpp_oasvalidator.Prelude.{
  Bytes, equal, List, [], ◌∷◌, ◌⊎◌, Bool, Bool-cases, true, Option-cases, inl, inr, ◌≡◌, refl, some,
}
use cpp_oasvalidator.Common.{ValidationError, invalid_route, out_of_range, ok, throw}
use cpp_oasvalidator.Common.Fragments.{seek}
use cpp_oasvalidator.Trie.{HashOrder, insert_all, root_node}
use cpp_oasvalidator.Trie.Total.{search_total, search_path-search}
use cpp_oasvalidator.Validators.{lookup, Rapidjson, validate_method, valid_methods, contains}
use cpp_oasvalidator.Pipeline.{
  string_to_method, MethodMap, PerMethod, OasValidatorImp, Outs, Route, routed, refused,
  write_query, search_trie, route_in, get_mapped_validators, mapped_loop, after_first,
  get_validators,
}
use cpp_oasvalidator.Pipeline.Spec.{construct}
use cpp_oasvalidator.Pipeline.Keys.{Has}
use cpp_oasvalidator.Pipeline.Tables.{IsConsistent, AreConsistent, construct-AreConsistent}

search_trie_total :
    (order : HashOrder) (templates : List Bytes) (path after : Bytes) (o : Outs)
    → (r : Bool × Bytes × Outs) × (search_trie order path after (insert_all templates root_node) o
        ≡ some r)
unfolding search_trie
search_trie_total order templates path after o = elim (Option-cases o.param_idxs) [
  | inl e ↦
      let (r, found) = search_total order templates path after [] in
      rw
        (
          e,
          search_path-search order path after (insert_all templates root_node) [],
          found,
          search_trie,
        )
        (_, refl)
  | inr (idxs, e) ↦
      let (r, found) = search_total order templates path after idxs in
      rw (e, found, search_trie) (_, refl)
]

contains-Has {ℓ} :
    {A : Type ℓ} (m : List (Bytes × A)) (key : Bytes)
    → contains key (map (λ (e : Bytes × A). e.0) m) ≡ true
    → Has m key
unfolding contains lookup
contains-Has [] key h = cc
contains-Has ((k, x) ∷ m) key h = elim (Bool-cases (equal k key)) [
  | inl e ↦ rw e (x, refl)
  | inr e ↦ rw e (contains-Has m key (rw e at h))
]

module _ (lib : Rapidjson) (order : HashOrder) where
  route_in_total :
      (p : PerMethod lib) (method http_path : Bytes) (o : Outs)
      → IsConsistent lib p
      → (r : Route lib) × (route_in lib order p method http_path o ≡ some r)
  unfolding route_in
  route_in_total p method http_path o c =
      elim (Option-cases (lookup (seek http_path b'?').0 p.per_path_validators)) [
        | inr (store, e) ↦ rw (e, route_in) (_, refl)
        | inl e ↦
            let (r, s) =
              search_trie_total order c.templates (seek http_path b'?').0 (seek http_path b'?').1
                (write_query (seek http_path b'?').1 o) in
            rw (e, c.inserted, s, route_in) (_, refl)
      ]

  -- For a name in `kStringToMethod` a route is found or refused; for another name the call throws.
  mapped_total :
      (v : OasValidatorImp lib) (method mapped_method http_path : Bytes) (o : Outs)
      → AreConsistent lib v
      → ((r : Route lib) × (get_mapped_validators lib order v method mapped_method http_path o
            ≡ some (ok r)))
        ⊎ (get_mapped_validators lib order v method mapped_method http_path o
            ≡ some (throw out_of_range))
  unfolding get_mapped_validators
  mapped_total v method mapped_method http_path o c =
      elim (Option-cases (lookup mapped_method string_to_method)) [
        | inl e ↦ inr (rw (e, get_mapped_validators))
        | inr (m, e) ↦
            let (r, s) = route_in_total (v.oas_validators m) method http_path o (c m) in
            inl (r, rw (e, s, get_mapped_validators))
      ]

  mapped_loop_total :
      (v : OasValidatorImp lib) (method : Bytes) (mapped_methods : List Bytes) (http_path : Bytes)
      (err_code : ValidationError) (o : Outs)
      → AreConsistent lib v
      → (r : Route lib) × (mapped_loop lib order v method http_path mapped_methods err_code o
          ≡ some (ok r))
  unfolding mapped_loop
  mapped_loop_total v method [] http_path err_code o c = (_, refl)
  mapped_loop_total v method (m ∷ ms) http_path err_code o c =
      elim (mapped_total v method m http_path o c) [
        | inr e ↦ rw (e, mapped_loop) (_, refl)
        | inl (routed store o', e) ↦ rw (e, mapped_loop) (_, refl)
        | inl (refused err_code' o', e) ↦
            rw (e, mapped_loop) (mapped_loop_total v method ms http_path err_code' o' c)
      ]

  after_first_total :
      (v : OasValidatorImp lib) (method http_path : Bytes) (r : Route lib)
      → AreConsistent lib v
      → (r' : Route lib) × (after_first lib order v method http_path (some (ok r)) ≡ some (ok r'))
  unfolding after_first
  after_first_total v method http_path (routed store o) c = (_, refl)
  after_first_total v method http_path (refused invalid_route o) c =
      elim (Option-cases (lookup method v.method_map)) [
        | inl e ↦ rw (e, after_first) (_, refl)
        | inr (ms, e) ↦
            rw (e, after_first) (mapped_loop_total v method ms http_path invalid_route o c)
      ]
  after_first_total v method http_path (refused err_code o) c = (_, refl)

  -- `GetValidators` of a validator that the constructor returned comes to an answer for every
  -- method and path: it finds the validators or returns an error. Nothing is thrown out of it, not
  -- even for a method map with names that are no methods, and no iterator is dereferenced at its
  -- end.
  pub get_validators_total :
      (doc : lib.Value) (method_map : MethodMap) (v : OasValidatorImp lib)
      (method http_path : Bytes) (o : Outs)
      → construct lib doc method_map ≡ ok v
      → (r : Route lib) × (get_validators lib order v method http_path o ≡ some (ok r))
  unfolding get_validators validate_method get_mapped_validators
  get_validators_total doc method_map v method http_path o e =
      let c = construct-AreConsistent lib doc method_map v e in
      elim (Bool-cases (contains method valid_methods)) [
        | inr b ↦ rw (b, get_validators, validate_method) (_, refl)
        | inl b ↦
            let (m, known) = contains-Has string_to_method method b in
            let (r, found) = route_in_total (v.oas_validators m) method http_path o (c m) in
            rw (b, get_validators, validate_method, known, get_mapped_validators, found)
              (after_first_total v method http_path r c)
      ]
