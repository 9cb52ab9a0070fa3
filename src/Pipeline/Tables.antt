-- ===== src/Pipeline/Tables.antt =====
-- What the constructor leaves in the tables of a method, and why a request is always answered.
use cpp_oasvalidator.Prelude.{
  All-map, Bytes, codes, All, List, [], ◌∷◌, ◌++◌, Bool-cases, inl, inr, ◌==◌, ◌&&◌, ◌≡◌, ◌⊎◌, refl,
  ap, ◌∙◌, none, some, Bool, true,
}
use cpp_oasvalidator.Common.{
  ok, out_of_range, ok_eq, HttpMethod, >>=-eq-ok, requires, requires-eq-ok,
}
use cpp_oasvalidator.Trie.{Node, insert, insert_all, root_node}
use cpp_oasvalidator.Validators.{lookup, Rapidjson, has_kind}
use cpp_oasvalidator.Validators.Param.{at_or_throw}
use cpp_oasvalidator.Validators.Store.{Store, add_param_validators}
use cpp_oasvalidator.Pipeline.{set_key, MethodMap, PerMethod, OasValidatorImp, string_to_method}
use cpp_oasvalidator.Pipeline.Spec.{
  has_byte, has_body_schema, add_parameters, process_request_body, process_parameters,
  insert_template, process_in, process_method, methods_loop, process_path, paths_loop, construct,
  set_method, method_index, body_is_read,
}
use cpp_oasvalidator.Pipeline.Keys.{
  Has, emplace_key-Has, emplace_key_keeps-Has, set_key_keeps-Has, emplace_key_only-Has,
  set_key_only-Has,
}

insert_all-append :
    (paths : List Bytes) (path : Bytes) (n : Node)
    → insert path (insert_all paths n) ≡ insert_all (paths ++ path ∷ []) n
unfolding insert_all
insert_all-append [] path n = refl
insert_all-append (p ∷ paths) path n = insert_all-append paths path (insert p n)

All-append {ℓ κ} :
    {A : Type ℓ} (P : A → Type κ) (xs : List A) (y : A) → All P xs → P y → All P (xs ++ y ∷ [])
All-append P [] y h p = (p, tt)
All-append P (x ∷ xs) y (q, h) p = (q, All-append P xs y h p)

-- The path is one of the list.
abbrev pub Among : Bytes → List Bytes → Type 0
Among path [] = ⊥
Among path (t ∷ ts) = (t ≡ path) ⊎ Among path ts

Among-append :
    (path : Bytes) (ts : List Bytes) (t : Bytes) → Among path ts → Among path (ts ++ t ∷ [])
Among-append path [] t h = elim h [ ]
Among-append path (s ∷ ts) t (inl e) = inl e
Among-append path (s ∷ ts) t (inr h) = inr (Among-append path ts t h)

Among-last : (ts : List Bytes) (t : Bytes) → Among t (ts ++ t ∷ [])
Among-last [] t = inl refl
Among-last (s ∷ ts) t = inr (Among-last ts t)

-- The test of `ProcessMethod` for a template
abbrev pub is_template : Bytes → Bool
is_template path = has_byte b'{' path && has_byte b'}' path

module _ (lib : Rapidjson) where
  -- The trie comes from calls of `Insert`, each template in it has its validators, and each path
  -- with validators that has braces is one of the templates.
  pub record IsConsistent (p : PerMethod lib) : Type 0 where
    pub templates : List Bytes
    pub inserted : p.path_trie ≡ insert_all templates root_node
    pub stored : All (Has p.per_path_validators) templates
    pub complete :
        (path : Bytes)
        → Has p.per_path_validators path
        → is_template path ≡ true
        → Among path templates

  request_body-Has :
      (method : lib.Value) (path : Bytes) (ref_keys : List Bytes) (m : List (Bytes × Store lib))
      → Has (process_request_body lib method path ref_keys m) path
  unfolding process_request_body
  request_body-Has method path ref_keys m = elim (Bool-cases (has_body_schema lib method)) [
    | inl b ↦ rw b (emplace_key-Has path _ m)
    | inr b ↦ rw b (emplace_key-Has path _ m)
  ]

  request_body_keeps-Has :
      (method : lib.Value) (path : Bytes) (ref_keys : List Bytes) (m : List (Bytes × Store lib))
      (other : Bytes)
      → Has m other
      → Has (process_request_body lib method path ref_keys m) other
  unfolding process_request_body
  request_body_keeps-Has method path ref_keys m other h =
      elim (Bool-cases (has_body_schema lib method)) [
        | inl b ↦ rw b (emplace_key_keeps-Has path _ other m h)
        | inr b ↦ rw b (emplace_key_keeps-Has path _ other m h)
      ]

  request_body_only-Has :
      (method : lib.Value) (path : Bytes) (ref_keys : List Bytes) (m : List (Bytes × Store lib))
      (other : Bytes)
      → Has (process_request_body lib method path ref_keys m) other
      → (path ≡ other) ⊎ Has m other
  unfolding process_request_body
  request_body_only-Has method path ref_keys m other h =
      elim (Bool-cases (has_body_schema lib method)) [
        | inl b ↦ emplace_key_only-Has path _ other m (rw b at h)
        | inr b ↦ emplace_key_only-Has path _ other m (rw b at h)
      ]

  add_parameters_keep-Has :
      (params : lib.Value) (path : Bytes) (ref_keys : List Bytes) (m m' : List (Bytes × Store lib))
      → add_parameters lib params path ref_keys m ≡ ok m'
      → (other : Bytes) → Has m other
      → Has m' other
  unfolding add_parameters
  add_parameters_keep-Has params path ref_keys m m' e other h =
      let (store, _, rest) = >>=-eq-ok (at_or_throw path m out_of_range) _ e in
      let (store', _, made) =
        >>=-eq-ok (add_param_validators lib path params ref_keys store) _ rest in
      let q : set_key path store' m ≡ m' = ok_eq made in
      rw (← q) (set_key_keeps-Has path store' other m h)

  add_parameters_only-Has :
      (params : lib.Value) (path : Bytes) (ref_keys : List Bytes) (m m' : List (Bytes × Store lib))
      → add_parameters lib params path ref_keys m ≡ ok m'
      → (other : Bytes) → Has m' other
      → (path ≡ other) ⊎ Has m other
  unfolding add_parameters
  add_parameters_only-Has params path ref_keys m m' e other h =
      let (store, _, rest) = >>=-eq-ok (at_or_throw path m out_of_range) _ e in
      let (store', _, made) =
        >>=-eq-ok (add_param_validators lib path params ref_keys store) _ rest in
      let q : set_key path store' m ≡ m' = ok_eq made in
      set_key_only-Has path store' other m (rw q h)

  parameters_only-Has :
      (method : lib.Value) (path : Bytes) (ref_keys : List Bytes) (m m' : List (Bytes × Store lib))
      → process_parameters lib method path ref_keys m ≡ ok m'
      → (other : Bytes) → Has m' other
      → (path ≡ other) ⊎ Has m other
  unfolding process_parameters
  parameters_only-Has method path ref_keys m m' e other h =
      elim (Bool-cases (lib.has_member method (codes "parameters"))) [
        | inl b ↦ add_parameters_only-Has _ path _ m m' (rw b at e) other h
        | inr b ↦ let q : m ≡ m' = ok_eq (rw b at e) in inr (rw q h)
      ]

  parameters_keep-Has :
      (method : lib.Value) (path : Bytes) (ref_keys : List Bytes) (m m' : List (Bytes × Store lib))
      → process_parameters lib method path ref_keys m ≡ ok m'
      → (other : Bytes) → Has m other
      → Has m' other
  unfolding process_parameters
  parameters_keep-Has method path ref_keys m m' e other h =
      elim (Bool-cases (lib.has_member method (codes "parameters"))) [
        | inl b ↦ add_parameters_keep-Has _ path _ m m' (rw b at e) other h
        | inr b ↦ let q : m ≡ m' = ok_eq (rw b at e) in rw (← q) h
      ]

  process_in-IsConsistent :
      (method : lib.Value) (path : Bytes) (ref_keys : List Bytes) (p p' : PerMethod lib)
      → process_in lib method path ref_keys p ≡ ok p'
      → IsConsistent p
      → IsConsistent p'
  unfolding process_in insert_template
  process_in-IsConsistent method path ref_keys p p' e c =
      let body = process_request_body lib method path ref_keys p.per_path_validators in
      let (per_path, tested, made) =
        >>=-eq-ok
          (requires (body_is_read lib method) (process_parameters lib method path ref_keys body)) _
          e in
      let (_, params) = requires-eq-ok (body_is_read lib method) _ tested in
      let only : (t : Bytes) → Has per_path t → (path ≡ t) ⊎ Has p.per_path_validators t = λ t h.
        elim (parameters_only-Has method path ref_keys body per_path params t h) [
          | inl q ↦ inl q
          | inr k ↦ request_body_only-Has method path ref_keys p.per_path_validators t k
        ] in
      let kept : (t : Bytes) → Has p.per_path_validators t → Has per_path t = λ t h.
        parameters_keep-Has method path ref_keys _ per_path params t
          (request_body_keeps-Has method path ref_keys p.per_path_validators t h) in
      rw (← ok_eq made) (elim (Bool-cases (has_byte b'{' path && has_byte b'}' path)) [
        | inl b ↦ record {
          templates = c.templates ++ path ∷ [];
          inserted =
              rw b (ap (insert path) c.inserted ∙ insert_all-append c.templates path root_node);
          stored = All-append (Has per_path) c.templates path (All-map c.templates kept c.stored) (
              parameters_keep-Has method path ref_keys _ per_path params path
                (request_body-Has method path ref_keys p.per_path_validators));
          complete = λ t h k. elim (only t h) [
            | inl q ↦ rw (← q) (Among-last c.templates path)
            | inr g ↦ Among-append t c.templates path (c.complete t g k)
          ];
        }
        | inr b ↦ record {
          templates = c.templates;
          inserted = rw b c.inserted;
          stored = All-map c.templates kept c.stored;
          complete = λ t h k. elim (only t h) [
            | inl q ↦ let same : is_template path ≡ true = rw q k in cc
            | inr g ↦ c.complete t g k
          ];
        }
      ])

  abbrev pub AreConsistent : OasValidatorImp lib → Type 0
  AreConsistent v = (m : HttpMethod) → IsConsistent (v.oas_validators m)

  process_method-AreConsistent :
      (member : Bytes × lib.Value) (path : Bytes) (ref_keys : List Bytes)
      (v v' : OasValidatorImp lib)
      → process_method lib member path ref_keys v ≡ ok v'
      → AreConsistent v
      → AreConsistent v'
  unfolding process_method
  process_method-AreConsistent (name, method) path ref_keys v v' e c m' =
      let (m, _, rest) = >>=-eq-ok (at_or_throw name string_to_method out_of_range) _ e in
      let (p, made, done) =
        >>=-eq-ok (process_in lib method path (ref_keys ++ name ∷ []) (v.oas_validators m)) _
          rest in
      let w : OasValidatorImp lib = record {
        method_map = v.method_map;
        oas_validators = set_method lib v.oas_validators m p;
      } in
      let q : w ≡ v' = ok_eq done in
      rw (← q) (elim (Bool-cases (method_index m == method_index m')) [
        | inl b ↦ rw b (process_in-IsConsistent method path _ _ p made (c m))
        | inr b ↦ rw b (c m')
      ])

  methods_loop-AreConsistent :
      (members : List (Bytes × lib.Value)) (path : Bytes) (ref_keys : List Bytes)
      (v v' : OasValidatorImp lib)
      → methods_loop lib members path ref_keys v ≡ ok v'
      → AreConsistent v
      → AreConsistent v'
  unfolding methods_loop
  methods_loop-AreConsistent [] path ref_keys v v' e c = rw (← ok_eq e) c
  methods_loop-AreConsistent (member ∷ members) path ref_keys v v' e c =
      let (w, first, rest) = >>=-eq-ok _ _ e in
      methods_loop-AreConsistent members path ref_keys w v' rest
        (process_method-AreConsistent member path ref_keys v w first c)

  paths_loop-AreConsistent :
      (paths : List (Bytes × lib.Value)) (ref_keys : List Bytes) (v v' : OasValidatorImp lib)
      → paths_loop lib paths ref_keys v ≡ ok v'
      → AreConsistent v
      → AreConsistent v'
  unfolding paths_loop process_path
  paths_loop-AreConsistent [] ref_keys v v' e c = rw (← ok_eq e) c
  paths_loop-AreConsistent ((path, methods) ∷ paths) ref_keys v v' e c =
      let (w, tested, rest) = >>=-eq-ok (process_path lib (path, methods) ref_keys v) _ e in
      let (_, first) = requires-eq-ok (lib.is_object methods) _ tested in
      paths_loop-AreConsistent paths ref_keys w v' rest
        (methods_loop-AreConsistent (lib.get_object methods) path _ v w first c)

  -- In a validator that the constructor returns, the trie of every method comes from calls of
  -- `Insert`. Each template that was inserted has its validators in the table of that method, and
  -- each path in that table that has a `{` and a `}` was inserted.
  pub construct-AreConsistent :
      (doc : lib.Value) (method_map : MethodMap) (v : OasValidatorImp lib)
      → construct lib doc method_map ≡ ok v
      → AreConsistent v
  unfolding construct
  construct-AreConsistent doc method_map v e =
      let (_, made) = requires-eq-ok (has_kind lib lib.is_object doc (codes "paths")) _ e in
      paths_loop-AreConsistent _ _ _ v made (λ m. record {
        templates = [];
        inserted = unfold insert_all in refl;
        stored = tt;
        complete = λ path (y, h) k. let z : none ≡ some y = unfold lookup in h in cc;
      })
