-- ===== src/Validators/Store/QueryRanges.antt =====
-- The ranges that `ValidateQueryParams` cuts out of the query.
use cpp_oasvalidator.Prelude.{
  All-map, ℕ, ◌+◌, ◌-◌, ◌≤◌, ◌<◌, Bytes, equal, length, All, List, [], ◌∷◌, ◌==◌, Bool-cases,
  Option, Option-cases, inl, inr, ◌||◌, ◌≡◌, refl, some, arith,
}
use cpp_oasvalidator.Common.{Result, ok, throw, out_of_fuel, out_of_range, Exception, none_error}
use cpp_oasvalidator.Validators.{Report, lookup, emplace_key, Rapidjson}
use cpp_oasvalidator.Validators.Param.{ParamValidator, validate_param}
use cpp_oasvalidator.Validators.Store.{Store}
use cpp_oasvalidator.Validators.Store.Query.{
  find_text, byte_before, emplace_start, next_start, sub_range, Starts, Scan, scanned, returned,
  scan_loop, catch_missing, check_query_error, query_params_loop, validate_query_params,
}
use cpp_oasvalidator.Validators.Store.Indices.{lookup-All}
use cpp_oasvalidator.Validators.Store.QueryStarts.{
  IsIn, Ascending, find_text_bound, emplace_start-IsIn, emplace_start_keeps-IsIn, emplace_start-All,
  emplace_start-Ascending, emplace_start_last, next_start_found, next_start_above, next_start-All,
}

-- What is true of `starts` and `start_map` in the first loop.
record IsScanned (query : Bytes) (s : Starts) : Type 0 where
  entries :
      All (λ (e : Bytes × ℕ). (find_text e.0 query ≡ some e.1) × IsIn e.1 s.starts) s.start_map
  bounded : All (λ i. i ≤ length query) s.starts
  ascending : Ascending s.starts

emplace_key-All :
    (P : Bytes × ℕ → Type 0) (key : Bytes) (i : ℕ) (m : List (Bytes × ℕ))
    → P (key, i)
    → All P m
    → All P (emplace_key key i m)
unfolding emplace_key
emplace_key-All P key i [] p h = (p, tt)
emplace_key-All P key i ((k, j) ∷ m) p (q, h) = elim (Bool-cases (equal k key)) [
  | inl e ↦ rw e (q, h)
  | inr e ↦ rw e (q, emplace_key-All P key i m p h)
]

-- The entries stay right when a start is added.
entries_kept :
    (query : Bytes) (start : ℕ) (starts : List ℕ) (m : List (Bytes × ℕ))
    → All (λ (e : Bytes × ℕ). (find_text e.0 query ≡ some e.1) × IsIn e.1 starts) m
    → All
        (λ (e : Bytes × ℕ).
          (find_text e.0 query ≡ some e.1) × IsIn e.1 (emplace_start start starts))
        m
entries_kept query start starts [] h = tt
entries_kept query start starts (e ∷ m) ((f, i), h) =
    ((f, emplace_start_keeps-IsIn start e.1 starts i), entries_kept query start starts m h)

emplaced-IsScanned :
    (query name : Bytes) (start : ℕ) (s : Starts)
    → find_text name query ≡ some start
    → IsScanned query s
    → IsScanned query (record {
      starts = emplace_start start s.starts;
      start_map = emplace_key name start s.start_map;
    })
emplaced-IsScanned query name start s f h = record {
  entries =
      emplace_key-All _ name start s.start_map (f, emplace_start-IsIn start s.starts)
        (entries_kept query start s.starts s.start_map h.entries);
  bounded =
      emplace_start-All (λ i. i ≤ length query) start s.starts (find_text_bound name query start f)
        h.bounded;
  ascending = emplace_start-Ascending start s.starts h.ascending;
}

module _ (lib : Rapidjson) where
  scan_loop-IsScanned :
      (outside : ℕ) (query : Bytes) (vs : List (Bytes × ParamValidator lib)) (s s' : Starts)
      → scan_loop lib outside query vs s ≡ scanned s'
      → IsScanned query s
      → IsScanned query s'
  unfolding scan_loop
  scan_loop-IsScanned outside query [] s s' e h = let q : s ≡ s' = scanned_eq e in rw (← q) h
    where
      scanned_eq : {a b : Starts} → scanned a ≡ scanned b → a ≡ b
      scanned_eq p = cc
  scan_loop-IsScanned outside query ((name, v) ∷ vs) s s' e h =
      elim (Option-cases (find_text name query)) [
        | inl f ↦ elim (Bool-cases v.required) [
          | inl b ↦ absurd (returned_ne (rw (f, b, scan_loop) at e))
          | inr b ↦ scan_loop-IsScanned outside query vs s s' (rw (f, b, scan_loop) at e) h
        ]
        | inr (start, f) ↦
            elim (Bool-cases (
              byte_before outside query start == b'?' || byte_before outside query start == b'&')) [
                | inl b ↦
                    scan_loop-IsScanned outside query vs _ s' (rw (f, b, scan_loop) at e)
                      (emplaced-IsScanned query name start s f h)
                | inr b ↦ absurd (returned_ne (rw (f, b, scan_loop) at e))
              ]
      ]
    where
      returned_ne : {r : Report} {a : Starts} → returned r ≡ scanned a → ⊥
      returned_ne p = cc

  -- Each start that the second loop looks up is followed by a greater one, at most one behind the end.
  pub record IsCut (query name : Bytes) (start : ℕ) (starts : List ℕ) : Type 0 where
    pub next : ℕ
    pub found : find_text name query ≡ some start
    pub follows : next_start start starts ≡ some next
    pub above : start < next
    pub bounded : next ≤ length query + 1

  scanned-IsCut :
      (query name : Bytes) (start : ℕ) (s : Starts)
      → IsScanned query s
      → lookup name s.start_map ≡ some start
      → IsCut query name start (emplace_start (length query + 1) s.starts)
  scanned-IsCut query name start s h e =
      let (f, i) = lookup-All _ name s.start_map start h.entries e in
      let (next, n) = next_start_found start (length query + 1) s.starts i in
      let p : next_start start (emplace_start (length query + 1) s.starts) ≡ some next =
        rw (emplace_start_last (length query) s.starts h.bounded) n in
      record {
        next = next;
        found = f;
        follows = p;
        above =
            next_start_above start next _
              (emplace_start-Ascending (length query + 1) s.starts h.ascending) p;
        bounded =
            next_start-All (λ k. k ≤ length query + 1) start next _
              (emplace_start-All (λ k. k ≤ length query + 1) (length query + 1) s.starts
                (omega arith) (All-map s.starts (λ i q. omega arith) h.bounded))
              p;
      }

  -- What `ValidateQueryParams` has in `starts` and `start_map` behind its first loop: each name in
  -- the map is at the start that `find` gave, and behind it stands the end of its text, which is
  -- above the start and at most one behind the end of the query. So the pointers that the second
  -- loop makes lie in the query, the first not behind the second.
  pub scan_loop-IsCut :
      (outside : ℕ) (query : Bytes) (vs : List (Bytes × ParamValidator lib)) (s : Starts)
      (name : Bytes) (start : ℕ)
      → scan_loop lib outside query vs (record { starts = []; start_map = [] }) ≡ scanned s
      → lookup name s.start_map ≡ some start
      → IsCut query name start (emplace_start (length query + 1) s.starts)
  scan_loop-IsCut outside query vs s name start e = scanned-IsCut query name start s (
      scan_loop-IsScanned outside query vs _ s e
        (record { entries = tt; bounded = tt; ascending = tt }))

  catch_missing_total :
      (v : ParamValidator lib) (exc : Exception) (rest : Option (Result Report))
      → (r : Result Report) × (rest ≡ some r)
      → (r : Result Report) × (catch_missing lib v exc rest ≡ some r)
  catch_missing_total v out_of_range rest h = elim (Bool-cases v.required) [
    | inl b ↦ rw b (_, refl)
    | inr b ↦ rw b h
  ]
  catch_missing_total v _ rest h = (_, refl)

  -- What the second loop makes of the result of a validator.
  after_param_total :
      (v : ParamValidator lib) (result : Result Report) (msg : Bytes)
      (rest : Bytes → Option (Result Report))
      → ((m : Bytes) → (r : Result Report) × (rest m ≡ some r))
      → (r : Result Report) × ((elim result [
        | ok report ↦ check_query_error report rest
        | throw exc ↦ catch_missing lib v exc (rest msg)
        | out_of_fuel ↦ some out_of_fuel
      ])
          ≡ some r)
  after_param_total v (ok (none_error, m)) msg rest h = h m
  after_param_total v (ok (_, m)) msg rest h = (_, refl)
  after_param_total v (throw exc) msg rest h = catch_missing_total v exc (rest msg) (h msg)
  after_param_total v out_of_fuel msg rest h = (_, refl)

  query_params_loop_total :
      (query : Bytes) (s : Starts) (vs : List (Bytes × ParamValidator lib))
      → ((name : Bytes) (start : ℕ)
          → lookup name s.start_map ≡ some start
          → (k : ℕ) × (next_start start s.starts ≡ some k))
      → (msg : Bytes) → (r : Result Report) × (query_params_loop lib query s vs msg ≡ some r)
  unfolding query_params_loop
  query_params_loop_total query s [] h msg = (_, refl)
  query_params_loop_total query s ((name, v) ∷ vs) h msg =
      let rest = query_params_loop_total query s vs h in
      elim (Option-cases (lookup name s.start_map)) [
        | inl e ↦ rw (e, query_params_loop) (catch_missing_total v out_of_range _ (rest msg))
        | inr (start, e) ↦
            let (k, n) = h name start e in
            rw (e, n, query_params_loop)
              (after_param_total v (validate_param lib v (sub_range query start (k - 1)) msg) msg
                (query_params_loop lib query s vs) rest)
      ]

  -- `ValidateQueryParams` never dereferences the end of `starts`, whatever the query is, whatever
  -- parameters there are and whatever stands in front of the query.
  pub validate_query_params_total :
      (outside : ℕ) (store : Store lib) (query msg : Bytes)
      → (r : Result Report) × (validate_query_params lib outside store query msg ≡ some r)
  unfolding validate_query_params
  validate_query_params_total outside store query msg =
      go
        (scan_loop lib outside query store.query_param_validators
          (record { starts = []; start_map = [] }))
        refl
    where
      go :
          (scan : Scan)
          → scan_loop lib outside query store.query_param_validators
              (record { starts = []; start_map = [] })
            ≡ scan
          → (r : Result Report) × (validate_query_params lib outside store query msg ≡ some r)
      go (returned report) e = rw (e, validate_query_params) (_, refl)
      go (scanned s) e =
          rw (e, validate_query_params)
            (query_params_loop_total query _ store.query_param_validators
              (λ name start l.
                let c =
                  scan_loop-IsCut outside query store.query_param_validators s name start e l in
                (c.next, c.follows))
              msg)
