-- ===== src/Validators/Store/Query.antt =====
-- `ValidatorsStore::ValidateQueryParams`
use cpp_oasvalidator.Prelude.{
  ℕ, zero, suc, ◌+◌, ◌-◌, Bytes, codes, equal, strip, take, drop, length, ltb, List, [], ◌∷◌, ◌++◌,
  ◌==◌, if◌then◌else◌, ◌||◌, Option, none, some,
}
use cpp_oasvalidator.Common.{
  none_error, invalid_query_param, Exception, out_of_range, Result, ok, throw, out_of_fuel,
}
use cpp_oasvalidator.Trie.{ParamRange}
use cpp_oasvalidator.Validators.{Report, lookup, emplace_key, Rapidjson}
use cpp_oasvalidator.Validators.Param.{ParamValidator, validate_param, error_on_missing}
use cpp_oasvalidator.Validators.Store.{Store}

-- `query.find(name)`
unfoldable pub find_text : Bytes → Bytes → Option ℕ
find_text name [] = if equal name [] then some 0 else none
find_text name (c ∷ s) = elim (strip name (c ∷ s)) [
  | some rest ↦ some 0
  | none ↦ elim (find_text name s) [ some i ↦ some (i + 1) | none ↦ none ]
]

-- `query[start - 1]`, with `outside` in front of the first byte
unfoldable pub byte_before : ℕ → Bytes → ℕ → ℕ
byte_before outside query zero = outside
byte_before outside [] (suc start) = 0
byte_before outside (c ∷ query) (suc start) = byte_before c query start

-- `std::set<size_t>::emplace`
unfoldable pub emplace_start : ℕ → List ℕ → List ℕ
emplace_start i [] = i ∷ []
emplace_start i (j ∷ js) =
    if i == j then j ∷ js else if ltb i j then i ∷ j ∷ js else j ∷ emplace_start i js

-- `*std::next(starts.find(start))`; `none` is a dereference of `end()`.
unfoldable pub next_start : ℕ → List ℕ → Option ℕ
next_start i [] = none
next_start i (j ∷ []) = none
next_start i (j ∷ k ∷ js) = if i == j then some k else next_start i (k ∷ js)

-- The pointers `query.data() + start` and `query.data() + end`.
unfoldable pub sub_range : Bytes → ℕ → ℕ → ParamRange
sub_range query start end = record {
  within = take (end - start) (drop start query);
  beyond = drop end query;
}

-- `starts` and `start_map`
pub record Starts : Type 0 where
  pub starts : List ℕ
  pub start_map : List (Bytes × ℕ)

-- Where the first loop ends: with `starts` and `start_map`, or with what the function returns.
pub data Scan : Type 0 where
  scanned : Starts → Scan
  returned : Report → Scan

-- `CHECK_ERROR(err_code)`
abbrev pub check_query_error : Report → (Bytes → Option (Result Report)) → Option (Result Report)
check_query_error (none_error, error_msg) go = go error_msg
check_query_error report go = some (ok report)

module _ (lib : Rapidjson) where
  -- The message on a name behind another byte.
  unfoldable pub misplaced_name : Bytes → ParamValidator lib → Report
  misplaced_name name v = (
    invalid_query_param,
    v.json.base.err_header
        ++ (codes "\"description\": \"Query parameter '"
            ++ (name ++ codes "' should start with '?' or '&'\"}}")),
  )

  -- `catch (const std::out_of_range&)` of the second loop
  abbrev pub catch_missing :
      ParamValidator lib → Exception → Option (Result Report) → Option (Result Report)
  catch_missing v out_of_range rest =
      if v.required then some (ok (error_on_missing lib v)) else rest
  catch_missing v exc rest = some (throw exc)

  -- The second loop. The undefined dereference of `end()` is the result `none`.
  unfoldable pub query_params_loop :
      Bytes → Starts → List (Bytes × ParamValidator lib) → Bytes → Option (Result Report)
  query_params_loop query s [] error_msg = some (ok (none_error, error_msg))
  query_params_loop query s ((name, v) ∷ vs) error_msg = elim (lookup name s.start_map) [
    | some start ↦ elim (next_start start s.starts) [
      | some next ↦ elim (validate_param lib v (sub_range query start (next - 1)) error_msg) [
        | ok report ↦ check_query_error report (query_params_loop query s vs)
        | throw exc ↦ catch_missing v exc (query_params_loop query s vs error_msg)
        | out_of_fuel ↦ some out_of_fuel
      ]
      | none ↦ none
    ]
    | none ↦ catch_missing v out_of_range (query_params_loop query s vs error_msg)
  ]

module _ (lib : Rapidjson) (outside : ℕ) where
  -- The first loop.
  unfoldable pub scan_loop : Bytes → List (Bytes × ParamValidator lib) → Starts → Scan
  scan_loop query [] s = scanned s
  scan_loop query ((name, v) ∷ vs) s = elim (find_text name query) [
    | some start ↦
        let rest = scan_loop query vs (record {
          starts = emplace_start start s.starts;
          start_map = emplace_key name start s.start_map;
        }) in
        if byte_before outside query start == b'?' || byte_before outside query start == b'&'
        then rest
        else returned (misplaced_name lib name v)
    | none ↦
        let rest = scan_loop query vs s in
        if v.required then returned (error_on_missing lib v) else rest
  ]

  -- `ValidateQueryParams`
  unfoldable pub validate_query_params : Store lib → Bytes → Bytes → Option (Result Report)
  validate_query_params store query error_msg =
      elim (scan_loop query store.query_param_validators (record { starts = []; start_map = [] })) [
        | scanned s ↦
            query_params_loop lib query
              (record {
                starts = emplace_start (length query + 1) s.starts;
                start_map = s.start_map;
              })
              store.query_param_validators error_msg
        | returned report ↦ some (ok report)
      ]
