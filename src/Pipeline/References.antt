-- ===== src/Pipeline/References.antt =====
-- `Split` and `ResolvePath` of src/oas_validator_imp.cpp: where a reference into the document
-- leads.
use cpp_oasvalidator.Prelude.{
  ℕ, Bytes, codes, List, [], ◌∷◌, ◌++◌, append_assoc, append-nil, ◌==◌, ==_iff, if◌then◌else◌,
  Bool-cases, true, not, ◌||◌, ◌↔◌, inl, inr, ◌≡◌, ◌≢◌, refl, ap, ◌∙◌, arith,
}
use cpp_oasvalidator.Common.{validator_init, Result, ok, throw, ok_eq}
use cpp_oasvalidator.Common.Fragments.{
  Lacks, fragments, dirs, dirs-step, seek_found, seek_missing, append-cons-ne-nil, path_of,
  ArePathDirs, dirs-path_of,
}
use cpp_oasvalidator.Validators.{Rapidjson}

-- `while (getline(token_stream, token, '/')) tokens.push_back(token);`, with the part of the token
-- that was read. At the end of the stream a token is given only if something was read for it.
unfoldable pub split_loop : Bytes → Bytes → List Bytes
split_loop [] [] = []
split_loop (x ∷ token) [] = (x ∷ token) ∷ []
split_loop token (c ∷ str) =
    let next = split_loop [] str in
    let more = split_loop (token ++ c ∷ []) str in if c == b'/' then token ∷ next else more

-- `Split`
abbrev pub split : Bytes → List Bytes
split str = split_loop [] str

module _ (lib : Rapidjson) where
  -- The loop of `ResolvePath`.
  unfoldable pub resolve_loop : lib.Value → List Bytes → Result lib.Value
  resolve_loop current [] = ok current
  resolve_loop current (part ∷ parts) =
      let rest = resolve_loop (lib.index current part) parts in
      if not (lib.is_object current) || not (lib.has_member current part)
      then throw (validator_init (codes "Invalid path or missing member:" ++ part))
      else rest

  -- `ResolvePath`
  abbrev pub resolve_path : lib.Value → Bytes → Result lib.Value
  resolve_path doc path = resolve_loop doc (split path)

  -- A way through the members of objects.
  pub data Leads : lib.Value → List Bytes → lib.Value → Type 0 where
    here : (v : lib.Value) → Leads v [] v
    member :
        (v w : lib.Value) (part : Bytes) (parts : List Bytes)
        → lib.is_object v ≡ true
        → lib.has_member v part ≡ true
        → Leads (lib.index v part) parts w
        → Leads v (part ∷ parts) w

  pub leads : (v w : lib.Value) (parts : List Bytes) → Leads v parts w → resolve_loop v parts ≡ ok w
  unfolding resolve_loop
  leads v w [] (here _) = refl
  leads v w (part ∷ parts) (member _ _ _ _ o m l) = rw (o, m) (leads (lib.index v part) w parts l)

  led : (v w : lib.Value) (parts : List Bytes) → resolve_loop v parts ≡ ok w → Leads v parts w
  unfolding resolve_loop
  led v w [] e = let q : v ≡ w = ok_eq e in rw (← q) (here v)
  led v w (part ∷ parts) e = elim (Bool-cases (lib.is_object v)) [
    | inr o ↦ cc (rw o at e)
    | inl o ↦ elim (Bool-cases (lib.has_member v part)) [
      | inr m ↦ cc (rw (o, m) at e)
      | inl m ↦ member v w part parts o m (led (lib.index v part) w parts (rw (o, m) at e))
    ]
  ]

append-Lacks : (token : Bytes) (c : ℕ) → Lacks b'/' token → c ≢ b'/' → Lacks b'/' (token ++ c ∷ [])
append-Lacks [] c h n = (n, tt)
append-Lacks (x ∷ token) c (p, h) n = (p, append-Lacks token c h n)

split_loop-dirs :
    (token str : Bytes) → Lacks b'/' token → split_loop token str ≡ dirs (token ++ str)
unfolding split_loop
split_loop-dirs [] [] h = unfold fragments in refl
split_loop-dirs (x ∷ token) [] h =
    rw (append-nil token, dirs-step (x ∷ token) (λ e. cc), seek_missing (x ∷ token) b'/' h)
      (unfold fragments in refl)
split_loop-dirs token (c ∷ str) h = elim (Bool-cases (c == b'/')) [
  | inl e ↦
      let p : c ≡ b'/' = (==_iff c b'/').0 e in
      rw e (
        rw
          (
            p,
            dirs-step (token ++ b'/' ∷ str) (append-cons-ne-nil token b'/' str),
            seek_found token str b'/' h,
          )
          (ap (◌∷◌ token) (split_loop-dirs [] str tt)))
  | inr e ↦
      let n : c ≢ b'/' = λ p. ground (arith, (==_iff c b'/').1 p) in
      rw e (
        split_loop-dirs (token ++ c ∷ []) str (append-Lacks token c h n)
        ∙ rw (append_assoc token (c ∷ []) str))
]

-- `Split` gives the keys back that a path was put together from, if none of them holds a slash and
-- the last one is not empty.
pub split-path_of : (ds : List Bytes) → ArePathDirs ds → split (path_of ds) ≡ ds
split-path_of ds h = split_loop-dirs [] (path_of ds) tt ∙ dirs-path_of ds h

-- For a path put together from keys without a slash, of which the last is not empty, `ResolvePath`
-- returns a value exactly if the keys lead to it from the document through members of objects.
pub resolve_path_iff :
    (lib : Rapidjson) (doc v : lib.Value) (keys : List Bytes)
    → ArePathDirs keys
    → (resolve_path lib doc (path_of keys) ≡ ok v) ↔ Leads lib doc keys v
resolve_path_iff lib doc v keys h =
    rw (split-path_of keys h) (led lib doc v keys, leads lib doc v keys)
