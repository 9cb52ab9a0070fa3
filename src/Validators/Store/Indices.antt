-- ===== src/Validators/Store/Indices.antt =====
-- `GetPathParamIndices` and `PathTrie::Search` number the fragments of a path alike.
use cpp_oasvalidator.Prelude.{
  ℕ, zero, suc, ◌+◌, ◌≤◌, if◌then◌else◌, Bytes, equal, equal_iff, length, length-append, get_elem?,
  get_elem?-append_middle, All, List, [], ◌∷◌, ◌++◌, append_assoc, ◌==◌, ==_iff, Bool-cases,
  Option-cases, inl, inr, true, false, ◌≡◌, refl, sym, ap, none, some, arith,
}
use cpp_oasvalidator.Common.Fragments.{
  Fragment, fragments, dirs, path_of, ArePathDirs, dirs-path_of,
}
use cpp_oasvalidator.Trie.{
  begins_brace, HashOrder, ParamRange, ParamIdxs, at_idx, emplace, range_of, Found, search,
  insert_all, root_node,
}
use cpp_oasvalidator.Trie.Unambiguous.{IsUnambiguous, Instance, done, more, captures}
use cpp_oasvalidator.Trie.Finds.{search-path_of}
use cpp_oasvalidator.Validators.{lookup, emplace_key}
use cpp_oasvalidator.Validators.Store.{
  before_brace, braced_name, path_param_indices_loop, get_path_param_indices,
}

-- The fragment of a template for a parameter.
abbrev pub braces : Bytes → Bytes
braces name = b'{' ∷ (name ++ b'}' ∷ [])

before_brace_sound : (s name : Bytes) → before_brace s ≡ some name → s ≡ name ++ b'}' ∷ []
unfolding before_brace
before_brace_sound [] name e = cc
before_brace_sound (c ∷ []) name e = ground arith
before_brace_sound (c ∷ d ∷ s) name e = elim (Option-cases (before_brace (d ∷ s))) [
  | inl b ↦ absurd (ground arith)
  | inr (rest, b) ↦
      let q : c ∷ rest ≡ name = ground arith in
      rw (← q) (ap (◌∷◌ c) (before_brace_sound (d ∷ s) rest b))
]

braced_name_sound : (d name : Bytes) → braced_name d ≡ some name → d ≡ braces name
unfolding braced_name
braced_name_sound [] name e = cc
braced_name_sound (c ∷ d) name e = ground (arith, before_brace_sound d name)

-- Each entry is a parameter at its number.
abbrev AreBraced : List Bytes → List (Bytes × ℕ) → Type 0
AreBraced all = All (λ (e : Bytes × ℕ). get_elem? all e.1 ≡ some (braces e.0))

emplace_key-AreBraced :
    (all : List Bytes) (name : Bytes) (i : ℕ) (m : List (Bytes × ℕ))
    → get_elem? all i ≡ some (braces name)
    → AreBraced all m
    → AreBraced all (emplace_key name i m)
unfolding emplace_key
emplace_key-AreBraced all name i [] p h = (p, tt)
emplace_key-AreBraced all name i ((k, j) ∷ m) p (q, h) = elim (Bool-cases (equal k name)) [
  | inl same ↦ rw same (q, h)
  | inr other ↦ rw other (q, emplace_key-AreBraced all name i m p h)
]

indices_loop-AreBraced :
    (ds before : List Bytes) (k : ℕ) (m : List (Bytes × ℕ))
    → length before ≡ k
    → AreBraced (before ++ ds) m
    → AreBraced (before ++ ds) (path_param_indices_loop ds k m)
unfolding path_param_indices_loop
indices_loop-AreBraced [] before k m l h = h
indices_loop-AreBraced (d ∷ ds) before k m l h =
    rw moved (indices_loop-AreBraced ds (before ++ d ∷ []) (k + 1) _ longer (rw moved at round))
  where
    moved : before ++ d ∷ ds ≡ (before ++ d ∷ []) ++ ds
    moved = sym (append_assoc before (d ∷ []) ds)

    longer : length (before ++ d ∷ []) ≡ k + 1
    longer = omega (arith, length-append before (d ∷ []))

    round :
        AreBraced
          (before ++ d ∷ ds)
          (elim (braced_name d) [ some name ↦ emplace_key name k m | none ↦ m ])
    round = elim (Option-cases (braced_name d)) [
      | inl b ↦ rw b h
      | inr (name, b) ↦ rw b (
          emplace_key-AreBraced _ name k m
            (rw (← l, get_elem?-append_middle before ds d) (ap some (braced_name_sound d name b)))
            h)
    ]

pub lookup-All :
    (P : Bytes × ℕ → Type 0) (key : Bytes) (m : List (Bytes × ℕ)) (i : ℕ)
    → All P m
    → lookup key m ≡ some i
    → P (key, i)
unfolding lookup
lookup-All P key [] i h e = cc
lookup-All P key ((k, j) ∷ m) i (p, h) e = elim (Bool-cases (equal k key)) [
  | inl same ↦
      let q : j ≡ i = ground arith in let r : k ≡ key = (equal_iff k key).0 same in rw (← q, ← r) p
  | inr other ↦ lookup-All P key m i h (rw other at e)
]

at_idx-emplace :
    (i : ℕ) (r : ParamRange) (m : ParamIdxs) → at_idx i m ≡ none → at_idx i (emplace i r m) ≡ some r
unfolding at_idx emplace
at_idx-emplace i r [] h = rw ((==_iff i i).1 refl)
at_idx-emplace i r ((j, q) ∷ m) h = elim (Bool-cases (j == i)) [
  | inl e ↦ absurd (ground arith)
  | inr e ↦ rw (e, e) (at_idx-emplace i r m (rw e at h))
]

at_idx-emplace_other :
    (i j : ℕ) (r : ParamRange) (m : ParamIdxs)
    → (j == i) ≡ false
    → at_idx i m ≡ none
    → at_idx i (emplace j r m) ≡ none
unfolding at_idx emplace
at_idx-emplace_other i j r [] d h = rw d
at_idx-emplace_other i j r ((k, q) ∷ m) d h = elim (Bool-cases (k == i)) [
  | inl e ↦ absurd (ground arith)
  | inr e ↦ elim (Bool-cases (k == j)) [
    | inl f ↦ rw f h
    | inr f ↦ rw (f, e) (at_idx-emplace_other i j r m d (rw e at h))
  ]
]

at_idx-emplace_kept :
    (i j : ℕ) (r s : ParamRange) (m : ParamIdxs)
    → at_idx i m ≡ some s
    → at_idx i (emplace j r m) ≡ some s
unfolding at_idx emplace
at_idx-emplace_kept i j r s [] h = cc
at_idx-emplace_kept i j r s ((k, q) ∷ m) h = elim (Bool-cases (k == j)) [
  | inl f ↦ rw f h
  | inr f ↦ elim (Bool-cases (k == i)) [
    | inl e ↦ rw f (rw e (rw e at h))
    | inr e ↦ rw (f, e) (at_idx-emplace_kept i j r s m (rw e at h))
  ]
]

module _ (after : Bytes) where
  captures_kept :
      (ds : List Bytes) (fs : List Fragment) (k i : ℕ) (m : ParamIdxs) (s : ParamRange)
      → at_idx i m ≡ some s
      → at_idx i (captures after k ds fs m) ≡ some s
  unfolding captures
  captures_kept [] fs k i m s h = h
  captures_kept (d ∷ ds) [] k i m s h = h
  captures_kept (d ∷ ds) (f ∷ fs) k i m s h = captures_kept ds fs (k + 1) i _ s step
    where
      step : at_idx i (if begins_brace d then emplace k (range_of f after) m else m) ≡ some s
      step = elim (Bool-cases (begins_brace d)) [
        | inl b ↦ rw b (at_idx-emplace_kept i k (range_of f after) s m h)
        | inr b ↦ rw b h
      ]

  -- The fragment of the path at a parameter of the template is what its number leads to.
  captures_at :
      {ds : List Bytes} {fs : List Fragment} (k j : ℕ) (m : ParamIdxs) (d : Bytes)
      → Instance ds fs
      → get_elem? ds j ≡ some d
      → begins_brace d ≡ true
      → ((i : ℕ) → k ≤ i → at_idx i m ≡ none)
      → (f : Fragment) × (get_elem? fs j ≡ some f)
        × (at_idx (k + j) (captures after k ds fs m) ≡ some (range_of f after))
  unfolding captures
  captures_at k j m d done e b h = cc
  captures_at k zero m d (more {d = d'} {ds = ds} {f = f} {fs = fs} x i) e b h =
      let same : d' ≡ d = ground arith in
      (
        f,
        refl,
        rw (same, b)
            (captures_kept ds fs (k + 1) (k + 0) _ (range_of f after) (
              let z : k + 0 ≡ k = omega arith in
              rw z (at_idx-emplace k (range_of f after) m (h k (omega arith))))),
      )
  captures_at k (suc j) m d (more {d = d'} {ds = ds} {f = f} {fs = fs} x i) e b h =
      let (g, p, q) =
        captures_at (k + 1) j (if begins_brace d' then emplace k (range_of f after) m else m) d i e
          b above in
      let z : k + suc j ≡ k + 1 + j = omega arith in (g, p, rw z q)
    where
      above :
          (n : ℕ)
          → k + 1 ≤ n
          → at_idx n (if begins_brace d' then emplace k (range_of f after) m else m) ≡ none
      above n l = elim (Bool-cases (begins_brace d')) [
        | inl c ↦
            rw c (at_idx-emplace_other n k (range_of f after) m (ground arith) (h n (omega arith)))
        | inr c ↦ rw c (h n (omega arith))
      ]

-- The parameter that `GetPathParamIndices` numbers `i` is the fragment `i` of the template.
pub path_param_indices_sound :
    (path name : Bytes) (i : ℕ)
    → lookup name (get_path_param_indices path) ≡ some i
    → get_elem? (dirs path) i ≡ some (braces name)
unfolding get_path_param_indices
path_param_indices_sound path name i =
    lookup-All (λ (e : Bytes × ℕ). get_elem? (dirs path) e.1 ≡ some (braces e.0)) name _ i
      (indices_loop-AreBraced (dirs path) [] 0 [] refl tt)

-- Let a template be found by `Search`, as an unambiguous trie finds all of its templates. Under
-- the number that `GetPathParamIndices` has for a parameter of the template, the search has left
-- the fragment of the path that stands where the parameter stands in the template.
pub search-path_param_indices :
    (order : HashOrder) (before later ds : List Bytes) (path after name : Bytes) (i : ℕ)
    → ArePathDirs ds
    → IsUnambiguous (insert_all (before ++ path_of ds ∷ later) root_node)
    → Instance ds (fragments path)
    → lookup name (get_path_param_indices (path_of ds)) ≡ some i
    → (r : Found) × (f : Fragment) × (search order path after
          (insert_all (before ++ path_of ds ∷ later) root_node)
          []
        ≡ some r)
      × (r.found ≡ true)
      × (get_elem? ds i ≡ some (braces name))
      × (get_elem? (fragments path) i ≡ some f)
      × (at_idx i r.param_idxs ≡ some (range_of f after))
search-path_param_indices order before later ds path after name i h u inst e =
    let p : get_elem? ds i ≡ some (braces name) =
      rw (dirs-path_of ds h) at (path_param_indices_sound (path_of ds) name i e) in
    let (f, q, r) =
      captures_at after 0 i [] (braces name) inst p refl (λ n l. unfold at_idx in refl) in
    let z : 0 + i ≡ i = omega arith in
    (_, f, search-path_of order before later ds path after [] h u inst, refl, p, q, rw z at r)
