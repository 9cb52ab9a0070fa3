-- ===== src/Common/Fragments.antt =====
-- `Seek` of include/utils/common.hpp, and the loop over the fragments of a path that
-- `PathTrie::Insert`, `PathTrie::Search` and `ValidatorsStore::GetPathParamIndices` share.
use mathlib.Core.List.{map}
use cpp_oasvalidator.Prelude.{
  append_assoc, ℕ, zero, suc, ◌≤◌, Bytes, length, List, [], ◌∷◌, ◌++◌, ◌==◌, if◌then◌else◌,
  Bool-cases, inl, inr, ◌≡◌, ◌≢◌, refl, ap, arith, All,
}

-- `Seek(beg, end, c)` on the text from `beg` to `end`: what stands before the pointer that it
-- returns, and what stands from there on.
unfoldable pub seek : Bytes → ℕ → Bytes × Bytes
seek [] c = ([], [])
seek (x ∷ s) c = let (before, from) = seek s c in if x == c then ([], x ∷ s) else (x ∷ before, from)

-- A fragment `[dir_start, dir_end)`, and the text from `dir_end` on.
pub record Fragment : Type 0 where
  pub dir : Bytes
  pub rest : Bytes

-- `dir_start = dir_end + 1`. At the end of the text the loop is over either way.
abbrev pub skip_one : Bytes → Bytes
skip_one [] = []
skip_one (x ∷ s) = s

-- `dir_end = Seek(dir_start, path_end, '/')`
abbrev pub next_fragment : Bytes → Fragment
next_fragment s = record { dir = (seek s b'/').0; rest = (seek s b'/').1 }

-- The rounds of `while (dir_start < path_end)`.
fragments_loop : ℕ → Bytes → List Fragment
fragments_loop zero s = []
fragments_loop (suc n) [] = []
fragments_loop (suc n) (x ∷ s) =
    next_fragment (x ∷ s) ∷ fragments_loop n (skip_one (next_fragment (x ∷ s)).rest)

unfoldable pub fragments : Bytes → List Fragment
unfolding fragments_loop seek
fragments path = fragments_loop (length path) path

-- What `seek` splits is the text, and the first part has no `c`.
pub seek-append : (s : Bytes) (c : ℕ) → (seek s c).0 ++ (seek s c).1 ≡ s
unfolding seek
seek-append [] c = refl
seek-append (x ∷ s) c = ground (arith, seek-append s c)

abbrev pub Lacks : ℕ → Bytes → Type 0
Lacks c = All (λ x. x ≢ c)

pub seek-Lacks : (s : Bytes) (c : ℕ) → Lacks c (seek s c).0
unfolding seek
seek-Lacks [] c = tt
seek-Lacks (x ∷ s) c = ground (arith, seek-Lacks s c)

length-seek : (s : Bytes) (c : ℕ) → length (seek s c).1 ≤ length s
unfolding seek
length-seek [] c = omega arith
length-seek (x ∷ s) c = ground (arith, length-seek s c)

pub length-skip_one-seek :
    (x : ℕ) (s : Bytes) (c : ℕ) → length (skip_one (seek (x ∷ s) c).1) ≤ length s
unfolding seek
length-skip_one-seek x s c = elim (Bool-cases (x == c)) [
  | inl e ↦ rw e (omega arith)
  | inr e ↦ rw e (below (seek s c).1 (length-seek s c))
]
  where
    below : (t : Bytes) → length t ≤ length s → length (skip_one t) ≤ length s
    below [] h = omega arith
    below (y ∷ t) h = omega arith

-- Any fuel from the length of the text on gives the same rounds.
fragments_loop-fuel :
    (n m : ℕ) (s : Bytes) → length s ≤ n → length s ≤ m → fragments_loop n s ≡ fragments_loop m s
unfolding fragments_loop
fragments_loop-fuel zero zero s h k = refl
fragments_loop-fuel zero (suc m) [] h k = refl
fragments_loop-fuel zero (suc m) (x ∷ s) h k = absurd (omega arith)
fragments_loop-fuel (suc n) zero [] h k = refl
fragments_loop-fuel (suc n) zero (x ∷ s) h k = absurd (omega arith)
fragments_loop-fuel (suc n) (suc m) [] h k = refl
fragments_loop-fuel (suc n) (suc m) (x ∷ s) h k = ap (◌∷◌ (next_fragment (x ∷ s))) (
    fragments_loop-fuel n m (skip_one (seek (x ∷ s) b'/').1)
      (omega (arith, length-skip_one-seek x s b'/')) (omega (arith, length-skip_one-seek x s b'/')))

-- One round of the loop, and then the loop on what it left: the fuel is never the reason to stop.
pub fragments-step :
    (x : ℕ) (s : Bytes)
    → fragments (x ∷ s) ≡ next_fragment (x ∷ s) ∷ fragments (skip_one (seek (x ∷ s) b'/').1)
unfolding fragments
fragments-step x s = ap (◌∷◌ (next_fragment (x ∷ s))) (
    fragments_loop-fuel (length s) (length (skip_one (seek (x ∷ s) b'/').1))
      (skip_one (seek (x ∷ s) b'/').1) (length-skip_one-seek x s b'/') (omega arith))

-- The fragments without their tails.
abbrev pub dirs : Bytes → List Bytes
dirs path = map (λ (f : Fragment). f.dir) (fragments path)

pub dirs-step : (s : Bytes) → s ≢ [] → dirs s ≡ (seek s b'/').0 ∷ dirs (skip_one (seek s b'/').1)
dirs-step [] h = absurd (h refl)
dirs-step (x ∷ s) h = ap (map (λ (f : Fragment). f.dir)) (fragments-step x s)

pub seek_found : (d r : Bytes) (c : ℕ) → Lacks c d → seek (d ++ c ∷ r) c ≡ (d, c ∷ r)
unfolding seek
seek_found [] r c h = ground arith
seek_found (x ∷ d) r c h = ground (arith, seek_found d r c)

pub seek_missing : (d : Bytes) (c : ℕ) → Lacks c d → seek d c ≡ (d, [])
unfolding seek
seek_missing [] c h = refl
seek_missing (x ∷ d) c h = ground (arith, seek_missing d c)

-- The path with the given fragments between its slashes.
abbrev pub path_of : List Bytes → Bytes
path_of [] = []
path_of (d ∷ []) = d
path_of (d ∷ e ∷ ds) = d ++ b'/' ∷ path_of (e ∷ ds)

-- No fragment holds a slash, and the last one is not empty.
abbrev pub ArePathDirs : List Bytes → Type 0
ArePathDirs [] = Unit
ArePathDirs (d ∷ []) = Lacks b'/' d × (d ≢ [])
ArePathDirs (d ∷ e ∷ ds) = Lacks b'/' d × ArePathDirs (e ∷ ds)

pub append-cons-ne-nil : (d : Bytes) (x : ℕ) (r : Bytes) → d ++ x ∷ r ≢ []
append-cons-ne-nil [] x r e = cc
append-cons-ne-nil (y ∷ d) x r e = cc

-- The loop takes a path apart into the fragments that it was put together from.
pub dirs-path_of : (ds : List Bytes) → ArePathDirs ds → dirs (path_of ds) ≡ ds
dirs-path_of [] h = unfold fragments in refl
dirs-path_of (d ∷ []) (l, ne) =
    rw (dirs-step d ne, seek_missing d b'/' l) (ap (◌∷◌ d) (unfold fragments in refl))
dirs-path_of (d ∷ e ∷ ds) (l, h) =
    rw
      (
        dirs-step _ (append-cons-ne-nil d b'/' (path_of (e ∷ ds))),
        seek_found d (path_of (e ∷ ds)) b'/' l,
      )
      (ap (◌∷◌ d) (dirs-path_of (e ∷ ds) h))

-- A slash behind the last fragment is lost.
pub path_of-dirs-slash :
    (ds : List Bytes) → ArePathDirs ds → path_of (dirs (path_of ds ++ b'/' ∷ [])) ≡ path_of ds
path_of-dirs-slash [] h = unfold fragments in refl
path_of-dirs-slash (d ∷ ds) h = ap path_of (go d ds h)
  where
    go :
        (d : Bytes) (ds : List Bytes)
        → ArePathDirs (d ∷ ds)
        → dirs (path_of (d ∷ ds) ++ b'/' ∷ []) ≡ d ∷ ds
    go d [] (l, ne) =
        rw (dirs-step _ (append-cons-ne-nil d b'/' []), seek_found d [] b'/' l)
          (ap (◌∷◌ d) (unfold fragments in refl))
    go d (e ∷ ds) (l, h) =
        rw
          (
            append_assoc d (b'/' ∷ path_of (e ∷ ds)) (b'/' ∷ []),
            dirs-step _ (append-cons-ne-nil d b'/' (path_of (e ∷ ds) ++ b'/' ∷ [])),
            seek_found d (path_of (e ∷ ds) ++ b'/' ∷ []) b'/' l,
          )
          (ap (◌∷◌ d) (go e ds h))
