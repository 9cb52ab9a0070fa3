-- ===== src/Validators/Messages/Appends.antt =====
-- What the calls of `CreateErrorMessages` append, and that they read nothing of the message.
use cpp_oasvalidator.Prelude.{
  Bytes, codes, List, [], ◌∷◌, ◌++◌, append_assoc, append-nil, Bool, Bool-cases, inl, inr, ◌≡◌,
  refl, sym, ap, ◌∙◌,
}
use cpp_oasvalidator.Common.{Result, ok, throw, out_of_fuel, ◌>>=◌}
use cpp_oasvalidator.Json.{Members}
use cpp_oasvalidator.Validators.Messages.{
  is_empty, pop_comma, error_head, open_brace, close_brace, handle_members,
}
use cpp_oasvalidator.Validators.Messages.Render.{joined, ended, both, framed}

-- What a call appends.
abbrev pub Appends : (Bytes → Result Bytes) → Result Bytes → Type 0
Appends f r = (msg : Bytes) → f msg ≡ (r >>= λ t. ok (msg ++ t))

abbrev pub AppendsEnded : (Bytes → Result Bytes) → Result (List Bytes) → Type 0
AppendsEnded f r = (msg : Bytes) → f msg ≡ (r >>= λ ts. ok (msg ++ ended ts))

pub Appends-nothing : Appends (λ msg. ok msg) (ok [])
Appends-nothing msg = ap ok (sym (append-nil msg))

pub Appends-both :
    (f g : Bytes → Result Bytes) (r s : Result Bytes)
    → Appends f r
    → Appends g s
    → Appends (λ msg. f msg >>= g) (both r s)
Appends-both f g r s hf hg msg = rw (hf msg) (go r)
  where
    next :
        (a : Bytes) (s : Result Bytes)
        → (s >>= λ t. ok ((msg ++ a) ++ t)) ≡ ((s >>= λ b. ok (a ++ b)) >>= λ t. ok (msg ++ t))
    next a (ok b) = ap ok (append_assoc msg a b)
    next a (throw e) = refl
    next a out_of_fuel = refl

    go : (r : Result Bytes) → ((r >>= λ t. ok (msg ++ t)) >>= g) ≡ (both r s >>= λ t. ok (msg ++ t))
    go (ok a) = hg (msg ++ a) ∙ next a s
    go (throw e) = refl
    go out_of_fuel = refl

pub AppendsEnded-more :
    (f g : Bytes → Result Bytes) (r : Result Bytes) (s : Result (List Bytes))
    → Appends f r
    → AppendsEnded g s
    → AppendsEnded
        (λ msg. f msg >>= λ msg'. g (msg' ++ codes ","))
        (r >>= λ t. s >>= λ ts. ok (t ∷ ts))
AppendsEnded-more f g r s hf hg msg = rw (hf msg) (go r)
  where
    next :
        (a : Bytes) (s : Result (List Bytes))
        → (s >>= λ ts. ok (((msg ++ a) ++ codes ",") ++ ended ts))
          ≡ ((s >>= λ ts. ok (a ∷ ts)) >>= λ ts. ok (msg ++ ended ts))
    next a (ok ts) =
        ap ok
          (append_assoc (msg ++ a) (codes ",") (ended ts) ∙ append_assoc msg a (b',' ∷ ended ts))
    next a (throw e) = refl
    next a out_of_fuel = refl

    go :
        (r : Result Bytes)
        → ((r >>= λ t. ok (msg ++ t)) >>= λ msg'. g (msg' ++ codes ","))
          ≡ ((r >>= λ t. s >>= λ ts. ok (t ∷ ts)) >>= λ ts. ok (msg ++ ended ts))
    go (ok a) = hg ((msg ++ a) ++ codes ",") ∙ next a s
    go (throw e) = refl
    go out_of_fuel = refl

pop_comma-comma : (s : Bytes) → pop_comma (s ++ b',' ∷ []) ≡ s
unfolding pop_comma
pop_comma-comma [] = refl
pop_comma-comma (c ∷ []) = refl
pop_comma-comma (c ∷ d ∷ s) = ap (◌∷◌ c) (pop_comma-comma (d ∷ s))

pop_comma-bracket :
    (s : Bytes) → pop_comma (s ++ codes ",\"errors\":[") ≡ s ++ codes ",\"errors\":["
unfolding pop_comma
pop_comma-bracket [] = refl
pop_comma-bracket (c ∷ []) = refl
pop_comma-bracket (c ∷ d ∷ s) = ap (◌∷◌ c) (pop_comma-bracket (d ∷ s))

ended-joined : (t : Bytes) (ts : List Bytes) → ended (t ∷ ts) ≡ joined (t ∷ ts) ++ b',' ∷ []
ended-joined t [] = refl
ended-joined t (u ∷ ts) =
    ap (λ s. t ++ b',' ∷ s) (ended-joined u ts) ∙ sym (append_assoc t (b',' ∷ joined (u ∷ ts)) _)

pop_comma-ended :
    (s : Bytes) (ts : List Bytes)
    → pop_comma ((s ++ codes ",\"errors\":[") ++ ended ts)
      ≡ (s ++ codes ",\"errors\":[") ++ joined ts
pop_comma-ended s [] = rw append-nil (pop_comma-bracket s)
pop_comma-ended s (t ∷ ts) =
    rw
      (ended-joined t ts, ← append_assoc (s ++ codes ",\"errors\":[") (joined (t ∷ ts)) (b',' ∷ []))
      (pop_comma-comma _)

-- The texts of the errors inside, where the bracket is open.
pub pop_comma-AppendsEnded :
    (loop : Bytes → Result Bytes) (r : Result (List Bytes))
    → AppendsEnded loop r
    → (msg : Bytes)
    → (loop (msg ++ codes ",\"errors\":[") >>= λ msg'. ok (pop_comma msg'))
      ≡ (r >>= λ ts. ok ((msg ++ codes ",\"errors\":[") ++ joined ts))
pop_comma-AppendsEnded loop r h msg = rw (h (msg ++ codes ",\"errors\":[")) (go r)
  where
    go :
        (r : Result (List Bytes))
        → ((r >>= λ ts. ok ((msg ++ codes ",\"errors\":[") ++ ended ts)) >>= λ msg'.
            ok (pop_comma msg'))
          ≡ (r >>= λ ts. ok ((msg ++ codes ",\"errors\":[") ++ joined ts))
    go (ok ts) = ap ok (pop_comma-ended msg ts)
    go (throw e) = refl
    go out_of_fuel = refl

pub bracket_closed :
    (msg : Bytes) (r : Result (List Bytes))
    → ((r >>= λ ts. ok ((msg ++ codes ",\"errors\":[") ++ joined ts)) >>= λ msg'.
        ok (msg' ++ codes "]"))
      ≡ ((r >>= λ ts. ok (codes ",\"errors\":[" ++ (joined ts ++ codes "]"))) >>= λ t.
          ok (msg ++ t))
bracket_closed msg (ok ts) = ap ok (
    append_assoc (msg ++ codes ",\"errors\":[") (joined ts) (codes "]")
    ∙ append_assoc msg (codes ",\"errors\":[") (joined ts ++ codes "]"))
bracket_closed msg (throw e) = refl
bracket_closed msg out_of_fuel = refl

module _ (describe : Bytes → Bytes) where
  pub handle_members-framed :
      (name : Bytes) (error : Members) (context : Bytes) (recursive : Bool)
      (children : Bytes → Result Bytes) (inner : Result Bytes)
      → Appends children inner
      → Appends
          (handle_members describe name error context recursive children)
          (framed describe name error context recursive inner)
  unfolding handle_members framed
  handle_members-framed name error context recursive children inner h msg =
      elim (Bool-cases (is_empty error)) [
        | inl e ↦ rw (e, handle_members, framed) (Appends-nothing msg)
        | inr e ↦ rw (e, handle_members, framed) (go (error_head describe name error context))
      ]
    where
      close : Bytes
      close = close_brace describe recursive

      last :
          (head : Bytes) (r : Result Bytes)
          → ((r >>= λ t. ok ((msg ++ (open_brace describe recursive ++ head)) ++ t)) >>= λ msg'.
              ok (msg' ++ close))
            ≡ ((r >>= λ t. ok ((open_brace describe recursive ++ head) ++ (t ++ close))) >>= λ t.
                ok (msg ++ t))
      last head (ok t) = ap ok (
          append_assoc (msg ++ (open_brace describe recursive ++ head)) t close
          ∙ append_assoc msg (open_brace describe recursive ++ head) (t ++ close))
      last head (throw e) = refl
      last head out_of_fuel = refl

      go :
          (r : Result Bytes)
          → (r >>= λ head. children (msg ++ (open_brace describe recursive ++ head)) >>= λ msg'.
              ok (msg' ++ close))
            ≡ ((r >>= λ head.
                  inner >>= λ t. ok ((open_brace describe recursive ++ head) ++ (t ++ close)))
                >>= λ t. ok (msg ++ t))
      go (ok head) = rw (h (msg ++ (open_brace describe recursive ++ head))) (last head inner)
      go (throw e) = refl
      go out_of_fuel = refl
