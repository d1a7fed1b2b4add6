-- ===== src/Teams/Failures/Codes.antt =====
-- packages/runtime/src/execution/execution-failure.ts: which codes `normalizeErrorCode` gives.
use plus_one.Common.{
  ℕ, Bool, List, [], ◌∷◌, all, ◌≡◌, refl, true, false, leb, length, arith, zero, suc, ◌≤◌,
  Bool-cases, inl, inr, map,
}
use plus_one.Teams.Failures.{
  is_code, is_code_char, normalize_error_code, normalized, starts_lower, strip_end, strip_start,
  take, underscored, is_underscore, joined, to_lower, is_space,
}

underscored-all : (b : Bool) (cs : List ℕ) → all is_code_char (underscored b cs) ≡ true
underscored-all b [] = refl
underscored-all b (c ∷ cs) = elim (Bool-cases (is_code_char c)) [
  | inl ok ↦ ground (arith, underscored-all false cs)
  | inr no_code ↦ ground (arith, underscored-all true cs)
]

all-strip_start :
    (p : ℕ → Bool) (cs : List ℕ)
    → all is_code_char cs ≡ true
    → all is_code_char (strip_start p cs) ≡ true
all-strip_start p [] h = refl
all-strip_start p (c ∷ cs) h = ground (arith, all-strip_start p cs)

all-strip_end :
    (p : ℕ → Bool) (cs : List ℕ)
    → all is_code_char cs ≡ true
    → all is_code_char (strip_end p cs) ≡ true
all-strip_end p [] h = refl
all-strip_end p (c ∷ cs) h = ground (arith, all-strip_end p cs)

all-take : (n : ℕ) (cs : List ℕ) → all is_code_char cs ≡ true → all is_code_char (take n cs) ≡ true
all-take zero cs h = refl
all-take (suc n) [] h = refl
all-take (suc n) (c ∷ cs) h = ground (arith, all-take n cs)

length-take-le : (n : ℕ) (cs : List ℕ) → length (take n cs) ≤ n
length-take-le zero cs = omega arith
length-take-le (suc n) [] = omega arith
length-take-le (suc n) (c ∷ cs) = omega (arith, length-take-le n cs)

starts_lower-take :
    (n : ℕ) (cs : List ℕ) → starts_lower cs ≡ true → starts_lower (take (suc n) cs) ≡ true
starts_lower-take n [] h = h
starts_lower-take n (c ∷ cs) h = h

all-normalized : (cs : List ℕ) → all is_code_char (normalized cs) ≡ true
all-normalized cs =
    let here : all is_code_char (joined cs) ≡ true =
      underscored-all false (map to_lower (strip_end is_space (strip_start is_space cs))) in
    all-strip_end is_underscore (strip_start is_underscore (joined cs))
      (all-strip_start is_underscore (joined cs) here)

-- Whatever the code of an error is, the normalized code starts with a lower-case letter, has only
-- lower-case letters, digits and underscores and is no longer than 128, so that it fits the schema
-- of a failure exactly when it has two characters at least.
pub normalize_error_code-fits :
    (cs : List ℕ)
    → (starts_lower (normalize_error_code cs) ≡ true)
      × (all is_code_char (normalize_error_code cs) ≡ true)
      × (length (normalize_error_code cs) ≤ 128)
      × (is_code (normalize_error_code cs) ≡ leb 2 (length (normalize_error_code cs)))
unfolding normalize_error_code
normalize_error_code-fits cs = elim (Bool-cases (starts_lower (normalized cs))) [
  | inl ok ↦
      let first = starts_lower-take 127 (normalized cs) ok in
      let chars = all-take 128 (normalized cs) (all-normalized cs) in
      let short = length-take-le 128 (normalized cs) in rw ok (first, chars, short, ground arith)
  | inr other ↦ rw other (refl, refl, omega arith, refl)
]
