-- ===== src/Accounting/Amounts/Digits.antt =====
-- Strings of digits: their numbers, and how `parts` reads them.
use plus_one.Accounting.Amounts.{
  big_int, replicate, to_digits, Bool, digit_zero, drop, pad_start, strip_zeros, take, suc, true,
  ◌∷◌, digits_of, is_digit, ltb,
}
use native.Mathlib.Nat.{pow-succ', mul_assoc}
use plus_one.Common.{
  ℕ, List, length, ◌++◌, ◌<◌, ◌≡◌, ◌≤◌, all, arith, ◌*◌, ◌-◌, Bool-cases, [], ap, length-append,
  zero, ◌+◌, ◌^◌, ◌∙◌, refl, ◌==◌, inl, inr, ◌/◌, ◌%◌, min, sym,
}

abbrev pub are_digits : List ℕ → Bool
are_digits cs = all is_digit cs

pub digits_of-stop :
    (cs t : List ℕ) → are_digits cs ≡ true → digits_of t ≡ ([], t) → digits_of (cs ++ t) ≡ (cs, t)
digits_of-stop [] t h e = e
digits_of-stop (c ∷ cs) t h e = ground (arith, digits_of-stop cs t)

pub big_int-append : (n : ℕ) (xs ys : List ℕ) → big_int n (xs ++ ys) ≡ big_int (big_int n xs) ys
big_int-append n [] ys = refl
big_int-append n (x ∷ xs) ys = big_int-append (n * 10 + (x - 48)) xs ys

pub big_int-strip_zeros : (cs ys : List ℕ) → big_int 0 (strip_zeros cs ++ ys) ≡ big_int 0 (cs ++ ys)
big_int-strip_zeros [] ys = refl
big_int-strip_zeros (c ∷ []) ys = refl
big_int-strip_zeros (c ∷ d ∷ cs) ys = elim (Bool-cases (c == digit_zero)) [
  | inl zeroed ↦ ground (arith, big_int-strip_zeros (d ∷ cs) ys)
  | inr other ↦ rw other refl
]

pub big_int-zeros : (n k : ℕ) → big_int n (replicate k digit_zero) ≡ n * 10 ^ k
big_int-zeros n zero = omega arith
big_int-zeros n (suc k) =
    let even : n * 10 + 0 ≡ n * 10 = omega arith in
    big_int-zeros (n * 10 + 0) k
    ∙ ap (λ (m : ℕ). m * 10 ^ k) even
    ∙ mul_assoc n 10 (10 ^ k)
    ∙ ap (λ (m : ℕ). n * m) (sym (pow-succ' 10 k))

pub big_int-pad_start : (k : ℕ) (cs : List ℕ) → big_int 0 (pad_start k cs) ≡ big_int 0 cs
big_int-pad_start k cs =
    big_int-append 0 (replicate (k - length cs) digit_zero) cs
    ∙ ap (λ (n : ℕ). big_int n cs) (big_int-zeros 0 (k - length cs) ∙ omega arith)

pub are_digits-append :
    (xs ys : List ℕ) → are_digits xs ≡ true → are_digits ys ≡ true → are_digits (xs ++ ys) ≡ true
are_digits-append [] ys h k = k
are_digits-append (x ∷ xs) ys h k = ground (arith, are_digits-append xs ys)

pub are_digits-zeros : (k : ℕ) → are_digits (replicate k digit_zero) ≡ true
are_digits-zeros zero = refl
are_digits-zeros (suc k) = are_digits-zeros k

-- Fuel above the number is enough.
pub to_digits-eq :
    (fuel n : ℕ)
    → n < fuel
    → (big_int 0 (to_digits fuel n) ≡ n) × (are_digits (to_digits fuel n) ≡ true)
unfolding to_digits
to_digits-eq zero n l = ground arith
to_digits-eq (suc fuel) n l = elim (Bool-cases (ltb n 10)) [
  | inl small ↦ rw small (omega arith, ground arith)
  | inr large ↦
      let (value, ds) = to_digits-eq fuel (n / 10) (ground arith) in
      rw large (
        big_int-append 0 (to_digits fuel (n / 10)) ((48 + n % 10) ∷ []) ∙ ground arith,
        are_digits-append (to_digits fuel (n / 10)) ((48 + n % 10) ∷ []) ds (ground arith),
      )
]

pub length-replicate : (k c : ℕ) → length (replicate k c) ≡ k
length-replicate zero c = refl
length-replicate (suc k) c = omega (arith, length-replicate k c)

pub length-pad_start : (k : ℕ) (cs : List ℕ) → k ≤ length (pad_start k cs)
length-pad_start k cs = omega (
  arith,
  length-append {0} (replicate (k - length cs) digit_zero) cs,
  length-replicate (k - length cs) digit_zero,
)

pub take-drop : (n : ℕ) (cs : List ℕ) → take n cs ++ drop n cs ≡ cs
take-drop zero cs = refl
take-drop (suc n) [] = refl
take-drop (suc n) (c ∷ cs) = ap (λ (t : List ℕ). c ∷ t) (take-drop n cs)

pub length-drop : (n : ℕ) (cs : List ℕ) → length (drop n cs) ≡ length cs - n
length-drop zero cs = omega arith
length-drop (suc n) [] = omega arith
length-drop (suc n) (c ∷ cs) = omega (arith, length-drop n cs)

pub are_digits-take :
    (n : ℕ) (cs : List ℕ)
    → are_digits cs ≡ true
    → (are_digits (take n cs) ≡ true) × (are_digits (drop n cs) ≡ true)
are_digits-take zero cs h = (refl, h)
are_digits-take (suc n) [] h = (refl, refl)
are_digits-take (suc n) (c ∷ cs) h = ground (arith, are_digits-take n cs)

pub digits_of-all : (cs : List ℕ) → are_digits cs ≡ true → digits_of cs ≡ (cs, [])
digits_of-all [] h = refl
digits_of-all (c ∷ cs) h = ground (arith, digits_of-all cs)

pub length-take : (n : ℕ) (cs : List ℕ) → length (take n cs) ≡ min n (length cs)
length-take zero cs = omega arith
length-take (suc n) [] = omega arith
length-take (suc n) (c ∷ cs) = omega (arith, length-take n cs)

pub append-nil : (cs : List ℕ) → cs ++ [] ≡ cs
append-nil [] = refl
append-nil (c ∷ cs) = ap (λ (t : List ℕ). c ∷ t) (append-nil cs)
