-- ===== src/Accounting/Amounts/Order.antt =====
-- packages/accounting/src/amounts.ts: the comparison against the fractions that the strings stand
-- for, and negation.
use plus_one.Accounting.Amounts.Digits.{big_int-append, big_int-zeros}
use plus_one.Common.Int.{◌+ℤ◌}
use plus_one.Accounting.Amounts.{
  Parts, Bool, Sign, aligned_parts, big_int, max, sign, signed, negate, scale_of, replicate,
  digit_zero, compare_decimal_strings, not, suc, aligned, List, parts, some, Option,
  negate_decimal_string, pos, unsigned_parts, ℤ, compare_parts, negsuc, starts_with_minus,
  with_fraction, difference_sign, ◌∷◌, aligned_of, is_digit, pad_end, parts_of_run, slice1,
  digits_of, fraction_of,
}
use native.Mathlib.Nat.{mul_assoc, mul-pos, mul-lt-mul_of_pos_right, pow-succ', one-mul, one-le-pow}
use plus_one.Common.{
  true, false, ℕ, ◌*◌, ◌<◌, ◌^◌, ◌≡◌, ◌⊎◌, Bool-cases, arith, ◌++◌, ◌-◌, ◌==◌, inl, min, inr, ◌+◌,
  ap, ◌∙◌, sym, zero, refl, none, [],
}

-- The number without its point.
abbrev pub numerator : Parts → ℕ
numerator p = big_int 0 (p.integer ++ p.fraction)

aligned_parts-eq :
    (scale : ℕ) (p : Parts)
    → aligned_parts scale p ≡ signed p.negative (numerator p * 10 ^ (scale - scale_of p))
aligned_parts-eq scale p =
    let zeros = replicate (scale - scale_of p) digit_zero in
    ap (signed p.negative) (
      big_int-append 0 p.integer (p.fraction ++ zeros)
      ∙ big_int-append (big_int 0 p.integer) p.fraction zeros
      ∙ big_int-zeros (big_int (big_int 0 p.integer) p.fraction) (scale - scale_of p)
      ∙ ap (λ (n : ℕ). n * 10 ^ (scale - scale_of p)) (sym (big_int-append 0 p.integer p.fraction)))

-- Both fractions over their common denominator 10 ^ (scale_of l + scale_of r).
abbrev pub fraction_sign : Parts → Parts → Sign
fraction_sign l r = sign (
    signed l.negative (numerator l * 10 ^ scale_of r)
    +ℤ negate (signed r.negative (numerator r * 10 ^ scale_of l)))

-- Two magnitudes in the order of two others, and zero where these are.
record SameOrder (x y x' y' : ℕ) : Type 0 where
  below : ((x < y) × (x' < y')) ⊎ ((x ≡ y) × (x' ≡ y')) ⊎ ((y < x) × (y' < x'))
  left_zero : ((x ≡ 0) × (x' ≡ 0)) ⊎ ((0 < x) × (0 < x'))
  right_zero : ((y ≡ 0) × (y' ≡ 0)) ⊎ ((0 < y) × (0 < y'))

sign-same :
    (n m : Bool) (x y x' y' : ℕ)
    → SameOrder x y x' y'
    → sign (signed n x' +ℤ negate (signed m y')) ≡ sign (signed n x +ℤ negate (signed m y))
unfolding ◌+ℤ◌
sign-same true true x y x' y' s = ground (arith, s.below, s.left_zero, s.right_zero)
sign-same true false x y x' y' s = ground (arith, s.below, s.left_zero, s.right_zero)
sign-same false true x y x' y' s = ground (arith, s.below, s.left_zero, s.right_zero)
sign-same false false x y x' y' s = ground (arith, s.below, s.left_zero, s.right_zero)

compare-cases : (x y : ℕ) → (x < y) ⊎ (x ≡ y) ⊎ (y < x)
compare-cases x y = omega arith

scaled_zero : (x c : ℕ) → 0 < c → ((x ≡ 0) × (x * c ≡ 0)) ⊎ ((0 < x) × (0 < x * c))
scaled_zero x c l = elim (Bool-cases (x == 0)) [
  | inl z ↦ let e : x ≡ 0 = ground arith in inl (e, rw e (omega arith))
  | inr nz ↦ let p : 0 < x = ground arith in inr (p, mul-pos p l)
]

scaled-SameOrder : (x y c : ℕ) → 0 < c → SameOrder x y (x * c) (y * c)
scaled-SameOrder x y c l = record {
  below = elim (compare-cases x y) [
    | inl less_than ↦ inl (less_than, mul-lt-mul_of_pos_right less_than l)
    | inr (inl e) ↦ inr (inl (e, ap (λ (n : ℕ). n * c) e))
    | inr (inr more) ↦ inr (inr (more, mul-lt-mul_of_pos_right more l))
  ];
  left_zero = scaled_zero x c l;
  right_zero = scaled_zero y c l;
}

pow-add : (i j : ℕ) → 10 ^ (i + j) ≡ 10 ^ i * 10 ^ j
pow-add zero j = ap (λ (k : ℕ). 10 ^ k) (omega arith) ∙ sym (one-mul (10 ^ j))
pow-add (suc i) j =
    let shift_suc : suc i + j ≡ suc (i + j) = omega arith in
    ap (λ (k : ℕ). 10 ^ k) shift_suc
    ∙ pow-succ' 10 (i + j)
    ∙ ap (λ (m : ℕ). 10 * m) (pow-add i j)
    ∙ sym (mul_assoc 10 (10 ^ i) (10 ^ j))
    ∙ ap (λ (m : ℕ). m * 10 ^ j) (sym (pow-succ' 10 i))

-- At the larger of the two scales each string has its fraction's numerator over the common
-- denominator, up to the same power of ten.
shared_power : (x i j s k : ℕ) → s ≡ max i j → k ≡ min i j → x * 10 ^ j ≡ x * 10 ^ (s - i) * 10 ^ k
shared_power x i j s k e f =
    let split_up : j ≡ (s - i) + k = omega arith in
    ap (λ (n : ℕ). x * 10 ^ n) split_up
    ∙ ap (λ (p : ℕ). x * p) (pow-add (s - i) k)
    ∙ sym (mul_assoc x (10 ^ (s - i)) (10 ^ k))

fraction_sign-eq :
    (l r : Parts) (s k : ℕ)
    → s ≡ max (scale_of l) (scale_of r)
    → k ≡ min (scale_of l) (scale_of r)
    → sign (aligned_parts s l +ℤ negate (aligned_parts s r)) ≡ fraction_sign l r
fraction_sign-eq l r s k e f =
    let x = numerator l * 10 ^ (s - scale_of l) in
    let y = numerator r * 10 ^ (s - scale_of r) in
    let c = 10 ^ k in
    let positive : 0 < c = one-le-pow k 10 (omega arith) in
    let left = shared_power (numerator l) (scale_of l) (scale_of r) s k e f in
    let right =
      shared_power (numerator r) (scale_of r) (scale_of l) s k (omega arith) (omega arith) in
    rw (aligned_parts-eq s l, aligned_parts-eq s r, left, right)
      (sym (sign-same l.negative r.negative x y (x * c) (y * c) (scaled-SameOrder x y c positive)))

-- Two decimal strings compare as the fractions that they stand for, whatever their scales: as their
-- digits without the point, each times the other's power of ten.
pub compare_decimal_strings-eq :
    (left right : List ℕ) (l r : Parts)
    → parts left ≡ some l
    → parts right ≡ some r
    → compare_decimal_strings left right ≡ some (fraction_sign l r)
unfolding compare_decimal_strings aligned
compare_decimal_strings-eq left right l r e f =
    let s = max (scale_of l) (scale_of r) in
    ap (λ (o : Option Parts). compare_parts left right o (parts right)) e
    ∙ ap (compare_parts left right (some l)) f
    ∙ ap (λ (o : Option Parts). difference_sign (aligned_of s o) (aligned_of s (parts right))) e
    ∙ ap (λ (o : Option Parts). difference_sign (some (aligned_parts s l)) (aligned_of s o)) f
    ∙ ap some (fraction_sign-eq l r s (min (scale_of l) (scale_of r)) refl refl)

negate-negate : (z : ℤ) → negate (negate z) ≡ z
negate-negate (pos zero) = refl
negate-negate (pos (suc n)) = refl
negate-negate (negsuc n) = refl

signed-not : (b : Bool) (n : ℕ) → signed (not b) n ≡ negate (signed b n)
signed-not true n = sym (negate-negate (pos n))
signed-not false n = refl

-- The same digits behind the other sign.
abbrev opposite : Parts → Parts
opposite p = record p { negative = not p.negative }

with_fraction-opposite :
    (b : Bool) (whole : List ℕ) (o : Option (List ℕ)) (p : Parts)
    → with_fraction b whole o ≡ some p
    → with_fraction (not b) whole o ≡ some (opposite p)
with_fraction-opposite b whole none p e = cc
with_fraction-opposite b whole (some f) p e = ground arith

parts_of_run-opposite :
    (b : Bool) (run : List ℕ × List ℕ) (p : Parts)
    → parts_of_run b run ≡ some p
    → parts_of_run (not b) run ≡ some (opposite p)
parts_of_run-opposite b ([], rest) p e = cc
parts_of_run-opposite b (c ∷ whole, rest) p e =
    with_fraction-opposite b (c ∷ whole) (fraction_of rest) p e

starts_with_minus-parts :
    (b : Bool) (cs : List ℕ) (p : Parts)
    → unsigned_parts b cs ≡ some p
    → starts_with_minus cs ≡ false
starts_with_minus-parts b [] p e = refl
starts_with_minus-parts b (c ∷ cs) p e = elim (Bool-cases (is_digit c)) [
  | inl digit ↦ ground arith
  | inr other ↦
      let none_read : digits_of (c ∷ cs) ≡ ([], c ∷ cs) = rw other refl in
      let unread : parts_of_run b ([], c ∷ cs) ≡ some p = ap (parts_of_run b) (sym none_read) ∙ e in
      cc
]

parts-negate_decimal_string :
    (value : List ℕ) (p : Parts)
    → parts value ≡ some p
    → parts (negate_decimal_string value) ≡ some (opposite p)
unfolding negate_decimal_string parts
parts-negate_decimal_string value p e = elim (Bool-cases (starts_with_minus value)) [
  | inl signed_ ↦
      let digits : unsigned_parts true (slice1 value) ≡ some p = rw signed_ at e in
      rw (signed_, starts_with_minus-parts true (slice1 value) p digits)
        (parts_of_run-opposite true (digits_of (slice1 value)) p digits)
  | inr plain ↦
      let digits : unsigned_parts false value ≡ some p = rw plain at e in
      rw plain (parts_of_run-opposite false (digits_of value) p digits)
]

-- Negating a decimal string negates the number that is read from it, at every scale.
aligned-negate_decimal_string :
    (value : List ℕ) (p : Parts) (scale : ℕ)
    → parts value ≡ some p
    → aligned (negate_decimal_string value) scale ≡ some (negate (aligned_parts scale p))
unfolding aligned
aligned-negate_decimal_string value p scale e =
    ap (aligned_of scale) (parts-negate_decimal_string value p e)
    ∙ ap some (signed-not p.negative (big_int 0 (p.integer ++ pad_end scale p.fraction)))
