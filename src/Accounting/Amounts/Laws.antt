-- ===== src/Accounting/Amounts/Laws.antt =====
-- packages/accounting/src/amounts.ts: printing and reading back, comparison and negation.
use plus_one.Common.Int.{signed-magnitude}
use plus_one.Accounting.Amounts.{
  Parts, length, is_nil, true, false, unsigned_parts, rendered, some, aligned_parts, point,
  strip_zeros, ◌∷◌, [], signed, big_int, suc, take, drop, parts_of_run, replicate, digit_zero,
  with_fraction, fraction_run, aligned, starts_with_minus, format, parts, ℤ, magnitude, minus_sign,
  to_digits, is_negative, pad_start, aligned_of,
}
use plus_one.Accounting.Amounts.Digits.{
  are_digits, digits_of-stop, are_digits-take, append-nil, digits_of-all, length-drop,
  big_int-strip_zeros, length-take, take-drop, to_digits-eq, are_digits-append, are_digits-zeros,
  big_int-pad_start, length-pad_start,
}
use plus_one.Common.{
  ℕ, Bool, List, ◌≤◌, ◌≡◌, ◌+◌, arith, ◌++◌, [], refl, ◌-◌, zero, ap, ◌∙◌, if◌then◌else◌,
}

is_nil-of_length : (cs : List ℕ) → 1 ≤ length cs → is_nil cs ≡ false
is_nil-of_length [] l = ground arith
is_nil-of_length (c ∷ cs) l = refl

-- A whole number alone, and with a fraction.
unsigned_parts-whole :
    (negative : Bool) (cs : List ℕ)
    → are_digits cs ≡ true
    → 1 ≤ length cs
    → unsigned_parts negative cs
      ≡ some (record { negative = negative; integer = strip_zeros cs; fraction = [] })
unsigned_parts-whole negative cs h l =
    ap (parts_of_run negative) (digits_of-all cs h) ∙ rw (is_nil-of_length cs l) refl

unsigned_parts-point :
    (negative : Bool) (cs fs : List ℕ)
    → are_digits cs ≡ true
    → are_digits fs ≡ true
    → 1 ≤ length cs
    → 1 ≤ length fs
    → unsigned_parts negative (cs ++ point ∷ fs)
      ≡ some (record { negative = negative; integer = strip_zeros cs; fraction = fs })
unsigned_parts-point negative cs fs h k l m =
    ap (parts_of_run negative) (digits_of-stop cs (point ∷ fs) h refl)
    ∙ rw (is_nil-of_length cs l) (
        ap (λ (run : List ℕ × List ℕ). with_fraction negative cs (fraction_run point run))
          (digits_of-all fs k)
        ∙ rw (is_nil-of_length fs m) refl)

-- Where the fraction has all its digits, the alignment adds none.
aligned_parts-exact :
    (scale : ℕ) (negative : Bool) (cs fs : List ℕ)
    → length fs ≡ scale
    → aligned_parts scale (record { negative = negative; integer = strip_zeros cs; fraction = fs })
      ≡ signed negative (big_int 0 (cs ++ fs))
aligned_parts-exact scale negative cs fs e =
    let none_left : scale - length fs ≡ 0 = omega arith in
    ap (signed negative) (
      ap (λ (k : ℕ). big_int 0 (strip_zeros cs ++ (fs ++ replicate k digit_zero))) none_left
      ∙ ap (λ (t : List ℕ). big_int 0 (strip_zeros cs ++ t)) (append-nil fs)
      ∙ big_int-strip_zeros cs fs)

-- The number that a signed string of digits, cut at the scale, stands for.
aligned-rendered :
    (scale : ℕ) (negative : Bool) (digits : List ℕ)
    → are_digits digits ≡ true
    → scale + 1 ≤ length digits
    → (q : Parts) × (unsigned_parts negative (rendered digits scale) ≡ some q)
      × (aligned_parts scale q ≡ signed negative (big_int 0 digits))
aligned-rendered zero negative digits h l = (
  record { negative = negative; integer = strip_zeros digits; fraction = [] },
  unsigned_parts-whole negative digits h (omega arith),
  aligned_parts-exact 0 negative digits [] refl
      ∙ ap (λ (t : List ℕ). signed negative (big_int 0 t)) (append-nil digits),
)
aligned-rendered (suc scale) negative digits h l =
    let whole = length digits - suc scale in
    let (front, back) = are_digits-take whole digits h in
    let kept : length (drop whole digits) ≡ suc scale = omega (arith, length-drop whole digits) in
    (
      record {
        negative = negative;
        integer = strip_zeros (take whole digits);
        fraction = drop whole digits;
      },
      unsigned_parts-point negative (take whole digits) (drop whole digits) front back
          (omega (arith, length-take whole digits)) (omega (arith, kept)),
      aligned_parts-exact (suc scale) negative (take whole digits) (drop whole digits) kept
          ∙ ap (λ (t : List ℕ). signed negative (big_int 0 t)) (take-drop whole digits),
    )

starts_with_minus-digits :
    (digits t : List ℕ)
    → are_digits digits ≡ true
    → 1 ≤ length digits
    → starts_with_minus (digits ++ t) ≡ false
starts_with_minus-digits [] t h l = ground arith
starts_with_minus-digits (c ∷ cs) t h l = ground arith

starts_with_minus-rendered :
    (scale : ℕ) (digits : List ℕ)
    → are_digits digits ≡ true
    → scale + 1 ≤ length digits
    → starts_with_minus (rendered digits scale) ≡ false
starts_with_minus-rendered zero digits h l =
    rw⁻¹ (append-nil digits) (starts_with_minus-digits digits [] h (omega arith))
starts_with_minus-rendered (suc scale) digits h l =
    let whole = length digits - suc scale in
    starts_with_minus-digits (take whole digits) (point ∷ drop whole digits)
      (are_digits-take whole digits h).0 (omega (arith, length-take whole digits))

parts-minus : (cs : List ℕ) → parts (minus_sign ∷ cs) ≡ unsigned_parts true cs
unfolding parts
parts-minus cs = refl

parts-plain : (cs : List ℕ) → starts_with_minus cs ≡ false → parts cs ≡ unsigned_parts false cs
unfolding parts
parts-plain cs h = rw h refl

-- Reading the digits of an integer, with its sign in front.
aligned-signed :
    (negative : Bool) (digits : List ℕ) (scale : ℕ)
    → are_digits digits ≡ true
    → scale + 1 ≤ length digits
    → aligned ((if negative then minus_sign ∷ [] else []) ++ rendered digits scale) scale
      ≡ some (signed negative (big_int 0 digits))
unfolding aligned
aligned-signed true digits scale h l =
    let (q, e, v) = aligned-rendered scale true digits h l in
    ap (aligned_of scale) (parts-minus (rendered digits scale) ∙ e) ∙ ap some v
aligned-signed false digits scale h l =
    let (q, e, v) = aligned-rendered scale false digits h l in
    ap (aligned_of scale)
      (parts-plain (rendered digits scale) (starts_with_minus-rendered scale digits h l) ∙ e)
    ∙ ap some v

-- An integer printed at a scale is read back exactly at that scale.
pub aligned-format : (z : ℤ) (scale : ℕ) → aligned (format z scale) scale ≡ some z
unfolding format
aligned-format z scale =
    let (value, ds) = to_digits-eq (suc (magnitude z)) (magnitude z) (omega arith) in
    let digits = to_digits (suc (magnitude z)) (magnitude z) in
    let padded =
      are_digits-append (replicate (scale + 1 - length digits) digit_zero) digits
        (are_digits-zeros (scale + 1 - length digits)) ds in
    let number = big_int-pad_start (scale + 1) digits ∙ value in
    aligned-signed (is_negative z) (pad_start (scale + 1) digits) scale padded
      (length-pad_start (scale + 1) digits)
    ∙ ap (λ (n : ℕ). some (signed (is_negative z) n)) number
    ∙ ap some (signed-magnitude z)
