-- ===== src/Accounting/Amounts.antt =====
-- packages/accounting/src/amounts.ts: decimal strings and their exact comparison and sums. A
-- string is the list of its code units; a failed `parts` or `BigInt` throws.
pub mod Digits
pub mod Laws
pub mod Order
use plus_one.Common.Int.{pos, ℤ, signed, ◌+ℤ◌, magnitude, negsuc, is_negative, negate}
use plus_one.Common.{
  ℕ, Bool, List, length, Option, [], false, if◌then◌else◌, leb, suc, true, ◌++◌, ◌+◌, ◌-◌, ◌∷◌,
  none, some, zero, ◌&&◌, ◌*◌, ◌/◌, ◌==◌, ltb, max, not, ◌%◌,
}

abbrev pub minus_sign : ℕ
minus_sign = 45

abbrev pub point : ℕ
point = 46

abbrev pub digit_zero : ℕ
digit_zero = 48

abbrev pub is_digit : ℕ → Bool
is_digit c = leb 48 c && leb c 57

pub record Parts : Type 0 where
  pub negative : Bool
  pub integer : List ℕ
  pub fraction : List ℕ

-- The longest run of digits at the front, and what follows it: `(\d+)`.
abbrev pub digits_of : List ℕ → List ℕ × List ℕ
digits_of [] = ([], [])
digits_of (c ∷ cs) =
    let rest = digits_of cs in if is_digit c then (c ∷ rest.0, rest.1) else ([], c ∷ cs)

-- `replace(/^0+(?=\d)/, '')`.
abbrev pub strip_zeros : List ℕ → List ℕ
strip_zeros [] = []
strip_zeros (c ∷ []) = c ∷ []
strip_zeros (c ∷ d ∷ cs) =
    let rest = strip_zeros (d ∷ cs) in if c == digit_zero then rest else c ∷ d ∷ cs

abbrev pub is_nil : List ℕ → Bool
is_nil [] = true
is_nil (c ∷ cs) = false

-- `(?:\.(\d+))?$`, after the integer digits.
abbrev pub fraction_run : ℕ → List ℕ × List ℕ → Option (List ℕ)
fraction_run c (fs, rest) = if c == point && not (is_nil fs) && is_nil rest then some fs else none

abbrev pub fraction_of : List ℕ → Option (List ℕ)
fraction_of [] = some []
fraction_of (c ∷ cs) = fraction_run c (digits_of cs)

abbrev pub with_fraction : Bool → List ℕ → Option (List ℕ) → Option Parts
with_fraction negative whole none = none
with_fraction negative whole (some fraction) =
    some (record { negative = negative; integer = strip_zeros whole; fraction = fraction })

abbrev pub parts_of_run : Bool → List ℕ × List ℕ → Option Parts
parts_of_run negative (whole, rest) =
    if is_nil whole then none else with_fraction negative whole (fraction_of rest)

abbrev pub unsigned_parts : Bool → List ℕ → Option Parts
unsigned_parts negative cs = parts_of_run negative (digits_of cs)

abbrev pub starts_with_minus : List ℕ → Bool
starts_with_minus [] = false
starts_with_minus (c ∷ cs) = c == minus_sign

abbrev pub slice1 : List ℕ → List ℕ
slice1 [] = []
slice1 (c ∷ cs) = cs

unfoldable pub parts : List ℕ → Option Parts
parts value =
    if starts_with_minus value
    then unsigned_parts true (slice1 value)
    else unsigned_parts false value

abbrev pub replicate : ℕ → ℕ → List ℕ
replicate zero c = []
replicate (suc n) c = c ∷ replicate n c

-- `padEnd(n, '0')` and `padStart(n, '0')`.
abbrev pub pad_end : ℕ → List ℕ → List ℕ
pad_end n cs = cs ++ replicate (n - length cs) digit_zero

abbrev pub pad_start : ℕ → List ℕ → List ℕ
pad_start n cs = replicate (n - length cs) digit_zero ++ cs

-- `BigInt` of a string of digits.
abbrev pub big_int : ℕ → List ℕ → ℕ
big_int n [] = n
big_int n (c ∷ cs) = big_int (n * 10 + (c - 48)) cs

abbrev pub aligned_parts : ℕ → Parts → ℤ
aligned_parts scale p = signed p.negative (big_int 0 (p.integer ++ pad_end scale p.fraction))

abbrev pub aligned_of : ℕ → Option Parts → Option ℤ
aligned_of scale none = none
aligned_of scale (some p) = some (aligned_parts scale p)

unfoldable pub aligned : List ℕ → ℕ → Option ℤ
aligned value scale = aligned_of scale (parts value)

-- `toString` of a magnitude, on fuel: `n + 1` is enough for `n`.
unfoldable pub to_digits : ℕ → ℕ → List ℕ
to_digits zero n = []
to_digits (suc fuel) n =
    let rest = to_digits fuel (n / 10) in
    if ltb n 10 then (48 + n) ∷ [] else rest ++ (48 + n % 10) ∷ []

abbrev pub take : ℕ → List ℕ → List ℕ
take zero cs = []
take (suc n) [] = []
take (suc n) (c ∷ cs) = c ∷ take n cs

abbrev pub drop : ℕ → List ℕ → List ℕ
drop zero cs = cs
drop (suc n) [] = []
drop (suc n) (c ∷ cs) = drop n cs

abbrev pub rendered : List ℕ → ℕ → List ℕ
rendered digits zero = digits
rendered digits (suc scale) =
    let whole = length digits - suc scale in take whole digits ++ point ∷ drop whole digits

unfoldable pub format : ℤ → ℕ → List ℕ
format value scale =
    let digits = pad_start (scale + 1) (to_digits (suc (magnitude value)) (magnitude value)) in
    (if is_negative value then minus_sign ∷ [] else []) ++ rendered digits scale

pub data Sign : Type 0 where
  less equal greater : Sign

abbrev pub sign : ℤ → Sign
sign (pos zero) = equal
sign (pos (suc n)) = greater
sign (negsuc n) = less

abbrev pub scale_of : Parts → ℕ
scale_of p = length p.fraction

-- The sign of `difference`, where both strings could be aligned.
abbrev pub difference_sign : Option ℤ → Option ℤ → Option Sign
difference_sign none b = none
difference_sign (some a) none = none
difference_sign (some a) (some b) = some (sign (a +ℤ negate b))

abbrev pub compare_parts : List ℕ → List ℕ → Option Parts → Option Parts → Option Sign
compare_parts left right none r = none
compare_parts left right (some l) none = none
compare_parts left right (some l) (some r) =
    let scale = max (scale_of l) (scale_of r) in
    difference_sign (aligned left scale) (aligned right scale)

unfoldable pub compare_decimal_strings : List ℕ → List ℕ → Option Sign
compare_decimal_strings left right = compare_parts left right (parts left) (parts right)

unfoldable pub negate_decimal_string : List ℕ → List ℕ
negate_decimal_string value = if starts_with_minus value then slice1 value else minus_sign ∷ value

pub data Direction : Type 0 where
  debit credit : Direction

pub record SignedPosting : Type 0 where
  pub direction : Direction
  pub amount : List ℕ

pub record Sums : Type 0 where
  pub debit_sum : ℤ
  pub credit_sum : ℤ

-- The largest scale of the postings, where all of them were parsed.
abbrev pub raise : Option ℕ → Option Parts → Option ℕ
raise none q = none
raise (some maximum) none = none
raise (some maximum) (some q) = some (max maximum (scale_of q))

abbrev pub scale_from : Option ℕ → List SignedPosting → Option ℕ
scale_from maximum [] = maximum
scale_from maximum (p ∷ ps) = scale_from (raise maximum (parts p.amount)) ps

abbrev pub add_posting : Direction → ℤ → Sums → Sums
add_posting debit a s = record s { debit_sum = s.debit_sum +ℤ a }
add_posting credit a s = record s { credit_sum = s.credit_sum +ℤ a }

-- One turn of the loop, unless an amount was no decimal string.
abbrev pub add_next : Direction → Option ℤ → Option Sums → Option Sums
add_next direction a none = none
add_next direction none (some s) = none
add_next direction (some a) (some s) = some (add_posting direction a s)

abbrev pub sum_from : ℕ → Option Sums → List SignedPosting → Option Sums
sum_from scale s [] = s
sum_from scale s (p ∷ ps) = sum_from scale (add_next p.direction (aligned p.amount scale) s) ps

abbrev pub no_sums : Sums
no_sums = record { debit_sum = pos 0; credit_sum = pos 0 }

abbrev pub format_sums : ℕ → Sums → List ℕ × List ℕ
format_sums scale s = (format s.debit_sum scale, format s.credit_sum scale)

abbrev pub sums_text : ℕ → Option Sums → Option (List ℕ × List ℕ)
sums_text scale none = none
sums_text scale (some s) = some (format_sums scale s)

abbrev pub sums_at : Option ℕ → List SignedPosting → Option (List ℕ × List ℕ)
sums_at none ps = none
sums_at (some scale) ps = sums_text scale (sum_from scale (some no_sums) ps)

unfoldable pub sum_signed_postings : List SignedPosting → Option (List ℕ × List ℕ)
sum_signed_postings ps = sums_at (scale_from (some 0) ps) ps
