-- ===== src/Tests/Accounting.antt =====
-- Runs of the amounts and of a reversal.
use plus_one.Accounting.Reversal.{swapped, sum_signed_postings-reversed}
use plus_one.Accounting.Amounts.Order.{fraction_sign, compare_decimal_strings-eq}
use plus_one.Accounting.Amounts.Laws.{aligned-format}
use plus_one.Common.Int.{negsuc}
use plus_one.Accounting.Corrections.{Posting, signed_posting, build_exact_reversal_postings}
use plus_one.Accounting.Amounts.{
  Parts, aligned, parts, sum_signed_postings, Direction, compare_decimal_strings, format, debit,
  credit,
}
use plus_one.Common.{ℕ, List, String, false, map, suc, true, ◌∷◌, [], none, zero, ◌≡◌, some, refl}

-- "12.5", "-12.50", "3".
abbrev twelve_half : List ℕ
twelve_half = 49 ∷ 50 ∷ 46 ∷ 53 ∷ []

abbrev minus_twelve_half : List ℕ
minus_twelve_half = 45 ∷ 49 ∷ 50 ∷ 46 ∷ 53 ∷ 48 ∷ []

abbrev twelve_half_parts : Parts
twelve_half_parts = record { negative = false; integer = 49 ∷ 50 ∷ []; fraction = 53 ∷ [] }

abbrev minus_twelve_half_parts : Parts
minus_twelve_half_parts = record {
  negative = true;
  integer = 49 ∷ 50 ∷ [];
  fraction = 53 ∷ 48 ∷ [];
}

abbrev posting_of : String → Direction → List ℕ → Posting
posting_of account direction amount = record {
  posting_id = none;
  account_id = account;
  direction = direction;
  transaction_amount = amount;
  account_native_amount = amount;
  account_native_currency = "EUR";
  exchange_rate = none;
  exchange_rate_quote = none;
  exchange_rate_date = none;
  exchange_rate_source = none;
  memo = none;
  tag_ids = [];
}

abbrev lunch : List Posting
lunch =
    posting_of "account_food" debit twelve_half ∷ posting_of "account_bank" credit twelve_half ∷ []

abbrev new_id : ℕ → String
new_id zero = "posting_a"
new_id (suc n) = "posting_b"

aligned-format_example : aligned (format (negsuc 1204) 2) 2 ≡ some (negsuc 1204)
aligned-format_example = aligned-format (negsuc 1204) 2

compare_decimal_strings-eq_example :
    compare_decimal_strings twelve_half minus_twelve_half
    ≡ some (fraction_sign twelve_half_parts minus_twelve_half_parts)
unfolding parts
compare_decimal_strings-eq_example =
    compare_decimal_strings-eq twelve_half minus_twelve_half twelve_half_parts
      minus_twelve_half_parts refl refl

sum_signed_postings-reversed_example :
    sum_signed_postings (map signed_posting (build_exact_reversal_postings lunch new_id))
    ≡ swapped (sum_signed_postings (map signed_posting lunch))
sum_signed_postings-reversed_example = sum_signed_postings-reversed lunch new_id
