-- ===== src/Accounting/Reversal.antt =====
-- packages/accounting/src/posting/corrections.ts: a reversal undoes its journal.
use plus_one.Accounting.Corrections.{
  build_exact_reversal_postings, Posting, flip, signed_posting, reversed_from,
}
use plus_one.Common.Int.{ℤ}
use plus_one.Accounting.Amounts.{
  Direction, Sums, sum_signed_postings, sums_text, scale_from, sum_from, sums_at, debit, credit,
  no_sums, aligned, parts, add_next, raise,
}
use plus_one.Common.{ℕ, Option, String, List, some, none, ◌≡◌, map, refl, ap, ◌∙◌, ◌∷◌, suc, []}

-- The two sums of a journal, the other way round.
abbrev pub swapped : Option (List ℕ × List ℕ) → Option (List ℕ × List ℕ)
swapped none = none
swapped (some (debits, credits)) = some (credits, debits)

scale_from-reversed :
    (ids : ℕ → String) (i : ℕ) (o : Option ℕ) (ps : List Posting)
    → scale_from o (map signed_posting (reversed_from ids i ps))
      ≡ scale_from o (map signed_posting ps)
scale_from-reversed ids i o [] = refl
scale_from-reversed ids i o (p ∷ ps) =
    scale_from-reversed ids (suc i) (raise o (parts p.transaction_amount)) ps

abbrev swap_sums : Sums → Sums
swap_sums s = record { debit_sum = s.credit_sum; credit_sum = s.debit_sum }

abbrev swap_option : Option Sums → Option Sums
swap_option none = none
swap_option (some s) = some (swap_sums s)

add_next-flip :
    (d : Direction) (a : Option ℤ) (s : Option Sums)
    → add_next (flip d) a (swap_option s) ≡ swap_option (add_next d a s)
add_next-flip d a none = refl
add_next-flip d none (some s) = refl
add_next-flip debit (some a) (some s) = refl
add_next-flip credit (some a) (some s) = refl

sum_from-reversed :
    (ids : ℕ → String) (i scale : ℕ) (s : Option Sums) (ps : List Posting)
    → sum_from scale (swap_option s) (map signed_posting (reversed_from ids i ps))
      ≡ swap_option (sum_from scale s (map signed_posting ps))
sum_from-reversed ids i scale s [] = refl
sum_from-reversed ids i scale s (p ∷ ps) =
    let read = aligned p.transaction_amount scale in
    ap (λ (t : Option Sums). sum_from scale t (map signed_posting (reversed_from ids (suc i) ps)))
      (add_next-flip p.direction read s)
    ∙ sum_from-reversed ids (suc i) scale (add_next p.direction read s) ps

sums_text-swap :
    (scale : ℕ) (o : Option Sums) → sums_text scale (swap_option o) ≡ swapped (sums_text scale o)
sums_text-swap scale none = refl
sums_text-swap scale (some s) = refl

sums_at-reversed :
    (ids : ℕ → String) (ps : List Posting) (o : Option ℕ)
    → sums_at o (map signed_posting (reversed_from ids 0 ps))
      ≡ swapped (sums_at o (map signed_posting ps))
sums_at-reversed ids ps none = refl
sums_at-reversed ids ps (some scale) =
    ap (sums_text scale) (sum_from-reversed ids 0 scale (some no_sums) ps)
    ∙ sums_text-swap scale (sum_from scale (some no_sums) (map signed_posting ps))

-- The reversal of a journal has the journal's credits as its debits and its debits as its credits,
-- in the same text; where an amount of the journal is no decimal string, both sums throw.
pub sum_signed_postings-reversed :
    (ps : List Posting) (ids : ℕ → String)
    → sum_signed_postings (map signed_posting (build_exact_reversal_postings ps ids))
      ≡ swapped (sum_signed_postings (map signed_posting ps))
unfolding sum_signed_postings build_exact_reversal_postings
sum_signed_postings-reversed ps ids =
    ap (λ (o : Option ℕ). sums_at o (map signed_posting (reversed_from ids 0 ps)))
      (scale_from-reversed ids 0 (some 0) ps)
    ∙ sums_at-reversed ids ps (scale_from (some 0) (map signed_posting ps))
