-- ===== src/Accounting/Corrections.antt =====
-- packages/accounting/src/posting/corrections.ts: the reversal of a journal, posting by posting. The
-- supply of posting identifiers is a parameter; the optional fields of a rate are kept as one.
use plus_one.Accounting.Amounts.{Direction, SignedPosting, credit, debit}
use plus_one.Common.{ℕ, List, Option, String, some, ◌∷◌, suc, []}

pub record Posting : Type 0 where
  pub posting_id : Option String
  pub account_id : String
  pub direction : Direction
  pub transaction_amount : List ℕ
  pub account_native_amount : List ℕ
  pub account_native_currency : String
  pub exchange_rate : Option (List ℕ)
  pub exchange_rate_quote : Option String
  pub exchange_rate_date : Option String
  pub exchange_rate_source : Option String
  pub memo : Option String
  pub tag_ids : List String

abbrev pub flip : Direction → Direction
flip debit = credit
flip credit = debit

abbrev pub reversed : String → Posting → Posting
reversed id p = record p { posting_id = some id; direction = flip p.direction }

-- The postings from `index` on.
abbrev pub reversed_from : (ℕ → String) → ℕ → List Posting → List Posting
reversed_from next_posting_id index [] = []
reversed_from next_posting_id index (p ∷ ps) =
    reversed (next_posting_id index) p ∷ reversed_from next_posting_id (suc index) ps

unfoldable pub build_exact_reversal_postings : List Posting → (ℕ → String) → List Posting
build_exact_reversal_postings ps next_posting_id = reversed_from next_posting_id 0 ps

-- A posting as `sumSignedPostings` takes it.
abbrev pub signed_posting : Posting → SignedPosting
signed_posting p = record { direction = p.direction; amount = p.transaction_amount }
