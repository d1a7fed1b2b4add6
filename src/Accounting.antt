-- ===== src/Accounting.antt =====
-- packages/accounting/src: amounts and postings.
pub mod Amounts
pub mod Corrections
pub mod Reversal
