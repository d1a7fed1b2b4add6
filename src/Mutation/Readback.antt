-- ===== src/Mutation/Readback.antt =====
-- packages/mutations/src/checked-mutation-executor.ts: performReadback, requiredFailures and
-- failedReadback, with the consistency that packages/contracts/src/mutations.ts asks of a result.
-- Hashes, identifiers and the transaction of the reading client are left out.
pub mod Complete
use plus_one.Mutation.Commands.{CheckedCommand}
use plus_one.Mutation.Registry.{
  CheckKind, idempotency_receipt, identifiers, is_idempotency_receipt, row_values, balances,
  source_links, artifact_links,
}
use plus_one.Common.{
  ℕ, Bool, List, Option, String, false, find, if◌then◌else◌, map, not, true, ◌++◌, ◌==◌, ◌∷◌, ◌≡◌,
  [], all, any, some, ◌&&◌, arith, none, refl, str_eq, ◌||◌,
}

pub data CheckStatus : Type 0 where
  passed failed not_applicable : CheckStatus

-- The kinds that a domain handler reports: all but `idempotency_receipt`.
pub data DomainKind : Type 0 where
  of_identifiers of_row_values of_balances of_source_links of_artifact_links : DomainKind

abbrev pub as_kind : DomainKind → CheckKind
as_kind of_identifiers = identifiers
as_kind of_row_values = row_values
as_kind of_balances = balances
as_kind of_source_links = source_links
as_kind of_artifact_links = artifact_links

pub record Check : Type 0 where
  pub kind : CheckKind
  pub status : CheckStatus

pub data Mismatch : Type 0 where
  domain_mismatch : String → Mismatch
  required_check : CheckKind → Mismatch
  readback_error : String → Mismatch

pub record DomainOutput : Type 0 where
  pub checks : List (DomainKind × CheckStatus)
  pub mismatches : List String

pub record Receipt : Type 0 where
  pub receipt_id : String
  pub idempotency_key : String
  pub checked_proposal_id : String
  pub checked_proposal_hash : String

pub record ReadbackResult : Type 0 where
  pub receipt_id : String
  pub ok : Bool
  pub checks : List Check
  pub mismatches : List Mismatch

abbrev kind_index : CheckKind → ℕ
kind_index identifiers = 0
kind_index row_values = 1
kind_index balances = 2
kind_index source_links = 3
kind_index artifact_links = 4
kind_index idempotency_receipt = 5

abbrev pub is_kind : CheckKind → Check → Bool
is_kind k c = kind_index c.kind == kind_index k

abbrev pub is_passed : CheckStatus → Bool
is_passed passed = true
is_passed failed = false
is_passed not_applicable = false

abbrev pub is_failed : Check → Bool
is_failed c = elim c.status [ passed ↦ false | failed ↦ true | not_applicable ↦ false ]

abbrev pub has_passed : Option Check → Bool
has_passed none = false
has_passed (some c) = is_passed c.status

-- The first check of the kind.
abbrev pub passes_in : List Check → CheckKind → Bool
passes_in checks k = has_passed (find (is_kind k) checks)

abbrev pub required_failures : List CheckKind → List Check → List Mismatch
required_failures [] checks = []
required_failures (k ∷ ks) checks =
    let rest = required_failures ks checks in
    if passes_in checks k then rest else required_check k ∷ rest

abbrev pub receipt_ok : CheckedCommand → Receipt → Option Receipt → Bool
receipt_ok command receipt none = false
receipt_ok command receipt (some p) =
    str_eq p.receipt_id receipt.receipt_id
    && str_eq p.idempotency_key command.idempotency_key
    && str_eq p.checked_proposal_id command.checked_proposal_id
    && str_eq p.checked_proposal_hash command.checked_proposal_hash

abbrev pub domain_check : DomainKind × CheckStatus → Check
domain_check (k, status) = record { kind = as_kind k; status = status }

abbrev pub receipt_check : Bool → Check
receipt_check b = record { kind = idempotency_receipt; status = if b then passed else failed }

abbrev pub is_none_left : List Mismatch → Bool
is_none_left [] = true
is_none_left (m ∷ ms) = false

abbrev repeats : List Check → Bool
repeats [] = false
repeats (c ∷ cs) = any (is_kind c.kind) cs || repeats cs

-- What the schema of a result asks of it.
abbrev pub is_consistent : ReadbackResult → Bool
is_consistent r =
    not (repeats r.checks)
    && (if r.ok
        then not (any is_failed r.checks) && is_none_left r.mismatches
        else any is_failed r.checks || not (is_none_left r.mismatches))

abbrev pub parsed_result : ReadbackResult → Option ReadbackResult
parsed_result r = if is_consistent r then some r else none

abbrev pub all_checks : CheckedCommand → Receipt → Option Receipt → DomainOutput → List Check
all_checks command receipt persisted domain =
    map domain_check domain.checks ++ receipt_check (receipt_ok command receipt persisted) ∷ []

abbrev pub result_of : Receipt → List Check → List Mismatch → ReadbackResult
result_of receipt checks mismatches = record {
  receipt_id = receipt.receipt_id;
  ok = is_none_left mismatches;
  checks = checks;
  mismatches = mismatches;
}

-- `performReadback`, where the handler and the lookup answer; `none` is the schema's rejection.
unfoldable pub perform_readback :
    CheckedCommand
    → List CheckKind
    → Receipt
    → Option Receipt
    → DomainOutput
    → Option ReadbackResult
perform_readback command required receipt persisted domain =
    let checks = all_checks command receipt persisted domain in
    parsed_result (
      result_of receipt checks
        (map domain_mismatch domain.mismatches ++ required_failures required checks))

abbrev required_status : List CheckKind → CheckKind → CheckStatus
required_status required k =
    if any (λ (r : CheckKind). kind_index r == kind_index k) required
    then failed
    else not_applicable

abbrev failed_check : List CheckKind → CheckKind → Check
failed_check required k = record { kind = k; status = required_status required k }

unfoldable pub failed_readback : List CheckKind → Receipt → String → ReadbackResult
failed_readback required receipt code = record {
  receipt_id = receipt.receipt_id;
  ok = false;
  checks = map (failed_check required) (
      identifiers ∷ row_values ∷ balances ∷ source_links ∷ artifact_links ∷ idempotency_receipt
      ∷ []);
  mismatches = readback_error code ∷ [];
}
