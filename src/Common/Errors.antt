-- ===== src/Common/Errors.antt =====
-- packages/contracts/src/errors.ts: the structured error of the program, and what else a call of
-- it can throw. The message, the details and the cause of an error are left out.
use Prim.Native.String.{String}
use mathlib.Core.Bool.{Bool}

pub data ErrorCategory : Type 0 where
  validation_rejected checker_rejected confirmation_required : ErrorCategory
  serialization_conflict constraint_violation duplicate_replay period_closed : ErrorCategory
  ambiguous_source_match readback_mismatch projection_unhealthy timeout : ErrorCategory
  storage_unavailable policy_rejected unsupported_capability runtime_failure : ErrorCategory

pub data RetryDirective : Type 0 where
  never safe after_backoff after_state_resolution : RetryDirective

pub record PlusOneError : Type 0 where
  pub category : ErrorCategory
  pub code : String
  pub retry : RetryDirective
  pub receipt_lookup_required : Bool

-- A thrown value: the program's own error, an error of the database driver with its SQLSTATE
-- and the constraint that it names, or any other `Error`.
pub data Thrown : Type 0 where
  plus_one_error : PlusOneError → Thrown
  database_error : (sqlstate constraint : String) → Thrown
  other_error : String → Thrown

abbrev pub failure : ErrorCategory → String → RetryDirective → Bool → Thrown
failure category code retry lookup =
    plus_one_error
      (record { category = category; code = code; retry = retry; receipt_lookup_required = lookup })
