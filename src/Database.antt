-- ===== src/Database.antt =====
-- packages/database/src/errors.ts and
-- packages/database/src/repositories/operations/mutation-errors.ts: how errors of the driver become
-- errors of the program. The text of an error is left out, so a checker rejection is known by its
-- constraint alone.
use plus_one.Common.{
  String, Bool, ◌||◌, Option, none, some, str_eq, List, [], ◌∷◌, any, false, if◌then◌else◌, true,
}
use plus_one.Common.Errors.{
  Thrown, plus_one_error, failure, ErrorCategory, RetryDirective, constraint_violation,
  database_error, checker_rejected, never, other_error, serialization_conflict, after_backoff,
  confirmation_required, storage_unavailable, after_state_resolution, timeout, validation_rejected,
}
use text.Mathlib.Text.{starts_with}

-- The `code` property that an error has.
abbrev pub code_of : Thrown → Option String
code_of (plus_one_error e) = some e.code
code_of (database_error sqlstate constraint) = some sqlstate
code_of (other_error name) = none

pub record Mapped : Type 0 where
  pub category : ErrorCategory
  pub code : String
  pub retry : RetryDirective

abbrev as_mapped : ErrorCategory → String → RetryDirective → Option Mapped
as_mapped category code retry = some (record { category = category; code = code; retry = retry })

-- SQL_STATE_MAPPING.
sql_state_mapping : String → Option Mapped
sql_state_mapping state =
    if str_eq state "40001"
    then as_mapped serialization_conflict "database_serialization_conflict" after_backoff
    else if str_eq state "40P01"
    then as_mapped serialization_conflict "database_deadlock" after_backoff
    else if str_eq state "55P03"
    then as_mapped timeout "database_lock_timeout" after_backoff
    else if str_eq state "57014"
    then as_mapped timeout "database_statement_timeout" after_backoff
    else if str_eq state "08000" || str_eq state "08003" || str_eq state "08006"
    then as_mapped storage_unavailable "database_connection_failed" after_backoff
    else if str_eq state "57P01"
    then as_mapped storage_unavailable "database_shutdown" after_backoff
    else none

abbrev is_constraint_class : String → Bool
is_constraint_class state =
    starts_with state "22" || starts_with state "23" || starts_with state "2B"

abbrev unmapped : Bool → Thrown
unmapped true = failure constraint_violation "database_constraint_violation" never false
unmapped false = failure storage_unavailable "database_operation_failed" after_backoff false

abbrev of_state : String → Option Mapped → Thrown
of_state state (some m) = failure m.category m.code m.retry false
of_state state none = unmapped (is_constraint_class state)

unfoldable pub normalize_database_error : Thrown → Thrown
unfolding sql_state_mapping
normalize_database_error (plus_one_error e) = plus_one_error e
normalize_database_error (database_error state constraint) =
    of_state state (sql_state_mapping state)
normalize_database_error (other_error name) = unmapped false

abbrev is_one_of : String → List String → Bool
is_one_of s = any (str_eq s)

-- A violated check of the mutation tables, by the constraint that it names. Messages are not
-- modelled, so an error whose message alone speaks of the accepting checker verdict is left out.
check_violation : String → Option Thrown
check_violation constraint =
    if str_eq constraint "mutation_command_acceptance_required"
    then some (failure checker_rejected "exact_checker_acceptance_required" never false)
    else if is_one_of constraint
        ("mutation_command_exact_confirmation" ∷ "mutation_command_confirmation_required" ∷ [])
    then some (
        failure confirmation_required "exact_external_confirmation_required" after_state_resolution
          false)
    else if is_one_of constraint
        ("mutation_command_exact_artifact" ∷ "mutation_command_task_not_ready" ∷ [])
    then some (failure validation_rejected "checked_proposal_identity_mismatch" never false)
    else if is_one_of constraint (
        "mutation_command_not_executable" ∷ "mutation_command_not_pending"
        ∷ "mutation_command_status_transition" ∷ "mutation_command_task_not_execution_pending"
        ∷ "mutation_command_receipt_required" ∷ "mutation_command_readback_required"
        ∷ "mutation_command_claim_required" ∷ [])
    then some (
        failure serialization_conflict "mutation_command_state_conflict" after_state_resolution
          true)
    else none

abbrev or_normalized : Option Thrown → Thrown → Thrown
or_normalized (some known) e = known
or_normalized none e = normalize_database_error e

unfoldable pub normalize_mutation_database_error : Thrown → Thrown
unfolding check_violation normalize_database_error
normalize_mutation_database_error (database_error state constraint) =
    or_normalized (if str_eq state "23514" then check_violation constraint else none)
      (database_error state constraint)
normalize_mutation_database_error e = normalize_database_error e

-- SerializableMutationRunner's tests on the code of an error.
abbrev pub has_code : String → Option String → Bool
has_code code none = false
has_code code (some c) = str_eq c code

abbrev pub is_serialization_failure : Thrown → Bool
is_serialization_failure e = has_code "40001" (code_of e)

abbrev is_connection_code : Option String → Bool
is_connection_code none = false
is_connection_code (some c) = starts_with c "08"

abbrev pub is_connection_failure : Thrown → Bool
is_connection_failure e = is_connection_code (code_of e)
