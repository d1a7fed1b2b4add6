-- ===== src/Verification.antt =====
-- packages/runtime/src/verification-runtime.ts: the calls that move a verification task. `hash`
-- stands for `hashArtifact`, and `policies` is the registry of packages/runtime/src/runtime-policy.ts.
pub mod Keeps
pub mod Audit
pub mod Acceptance
use plus_one.Common.{
  ℕ, String, Bool, not, List, [], ◌∷◌, Option, none, some, any, false, if◌then◌else◌, true, ◌&&◌,
}
use plus_one.Common.Errors.{Thrown, failure, validation_rejected, never, checker_rejected}
use plus_one.Common.Effects.{◌>>=◌, ◌>>◌, Call, done, threw, return, throw_if}
use plus_one.Task.{
  TaskStatus, is, is_allowed_transition, is_terminal_status, invalid_transition, maker_validated,
  skill_selected, checker_running, readback_verified, checker_validated, maker_running, created,
}
use plus_one.Storage.{
  Db, TaskRow, Artifact, Payload, PolicyIdentity, SkillIdentity, SchemaIdentity, task_row, Verdict,
  VerdictKind, verdict_value,
}
use plus_one.Artifacts.{save, create_artifact_envelope}
use plus_one.Policy.{RuntimePolicy, resolve}
use plus_one.Ledger.{
  NewTask, Transition, create_task, transition, select_execution_contract, link_maker_artifact,
  task_not_found,
}
use plus_one.Ledger.Verdicts.{record_checker_verdict, find_latest_verdict, is_kind}

pub record TaskIdentity : Type 0 where
  pub household_id : String
  pub task_id : String

abbrev pub move_input :
    TaskIdentity
    → TaskStatus
    → TaskStatus
    → String
    → Bool
    → Option String
    → Option Bool
    → Transition
move_input identity from to reason_code closes failure_category resumable = record {
  household_id = identity.household_id;
  task_id = identity.task_id;
  expected_from = from;
  to = to;
  reason_code = reason_code;
  responsible_component = "VerificationRuntime";
  closes = closes;
  failure_category = failure_category;
  resumable = resumable;
}

-- `move`, with all its arguments.
unfoldable pub move_with :
    TaskIdentity
    → TaskStatus
    → TaskStatus
    → String
    → Bool
    → Option String
    → Option Bool
    → Call Db TaskRow
move_with identity from to reason closes failure_category resumable db =
    if is_allowed_transition from to
    then transition (move_input identity from to reason closes failure_category resumable) db
    else threw invalid_transition db

-- `move`, with its default arguments.
abbrev pub move : TaskIdentity → TaskStatus → TaskStatus → String → Call Db TaskRow
move identity from to reason = move_with identity from to reason (is_terminal_status to) none none

unfoldable pub require_task : TaskIdentity → Call Db TaskRow
require_task identity db = elim (task_row identity.household_id identity.task_id db) [
  | none ↦ threw task_not_found db
  | some row ↦ done row db
]

unfoldable pub require_status : TaskIdentity → TaskStatus → Call Db TaskRow
require_status identity expected = do
  task ← require_task identity
  throw_if (not (is task.status expected)) invalid_transition
  return task

unfoldable pub move_from_current :
    TaskIdentity → List TaskStatus → TaskStatus → String → Call Db TaskRow
move_from_current identity allowed_from to reason = do
  task ← require_task identity
  throw_if (not (any (is task.status) allowed_from)) invalid_transition
  move identity task.status to reason

unfoldable pub begin_maker : TaskIdentity → Call Db TaskRow
begin_maker identity =
    move_from_current identity (skill_selected ∷ TaskStatus.revision_requested ∷ []) maker_running
      "maker_started"

unfoldable pub begin_checker : TaskIdentity → Call Db TaskRow
begin_checker identity = move identity maker_validated checker_running "checker_started"

abbrev pub is_accepted : Option Verdict → Bool
is_accepted none = false
is_accepted (some v) = is_kind v.kind VerdictKind.accepted

abbrev is_revision : Option Verdict → Bool
is_revision none = false
is_revision (some v) = is_kind v.kind VerdictKind.revision_requested

unfoldable pub request_revision : TaskIdentity → Call Db TaskRow
request_revision identity = do
  verdict ← find_latest_verdict identity.household_id identity.task_id
  throw_if (not (is_revision verdict))
      (failure checker_rejected "revision_verdict_required" never false)
  move identity checker_validated TaskStatus.revision_requested "checker_requested_revision"

-- The statuses in which a task can be completed.
pub data Completion : Type 0 where
  verified partial insufficient_evidence conflicted failed : Completion

abbrev pub status_of_completion : Completion → TaskStatus
status_of_completion Completion.verified = TaskStatus.verified
status_of_completion Completion.partial = TaskStatus.partial
status_of_completion Completion.insufficient_evidence = TaskStatus.insufficient_evidence
status_of_completion Completion.conflicted = TaskStatus.conflicted
status_of_completion Completion.failed = TaskStatus.failed

abbrev pub is_verified : Completion → Bool
is_verified Completion.verified = true
is_verified _ = false

abbrev pub completion_failure : Completion → Option String
completion_failure Completion.failed = some "runtime_failure"
completion_failure _ = none

abbrev pub completion_reason : Completion → String
completion_reason Completion.verified = "task_verified"
completion_reason Completion.partial = "task_partial"
completion_reason Completion.insufficient_evidence = "task_insufficient_evidence"
completion_reason Completion.conflicted = "task_conflicted"
completion_reason Completion.failed = "task_failed"

abbrev pub completed_from : TaskStatus → TaskStatus
completed_from status = if is status readback_verified then readback_verified else checker_validated

unfoldable pub complete : TaskIdentity → Completion → Call Db TaskRow
complete identity status = do
  task ← require_task identity
  verdict ← find_latest_verdict identity.household_id identity.task_id
  throw_if (is_verified status && not (is_accepted verdict))
      (failure checker_rejected "checker_acceptance_required" never false)
  move_with identity (completed_from task.status) (status_of_completion status)
      (completion_reason status) true (completion_failure status) (some false)

unfoldable pub fail : TaskIdentity → TaskStatus → String → Bool → Call Db TaskRow
fail identity expected_from failure_category resumable =
    move_with identity expected_from TaskStatus.failed "runtime_failed" true (some failure_category)
      (some resumable)

unfoldable pub select_contract :
    List RuntimePolicy
    → TaskIdentity
    → SkillIdentity
    → SchemaIdentity
    → SchemaIdentity
    → PolicyIdentity
    → Call Db TaskRow
select_contract policies identity skill input_schema output_schema policy = do
  resolved ← resolve policies policy
  select_execution_contract identity.household_id identity.task_id (record {
    skill = skill;
    input_schema = input_schema;
    output_schema = output_schema;
    policy = resolved.identity;
  })
  move identity created skill_selected "execution_contract_selected"

module _ (hash : Payload → String) where
  unfoldable pub validate_maker :
      TaskIdentity → String → SchemaIdentity → Payload → Call Db Artifact
  validate_maker identity artifact_id schema payload = do
    task ← require_status identity maker_running
    stored ← save hash (
        create_artifact_envelope hash identity.household_id identity.task_id artifact_id
          "maker_output" schema.schema_name schema.schema_version payload)
    link_maker_artifact identity.household_id identity.task_id stored.artifact_id
        stored.artifact_hash
    row ← move identity task.status maker_validated "maker_artifact_validated"
    return stored

  unfoldable pub validate_checker : TaskIdentity → String → Verdict → Call Db Artifact
  validate_checker identity checker_artifact_id verdict = do
    task ← require_status identity checker_running
    stored ← save hash (
        create_artifact_envelope hash identity.household_id identity.task_id checker_artifact_id
          "checker_output" "checker-verdict" 1 (verdict_value verdict))
    record_checker_verdict identity.household_id identity.task_id stored.artifact_id verdict
    row ← move identity checker_running checker_validated "checker_artifact_validated"
    return stored
