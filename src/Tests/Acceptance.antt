-- ===== src/Tests/Acceptance.antt =====
-- A checked task, its verdict and its completion.
use plus_one.Common.{◌≡◌, refl, true, false, [], ◌∷◌, some, find, ◌⊎◌}
use plus_one.Common.Effects.{done, after}
use plus_one.Task.{TaskStatus}
use plus_one.Storage.{
  Db, TaskRow, Verdict, VerdictKind, VerdictRow, Artifact, task_row, verdict_value,
}
use plus_one.Ledger.{transition}
use plus_one.Ledger.Verdicts.{find_latest_verdict, record_checker_verdict, is_verdict_by}
use plus_one.Ledger.Verdicts.Coverage.{IsRecorded, record_checker_verdict-covers}
use plus_one.Verification.{Completion, complete, require_task, move_with}
use plus_one.Verification.Acceptance.{complete-accepted}
use plus_one.Tests.Commands.{checked_task, accepted}
use plus_one.Tests.Runtime.{sample_identities}

abbrev checker_artifact : Artifact
checker_artifact = record {
  artifact_id = "a2";
  household_id = "h1";
  task_id = "t1";
  artifact_type = "checker_output";
  schema_name = "checker-verdict";
  schema_version = 1;
  artifact_hash = "v";
  payload = verdict_value accepted;
}

abbrev acceptance : VerdictRow
acceptance = record {
  household_id = "h1";
  task_id = "t1";
  checker_artifact_id = "a2";
  covered_artifact_id = "a1";
  covered_artifact_hash = "{}";
  kind = VerdictKind.accepted;
}

abbrev accepted_db : Db
accepted_db = record {
  households = "h1" ∷ [];
  tasks = checked_task ∷ [];
  transitions = [];
  artifacts = checker_artifact ∷ [];
  verdicts = acceptance ∷ [];
}

abbrev verified_task : TaskRow
verified_task = record checked_task {
  status = TaskStatus.verified;
  resumable = false;
  is_closed = true;
}

complete-accepted_example :
    (verified_task.status ≡ TaskStatus.verified)
    × ((v : Verdict) × (find_latest_verdict "h1" "t1" accepted_db ≡ done (some v) accepted_db)
        × (v.kind ≡ VerdictKind.accepted))
    × ((old : TaskRow) × (task_row "h1" "t1" accepted_db ≡ some old)
        × ((old.status ≡ TaskStatus.checker_validated)
            ⊎ (old.status ≡ TaskStatus.readback_verified)))
unfolding complete require_task find_latest_verdict move_with transition
complete-accepted_example =
    complete-accepted sample_identities verified_task accepted_db
      (after (complete sample_identities Completion.verified accepted_db)) refl

abbrev running_db : Db
running_db = record accepted_db {
  tasks =
      record checked_task {
        status = TaskStatus.checker_running;
        current_maker_artifact_hash = some "{}";
      }
      ∷ [];
  verdicts = [];
}

abbrev recorded_db : Db
recorded_db = after (record_checker_verdict "h1" "t1" "a2" accepted running_db)

record_checker_verdict-covers_example :
    ((task : TaskRow) × (task_row "h1" "t1" running_db ≡ some task)
      × (task.status ≡ TaskStatus.checker_running)
      × (task.current_maker_artifact_id ≡ some accepted.covered_artifact_id)
      × (task.current_maker_artifact_hash ≡ some accepted.covered_artifact_hash))
    × ((r : VerdictRow) × (find (is_verdict_by "h1" "t1" "a2") recorded_db.verdicts ≡ some r)
        × IsRecorded r accepted)
unfolding record_checker_verdict
record_checker_verdict-covers_example =
    record_checker_verdict-covers "h1" "t1" "a2" accepted running_db recorded_db refl
