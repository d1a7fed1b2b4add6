-- ===== src/Ledger/Verdicts.antt =====
-- packages/database/src/repositories/operations/verification-ledger.ts: checker verdicts.
pub mod Coverage
use plus_one.Common.Errors.{checker_rejected, other_error}
use plus_one.Common.{same_option, if◌then◌else◌, ◌&&◌, any, none, false, not, ◌∷◌}
use plus_one.Ledger.{
  task_not_found, Bool, Option, String, TaskRow, ℕ, Artifact, List, find, some, str_eq, task_row,
  update_rows, ◌==◌, failure, is, constraint_violation, never, database_error,
}
use plus_one.Storage.{Db, VerdictRow, Verdict, VerdictKind, Payload, verdict_value, json_text}
use plus_one.Common.Effects.{Call, done, threw}
use plus_one.Task.{checker_running}

abbrev pub kind_index : VerdictKind → ℕ
kind_index VerdictKind.accepted = 0
kind_index VerdictKind.rejected = 1
kind_index VerdictKind.revision_requested = 2
kind_index VerdictKind.insufficient_evidence = 3
kind_index VerdictKind.conflicted = 4

-- `===` on verdicts.
abbrev pub is_kind : VerdictKind → VerdictKind → Bool
is_kind a b = kind_index a == kind_index b

-- The verdict is of the maker artifact that the task names now.
abbrev pub covers_current : TaskRow → Verdict → Bool
covers_current row verdict =
    same_option row.current_maker_artifact_id (some verdict.covered_artifact_id)
    && same_option row.current_maker_artifact_hash (some verdict.covered_artifact_hash)

abbrev verdict_row : String → String → String → Verdict → VerdictRow
verdict_row household task checker verdict = record {
  household_id = household;
  task_id = task;
  checker_artifact_id = checker;
  covered_artifact_id = verdict.covered_artifact_id;
  covered_artifact_hash = verdict.covered_artifact_hash;
  kind = verdict.kind;
}

abbrev pub is_verdict_by : String → String → String → VerdictRow → Bool
is_verdict_by household task checker row =
    str_eq row.household_id household
    && str_eq row.task_id task
    && str_eq row.checker_artifact_id checker

abbrev same_verdict : VerdictRow → Verdict → Bool
same_verdict row verdict =
    str_eq row.covered_artifact_id verdict.covered_artifact_id
    && str_eq row.covered_artifact_hash verdict.covered_artifact_hash
    && is_kind row.kind verdict.kind

abbrev pub checked_row : String → TaskRow → TaskRow
checked_row checker row = record row { current_checker_artifact_id = some checker }

abbrev link_checker : String → String → String → Db → Db
link_checker household task checker db = record db {
  tasks = update_rows household task (checked_row checker) db.tasks;
}

abbrev has_artifact : String → String → String → Artifact → Bool
has_artifact household task id a =
    str_eq a.household_id household && str_eq a.task_id task && str_eq a.artifact_id id

-- INSERT … ON CONFLICT DO NOTHING, and the comparison with the row that is there.
insert_verdict : String → String → String → Verdict → Call Db (Unit {0})
insert_verdict household task checker verdict db =
    elim (find (is_verdict_by household task checker) db.verdicts) [
      | some old ↦
          if same_verdict old verdict
          then done tt (link_checker household task checker db)
          else threw (failure constraint_violation "checker_verdict_conflict" never false) db
      | none ↦
          if not (any (has_artifact household task checker) db.artifacts)
          then threw (database_error "23503" "checker_verdicts_checker_artifact_fk") db
          else done tt (
              link_checker household task checker
                (record db { verdicts = verdict_row household task checker verdict ∷ db.verdicts }))
    ]

unfoldable pub record_checker_verdict : String → String → String → Verdict → Call Db (Unit {0})
unfolding insert_verdict
record_checker_verdict household task checker verdict db = elim (task_row household task db) [
  | none ↦ threw task_not_found db
  | some row ↦
      if is row.status checker_running && covers_current row verdict
      then insert_verdict household task checker verdict db
      else threw (failure checker_rejected "checker_coverage_mismatch" never false) db
]

abbrev is_verdict_of : String → String → List Artifact → VerdictRow → Bool
is_verdict_of household task artifacts row =
    str_eq row.household_id household
    && str_eq row.task_id task
    && any (has_artifact household task row.checker_artifact_id) artifacts

abbrev verdict_of_payload : Payload → Option Verdict
verdict_of_payload (verdict_value v) = some v
verdict_of_payload (json_text s) = none

abbrev stored_verdict : VerdictRow → Option Artifact → Option Verdict
stored_verdict row none = none
stored_verdict row (some a) = verdict_of_payload a.payload

-- The newest verdict, read from its checker artifact and compared with the columns.
unfoldable pub find_latest_verdict : String → String → Call Db (Option Verdict)
find_latest_verdict household task db =
    elim (find (is_verdict_of household task db.artifacts) db.verdicts) [
      | none ↦ done none db
      | some row ↦
          elim (stored_verdict row
            (find (has_artifact household task row.checker_artifact_id) db.artifacts)) [
              | none ↦ threw (other_error "ZodError") db
              | some verdict ↦
                  if same_verdict row verdict
                  then done (some verdict) db
                  else threw
                      (failure constraint_violation "checker_verdict_storage_mismatch" never false)
                      db
            ]
    ]
