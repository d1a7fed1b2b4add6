-- ===== src/Ledger.antt =====
-- packages/database/src/repositories/operations/verification-ledger.ts: tasks, their transition log
-- and checker verdicts. Each operation is one transaction, so one that throws returns the database
-- that it was given. A `database_error` is a constraint of the table that the statement breaks.
pub mod Log
pub mod Verdicts
use plus_one.Common.{
  ℕ, String, Bool, not, List, [], ◌∷◌, Option, none, some, str_eq, find, any, is_some, max, ◌==◌,
  if◌then◌else◌, suc, true, false, ◌&&◌,
}
use plus_one.Common.Errors.{
  Thrown, failure, database_error, constraint_violation, validation_rejected, never, safe,
}
use plus_one.Common.Effects.{Call, done, threw}
use plus_one.Storage.{
  Db, TaskRow, TransitionRow, VerdictRow, Verdict, Contract, task_row, is_task, update_rows,
  Artifact, is_logged,
}
use plus_one.Task.{TaskStatus, is, is_terminal_status, created, maker_running}

pub record NewTask : Type 0 where
  pub household_id : String
  pub task_id : String
  pub parent_task_id : Option String
  pub team : String
  pub attempt_limit : ℕ
  pub deadline_at : Option ℕ

abbrev new_row : NewTask → TaskRow
new_row input = record {
  household_id = input.household_id;
  task_id = input.task_id;
  parent_task_id = input.parent_task_id;
  team = input.team;
  status = created;
  attempt_limit = input.attempt_limit;
  deadline_at = input.deadline_at;
  failure_category = none;
  resumable = true;
  is_closed = false;
  contract = none;
  current_maker_artifact_id = none;
  current_maker_artifact_hash = none;
  current_checker_artifact_id = none;
}

abbrev created_log : NewTask → TransitionRow
created_log input = record {
  household_id = input.household_id;
  task_id = input.task_id;
  sequence = 1;
  from_status = none;
  to_status = created;
  reason_code = "task_created";
  responsible_component = "VerificationRuntime";
}

abbrev has_parent : String → Option String → Db → Bool
has_parent household none db = true
has_parent household (some parent) db = is_some (task_row household parent db)

unfoldable pub create_task : NewTask → Call Db TaskRow
create_task input db =
    if not (any (str_eq input.household_id) db.households)
    then threw (failure validation_rejected "task_household_not_found" never false) db
    else if input.attempt_limit == 0
    then threw (database_error "23514" "verification_tasks_attempt_limit_positive") db
    else if any (λ row. str_eq row.task_id input.task_id) db.tasks
    then threw (database_error "23505" "verification_tasks_public_id_unique") db
    else if not (has_parent input.household_id input.parent_task_id db)
    then threw (database_error "23503" "verification_tasks_parent_fk") db
    else done (new_row input) (record db {
      tasks = new_row input ∷ db.tasks;
      transitions = created_log input ∷ db.transitions;
    })

pub record Transition : Type 0 where
  pub household_id : String
  pub task_id : String
  pub expected_from : TaskStatus
  pub to : TaskStatus
  pub reason_code : String
  pub responsible_component : String
  pub closes : Bool  -- `terminal ?? false`
  pub failure_category : Option String
  pub resumable : Option Bool

-- COALESCE(MAX(sequence), 0) of a task's log.
abbrev pub max_sequence : String → String → List TransitionRow → ℕ
max_sequence household task [] = 0
max_sequence household task (row ∷ rows) =
    let rest = max_sequence household task rows in
    if is_logged household task row then max row.sequence rest else rest

abbrev or_else : Option Bool → Bool → Bool
or_else none b = b
or_else (some a) b = a

abbrev pub moved_row : Transition → TaskRow → TaskRow
moved_row input row = record row {
  status = input.to;
  failure_category = input.failure_category;
  resumable = or_else input.resumable row.resumable;
  is_closed = input.closes;
}

abbrev pub log_row : Transition → Db → TransitionRow
log_row input db = record {
  household_id = input.household_id;
  task_id = input.task_id;
  sequence = suc (max_sequence input.household_id input.task_id db.transitions);
  from_status = some input.expected_from;
  to_status = input.to;
  reason_code = input.reason_code;
  responsible_component = input.responsible_component;
}

abbrev pub task_not_found : Thrown
task_not_found = failure validation_rejected "task_not_found" never false

abbrev pub stale_task_state : Thrown
stale_task_state = failure constraint_violation "stale_task_state" safe false

-- verification_tasks_terminal_metadata: exactly the terminal statuses have a `terminal_at`.
abbrev closes_rightly : Transition → Bool
closes_rightly input =
    if input.closes then is_terminal_status input.to else not (is_terminal_status input.to)

unfoldable pub transition : Transition → Call Db TaskRow
transition input db = elim (task_row input.household_id input.task_id db) [
  | none ↦ threw task_not_found db
  | some row ↦
      if not (is row.status input.expected_from)
      then threw stale_task_state db
      else if not (closes_rightly input)
      then threw (database_error "23514" "verification_tasks_terminal_metadata") db
      else done (moved_row input row) (record db {
        tasks = update_rows input.household_id input.task_id (moved_row input) db.tasks;
        transitions = log_row input db ∷ db.transitions;
      })
]

abbrev pub select_contract_row : Contract → TaskRow → TaskRow
select_contract_row contract row = record row { contract = some contract }

-- An UPDATE whose WHERE also names a status, and the error where it changes no row.
abbrev pub update_in_status :
    String → String → TaskStatus → (TaskRow → TaskRow) → Thrown → Call Db (Unit {0})
update_in_status household task status change refusal db = elim (task_row household task db) [
  | none ↦ threw refusal db
  | some row ↦
      if is row.status status
      then done tt (record db { tasks = update_rows household task change db.tasks })
      else threw refusal db
]

unfoldable pub select_execution_contract : String → String → Contract → Call Db (Unit {0})
select_execution_contract household task contract =
    update_in_status household task created (select_contract_row contract)
      (failure constraint_violation "execution_contract_not_selectable" never false)

abbrev pub linked_row : String → String → TaskRow → TaskRow
linked_row artifact digest row = record row {
  current_maker_artifact_id = some artifact;
  current_maker_artifact_hash = some digest;
  current_checker_artifact_id = none;
}

abbrev pub is_artifact : String → String → String → String → Artifact → Bool
is_artifact household task id digest a =
    str_eq a.household_id household
    && str_eq a.task_id task
    && str_eq a.artifact_id id
    && str_eq a.artifact_hash digest

-- The maker link refers to a stored artifact of the task (verification_tasks_maker_artifact_fk).
unfoldable pub link_maker_artifact : String → String → String → String → Call Db (Unit {0})
link_maker_artifact household task artifact digest db = elim (task_row household task db) [
  | none ↦ threw (failure constraint_violation "maker_artifact_not_linkable" never false) db
  | some row ↦
      if not (is row.status maker_running)
      then threw (failure constraint_violation "maker_artifact_not_linkable" never false) db
      else if not (any (is_artifact household task artifact digest) db.artifacts)
      then threw (database_error "23503" "verification_tasks_maker_artifact_fk") db
      else done tt
          (record db { tasks = update_rows household task (linked_row artifact digest) db.tasks })
]
