-- ===== src/Storage.antt =====
-- The rows of the `operations` schema that packages/database/src/repositories/operations reads and
-- writes: verification tasks, their transition log, artifacts and checker verdicts. A household is
-- known by its public identifier, so the joins with `operations.households` disappear; identifiers
-- are taken as parsed. `created_at` and `updated_at` are left out; the transition log and the
-- verdicts are kept newest first instead.
pub mod Rows
use plus_one.Common.{
  ℕ, suc, Bool, ◌&&◌, List, ◌∷◌, Option, none, some, str_eq, find, map, any, if◌then◌else◌, max,
  String,
}
use plus_one.Task.{TaskStatus}

pub data VerdictKind : Type 0 where
  accepted rejected revision_requested insufficient_evidence conflicted : VerdictKind

-- CheckerVerdictSchemaV1, without the findings.
pub record Verdict : Type 0 where
  pub kind : VerdictKind
  pub covered_artifact_id : String
  pub covered_artifact_hash : String

-- The payload of an artifact: a checker verdict, or any other JSON value by its canonical text.
pub data Payload : Type 0 where
  verdict_value : Verdict → Payload
  json_text : String → Payload

pub record Artifact : Type 0 where
  pub artifact_id : String
  pub household_id : String
  pub task_id : String
  pub artifact_type : String
  pub schema_name : String
  pub schema_version : ℕ
  pub artifact_hash : String
  pub payload : Payload

pub record SkillIdentity : Type 0 where
  pub skill_name : String
  pub skill_version : ℕ
  pub content_hash : String

pub record SchemaIdentity : Type 0 where
  pub schema_name : String
  pub schema_version : ℕ

pub record PolicyIdentity : Type 0 where
  pub policy_name : String
  pub policy_version : ℕ

-- The columns that select the execution contract of a task.
pub record Contract : Type 0 where
  pub skill : SkillIdentity
  pub input_schema : SchemaIdentity
  pub output_schema : SchemaIdentity
  pub policy : PolicyIdentity

pub record TaskRow : Type 0 where
  pub household_id : String
  pub task_id : String
  pub parent_task_id : Option String
  pub team : String
  pub status : TaskStatus
  pub attempt_limit : ℕ
  pub deadline_at : Option ℕ
  pub failure_category : Option String
  pub resumable : Bool
  pub is_closed : Bool  -- terminal_at IS NOT NULL
  pub contract : Option Contract
  pub current_maker_artifact_id : Option String
  pub current_maker_artifact_hash : Option String
  pub current_checker_artifact_id : Option String

pub record TransitionRow : Type 0 where
  pub household_id : String
  pub task_id : String
  pub sequence : ℕ
  pub from_status : Option TaskStatus
  pub to_status : TaskStatus
  pub reason_code : String
  pub responsible_component : String

pub record VerdictRow : Type 0 where
  pub household_id : String
  pub task_id : String
  pub checker_artifact_id : String
  pub covered_artifact_id : String
  pub covered_artifact_hash : String
  pub kind : VerdictKind

pub record Db : Type 0 where
  pub households : List String
  pub tasks : List TaskRow
  pub transitions : List TransitionRow
  pub artifacts : List Artifact
  pub verdicts : List VerdictRow

abbrev pub is_task : String → String → TaskRow → Bool
is_task household task row = str_eq row.household_id household && str_eq row.task_id task

abbrev pub task_row : String → String → Db → Option TaskRow
task_row household task db = find (is_task household task) db.tasks

-- UPDATE … WHERE household_id = … AND task_id = ….
abbrev pub update_rows : String → String → (TaskRow → TaskRow) → List TaskRow → List TaskRow
update_rows household task change =
    map (λ row. if is_task household task row then change row else row)

abbrev pub update_task : String → String → (TaskRow → TaskRow) → Db → Db
update_task household task change db = record db {
  tasks = update_rows household task change db.tasks;
}

abbrev pub is_logged : String → String → TransitionRow → Bool
is_logged household task row = str_eq row.household_id household && str_eq row.task_id task
