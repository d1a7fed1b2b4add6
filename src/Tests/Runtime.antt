-- ===== src/Tests/Runtime.antt =====
-- Concrete tasks, artifacts and policies of the verification runtime.
use plus_one.Common.{◌≡◌, refl, true, List, [], ◌∷◌, any, length, ◌≤◌, ◌+◌, ◌*◌, none, String}
use plus_one.Common.Effects.{done, after}
use plus_one.Task.{
  created, skill_selected, maker_running, maker_validated, checker_running, checker_validated,
  verified, committed, readback_verified, TaskStatus, is,
}
use plus_one.Task.Lifecycle.{Follows, revisions, checked_before_outcome, history_bounded}
use plus_one.Storage.{
  PolicyIdentity, SchemaIdentity, SkillIdentity, Db, Payload, Artifact, json_text, verdict_value,
}
use plus_one.Artifacts.{save, get_verified}
use plus_one.Artifacts.Laws.{save-get_verified, IsSound}
use plus_one.Policy.{tool_calling, vision, RuntimePolicy, Models}
use plus_one.Ledger.{NewTask, create_task}
use plus_one.Ledger.Log.{IsLogged}
use plus_one.Verification.{TaskIdentity}
use plus_one.Verification.Audit.{
  Operation, creates, selects, begins_maker, validates_maker, begins_checker, perform_all,
  perform_all-IsLogged, creates,
}

abbrev checked_history : List TaskStatus
checked_history =
    skill_selected ∷ maker_running ∷ maker_validated ∷ checker_running ∷ checker_validated
    ∷ verified ∷ []

checked_history-Follows : Follows created checked_history
checked_history-Follows = (refl, (refl, (refl, (refl, (refl, (refl, tt))))))

checked_before_outcome_example : any (is checker_validated) checked_history ≡ true
checked_before_outcome_example = checked_before_outcome checked_history checked_history-Follows refl

abbrev mutation_history : List TaskStatus
mutation_history = committed ∷ readback_verified ∷ verified ∷ []

history_bounded_example : length checked_history ≤ 9 + 5 * revisions checked_history
history_bounded_example = history_bounded checked_history checked_history-Follows

abbrev pub sample_hash : Payload → String
sample_hash (verdict_value v) = v.covered_artifact_hash
sample_hash (json_text text) = text

abbrev sample_artifact : Artifact
sample_artifact = record {
  artifact_id = "a1";
  household_id = "h1";
  task_id = "t1";
  artifact_type = "maker";
  schema_name = "reply";
  schema_version = 1;
  artifact_hash = "{}";
  payload = json_text "{}";
}

abbrev sample_task : NewTask
sample_task = record {
  household_id = "h1";
  task_id = "t1";
  parent_task_id = none;
  team = "accounting";
  attempt_limit = 3;
  deadline_at = none;
}

abbrev pub empty_db : Db
empty_db = record {
  households = "h1" ∷ [];
  tasks = [];
  transitions = [];
  artifacts = [];
  verdicts = [];
}

abbrev with_task : Db
with_task = after (create_task sample_task empty_db)

abbrev with_artifact : Db
with_artifact = record with_task { artifacts = sample_artifact ∷ [] }

save-get_verified_example :
    IsSound sample_hash with_artifact
    × (get_verified sample_hash "a1" with_artifact ≡ done sample_artifact with_artifact)
    × (sample_artifact.household_id ≡ sample_artifact.household_id)
    × (sample_artifact.task_id ≡ sample_artifact.task_id)
    × (sample_artifact.artifact_hash ≡ sample_hash sample_artifact.payload)
unfolding save create_task
save-get_verified_example =
    save-get_verified sample_hash sample_artifact sample_artifact with_task with_artifact
      (record { hashed = tt; unique = tt }) refl

abbrev pub sample_identity : PolicyIdentity
sample_identity = record { policy_name = "fast"; policy_version = 1 }

abbrev pub sample_policy : RuntimePolicy
sample_policy = record {
  identity = sample_identity;
  required_capabilities = tool_calling ∷ [];
  primary_model = "large";
  fallback_models = "small" ∷ [];
  max_model_steps = 8;
  max_tool_concurrency = 2;
  max_attempts = 2;
  max_model_request_retries = 1;
  max_processor_retries = 1;
  max_sandbox_reproductions = 1;
  call_deadline_ms = 1000;
  team_deadline_ms = 2000;
  end_to_end_deadline_ms = 3000;
  max_output_bytes = 4096;
}

abbrev sample_models : Models
sample_models = ("large", tool_calling ∷ vision ∷ []) ∷ ("small", tool_calling ∷ []) ∷ []

abbrev pub sample_schema : SchemaIdentity
sample_schema = record { schema_name = "reply"; schema_version = 1 }

abbrev sample_skill : SkillIdentity
sample_skill = record { skill_name = "answer"; skill_version = 1; content_hash = "c" }

abbrev pub sample_identities : TaskIdentity
sample_identities = record { household_id = "h1"; task_id = "t1" }

abbrev pub sample_operations : List Operation
sample_operations =
    creates sample_task
    ∷ selects sample_identities sample_skill sample_schema sample_schema sample_identity
    ∷ begins_maker sample_identities
    ∷ validates_maker sample_identities "a1" sample_schema (json_text "{}")
    ∷ begins_checker sample_identities
    ∷ []

perform_all-IsLogged_example :
    IsLogged (perform_all sample_hash (sample_policy ∷ []) sample_operations empty_db)
perform_all-IsLogged_example =
    perform_all-IsLogged sample_hash (sample_policy ∷ []) sample_operations empty_db (λ h t. refl)
