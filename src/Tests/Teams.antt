-- ===== src/Tests/Teams.antt =====
-- A work cell whose maker answers with one claim and whose checker accepts it.
use plus_one.Common.{[], ◌∷◌, none, some, ◌≡◌, refl, inr, true, ◌≤◌, ◌+◌, leb, length, String, all}
use plus_one.Common.Effects.{Outcome, done, threw, after, return}
use plus_one.Storage.{Payload, json_text, verdict_value, VerdictKind, SkillIdentity}
use plus_one.Ledger.{create_task, transition, select_execution_contract, link_maker_artifact}
use plus_one.Ledger.Verdicts.{record_checker_verdict, find_latest_verdict}
use plus_one.Artifacts.{save}
use plus_one.Policy.{resolve}
use plus_one.Verification.{
  Completion, complete, validate_maker, validate_checker, begin_maker, begin_checker,
  select_contract, move_with, require_task, require_status, move_from_current,
}
use plus_one.Teams.{MakerArtifact, written, WorkCell, WorkCellResult}
use plus_one.Teams.Failures.{normalize_error_code, is_code, codes, starts_lower, is_code_char}
use plus_one.Teams.Failures.Codes.{normalize_error_code-fits}
use plus_one.Teams.Outputs.{terminal_state}
use plus_one.Teams.Executor.{
  Agents, Request, Session, maker, execute_work_cell, maker_round, check, judge, finish,
  validated_output, maker_rounds, check_rounds,
}
use plus_one.Teams.Executor.Reports.{Reports}
use plus_one.Teams.Executor.Checked.{
  IsChecked, execute_work_cell-Reports, execute_work_cell-IsChecked,
}
use plus_one.Teams.Executor.Asked.{times_asked}
use plus_one.Teams.Executor.Once.{execute_work_cell-once}
use plus_one.Tests.Runtime.{sample_policy, sample_identity, sample_schema, empty_db}

normalize_error_code-fits_example :
    (starts_lower (normalize_error_code (codes "Bad Code!")) ≡ true)
    × (all is_code_char (normalize_error_code (codes "Bad Code!")) ≡ true)
    × (length (normalize_error_code (codes "Bad Code!")) ≤ 128)
    × (is_code (normalize_error_code (codes "Bad Code!"))
        ≡ leb 2 (length (normalize_error_code (codes "Bad Code!"))))
normalize_error_code-fits_example = normalize_error_code-fits (codes "Bad Code!")

abbrev answer : MakerArtifact
answer = record {
  output_schema = sample_schema;
  output = record {
    text = "{}";
    schema_name = some "reply";
    schema_version = some 1;
    reason = none;
    questions = [];
    query_result = none;
  };
  claims =
      record { claim_id = "c1"; text = written "paid"; evidence_artifact_ids = "e1" ∷ "e2" ∷ [] }
      ∷ [];
}

abbrev sample_agents : Agents (Unit {0})
sample_agents = record {
  ask_maker = return answer;
  ask_checker = λ a. return (record { kind = VerdictKind.accepted; findings = [] });
  task_error = λ a. none;
  encode = λ m. json_text m.output.text;
  causes = λ e. [];
  zod_issues = λ e. none;
}

abbrev sample_cell : WorkCell
sample_cell = record {
  work_cell_id = "reply-cell";
  maker_policy = sample_identity;
  checker_policy = sample_identity;
  input_schema = sample_schema;
  output_schema = sample_schema;
  proposals = [];
  allowed_skill_names = "reply" ∷ [];
  accepts_input = λ i. true;
  accepts_output = λ o. true;
  evaluate_stop_condition =
      λ m v. inr (record { status = Completion.verified; reason = "answered"; outstanding = [] });
}

abbrev reply_skill : SkillIdentity
reply_skill = record { skill_name = "reply"; skill_version = 1; content_hash = "0" }

abbrev sample_request : Request
sample_request = record {
  identity = record { household_id = "h1"; task_id = "t1" };
  parent_task_id = none;
  team = "accounting";
  skill = reply_skill;
  maker_input = "{}";
  permitted_evidence = "e1" ∷ [];
  maker_artifact_id = "a1";
  checker_artifact_id = "a2";
  now = 5;
}

abbrev reply_hash : Payload → String
reply_hash (verdict_value v) = "verdict"
reply_hash (json_text text) = text

abbrev start : Session (Unit {0})
start = record { db = empty_db; asked = []; world = tt }

ran : Outcome (Session (Unit {0})) WorkCellResult
ran =
    execute_work_cell sample_agents reply_hash (sample_policy ∷ []) sample_cell sample_request start

abbrev nothing : WorkCellResult
nothing = record {
  status = Completion.failed;
  effect = none;
  maker_artifacts = [];
  checker_verdicts = [];
  accepted_maker = none;
  failure = none;
  outstanding = [];
}

abbrev result_of : Outcome (Session (Unit {0})) WorkCellResult → WorkCellResult
result_of (done r s) = r
result_of (threw e s) = nothing

ran-done :
    execute_work_cell sample_agents reply_hash (sample_policy ∷ []) sample_cell sample_request start
    ≡ done (result_of ran) (after ran)
unfolding ran execute_work_cell maker_rounds maker_round check check_rounds judge finish
    validated_output terminal_state resolve select_contract select_execution_contract begin_maker
    begin_checker validate_maker validate_checker complete move_with move_from_current require_task
    require_status create_task transition link_maker_artifact record_checker_verdict
    find_latest_verdict save
ran-done = refl

ran-verified : (result_of ran).status ≡ Completion.verified
unfolding ran execute_work_cell maker_rounds maker_round check check_rounds judge finish
    validated_output terminal_state resolve select_contract select_execution_contract begin_maker
    begin_checker validate_maker validate_checker complete move_with move_from_current require_task
    require_status create_task transition link_maker_artifact record_checker_verdict
    find_latest_verdict save
ran-verified = refl

execute_work_cell-Reports_example :
    Reports sample_agents reply_hash
      (sample_policy ∷ [])
      sample_cell
      sample_request
      (result_of ran)
      (after ran)
execute_work_cell-Reports_example =
    execute_work_cell-Reports sample_agents reply_hash (sample_policy ∷ []) sample_cell
      sample_request start (after ran) (result_of ran) ran-done

execute_work_cell-IsChecked_example :
    IsChecked sample_agents reply_hash
      (sample_policy ∷ [])
      sample_cell
      sample_request
      (result_of ran)
execute_work_cell-IsChecked_example =
    execute_work_cell-IsChecked sample_agents reply_hash (sample_policy ∷ []) sample_cell
      sample_request start (after ran) (result_of ran) ran-done ran-verified

execute_work_cell-once_example : times_asked maker (after ran) ≤ times_asked maker start + 1
unfolding ran
execute_work_cell-once_example =
    execute_work_cell-once sample_agents reply_hash (sample_policy ∷ []) sample_cell sample_request
      maker start
