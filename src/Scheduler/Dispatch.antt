-- ===== src/Scheduler/Dispatch.antt =====
-- packages/runtime/src/scheduler/application-scheduler.ts: ApplicationScheduler. What the targets,
-- the delivery and the connection to the database do for one claim is a parameter; a response is the
-- parameter `A`, and the logging is left out.
pub mod Retries
pub mod Ends
use plus_one.Common.Effects.{Outcome, done, threw}
use plus_one.Scheduler.{
  Job, MissedRunPolicy, RunStatus, Completion, Run, timed_out, Call, failed, Schedule, skip,
  run_once, succeeded, bounded_catch_up, skipped, complete_run,
}
use plus_one.Common.Errors.{Thrown, database_error}
use plus_one.Common.{
  ℕ, Bool, String, suc, true, Option, false, ◌&&◌, ltb, none, if◌then◌else◌, some, zero,
}

-- What the scheduler tells apart in an error: a `TimeoutError`, a `ZodError`, and the rest.
pub data RunError : Type 0 where
  timeout_error schema_error other_run_error : RunError

pub data TargetAnswer (A : Type 0) : Type 0 where
  responds : A → TargetAnswer A
  fails : RunError → TargetAnswer A

-- How `runWithRetries` ends, and after how many attempts.
pub record Ran (A : Type 0) : Type 0 where
  pub result : TargetAnswer A
  pub attempts : ℕ

-- What follows an answer of the target: `rest` is the rest of the loop, after an error.
abbrev pub after_attempt :
    {A : Type 0} → (attempt : ℕ) → (rest : RunError → Ran A) → TargetAnswer A → Ran A
after_attempt attempt rest (responds r) = record { result = responds r; attempts = suc attempt }
after_attempt attempt rest (fails timeout_error) = record {
  result = fails timeout_error;
  attempts = suc attempt;
}
after_attempt attempt rest (fails schema_error) = rest schema_error
after_attempt attempt rest (fails other_run_error) = rest other_run_error

-- The attempts from `attempt` on, `left` of them.
abbrev pub run_from :
    {A : Type 0} → (answers : ℕ → TargetAnswer A) → (attempt left : ℕ) → (last : RunError) → Ran A
run_from answers attempt zero last = record { result = fails last; attempts = attempt }
run_from answers attempt (suc left) last =
    after_attempt attempt (λ e. run_from answers (suc attempt) left e) (answers attempt)

-- `attempt <= claim.maxRetries`.
unfoldable pub run_with_retries : {A : Type 0} → (ℕ → TargetAnswer A) → (max_retries : ℕ) → Ran A
run_with_retries answers max_retries = run_from answers 0 (suc max_retries) other_run_error

pub data Delivered : Type 0 where
  delivered_as : (delivery_id : String) → Delivered
  was_blocked was_failed was_ambiguous : Delivered
  delivery_threw : RunError → Delivered

-- The connection at a completion: it answers, it fails before the update, or the update is committed
-- and its answer is lost.
pub data Link : Type 0 where
  answers_back refuses loses_answer : Link

-- One claim's conditions, with the connection at the completion of the try block and at that of the
-- catch block.
pub record Conditions (A : Type 0) : Type 0 where
  pub now : ℕ
  pub answers : ℕ → TargetAnswer A
  pub deliver : A → Delivered
  pub first_link : Link
  pub second_link : Link

abbrev pub completion : Run → RunStatus → Option String → Option String → Completion
completion run status delivery_id category = record {
  household_id = run.household_id;
  occurrence_id = run.occurrence_id;
  status = status;
  task_id = none;
  delivery_id = delivery_id;
  failure_category = category;
}

abbrev pub connection_lost : Thrown
connection_lost = database_error "08006" ""

abbrev pub answer_lost : Outcome Schedule Run → Outcome Schedule Run
answer_lost (done r s) = threw connection_lost s
answer_lost (threw e s) = threw e s

abbrev pub complete_over : Link → Completion → Call Schedule Run
complete_over answers_back input s = complete_run input s
complete_over refuses input s = threw connection_lost s
complete_over loses_answer input s = answer_lost (complete_run input s)

abbrev pub error_status : RunError → RunStatus
error_status timeout_error = timed_out
error_status schema_error = failed
error_status other_run_error = failed

abbrev pub error_category : RunError → String
error_category timeout_error = "timeout"
error_category schema_error = "target_schema_validation"
error_category other_run_error = "runtime_failure"

-- The catch block.
abbrev pub record_error : {A : Type 0} → Conditions A → Run → RunError → Call Schedule Run
record_error c run e =
    complete_over c.second_link (completion run (error_status e) none (some (error_category e)))

-- A completion of the try block; where it throws, the catch block follows.
abbrev pub completed_or :
    {A : Type 0} → Conditions A → Run → Outcome Schedule Run → Outcome Schedule Run
completed_or c run (done r s) = done r s
completed_or c run (threw e s) = record_error c run other_run_error s

abbrev pub complete_first : {A : Type 0} → Conditions A → Run → Completion → Call Schedule Run
complete_first c run input s = completed_or c run (complete_over c.first_link input s)

abbrev pub report : {A : Type 0} → Conditions A → Run → Delivered → Call Schedule Run
report c run (delivered_as id) = complete_first c run (completion run succeeded (some id) none)
report c run was_blocked =
    complete_first c run (completion run failed none (some "processor_blocked"))
report c run was_failed = complete_first c run (completion run failed none (some "delivery_failed"))
report c run was_ambiguous =
    complete_first c run (completion run failed none (some "delivery_ambiguous"))
report c run (delivery_threw e) = record_error c run e

abbrev pub answered : {A : Type 0} → Conditions A → Run → TargetAnswer A → Call Schedule Run
answered c run (responds r) = report c run (c.deliver r)
answered c run (fails e) = record_error c run e

abbrev is_skip : MissedRunPolicy → Bool
is_skip skip = true
is_skip run_once = false
is_skip bounded_catch_up = false

abbrev pub is_missed : Job → Run → ℕ → Bool
is_missed job run now = is_skip job.missed_run_policy && ltb run.scheduled_for now

unfoldable pub dispatch_claim : {A : Type 0} → Conditions A → Job → Run → Call Schedule Run
dispatch_claim c job run s =
    if is_missed job run c.now
    then complete_first c run (completion run skipped none none) s
    else answered c run (run_with_retries c.answers job.max_retries).result s
