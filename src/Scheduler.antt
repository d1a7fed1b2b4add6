-- ===== src/Scheduler.antt =====
-- packages/database/src/repositories/operations/delivery-scheduler.ts: the scheduled jobs and their
-- runs. A run key is the triple that its text joins; instants are numbers; the rows that another
-- transaction has locked and the supply of identifiers are parameters.
pub mod Keys
pub mod Dispatch
use plus_one.Common.Effects.{Call, threw, done}
use plus_one.Common.Errors.{Thrown, failure, constraint_violation, after_state_resolution}
use plus_one.Common.{
  ℕ, Bool, List, Option, String, all, if◌then◌else◌, [], keep, ltb, none, some, str_eq, true, ◌&&◌,
  ◌∷◌, false, find, leb, not, suc, ◌==◌, ◌||◌, any, zero, map, ◌++◌,
}

pub data RunStatus : Type 0 where
  claimed running succeeded failed timed_out cancelled skipped : RunStatus

pub data MissedRunPolicy : Type 0 where
  skip run_once bounded_catch_up : MissedRunPolicy

pub record Job : Type 0 where
  pub database_id : ℕ
  pub job_id : String
  pub household_id : String
  pub version : ℕ
  pub enabled : Bool
  pub next_eligible_run_at : ℕ
  pub max_retries : ℕ
  pub allows_overlap : Bool
  pub missed_run_policy : MissedRunPolicy

pub record Run : Type 0 where
  pub occurrence_id : String
  pub household_id : String
  pub job_id : String
  pub job_version : ℕ
  pub scheduled_for : ℕ
  pub status : RunStatus
  pub attempt_count : ℕ
  pub task_id : Option String
  pub delivery_id : Option String
  pub failure_category : Option String

pub record Schedule : Type 0 where
  pub jobs : List Job
  pub runs : List Run

abbrev pub is_active : RunStatus → Bool
is_active claimed = true
is_active running = true
is_active succeeded = false
is_active failed = false
is_active timed_out = false
is_active cancelled = false
is_active skipped = false

abbrev is_active_run_of : Job → Run → Bool
is_active_run_of j r =
    str_eq r.household_id j.household_id && str_eq r.job_id j.job_id && is_active r.status

abbrev pub is_due : (now : ℕ) → List Run → Job → Bool
is_due now runs j =
    j.enabled
    && leb j.next_eligible_run_at now
    && (j.allows_overlap || not (any (is_active_run_of j) runs))

-- `ORDER BY next_eligible_run_at, id`.
abbrev pub is_before : Job → Job → Bool
is_before a b =
    ltb a.next_eligible_run_at b.next_eligible_run_at
    || a.next_eligible_run_at == b.next_eligible_run_at && leb a.database_id b.database_id

abbrev pub place : Job → List Job → List Job
place j [] = j ∷ []
place j (k ∷ ks) = let rest = place j ks in if is_before j k then j ∷ k ∷ ks else k ∷ rest

abbrev pub ordered : List Job → List Job
ordered [] = []
ordered (j ∷ js) = place j (ordered js)

abbrev pub limited : ℕ → List Job → List Job
limited zero js = []
limited (suc n) [] = []
limited (suc n) (j ∷ js) = j ∷ limited n js

-- The rows that are selected: due, in order, without those that are locked, at most `limit`.
abbrev pub due_jobs : (locked : Job → Bool) → (now limit : ℕ) → Schedule → List Job
due_jobs locked now limit s =
    limited limit (keep (λ (j : Job). not (locked j)) (ordered (keep (is_due now s.runs) s.jobs)))

-- The run of this key: `ON CONFLICT (household_id, run_key)`.
abbrev pub has_run_key : String → String → ℕ → ℕ → Run → Bool
has_run_key h job version at_time r =
    str_eq r.household_id h
    && str_eq r.job_id job
    && r.job_version == version
    && r.scheduled_for == at_time

abbrev pub is_run_of : Job → Run → Bool
is_run_of j = has_run_key j.household_id j.job_id j.version j.next_eligible_run_at

abbrev pub new_run : String → Job → Run
new_run id j = record {
  occurrence_id = id;
  household_id = j.household_id;
  job_id = j.job_id;
  job_version = j.version;
  scheduled_for = j.next_eligible_run_at;
  status = claimed;
  attempt_count = 1;
  task_id = none;
  delivery_id = none;
  failure_category = none;
}

-- The claims, oldest first, and the runs so far, with one more run unless its key is taken.
abbrev pub claim_next : Bool → Run → List Run × List Run → List Run × List Run
claim_next true run made = made
claim_next false run made = (made.0 ++ run ∷ [], run ∷ made.1)

-- The loop over the selected jobs; an identifier is asked for each of them.
abbrev pub claim_jobs : (ℕ → String) → ℕ → List Job → List Run × List Run → List Run × List Run
claim_jobs ids n [] made = made
claim_jobs ids n (j ∷ js) made =
    claim_jobs ids (suc n) js (claim_next (any (is_run_of j) made.1) (new_run (ids n) j) made)

-- The claims, oldest first, and the schedule that the transaction commits.
unfoldable pub claim_due_runs :
    (locked : Job → Bool) → (ids : ℕ → String) → (now limit : ℕ) → Schedule → List Run × Schedule
claim_due_runs locked ids now limit s =
    let made = claim_jobs ids 0 (due_jobs locked now limit s) ([], s.runs) in
    (made.0, record s { runs = made.1 })

pub record Completion : Type 0 where
  pub household_id : String
  pub occurrence_id : String
  pub status : RunStatus
  pub task_id : Option String
  pub delivery_id : Option String
  pub failure_category : Option String

abbrev pub coalesce : Option String → Option String → Option String
coalesce none old = old
coalesce (some new) old = some new

abbrev pub as_completed : Completion → Run → Run
as_completed input r = record r {
  status = input.status;
  task_id = coalesce input.task_id r.task_id;
  delivery_id = coalesce input.delivery_id r.delivery_id;
  failure_category = input.failure_category;
}

abbrev pub is_completable_run : Completion → Run → Bool
is_completable_run input r =
    str_eq r.household_id input.household_id
    && str_eq r.occurrence_id input.occurrence_id
    && is_active r.status

abbrev pub complete_where : Completion → Run → Run
complete_where input r = if is_completable_run input r then as_completed input r else r

abbrev pub not_completable : Thrown
not_completable =
    failure constraint_violation "scheduled_run_not_completable" after_state_resolution false

abbrev pub completed_as : Completion → Option Run → Call Schedule Run
completed_as input none s = threw not_completable s
completed_as input (some r) s =
    done (as_completed input r) (record s { runs = map (complete_where input) s.runs })

unfoldable pub complete_run : Completion → Call Schedule Run
complete_run input s = completed_as input (find (is_completable_run input) s.runs) s
