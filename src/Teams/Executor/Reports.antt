-- ===== src/Teams/Executor/Reports.antt =====
-- packages/runtime/src/execution/team-executor.ts: what a result reports is what the database holds.
use plus_one.Artifacts.Laws.{save-keys}
use plus_one.Teams.Executor.{
  Agents, Session, in_db, Request, agent_failed, complete_unless_pending, checker_failure,
  is_cancelled,
}
use plus_one.Policy.{RuntimePolicy}
use plus_one.Teams.Failures.{normalize_execution_failure, normalize_checker_failure, Phase}
use plus_one.Teams.Outputs.{is_failed}
use plus_one.Teams.{WorkCellResult, WorkCell, Proposal, CheckedVerdict, Evaluation}
use plus_one.Ledger.Verdicts.{record_checker_verdict, find_latest_verdict}
use plus_one.Artifacts.{save}
use plus_one.Common.Errors.{Thrown}
use plus_one.Common.Effects.{done, throw_if, Call, Outcome, threw}
use plus_one.Ledger.{moved_row, transition, link_maker_artifact}
use plus_one.Common.{
  String, Bool, Option, ◌≡◌, arith, some, refl, none, true, false, List, if◌then◌else◌, is_some,
}
use plus_one.Storage.{Db, Payload, TaskRow, Verdict, task_row, Artifact, SchemaIdentity}
use plus_one.Task.{TaskStatus, checker_validated, checker_running, maker_running, maker_validated}
use plus_one.Verification.{
  validate_maker, TaskIdentity, complete, fail, move_with, validate_checker, Completion,
  status_of_completion, move_input, require_status, require_task, completed_from, completion_reason,
  completion_failure, move,
}
use mathlib.Core.Path.{subst}
use plus_one.Common.Leads.{
  Leads, Leads-bind, Leads-return, Leads-next, Any, Leads-weaken, Leads-if, Leads-throw,
  Leads-throw_if, Leads-kept,
}
use plus_one.Storage.Rows.{find-update_rows_self}
use plus_one.Ledger.Log.{transition-inv}

-- The task is there, in this status.
abbrev pub IsStored : TaskIdentity → TaskStatus → Db → Type 0
IsStored identity status db =
    (row : TaskRow) × (task_row identity.household_id identity.task_id db ≡ some row)
    × (row.status ≡ status)

-- An artifact of the task whose content hash is that of the payload.
abbrev pub IsArtifactOf : (Payload → String) → TaskIdentity → Payload → Artifact → Type 0
IsArtifactOf hash identity payload a =
    (a.household_id ≡ identity.household_id)
    × (a.task_id ≡ identity.task_id)
    × (a.artifact_hash ≡ hash payload)

module _ (identity : TaskIdentity) where
  move_with-transition :
      (from to : TaskStatus) (reason : String) (closes : Bool) (category : Option String)
      (resumable : Option Bool) (row : TaskRow) (db after : Db)
      → move_with identity from to reason closes category resumable db ≡ done row after
      → transition (move_input identity from to reason closes category resumable) db
        ≡ done row after
  unfolding move_with
  move_with-transition from to reason closes category resumable row db after e = ground arith

  move_with-IsStored :
      (from to : TaskStatus) (reason : String) (closes : Bool) (category : Option String)
      (resumable : Option Bool)
      → Leads Any
          (move_with identity from to reason closes category resumable)
          (λ _. IsStored identity to)
  move_with-IsStored from to reason closes category resumable = record {
    leads = λ db after row _ e.
        let input = move_input identity from to reason closes category resumable in
        let (old, found, was, wrote, same) =
          transition-inv input db after row
            (move_with-transition from to reason closes category resumable row db after e) in
        (
          moved_row input old,
          rw same (
              find-update_rows_self identity.household_id identity.task_id (moved_row input)
                db.tasks old (λ r. (refl, refl)) found),
          refl,
        );
  }

  fail-IsStored :
      (from : TaskStatus) (category : String) (resumable : Bool)
      → Leads Any (fail identity from category resumable) (λ _. IsStored identity TaskStatus.failed)
  unfolding fail
  fail-IsStored from category resumable =
      move_with-IsStored from TaskStatus.failed "runtime_failed" true (some category)
        (some resumable)

  complete-IsStored :
      (status : Completion)
      → Leads Any (complete identity status) (λ _. IsStored identity (status_of_completion status))
  unfolding complete
  complete-IsStored status = Leads-next (require_task identity) (λ task.
      Leads-next (find_latest_verdict identity.household_id identity.task_id) (λ verdict.
        Leads-next (throw_if _ _) (λ _.
          move_with-IsStored (completed_from task.status) (status_of_completion status)
            (completion_reason status) true (completion_failure status) (some false))))

  pub validate_checker-IsStored :
      (hash : Payload → String) (id : String) (v : Verdict)
      → Leads Any (validate_checker hash identity id v) (λ _. IsStored identity checker_validated)
  unfolding validate_checker
  validate_checker-IsStored hash id v =
      Leads-next (require_status identity checker_running) (λ task.
        Leads-next (save hash _) (λ stored. Leads-next (record_checker_verdict _ _ _ v) (λ _.
          Leads-bind (λ _. IsStored identity checker_validated) _
            (move_with-IsStored checker_running checker_validated "checker_artifact_validated" false
              none none)
            (λ row. Leads-return _ stored (λ s p. p)))))

  -- The artifact that `validate_maker` gives has the content hash of the payload.
  pub validate_maker-hash :
      (hash : Payload → String) (id : String) (schema : SchemaIdentity) (payload : Payload)
      → Leads Any
          (validate_maker hash identity id schema payload)
          (λ a _. IsArtifactOf hash identity payload a)
  unfolding validate_maker
  validate_maker-hash hash id schema payload =
      Leads-next (require_status identity maker_running) (λ task.
        Leads-bind (λ a _. IsArtifactOf hash identity payload a) _
          (record { leads = λ s t a _ e. save-keys hash _ a s t e })
          (λ a.
            Leads-bind (λ _ _. IsArtifactOf hash identity payload a) _
              (Leads-kept (link_maker_artifact _ _ a.artifact_id a.artifact_hash))
              (λ _.
                Leads-bind (λ _ _. IsArtifactOf hash identity payload a) _
                  (Leads-kept
                    (move identity task.status maker_validated "maker_artifact_validated"))
                  (λ row. Leads-return _ a (λ s p. p)))))

-- The status that a result stands for.
abbrev pub reported_status : WorkCellResult → TaskStatus
reported_status r = if is_some r.effect then checker_validated else status_of_completion r.status

pub in_db-Leads :
    {W A : Type 0} (m : Call Db A) (Q : Db → Type 0)
    → Leads Any m (λ _. Q)
    → Leads {S = Session W} Any (in_db m) (λ _ s. Q s.db)
in_db-Leads {W} {A} m Q l = record { leads = λ s t a _ e. go s t a (m s.db) (l.leads s.db) e }
  where
    go :
        (s t : Session W) (a : A) (o : Outcome Db A)
        → ((d : Db) (x : A) → Unit {0} → o ≡ done x d → Q d)
        → elim o [
          | done x db ↦ done x (record s { db = db })
          | threw e db ↦ threw e (record s { db = db })
        ]
          ≡ done a t
        → Q t.db
    go s t a (done x db) k e = let same : db ≡ t.db = cc in subst Q same (k db x tt refl)
    go s t a (threw x db) k e = cc

pub in_db-Gives :
    {W A : Type 0} (m : Call Db A) (Q : A → Type 0)
    → Leads Any m (λ a _. Q a)
    → Leads {S = Session W} Any (in_db m) (λ a _. Q a)
in_db-Gives {W} {A} m Q l = record { leads = λ s t a _ e. go s t a (m s.db) (l.leads s.db) e }
  where
    go :
        (s t : Session W) (a : A) (o : Outcome Db A)
        → ((d : Db) (x : A) → Unit {0} → o ≡ done x d → Q x)
        → elim o [
          | done x db ↦ done x (record s { db = db })
          | threw e db ↦ threw e (record s { db = db })
        ]
          ≡ done a t
        → Q a
    go s t a (done x db) k e = let same : x ≡ a = cc in subst Q same (k db x tt refl)
    go s t a (threw x db) k e = cc

module _ {W : Type 0} (agents : Agents W) (hash : Payload → String) (policies : List RuntimePolicy)
    (cell : WorkCell) (request : Request) where
  abbrev pub Reports : WorkCellResult → Session W → Type 0
  Reports r s = IsStored request.identity (reported_status r) s.db

  -- Where the parsing of a failure returns, it leaves the state alone.
  abbrev FailedIn : Session W → Type 0
  FailedIn s = IsStored request.identity TaskStatus.failed s.db

  pub agent_failed-Reports :
      (from : TaskStatus) (artifacts : List Artifact) (phase : Phase) (e : Thrown)
      → Leads Any (agent_failed agents hash policies cell request from artifacts phase e) Reports
  unfolding agent_failed normalize_execution_failure
  agent_failed-Reports from artifacts phase e =
      Leads-if (is_cancelled e)
        (λ _.
          Leads-next (in_db (fail request.identity from "cancelled" false)) (λ _. Leads-throw e))
        (λ _.
          Leads-bind (λ _. FailedIn) Reports
            (in_db-Leads (fail request.identity from "runtime_failure" false) _
              (fail-IsStored request.identity from "runtime_failure" false))
            (λ _.
              Leads-bind (λ _. FailedIn) Reports
                (Leads-bind (λ _. FailedIn) (λ _. FailedIn) (Leads-throw_if _ _)
                  (λ _. Leads-return (λ _. FailedIn) _ (λ s p. p)))
                (λ f. Leads-return Reports _ (λ s p. p))))

  abbrev pub LeftBy : Option Proposal → Completion → Session W → Type 0
  LeftBy effect status s =
      IsStored request.identity
        (if is_some effect then checker_validated else status_of_completion status) s.db

  pub complete_unless_pending-Leads :
      (effect : Option Proposal) (status : Completion)
      → Leads
          (λ s. IsStored request.identity checker_validated s.db)
          (complete_unless_pending agents hash policies cell request effect status)
          (λ _. LeftBy effect status)
  complete_unless_pending-Leads none status =
      Leads-bind (λ _. LeftBy none status) (λ _. LeftBy none status)
        (Leads-weaken (
          in_db-Leads (complete request.identity status) _
            (complete-IsStored request.identity status)))
        (λ _. Leads-return (λ _. LeftBy none status) tt (λ s p. p))
  complete_unless_pending-Leads (some p) status =
      Leads-return (λ _. LeftBy (some p) status) tt (λ s p. p)

  pub checker_failure-Leads :
      (P : Session W → Type 0) (v : CheckedVerdict) (t : Evaluation)
      → Leads P (checker_failure agents hash policies cell request v t) (λ _. P)
  unfolding normalize_checker_failure
  checker_failure-Leads P v t =
      Leads-if (is_failed t.status)
        (λ _.
          Leads-bind (λ _. P) (λ _. P)
            (Leads-bind (λ _. P) (λ _. P) (Leads-throw_if _ _)
              (λ _. Leads-return (λ _. P) _ (λ s p. p)))
            (λ f. Leads-return (λ _. P) _ (λ s p. p)))
        (λ _. Leads-return (λ _. P) none (λ s p. p))
