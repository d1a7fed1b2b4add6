-- ===== src/Verification/Acceptance.antt =====
-- What the verification runtime asks of a checker's verdict.
use plus_one.Common.{
  ◌&&◌, not, Bool, ◌⊎◌, ◌≡◌, refl, some, none, String, false, arith, Option, Bool, ◌⊎◌,
}
use plus_one.Common.Effects.{>>=-eq-done, throw_if-eq-done, done}
use plus_one.Task.{TaskStatus}
use plus_one.Storage.{Db, TaskRow, Verdict, VerdictKind, task_row}
use plus_one.Ledger.Log.{transition-inv}
use plus_one.Ledger.Verdicts.{find_latest_verdict}
use plus_one.Verification.{
  is_accepted, is_verified, completed_from, move_input, TaskIdentity, Completion, complete,
  move_with, require_task,
}

find_latest_verdict_keeps :
    (h t : String) (db after : Db) (v : Option Verdict)
    → find_latest_verdict h t db ≡ done v after
    → after ≡ db
unfolding find_latest_verdict
find_latest_verdict_keeps h t db after v e = ground arith

require_task-inv :
    (identity : TaskIdentity) (row : TaskRow) (db after : Db)
    → require_task identity db ≡ done row after
    → (after ≡ db) × (task_row identity.household_id identity.task_id db ≡ some row)
unfolding require_task
require_task-inv identity row db after e = ground arith

move_with-inv :
    (identity : TaskIdentity) (from to : TaskStatus) (reason : String) (closes : Bool)
    (category : Option String) (resumable : Option Bool) (row : TaskRow) (db after : Db)
    → move_with identity from to reason closes category resumable db ≡ done row after
    → (row.status ≡ to)
      × ((old : TaskRow) × (task_row identity.household_id identity.task_id db ≡ some old)
          × (old.status ≡ from))
unfolding move_with
move_with-inv identity from to reason closes category resumable row db after e =
    let (old, found, was, wrote, _) =
      transition-inv (move_input identity from to reason closes category resumable) db after row
        (ground arith) in
    (rw wrote refl, (old, found, was))

accepted_of_guard :
    (verdict : Option Verdict)
    → (is_verified Completion.verified && not (is_accepted verdict)) ≡ false
    → (v : Verdict) × (verdict ≡ some v) × (v.kind ≡ VerdictKind.accepted)
accepted_of_guard none h = ground arith
accepted_of_guard (some v) h = (v, refl, ground arith)

completed_from-cases :
    (from s : TaskStatus)
    → from ≡ completed_from s
    → (from ≡ TaskStatus.checker_validated) ⊎ (from ≡ TaskStatus.readback_verified)
completed_from-cases from s h = ground arith

-- A task is completed as `verified` only when its latest verdict is an acceptance, and only from
-- `checker_validated` or `readback_verified`.
pub complete-accepted :
    (identity : TaskIdentity) (row : TaskRow) (db after : Db)
    → complete identity Completion.verified db ≡ done row after
    → (row.status ≡ TaskStatus.verified)
      × ((v : Verdict) × (find_latest_verdict identity.household_id identity.task_id db
            ≡ done (some v) db)
          × (v.kind ≡ VerdictKind.accepted))
      × ((old : TaskRow) × (task_row identity.household_id identity.task_id db ≡ some old)
          × ((old.status ≡ TaskStatus.checker_validated)
              ⊎ (old.status ≡ TaskStatus.readback_verified)))
unfolding complete
complete-accepted identity row db after e =
    let (task, s, q, f) = >>=-eq-done (require_task identity db) _ e in
    let (verdict, t, r, g) =
      >>=-eq-done (find_latest_verdict identity.household_id identity.task_id s) _ f in
    let (go_on, moved) = throw_if-eq-done _ _ _ t g in
    let (v, is_some, accepts) = accepted_of_guard verdict go_on in
    let (same_s, found) = require_task-inv identity task db s q in
    let same_t = find_latest_verdict_keeps identity.household_id identity.task_id s t verdict r in
    let (status, (old, there, was)) = move_with-inv identity _ _ _ _ _ _ row t after moved in
    (status, (v, cc, accepts), (old, cc, completed_from-cases old.status task.status was))
