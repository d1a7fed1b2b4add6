-- ===== src/Verification/Keeps.antt =====
-- The calls of packages/runtime/src/verification-runtime.ts, and those of its stores, keep every
-- task's transition log in order, also where they throw.
use plus_one.Common.{◌≡◌, refl, String, Bool, arith, Option, List}
use plus_one.Common.Effects.{
  threw, Keeps, Keeps-of_returns, Keeps-bind, Keeps-throw_if, Keeps-return,
}
use plus_one.Task.{
  TaskStatus, maker_running, maker_validated, checker_running, checker_validated, created,
}
use plus_one.Storage.{
  Db, Payload, Contract, Verdict, Artifact, SchemaIdentity, PolicyIdentity, SkillIdentity,
}
use plus_one.Ledger.{
  transition, Transition, create_task, NewTask, link_maker_artifact, select_execution_contract,
  linked_row, select_contract_row,
}
use plus_one.Ledger.Verdicts.{find_latest_verdict, record_checker_verdict, checked_row}
use plus_one.Artifacts.{save}
use plus_one.Policy.{RuntimePolicy, resolve}
use plus_one.Verification.{
  begin_checker, request_revision, complete, fail, select_contract, validate_maker,
  validate_checker, Completion, require_status, move_input, begin_maker, move_from_current,
  TaskIdentity, move_with, require_task, Thrown, find_latest_verdict, record_checker_verdict, save,
}
use plus_one.Ledger.Log.{IsLogged, transition-IsLogged, create_task-IsLogged, update_rows-IsLogged}

-- The tasks and the log decide whether it is in order.
IsLogged-same :
    (db t : Db) → t.tasks ≡ db.tasks → t.transitions ≡ db.transitions → IsLogged db → IsLogged t
IsLogged-same db t tasks log logged h k = rw (tasks, log) (logged h k)

transition_throws :
    (input : Transition) (db t : Db) (e : Thrown) → transition input db ≡ threw e t → t ≡ db
unfolding transition
transition_throws input db t e h = ground arith

pub move_with-Keeps :
    (identity : TaskIdentity) (from to : TaskStatus) (reason : String) (closes : Bool)
    (category : Option String) (resumable : Option Bool)
    → Keeps IsLogged (move_with identity from to reason closes category resumable)
unfolding move_with
move_with-Keeps identity from to reason closes category resumable =
    Keeps-of_returns
      (λ db after row logged e.
        transition-IsLogged (move_input identity from to reason closes category resumable) db after
          row (ground arith) logged (ground arith))
      (λ db t x e. ground (
        arith,
        transition_throws (move_input identity from to reason closes category resumable) db t x,
      ))

pub create_task-Keeps : (input : NewTask) → Keeps IsLogged (create_task input)
unfolding create_task
create_task-Keeps input =
    Keeps-of_returns (λ db after row logged e. create_task-IsLogged input db after row logged e)
      (λ db t x e. ground arith)

pub require_task-Keeps : (identity : TaskIdentity) → Keeps IsLogged (require_task identity)
unfolding require_task
require_task-Keeps identity =
    Keeps-of_returns (λ db t row logged e. IsLogged-same db t (ground arith) (ground arith) logged)
      (λ db t x e. ground arith)

pub find_latest_verdict-Keeps : (h t : String) → Keeps IsLogged (find_latest_verdict h t)
unfolding find_latest_verdict
find_latest_verdict-Keeps h t =
    Keeps-of_returns (λ db t row logged e. IsLogged-same db t (ground arith) (ground arith) logged)
      (λ db t x e. ground arith)

pub save-Keeps : (hash : Payload → String) (a : Artifact) → Keeps IsLogged (save hash a)
unfolding save
save-Keeps hash a =
    Keeps-of_returns (λ db t b logged e. IsLogged-same db t (ground arith) (ground arith) logged)
      (λ db t x e. ground arith)

pub link_maker_artifact-Keeps :
    (h t id digest : String) → Keeps IsLogged (link_maker_artifact h t id digest)
unfolding link_maker_artifact
link_maker_artifact-Keeps h t id digest =
    Keeps-of_returns
      (λ db u row logged e.
        update_rows-IsLogged h t (linked_row id digest) db u (λ r. (refl, refl)) (λ r. refl)
          (ground arith) (ground arith) logged)
      (λ db u x e. ground arith)

pub select_execution_contract-Keeps :
    (h t : String) (contract : Contract) → Keeps IsLogged (select_execution_contract h t contract)
unfolding select_execution_contract
select_execution_contract-Keeps h t contract =
    Keeps-of_returns
      (λ db u row logged e.
        update_rows-IsLogged h t (select_contract_row contract) db u (λ r. (refl, refl)) (λ r. refl)
          (ground arith) (ground arith) logged)
      (λ db u x e. ground arith)

pub record_checker_verdict-Keeps :
    (h t id : String) (verdict : Verdict) → Keeps IsLogged (record_checker_verdict h t id verdict)
unfolding record_checker_verdict
record_checker_verdict-Keeps h t id verdict =
    Keeps-of_returns
      (λ db u row logged e.
        update_rows-IsLogged h t (checked_row id) db u (λ r. (refl, refl)) (λ r. refl)
          (ground arith) (ground arith) logged)
      (λ db u x e. ground arith)

pub begin_maker-Keeps : (identity : TaskIdentity) → Keeps IsLogged (begin_maker identity)
unfolding begin_maker move_from_current
begin_maker-Keeps identity = Keeps-bind (require_task-Keeps identity) λ task.
    Keeps-bind (Keeps-throw_if _ _) λ _. move_with-Keeps identity task.status maker_running _ _ _ _

pub request_revision-Keeps : (identity : TaskIdentity) → Keeps IsLogged (request_revision identity)
unfolding request_revision
request_revision-Keeps identity =
    Keeps-bind (find_latest_verdict-Keeps _ _)
      λ v. Keeps-bind (Keeps-throw_if _ _) λ _. move_with-Keeps identity checker_validated _ _ _ _ _

pub begin_checker-Keeps : (identity : TaskIdentity) → Keeps IsLogged (begin_checker identity)
unfolding begin_checker
begin_checker-Keeps identity = move_with-Keeps identity maker_validated _ _ _ _ _

pub complete-Keeps :
    (identity : TaskIdentity) (status : Completion) → Keeps IsLogged (complete identity status)
unfolding complete
complete-Keeps identity status = Keeps-bind (require_task-Keeps identity) λ task.
    Keeps-bind (find_latest_verdict-Keeps _ _)
      λ v. Keeps-bind (Keeps-throw_if _ _) λ _. move_with-Keeps identity _ _ _ _ _ _

pub fail-Keeps :
    (identity : TaskIdentity) (from : TaskStatus) (category : String) (resumable : Bool)
    → Keeps IsLogged (fail identity from category resumable)
unfolding fail
fail-Keeps identity from category resumable = move_with-Keeps identity from _ _ _ _ _

pub resolve-Keeps :
    (policies : List RuntimePolicy) (identity : PolicyIdentity)
    → Keeps IsLogged (resolve policies identity)
unfolding resolve
resolve-Keeps policies identity =
    Keeps-of_returns (λ db t row logged e. IsLogged-same db t (ground arith) (ground arith) logged)
      (λ db t x e. ground arith)

pub select_contract-Keeps :
    (policies : List RuntimePolicy) (identity : TaskIdentity) (skill : SkillIdentity)
    (input_schema output_schema : SchemaIdentity) (policy : PolicyIdentity)
    → Keeps IsLogged (select_contract policies identity skill input_schema output_schema policy)
unfolding select_contract
select_contract-Keeps policies identity skill input_schema output_schema policy =
    Keeps-bind (resolve-Keeps policies policy) λ p.
      Keeps-bind (select_execution_contract-Keeps _ _ _)
        λ _. move_with-Keeps identity created _ _ _ _ _

pub require_status-Keeps :
    (identity : TaskIdentity) (expected : TaskStatus)
    → Keeps IsLogged (require_status identity expected)
unfolding require_status
require_status-Keeps identity expected =
    Keeps-bind (require_task-Keeps identity)
      λ task. Keeps-bind (Keeps-throw_if _ _) λ _. Keeps-return task

module _ (hash : Payload → String) (identity : TaskIdentity) where
  pub validate_maker-Keeps :
      (id : String) (schema : SchemaIdentity) (payload : Payload)
      → Keeps IsLogged (validate_maker hash identity id schema payload)
  unfolding validate_maker
  validate_maker-Keeps id schema payload =
      Keeps-bind (require_status-Keeps identity maker_running) λ task.
        Keeps-bind (save-Keeps hash _) λ stored. Keeps-bind (link_maker_artifact-Keeps _ _ _ _) λ _.
          Keeps-bind (move_with-Keeps identity task.status _ _ _ _ _) λ row. Keeps-return stored

  pub validate_checker-Keeps :
      (id : String) (verdict : Verdict) → Keeps IsLogged (validate_checker hash identity id verdict)
  unfolding validate_checker
  validate_checker-Keeps id verdict =
      Keeps-bind (require_status-Keeps identity checker_running) λ task.
        Keeps-bind (save-Keeps hash _) λ stored.
          Keeps-bind (record_checker_verdict-Keeps _ _ _ verdict) λ _.
            Keeps-bind (move_with-Keeps identity checker_running _ _ _ _ _)
              λ row. Keeps-return stored
