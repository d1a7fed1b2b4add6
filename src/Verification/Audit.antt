-- ===== src/Verification/Audit.antt =====
-- Whatever is asked of packages/runtime/src/verification-runtime.ts, every task's transition log
-- stays an allowed chain.
use plus_one.Verification.Keeps.{
  begin_maker-Keeps, begin_checker-Keeps, request_revision-Keeps, complete-Keeps, fail-Keeps,
  select_contract-Keeps, validate_maker-Keeps, validate_checker-Keeps, create_task-Keeps,
}
use plus_one.Common.{String, Bool, List, ◌∷◌, []}
use plus_one.Common.Effects.{after}
use plus_one.Task.{TaskStatus}
use plus_one.Storage.{Db, Payload, Verdict, SchemaIdentity, PolicyIdentity, SkillIdentity}
use plus_one.Ledger.{create_task, NewTask}
use plus_one.Policy.{RuntimePolicy}
use plus_one.Verification.{
  begin_checker, request_revision, complete, fail, select_contract, validate_maker,
  validate_checker, Completion, begin_maker, TaskIdentity,
}
use plus_one.Ledger.Log.{IsLogged}

-- Any call of the runtime, with its arguments.
pub data Operation : Type 0 where
  creates : NewTask → Operation
  selects :
      TaskIdentity → SkillIdentity → SchemaIdentity → SchemaIdentity → PolicyIdentity → Operation
  begins_maker : TaskIdentity → Operation
  validates_maker : TaskIdentity → String → SchemaIdentity → Payload → Operation
  begins_checker : TaskIdentity → Operation
  validates_checker : TaskIdentity → String → Verdict → Operation
  requests_revision : TaskIdentity → Operation
  completes : TaskIdentity → Completion → Operation
  fails : TaskIdentity → TaskStatus → String → Bool → Operation

module _ (hash : Payload → String) (policies : List RuntimePolicy) where
  -- The database after a call, whether it returned or threw.
  pub perform : Operation → Db → Db
  perform (creates input) db = after (create_task input db)
  perform (selects identity skill input_schema output_schema policy) db =
      after (select_contract policies identity skill input_schema output_schema policy db)
  perform (begins_maker identity) db = after (begin_maker identity db)
  perform (validates_maker identity id schema payload) db =
      after (validate_maker hash identity id schema payload db)
  perform (begins_checker identity) db = after (begin_checker identity db)
  perform (validates_checker identity id verdict) db =
      after (validate_checker hash identity id verdict db)
  perform (requests_revision identity) db = after (request_revision identity db)
  perform (completes identity status) db = after (complete identity status db)
  perform (fails identity from category resumable) db =
      after (fail identity from category resumable db)

  pub perform_all : List Operation → Db → Db
  perform_all [] db = db
  perform_all (o ∷ os) db = perform_all os (perform o db)

  perform-IsLogged : (o : Operation) (db : Db) → IsLogged db → IsLogged (perform o db)
  unfolding perform
  perform-IsLogged (creates input) db l = (create_task-Keeps input).kept db l
  perform-IsLogged (selects identity skill i o p) db l =
      (select_contract-Keeps policies identity skill i o p).kept db l
  perform-IsLogged (begins_maker identity) db l = (begin_maker-Keeps identity).kept db l
  perform-IsLogged (validates_maker identity id schema payload) db l =
      (validate_maker-Keeps hash identity id schema payload).kept db l
  perform-IsLogged (begins_checker identity) db l = (begin_checker-Keeps identity).kept db l
  perform-IsLogged (validates_checker identity id verdict) db l =
      (validate_checker-Keeps hash identity id verdict).kept db l
  perform-IsLogged (requests_revision identity) db l = (request_revision-Keeps identity).kept db l
  perform-IsLogged (completes identity status) db l = (complete-Keeps identity status).kept db l
  perform-IsLogged (fails identity from category resumable) db l =
      (fail-Keeps identity from category resumable).kept db l

  -- After any calls of the verification runtime, in any order and whether they return or throw,
  -- each task's log numbers its transitions from 1 and leads, by allowed transitions only, from
  -- `created` to the status that the task has, and a task that was never created has no log;
  -- provided that this held before.
  pub perform_all-IsLogged :
      (os : List Operation) (db : Db) → IsLogged db → IsLogged (perform_all os db)
  unfolding perform_all
  perform_all-IsLogged [] db l = l
  perform_all-IsLogged (o ∷ os) db l =
      perform_all-IsLogged os (perform o db) (perform-IsLogged o db l)
