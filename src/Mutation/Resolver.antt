-- ===== src/Mutation/Resolver.antt =====
-- packages/mutations/src/command-state-resolver.ts: the resolver brings the task of a mutation
-- command to the state of the command. Each call of the repository or the ledger is a transaction of
-- its own; what other processes commit between the calls of an attempt is a parameter.
pub mod Agreement
pub mod Reconciled
pub mod Audit
use plus_one.Common.{
  ℕ, zero, suc, String, Bool, true, false, Option, none, some, List, [], ◌∷◌, any, str_eq,
  if◌then◌else◌, ◌||◌, ltb, ◌&&◌,
}
use plus_one.Common.Errors.{
  Thrown, plus_one_error, failure, other_error, validation_rejected, constraint_violation,
  serialization_conflict, ErrorCategory, never, after_state_resolution,
}
use plus_one.Common.Effects.{Call, Outcome, done, threw, after}
use plus_one.Task.{TaskStatus, is}
use plus_one.Storage.{task_row}
use plus_one.Ledger.{Transition, transition}
use plus_one.Mutation.Commands.{
  Books, Command, CommandStatus, find_by_command_id, registered, execution_pending, committed,
  readback_verified, execution_failed, readback_failed,
}
use plus_one.Mutation.Commands.Moves.{mark_execution_pending}

abbrev pub command_not_found : Thrown
command_not_found = failure validation_rejected "mutation_command_not_found" never false

abbrev pub inconsistent : Thrown
inconsistent =
    failure constraint_violation "mutation_state_inconsistent" after_state_resolution true

-- The private method `transition`.
abbrev pub recovery : Command → TaskStatus → TaskStatus → String → Bool → Option String → Transition
recovery c from to reason closes category = record {
  household_id = c.envelope.household_id;
  task_id = c.envelope.task_id;
  expected_from = from;
  to = to;
  reason_code = reason;
  responsible_component = "CommandStateResolver";
  closes = closes;
  failure_category = category;
  resumable = elim category [ none ↦ none | some _ ↦ some false ];
}

-- A call of the ledger.
abbrev pub move_task : Transition → Call Books (Unit {0})
move_task input books = elim (transition input books.ledger) [
  | done _ after ↦ done tt (record books { ledger = after })
  | threw e after ↦ threw e (record books { ledger = after })
]

-- `if (task.status === from) transition(…) else if (task.status is none of settled) throw`.
unfoldable pub catch_up :
    (status : TaskStatus) (input : Transition) (settled : List TaskStatus) → Call Books (Unit {0})
catch_up status input settled books =
    if is status input.expected_from
    then move_task input books
    else if any (is status) settled
    then done tt books
    else threw inconsistent books

abbrev category_or : Option String → String → Option String
category_or none default = some default
category_or (some category) default = some category

-- What each status of a command asks of its task.
abbrev pub recovery_of : CommandStatus → Command → Transition
recovery_of registered c =
    recovery c TaskStatus.checker_validated TaskStatus.execution_pending
      "recover_registered_mutation" false none
recovery_of execution_pending c =
    recovery c TaskStatus.checker_validated TaskStatus.execution_pending "recover_pending_mutation"
      false none
recovery_of committed c =
    recovery c TaskStatus.execution_pending TaskStatus.committed "recover_committed_mutation" false
      none
recovery_of readback_verified c =
    recovery c TaskStatus.committed TaskStatus.readback_verified "recover_verified_readback" false
      none
recovery_of execution_failed c =
    recovery c TaskStatus.execution_pending TaskStatus.execution_failed "recover_execution_failure"
      true (category_or c.failure_category "runtime_failure")
recovery_of readback_failed c =
    recovery c TaskStatus.committed TaskStatus.readback_failed "recover_readback_failure" true
      (category_or c.failure_category "readback_mismatch")

abbrev pub settled_of : CommandStatus → List TaskStatus
settled_of registered = TaskStatus.execution_pending ∷ []
settled_of execution_pending = TaskStatus.execution_pending ∷ []
settled_of committed = TaskStatus.committed ∷ []
settled_of readback_verified = TaskStatus.readback_verified ∷ TaskStatus.verified ∷ []
settled_of execution_failed = TaskStatus.execution_failed ∷ []
settled_of readback_failed = TaskStatus.readback_failed ∷ []

-- The code asserts that the row that was just updated is found again.
abbrev pub find_again : String → String → Call Books Command
find_again h id books = elim (find_by_command_id h id books) [
  | none ↦ threw (other_error "TypeError") books
  | some c ↦ done c books
]

-- What other processes commit before an attempt, and in it after the command was read, after the
-- task was read, after the task was moved and after the command was marked.
pub record Gaps : Type 0 where
  pub before : Books → Books
  pub after_command : Books → Books
  pub after_task : Books → Books
  pub after_move : Books → Books
  pub after_mark : Books → Books

-- What follows the task's move: only a registered command is itself moved on.
unfoldable pub hand_back : Gaps → CommandStatus → String → String → Command → Call Books Command
hand_back g registered h id c books = elim (mark_execution_pending h id (g.after_move books)) [
  | threw e after ↦ threw e after
  | done _ after ↦ find_again h id (g.after_mark after)
]
hand_back g _ h id c books = done c books

unfoldable pub settle :
    Gaps → CommandStatus → String → String → Command → TaskStatus → Call Books Command
settle g status h id c task_status books =
    elim (catch_up task_status (recovery_of status c) (settled_of status) books) [
      | threw e after ↦ threw e after
      | done _ after ↦ hand_back g status h id c after
    ]

unfoldable pub reconcile_once : Gaps → String → String → Call Books Command
reconcile_once g h id books = elim (find_by_command_id h id books) [
  | none ↦ threw command_not_found books
  | some c ↦ elim (task_row h c.envelope.task_id (g.after_command books).ledger) [
    | none ↦ threw inconsistent (g.after_command books)
    | some task ↦ settle g c.status h id c task.status (g.after_task (g.after_command books))
  ]
]

abbrev is_conflict : ErrorCategory → Bool
is_conflict serialization_conflict = true
is_conflict _ = false

abbrev pub is_retried : Thrown → Bool
is_retried (plus_one_error e) = is_conflict e.category || str_eq e.code "stale_task_state"
is_retried _ = false

-- What follows an attempt: `rest` is the rest of the loop.
unfoldable pub or_again :
    (attempt : ℕ) → (tried rest : Outcome Books Command) → Outcome Books Command
or_again attempt (done c after) rest = done c after
or_again attempt (threw e after) rest =
    if is_retried e && ltb attempt 3 then rest else threw e after

-- The attempts from `attempt` on, `left` of them; `others attempt` is what other processes commit
-- around the calls of that attempt.
unfoldable pub reconcile_from :
    (others : ℕ → Gaps) → (attempt left : ℕ) → String → String → Call Books Command
reconcile_from others attempt zero h id books =
    threw (other_error "Unreachable reconciliation loop") books
reconcile_from others attempt (suc left) h id books =
    let tried = reconcile_once (others attempt) h id ((others attempt).before books) in
    let rest = reconcile_from others (suc attempt) left h id (after tried) in
    or_again attempt tried rest

unfoldable pub reconcile : (others : ℕ → Gaps) → String → String → Call Books Command
reconcile others h id books = reconcile_from others 1 3 h id books
