-- ===== src/Tests/Commands.antt =====
-- Concrete mutation commands.
use plus_one.Common.Errors.{Thrown}
use plus_one.Common.{◌++◌, ◌≡◌, refl, true, false, [], ◌∷◌, none, some, Option, List}
use plus_one.Common.Effects.{done, after}
use plus_one.Task.{TaskStatus}
use plus_one.Storage.{Verdict, VerdictKind, TaskRow}
use plus_one.Tests.Runtime.{
  sample_hash, sample_policy, sample_operations, empty_db, sample_identities,
}
use plus_one.Verification.Audit.{Operation, validates_checker, perform_all}
use plus_one.Ledger.{transition}
use plus_one.Mutation.Commands.{Books, CheckedCommand, register, insert_command, new_command}
use plus_one.Mutation.Commands.Replay.{register-replay}
use plus_one.Mutation.Commands.Moves.{pending_command, update_waiting}
use plus_one.Mutation.Resolver.{
  Gaps, catch_up, hand_back, settle, or_again, reconcile_once, reconcile_from, reconcile,
}
use plus_one.Mutation.Resolver.Agreement.{IsReconciled, IsAside, IsQuiet}
use plus_one.Mutation.Resolver.Reconciled.{reconcile-IsReconciled}

abbrev pub checked_task : TaskRow
checked_task = record {
  household_id = "h1";
  task_id = "t1";
  parent_task_id = none;
  team = "accounting";
  status = TaskStatus.checker_validated;
  attempt_limit = 3;
  deadline_at = none;
  failure_category = none;
  resumable = true;
  is_closed = false;
  contract = none;
  current_maker_artifact_id = some "a1";
  current_maker_artifact_hash = some "x";
  current_checker_artifact_id = some "a2";
}

abbrev sample_envelope : CheckedCommand
sample_envelope = record {
  command_id = "c1";
  household_id = "h1";
  task_id = "t1";
  command_type = "accounting.post_journal";
  checked_proposal_id = "a1";
  checked_proposal_hash = "x";
  idempotency_key = "k1";
  confirmation_required = true;
  confirmation_id = some "ok1";
  schema_name = "journal";
  schema_version = 1;
  payload = "{}";
}

abbrev open_books : Books
open_books = record {
  ledger = record {
    households = "h1" ∷ [];
    tasks = checked_task ∷ [];
    transitions = [];
    artifacts = [];
    verdicts = [];
  };
  confirmations = record { household_id = "h1"; confirmation_id = "ok1" } ∷ [];
  commands = [];
}

abbrev accepts_all : CheckedCommand → Books → Option Thrown
accepts_all input books = none

abbrev alone : Books → Books
alone books = books

abbrev with_command : Books
with_command = record open_books { commands = new_command sample_envelope ∷ [] }

register-replay_example :
    register accepts_all alone sample_envelope with_command
    ≡ done (new_command sample_envelope) with_command
unfolding register insert_command
register-replay_example =
    register-replay accepts_all alone alone sample_envelope (new_command sample_envelope) open_books
      with_command refl refl

-- A registered command whose task is still `checker_validated`, while another process clears the
-- confirmations.
abbrev clears : Books → Books
clears books = record books { confirmations = [] }

abbrev clears_aside : IsAside "h1" "c1" clears
clears_aside = record { command = λ b. refl; task = λ t b. refl }

abbrev busy_gaps : Gaps
busy_gaps = record {
  before = clears;
  after_command = clears;
  after_task = clears;
  after_move = clears;
  after_mark = clears;
}

abbrev busy_gaps_quiet : IsQuiet "h1" "c1" busy_gaps
busy_gaps_quiet = record {
  command_read = clears_aside;
  task_read = clears_aside;
  moved = clears_aside;
  marked = clears_aside;
}

reconcile-IsReconciled_example :
    IsReconciled "h1" "c1"
      (pending_command (new_command sample_envelope))
      (after (reconcile (λ n. busy_gaps) "h1" "c1" with_command))
unfolding reconcile reconcile_from or_again reconcile_once settle catch_up hand_back transition
    update_waiting
reconcile-IsReconciled_example =
    reconcile-IsReconciled (λ n. busy_gaps) "h1" "c1"
      (pending_command (new_command sample_envelope)) with_command
      (after (reconcile (λ n. busy_gaps) "h1" "c1" with_command)) (λ n. busy_gaps_quiet) refl

-- The books after a task was checked, and its command was registered.
abbrev pub accepted : Verdict
accepted = record {
  kind = VerdictKind.accepted;
  covered_artifact_id = "a1";
  covered_artifact_hash = "{}";
}

abbrev checked_operations : List Operation
checked_operations = sample_operations ++ validates_checker sample_identities "a2" accepted ∷ []

abbrev checked_books : Books
checked_books = record {
  ledger = perform_all sample_hash (sample_policy ∷ []) checked_operations empty_db;
  confirmations = [];
  commands = new_command sample_envelope ∷ [];
}
