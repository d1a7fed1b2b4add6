-- ===== src/Mutation/Executor.antt =====
-- packages/mutations/src/checked-mutation-executor.ts: CheckedMutationExecutor.execute over the
-- interface of its dependencies, whose state is a parameter. The read-back of a domain is one call
-- of the interface, as Mutation/Readback models it.
pub mod Counts
pub mod Stages
pub mod Verified
pub mod Once
use plus_one.Mutation.Registry.{CheckKind}
use plus_one.Common.Effects.{Call, catch, return, throw, throw_if, ◌>>=◌, ◌>>◌}
use plus_one.Mutation.Readback.{ReadbackResult, Receipt, failed_readback}
use plus_one.Common.Errors.{
  ErrorCategory, Thrown, failure, plus_one_error, after_state_resolution, checker_rejected,
  constraint_violation, database_error, never, validation_rejected, other_error,
}
use plus_one.Mutation.Commands.{
  CheckedCommand, CommandStatus, is_status, committed, execution_pending, readback_verified,
  readback_failed,
}
use plus_one.Common.{
  ℕ, Bool, String, List, Option, all, str_eq, false, some, ◌&&◌, if◌then◌else◌, none, true, ◌==◌,
  ◌||◌, not, same_option,
}

-- An artifact of the store, with what its payload is as a maker artifact: the schema that its output
-- names, if it is one, and the canonical text of its output.
pub record CheckedArtifact : Type 0 where
  pub artifact_id : String
  pub household_id : String
  pub task_id : String
  pub artifact_hash : String
  pub schema_name : String
  pub schema_version : ℕ
  pub is_maker : Bool
  pub output_schema_name : Option String
  pub output_schema_version : ℕ
  pub output : String

pub record LatestVerdict : Type 0 where
  pub is_accepted : Bool
  pub covered_artifact_id : String
  pub covered_artifact_hash : String

-- What the executor calls.
pub record Dependencies (S : Type 0) : Type 0 where
  pub get_verified : String → Call S CheckedArtifact
  pub find_latest_verdict : String → String → Call S (Option LatestVerdict)
  pub prepare : CheckedCommand → Call S (List CheckKind)
  pub register : CheckedCommand → Call S (Unit {0})
  pub reconcile : String → String → Call S CommandStatus
  pub find_receipt : String → String → Call S (Option Receipt)
  pub run : CheckedCommand → Call S Receipt
  pub mark_execution_failed : String → String → Thrown → Call S (Unit {0})
  pub perform_readback : CheckedCommand → List CheckKind → Receipt → Call S ReadbackResult
  pub record_readback : String → ReadbackResult → Call S (Unit {0})
  pub find_readback : String → String → Call S (Option ReadbackResult)

abbrev pub is_exact : CheckedCommand → CheckedArtifact → Bool
is_exact command a =
    str_eq a.artifact_id command.checked_proposal_id
    && str_eq a.household_id command.household_id
    && str_eq a.task_id command.task_id
    && str_eq a.artifact_hash command.checked_proposal_hash
    && str_eq a.schema_name "maker-artifact"
    && a.schema_version == 1
    && a.is_maker
    && same_option a.output_schema_name (some command.schema_name)
    && a.output_schema_version == command.schema_version
    && str_eq a.output command.payload

abbrev pub accepts : CheckedCommand → Option LatestVerdict → Bool
accepts command none = false
accepts command (some v) =
    v.is_accepted
    && str_eq v.covered_artifact_id command.checked_proposal_id
    && str_eq v.covered_artifact_hash command.checked_proposal_hash

abbrev pub identity_mismatch : Thrown
identity_mismatch = failure validation_rejected "checked_proposal_identity_mismatch" never false

abbrev pub acceptance_required : Thrown
acceptance_required = failure checker_rejected "exact_checker_acceptance_required" never false

abbrev pub evidence_missing : Thrown
evidence_missing = failure constraint_violation "verified_command_evidence_missing" never true

abbrev pub receipt_missing : Thrown
receipt_missing = failure constraint_violation "committed_mutation_receipt_missing" never true

abbrev pub readback_rejected : Thrown
readback_rejected =
    failure ErrorCategory.readback_mismatch "mutation_readback_failed" after_state_resolution true

abbrev pub terminal_failure : ErrorCategory → Thrown
terminal_failure category = failure category "mutation_command_terminal_failure" never true

abbrev pub must_look_up : Thrown → Bool
must_look_up (plus_one_error e) = e.receipt_lookup_required
must_look_up (database_error state constraint) = false
must_look_up (other_error name) = false

module _ {S : Type 0} (d : Dependencies S) (command : CheckedCommand) where
  abbrev pub reconciled : Call S CommandStatus
  reconciled = d.reconcile command.household_id command.command_id

  abbrev pub receipt_of : Call S (Option Receipt)
  receipt_of = d.find_receipt command.household_id command.command_id

  abbrev pub readback_of : Call S (Option ReadbackResult)
  readback_of = d.find_readback command.household_id command.command_id

  abbrev pub verified_evidence :
      Option Receipt → Option ReadbackResult → Call S (Receipt × ReadbackResult)
  verified_evidence (some r) (some b) = throw_if (not b.ok) evidence_missing >> return (r, b)
  verified_evidence (some r) none = throw evidence_missing
  verified_evidence none b = throw evidence_missing

  abbrev pub require_verified_replay : Call S (Receipt × ReadbackResult)
  require_verified_replay =
      receipt_of >>= λ receipt. readback_of >>= λ readback. verified_evidence receipt readback

  -- `recordReadback` failed: an earlier result stands, if there is one.
  abbrev pub earlier_or : Thrown → Option ReadbackResult → Call S ReadbackResult
  earlier_or e none = throw e
  earlier_or e (some earlier) = return earlier

  abbrev pub recorded : ReadbackResult → Call S ReadbackResult
  recorded readback =
      catch (d.record_readback command.household_id readback >> return readback)
        (λ e. readback_of >>= earlier_or e)

  abbrev pub judged : Receipt → ReadbackResult → CommandStatus → Call S (Receipt × ReadbackResult)
  judged receipt readback status =
      throw_if (not readback.ok || is_status status CommandStatus.readback_failed) readback_rejected
      >> return (receipt, readback)

  abbrev pub error_code : Thrown → String
  error_code (plus_one_error e) = e.code
  error_code (database_error state constraint) = "readback_execution_failed"
  error_code (other_error name) = "readback_execution_failed"

  unfoldable pub read_back : List CheckKind → Receipt → Call S (Receipt × ReadbackResult)
  read_back required receipt =
      catch (d.perform_readback command required receipt)
        (λ e. return (failed_readback required receipt (error_code e)))
      >>= λ readback.
          recorded readback >>= λ kept. reconciled >>= λ status. judged receipt kept status

  abbrev pub committed_receipt : CommandStatus → Option Receipt → Call S Receipt
  committed_receipt status none = throw receipt_missing
  committed_receipt status (some r) =
      throw_if (not (is_status status CommandStatus.committed)) receipt_missing >> return r

  abbrev pub receipt_or_found : Option Receipt → Call S (Option Receipt)
  receipt_or_found none = receipt_of
  receipt_or_found (some r) = return (some r)

  -- From the second test of the status on.
  unfoldable pub conclude :
      List CheckKind → CommandStatus → Option Receipt → Call S (Receipt × ReadbackResult)
  conclude required CommandStatus.readback_verified receipt = require_verified_replay
  conclude required CommandStatus.execution_failed receipt =
      throw (terminal_failure ErrorCategory.runtime_failure)
  conclude required CommandStatus.readback_failed receipt =
      throw (terminal_failure ErrorCategory.readback_mismatch)
  conclude required status receipt = receipt_or_found receipt >>= λ found.
      committed_receipt status found >>= λ r. read_back required r

  abbrev pub is_through : CommandStatus → Bool
  is_through status =
      is_status status CommandStatus.committed || is_status status CommandStatus.readback_verified

  -- The run failed, and the command was not committed all the same.
  abbrev pub give_up : Thrown → Call S (Option Receipt × CommandStatus)
  give_up e =
      throw_if (must_look_up e) e
      >> (d.mark_execution_failed command.household_id command.command_id e
          >> (reconciled >>= λ status. throw e))

  abbrev pub after_failure :
      Option Receipt → Thrown → Option CommandStatus → Call S (Option Receipt × CommandStatus)
  after_failure before e none = give_up e
  after_failure before e (some status) =
      if is_through status then return (before, status) else give_up e

  -- `reconcile(…).catch(() => undefined)`.
  abbrev pub reconciled_if_possible : Call S (Option CommandStatus)
  reconciled_if_possible = catch (reconciled >>= λ status. return (some status)) (λ e. return none)

  unfoldable pub run_command : Option Receipt → Call S (Option Receipt × CommandStatus)
  run_command before =
      catch (d.run command >>= λ r. return (some r, CommandStatus.execution_pending))
        (λ e. reconciled_if_possible >>= after_failure before e)

  -- A command that is still `execution_pending` after the run is reconciled once more.
  abbrev pub settled_after :
      Option Receipt × CommandStatus → Call S (Option Receipt × CommandStatus)
  settled_after (receipt, CommandStatus.execution_pending) =
      reconciled >>= λ status. return (receipt, status)
  settled_after (receipt, status) = return (receipt, status)

  unfoldable pub proceed : List CheckKind → CommandStatus → Call S (Receipt × ReadbackResult)
  proceed required CommandStatus.readback_verified = require_verified_replay
  proceed required CommandStatus.execution_failed =
      throw (terminal_failure ErrorCategory.runtime_failure)
  proceed required CommandStatus.readback_failed =
      throw (terminal_failure ErrorCategory.readback_mismatch)
  proceed required CommandStatus.execution_pending = receipt_of >>= λ before.
      run_command before >>= λ ran. settled_after ran >>= λ now. conclude required now.1 now.0
  proceed required status = receipt_of >>= λ receipt. conclude required status receipt

  unfoldable pub execute : Call S (Receipt × ReadbackResult)
  execute = d.get_verified command.checked_proposal_id >>= λ artifact.
      throw_if (not (is_exact command artifact)) identity_mismatch
      >> (d.find_latest_verdict command.household_id command.task_id >>= λ verdict.
          throw_if (not (accepts command verdict)) acceptance_required
          >> (d.prepare command >>= λ required.
              d.register command >> (reconciled >>= λ status. proceed required status)))
