-- ===== src/Mutation/Executor/Stages.antt =====
-- packages/mutations/src/checked-mutation-executor.ts: by how much each stage of `execute` raises a
-- count of runs.

use plus_one.Mutation.Executor.Counts.{CountsRuns}
use plus_one.Common.Raises.{
  Raises, Raises-bind, Raises-catch, Raises-throw, Raises-return, Raises-throw_if,
}
use plus_one.Mutation.Executor.{
  Dependencies, CheckedCommand, ReadbackResult, Thrown, read_back, Receipt, earlier_or, readback_of,
  receipt_of, reconciled, recorded, require_verified_replay, throw_if, CheckKind, verified_evidence,
  ◌>>◌, return, evidence_missing, CommandStatus, conclude, give_up, receipt_or_found,
  reconciled_if_possible, run_command, after_failure, committed_receipt, judged, must_look_up,
  settled_after, ◌>>=◌, receipt_missing, is_status, is_through, readback_rejected,
}
use plus_one.Common.{
  ℕ, Bool, Option, String, List, arith, some, none, not, Bool-cases, ◌||◌, inl, inr,
}

module _ {S : Type 0} (d : Dependencies S) (runs : S → ℕ) (counts : CountsRuns d runs)
    (command : CheckedCommand) where
  abbrev h : String
  h = command.household_id

  abbrev id : String
  id = command.command_id

  pub reconciled-Raises : Raises runs 0 (reconciled d command)
  reconciled-Raises = record { at_most = λ s. omega (arith, counts.reconcile h id s) }

  pub receipt_of-Raises : Raises runs 0 (receipt_of d command)
  receipt_of-Raises = record { at_most = λ s. omega (arith, counts.find_receipt h id s) }

  readback_of-Raises : Raises runs 0 (readback_of d command)
  readback_of-Raises = record { at_most = λ s. omega (arith, counts.find_readback h id s) }

  guarded :
      {B : Type 0} (b : Bool) (e : Thrown) (x : B)
      → Raises runs 0 (throw_if {S = S} b e >> return x)
  guarded b e x = Raises-bind runs 0 0 _ _ (Raises-throw_if runs b e) (λ u. Raises-return runs x)

  verified_evidence-Raises :
      (r : Option Receipt) (b : Option ReadbackResult)
      → Raises runs 0 (verified_evidence d command r b)
  verified_evidence-Raises (some r) (some b) = guarded (not b.ok) evidence_missing (r, b)
  verified_evidence-Raises (some r) none = Raises-throw runs evidence_missing
  verified_evidence-Raises none b = Raises-throw runs evidence_missing

  pub require_verified_replay-Raises : Raises runs 0 (require_verified_replay d command)
  require_verified_replay-Raises =
      Raises-bind runs 0 0 _ _ receipt_of-Raises
        (λ r. Raises-bind runs 0 0 _ _ readback_of-Raises (λ b. verified_evidence-Raises r b))

  earlier_or-Raises :
      (e : Thrown) (b : Option ReadbackResult) → Raises runs 0 (earlier_or d command e b)
  earlier_or-Raises e none = Raises-throw runs e
  earlier_or-Raises e (some b) = Raises-return runs b

  recorded-Raises : (b : ReadbackResult) → Raises runs 0 (recorded d command b)
  recorded-Raises b =
      Raises-catch runs 0 0 _ _
        (Raises-bind runs 0 0 _ _
          (record { at_most = λ s. omega (arith, counts.record_readback h b s) })
          (λ u. Raises-return runs b))
        (λ e. Raises-bind runs 0 0 _ _ readback_of-Raises (earlier_or-Raises e))

  perform-Raises :
      (required : List CheckKind) (r : Receipt)
      → Raises runs 0 (d.perform_readback command required r)
  perform-Raises required r = record {
    at_most = λ s. omega (arith, counts.perform_readback command required r s);
  }

  judged-Raises :
      (r : Receipt) (b : ReadbackResult) (status : CommandStatus)
      → Raises runs 0 (judged d command r b status)
  judged-Raises r b status =
      guarded (not b.ok || is_status status CommandStatus.readback_failed) readback_rejected (r, b)

  read_back-Raises :
      (required : List CheckKind) (r : Receipt) → Raises runs 0 (read_back d command required r)
  unfolding read_back
  read_back-Raises required r =
      Raises-bind runs 0 0 _ _
        (Raises-catch runs 0 0 _ _ (perform-Raises required r) (λ e. Raises-return runs _))
        (λ b.
          Raises-bind runs 0 0 _ _ (recorded-Raises b)
            (λ kept. Raises-bind runs 0 0 _ _ reconciled-Raises (judged-Raises r kept)))

  committed_receipt-Raises :
      (status : CommandStatus) (r : Option Receipt)
      → Raises runs 0 (committed_receipt d command status r)
  committed_receipt-Raises status none = Raises-throw runs receipt_missing
  committed_receipt-Raises status (some r) =
      guarded (not (is_status status CommandStatus.committed)) receipt_missing r

  receipt_or_found-Raises : (r : Option Receipt) → Raises runs 0 (receipt_or_found d command r)
  receipt_or_found-Raises none = receipt_of-Raises
  receipt_or_found-Raises (some r) = Raises-return runs (some r)

  evidence-Raises :
      (required : List CheckKind) (status : CommandStatus) (r : Option Receipt)
      → Raises runs 0 (
          receipt_or_found d command r >>= λ found.
          committed_receipt d command status found >>= λ kept. read_back d command required kept)
  evidence-Raises required status r = Raises-bind runs 0 0 _ _ (receipt_or_found-Raises r) (λ found.
      Raises-bind runs 0 0 _ _ (committed_receipt-Raises status found) (read_back-Raises required))

  pub conclude-Raises :
      (required : List CheckKind) (status : CommandStatus) (r : Option Receipt)
      → Raises runs 0 (conclude d command required status r)
  unfolding conclude
  conclude-Raises required CommandStatus.readback_verified r = require_verified_replay-Raises
  conclude-Raises required CommandStatus.execution_failed r = Raises-throw runs _
  conclude-Raises required CommandStatus.readback_failed r = Raises-throw runs _
  conclude-Raises required CommandStatus.registered r =
      evidence-Raises required CommandStatus.registered r
  conclude-Raises required CommandStatus.execution_pending r =
      evidence-Raises required CommandStatus.execution_pending r
  conclude-Raises required CommandStatus.committed r =
      evidence-Raises required CommandStatus.committed r

  mark_failed-Raises : (e : Thrown) → Raises runs 0 (d.mark_execution_failed h id e)
  mark_failed-Raises e = record {
    at_most = λ s. omega (arith, counts.mark_execution_failed h id e s);
  }

  give_up-Raises : (e : Thrown) → Raises runs 0 (give_up d command e)
  give_up-Raises e = Raises-bind runs 0 0 _ _ (Raises-throw_if runs (must_look_up e) e) (λ u.
      Raises-bind runs 0 0 _ _ (mark_failed-Raises e)
        (λ v. Raises-bind runs 0 0 _ _ reconciled-Raises (λ status. Raises-throw runs e)))

  after_failure-Raises :
      (before : Option Receipt) (e : Thrown) (status : Option CommandStatus)
      → Raises runs 0 (after_failure d command before e status)
  after_failure-Raises before e none = give_up-Raises e
  after_failure-Raises before e (some status) = elim (Bool-cases (is_through d command status)) [
    | inl through ↦ rw through (Raises-return runs (before, status))
    | inr open_ ↦ rw open_ (give_up-Raises e)
  ]

  reconciled_if_possible-Raises : Raises runs 0 (reconciled_if_possible d command)
  reconciled_if_possible-Raises =
      Raises-catch runs 0 0 _ _
        (Raises-bind runs 0 0 _ _ reconciled-Raises (λ status. Raises-return runs (some status)))
        (λ e. Raises-return runs none)

  run-Raises : Raises runs 1 (d.run command)
  run-Raises = record { at_most = λ s. omega (arith, counts.run command s) }

  pub run_command-Raises : (before : Option Receipt) → Raises runs 1 (run_command d command before)
  unfolding run_command
  run_command-Raises before =
      Raises-catch runs 1 0 _ _
        (Raises-bind runs 1 0 _ _ run-Raises
          (λ r. Raises-return runs (some r, CommandStatus.execution_pending)))
        (λ e.
          Raises-bind runs 0 0 _ _ reconciled_if_possible-Raises (after_failure-Raises before e))

  pub settled_after-Raises :
      (ran : Option Receipt × CommandStatus) → Raises runs 0 (settled_after d command ran)
  settled_after-Raises (r, CommandStatus.execution_pending) =
      Raises-bind runs 0 0 _ _ reconciled-Raises (λ status. Raises-return runs (r, status))
  settled_after-Raises (r, CommandStatus.registered) = Raises-return runs _
  settled_after-Raises (r, CommandStatus.committed) = Raises-return runs _
  settled_after-Raises (r, CommandStatus.readback_verified) = Raises-return runs _
  settled_after-Raises (r, CommandStatus.execution_failed) = Raises-return runs _
  settled_after-Raises (r, CommandStatus.readback_failed) = Raises-return runs _
