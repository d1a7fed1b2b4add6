-- ===== src/Mutation/Executor/Once.antt =====
-- packages/mutations/src/checked-mutation-executor.ts: the mutation of a command runs at most once in
-- a call of `execute`, and only with an accepting verdict for the exact artifact.
use plus_one.Mutation.Executor.Stages.{
  reconciled-Raises, require_verified_replay-Raises, receipt_of-Raises, run_command-Raises,
  settled_after-Raises, conclude-Raises,
}
use plus_one.Common.Effects.{after, done}
use plus_one.Mutation.Executor.Counts.{CountsRuns}
use plus_one.Common.Raises.{Raises, Raises-bind, Raises-throw, Raises-throw_if, Raises-bind_done}
use plus_one.Mutation.Executor.{
  Dependencies, CheckedCommand, reconciled, throw_if, CheckKind, ◌>>◌, Call, CommandStatus, proceed,
  ◌>>=◌, LatestVerdict, execute, accepts, is_exact, identity_mismatch, acceptance_required,
}
use plus_one.Common.{ℕ, Option, List, arith, not, ◌≡◌, ◌≤◌, false, suc}

module _ {S : Type 0} (d : Dependencies S) (runs : S → ℕ) (counts : CountsRuns d runs)
    (command : CheckedCommand) where
  Raises-more : {B : Type 0} (m : Call S B) → Raises runs 0 m → Raises runs 1 m
  Raises-more m a = record { at_most = λ s. omega (arith, a.at_most s) }

  proceed-Raises :
      (required : List CheckKind) (status : CommandStatus)
      → Raises runs 1 (proceed d command required status)
  unfolding proceed
  proceed-Raises required CommandStatus.readback_verified =
      Raises-more _ (require_verified_replay-Raises d runs counts command)
  proceed-Raises required CommandStatus.execution_failed = Raises-more _ (Raises-throw runs _)
  proceed-Raises required CommandStatus.readback_failed = Raises-more _ (Raises-throw runs _)
  proceed-Raises required CommandStatus.execution_pending =
      Raises-bind runs 0 1 _ _ (receipt_of-Raises d runs counts command) (λ before.
        Raises-bind runs 1 0 _ _ ((run_command-Raises d runs counts command) before) (λ ran.
          Raises-bind runs 0 0 _ _ ((settled_after-Raises d runs counts command) ran)
            (λ now. (conclude-Raises d runs counts command) required now.1 now.0)))
  proceed-Raises required CommandStatus.registered = Raises-more _ (
      Raises-bind runs 0 0 _ _ (receipt_of-Raises d runs counts command)
        ((conclude-Raises d runs counts command) required CommandStatus.registered))
  proceed-Raises required CommandStatus.committed = Raises-more _ (
      Raises-bind runs 0 0 _ _ (receipt_of-Raises d runs counts command)
        ((conclude-Raises d runs counts command) required CommandStatus.committed))

  prepare-Raises : Raises runs 0 (d.prepare command)
  prepare-Raises = record { at_most = λ s. omega (arith, counts.prepare command s) }

  register-Raises : Raises runs 0 (d.register command)
  register-Raises = record { at_most = λ s. omega (arith, counts.register command s) }

  prepared-Raises : Raises runs 1 (
      d.prepare command >>= λ required.
      d.register command >> (reconciled d command >>= λ status. proceed d command required status))
  prepared-Raises = Raises-bind runs 0 1 _ _ prepare-Raises (λ required.
      Raises-bind runs 0 1 _ _ register-Raises (λ u.
        Raises-bind runs 0 1 _ _ (reconciled-Raises d runs counts command)
          (proceed-Raises required)))

  get_verified-Raises : Raises runs 0 (d.get_verified command.checked_proposal_id)
  get_verified-Raises = record {
    at_most = λ s. omega (arith, counts.get_verified command.checked_proposal_id s);
  }

  verdict-Raises : Raises runs 0 (d.find_latest_verdict command.household_id command.task_id)
  verdict-Raises = record {
    at_most = λ s. omega (arith, counts.find_latest_verdict command.household_id command.task_id s);
  }

  execute-Raises : Raises runs 1 (execute d command)
  unfolding execute
  execute-Raises = Raises-bind runs 0 1 _ _ get_verified-Raises (λ a.
      Raises-bind runs 0 1 _ _ (Raises-throw_if runs (not (is_exact command a)) identity_mismatch)
        (λ u. Raises-bind runs 0 1 _ _ verdict-Raises (λ v.
          Raises-bind runs 0 1 _ _
            (Raises-throw_if runs (not (accepts command v)) acceptance_required)
            (λ w. prepared-Raises))))

  refusal-Raises :
      (v : Option LatestVerdict)
      → accepts command v ≡ false
      → Raises runs 0 (
          throw_if (not (accepts command v)) acceptance_required
          >> (d.prepare command >>= λ required.
              d.register command
              >> (reconciled d command >>= λ status. proceed d command required status)))
  refusal-Raises v e = rw e (Raises-throw runs acceptance_required)

  refused-Raises :
      ((s t : S) (v : Option LatestVerdict)
        → d.find_latest_verdict command.household_id command.task_id s ≡ done v t
        → accepts command v ≡ false)
      → Raises runs 0 (execute d command)
  unfolding execute
  refused-Raises never = Raises-bind runs 0 0 _ _ get_verified-Raises (λ a.
      Raises-bind runs 0 0 _ _ (Raises-throw_if runs (not (is_exact command a)) identity_mismatch)
        (λ u.
          Raises-bind_done runs 0 0 _ _ verdict-Raises
            (λ s t v e. refusal-Raises v (never s t v e))))

-- For any count of runs that only the runner raises, and by one at most: a call of `execute`, however
-- it ends, runs the mutation at most once.
pub execute-runs_once :
    {S : Type 0} (d : Dependencies S) (runs : S → ℕ) (command : CheckedCommand) (s : S)
    → CountsRuns d runs
    → runs (after (execute d command s)) ≤ suc (runs s)
execute-runs_once d runs command s counts =
    omega (arith, (execute-Raises d runs counts command).at_most s)

-- For any count of runs that only the runner raises: where the ledger's latest verdict of the task is
-- no acceptance of the command's exact proposal and hash, a call of `execute` never runs the mutation.
pub execute-never_runs :
    {S : Type 0} (d : Dependencies S) (runs : S → ℕ) (command : CheckedCommand) (s : S)
    → CountsRuns d runs
    → ((t u : S) (v : Option LatestVerdict)
        → d.find_latest_verdict command.household_id command.task_id t ≡ done v u
        → accepts command v ≡ false)
    → runs (after (execute d command s)) ≤ runs s
execute-never_runs d runs command s counts never =
    omega (arith, (refused-Raises d runs counts command never).at_most s)
