-- ===== src/Mutation/Executor/Verified.antt =====
-- packages/mutations/src/checked-mutation-executor.ts: what `execute` returns has passed its read-back.
use plus_one.Common.Effects.{>>=-eq-done, done, throw_if, ◌>>◌, return, catch}
use plus_one.Mutation.Executor.{
  Dependencies, Call, CheckedCommand, Receipt, throw, ReadbackResult, conclude, execute, proceed,
  read_back, require_verified_replay, CheckKind, verified_evidence, ◌>>=◌, CommandStatus,
  receipt_or_found, committed_receipt, is_status, readback_rejected, evidence_missing, is_exact,
  receipt_of, failed_readback, identity_mismatch, readback_of, run_command, accepts, error_code,
  settled_after, acceptance_required, recorded, reconciled,
}
use plus_one.Common.Errors.{Thrown}
use plus_one.Common.{
  some, none, Option, true, false, Bool, Bool, List, Option, ◌≡◌, false, none, not, true, ◌||◌,
  arith, refl,
}

-- A call whose returns have a passing read-back.
record Passing {S : Type 0} (m : Call S (Receipt × ReadbackResult)) : Type 0 where
  passing : (s t : S) (r : Receipt) (b : ReadbackResult) → m s ≡ done (r, b) t → b.ok ≡ true

module _ {S : Type 0} where
  Passing-bind :
      {B : Type 0} (m : Call S B) (f : B → Call S (Receipt × ReadbackResult))
      → ((b : B) → Passing (f b))
      → Passing (m >>= f)
  Passing-bind m f p = record {
    passing = λ s t r b e. let (x, u, _, k) = >>=-eq-done (m s) f e in (p x).passing u t r b k;
  }

  Passing-throw : (e : Thrown) → Passing (throw {S = S} e)
  Passing-throw e = record { passing = λ s t r b q. cc }

  Passing-guarded :
      (stop : Bool) (e : Thrown) (r : Receipt) (b : ReadbackResult)
      → (stop ≡ false → b.ok ≡ true)
      → Passing (throw_if {S = S} stop e >> return (r, b))
  Passing-guarded true e r b ok = record { passing = λ s t r' b' q. cc }
  Passing-guarded false e r b ok = record {
    passing = λ s t r' b' q. let same : b ≡ b' = ground arith in rw⁻¹ same (ok refl);
  }

module _ {S : Type 0} (d : Dependencies S) (command : CheckedCommand) where
  verified_evidence-Passing :
      (r : Option Receipt) (b : Option ReadbackResult) → Passing (verified_evidence d command r b)
  verified_evidence-Passing (some r) (some b) =
      Passing-guarded (not b.ok) evidence_missing r b (λ e. ground arith)
  verified_evidence-Passing (some r) none = Passing-throw evidence_missing
  verified_evidence-Passing none b = Passing-throw evidence_missing

  replay-Passing : Passing (require_verified_replay d command)
  replay-Passing =
      Passing-bind (receipt_of d command) _
        (λ r. Passing-bind (readback_of d command) _ (λ b. verified_evidence-Passing r b))

  read_back-Passing :
      (required : List CheckKind) (r : Receipt) → Passing (read_back d command required r)
  unfolding read_back
  read_back-Passing required r =
      Passing-bind
        (catch (d.perform_readback command required r)
          (λ e. return (failed_readback required r (error_code d command e))))
        _
        (λ b. Passing-bind (recorded d command b) _ (λ kept.
          Passing-bind (reconciled d command) _ (λ status.
            Passing-guarded (not kept.ok || is_status status CommandStatus.readback_failed)
              readback_rejected r kept (λ e. ground arith))))

  evidence-Passing :
      (required : List CheckKind) (status : CommandStatus) (r : Option Receipt)
      → Passing (
          receipt_or_found d command r >>= λ found.
          committed_receipt d command status found >>= λ kept. read_back d command required kept)
  evidence-Passing required status r = Passing-bind (receipt_or_found d command r) _ (λ found.
      Passing-bind (committed_receipt d command status found) _ (read_back-Passing required))

  conclude-Passing :
      (required : List CheckKind) (status : CommandStatus) (r : Option Receipt)
      → Passing (conclude d command required status r)
  unfolding conclude
  conclude-Passing required CommandStatus.readback_verified r = replay-Passing
  conclude-Passing required CommandStatus.execution_failed r = Passing-throw _
  conclude-Passing required CommandStatus.readback_failed r = Passing-throw _
  conclude-Passing required CommandStatus.registered r =
      evidence-Passing required CommandStatus.registered r
  conclude-Passing required CommandStatus.execution_pending r =
      evidence-Passing required CommandStatus.execution_pending r
  conclude-Passing required CommandStatus.committed r =
      evidence-Passing required CommandStatus.committed r

  proceed-Passing :
      (required : List CheckKind) (status : CommandStatus)
      → Passing (proceed d command required status)
  unfolding proceed
  proceed-Passing required CommandStatus.readback_verified = replay-Passing
  proceed-Passing required CommandStatus.execution_failed = Passing-throw _
  proceed-Passing required CommandStatus.readback_failed = Passing-throw _
  proceed-Passing required CommandStatus.execution_pending =
      Passing-bind (receipt_of d command) _ (λ before.
        Passing-bind (run_command d command before) _ (λ ran.
          Passing-bind (settled_after d command ran) _
            (λ now. conclude-Passing required now.1 now.0)))
  proceed-Passing required CommandStatus.registered =
      Passing-bind (receipt_of d command) _ (conclude-Passing required CommandStatus.registered)
  proceed-Passing required CommandStatus.committed =
      Passing-bind (receipt_of d command) _ (conclude-Passing required CommandStatus.committed)

  execute-Passing : Passing (execute d command)
  unfolding execute
  execute-Passing = Passing-bind (d.get_verified command.checked_proposal_id) _ (λ a.
      Passing-bind (throw_if (not (is_exact command a)) identity_mismatch) _ (λ u.
        Passing-bind (d.find_latest_verdict command.household_id command.task_id) _ (λ v.
          Passing-bind (throw_if (not (accepts command v)) acceptance_required) _ (λ w.
            Passing-bind (d.prepare command) _ (λ required.
              Passing-bind (d.register command) _
                (λ x. Passing-bind (reconciled d command) _ (proceed-Passing required)))))))

-- What `execute` returns, also for a command that was verified before, is a receipt with a read-back
-- that passed.
pub execute-IsVerified :
    {S : Type 0} (d : Dependencies S) (command : CheckedCommand) (s t : S) (r : Receipt)
    (b : ReadbackResult)
    → execute d command s ≡ done (r, b) t
    → b.ok ≡ true
execute-IsVerified d command s t r b e = (execute-Passing d command).passing s t r b e
