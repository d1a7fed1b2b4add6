-- ===== src/Tests/Executor.antt =====
-- Runs of the checked mutation executor and of a read-back, over a state that counts the runs.
use plus_one.Mutation.Readback.Complete.{perform_readback-IsComplete}
use plus_one.Mutation.Executor.Once.{execute-never_runs, execute-runs_once}
use plus_one.Mutation.Executor.Verified.{execute-IsVerified}
use plus_one.Mutation.Executor.Counts.{CountsRuns}
use plus_one.Mutation.Registry.{CheckKind, row_values, idempotency_receipt}
use plus_one.Common.Effects.{after, Call, done, return}
use plus_one.Mutation.Executor.{
  CheckedArtifact, Dependencies, LatestVerdict, execute, proceed, accepts, conclude, read_back,
  run_command,
}
use plus_one.Mutation.Readback.{
  DomainOutput, ReadbackResult, Receipt, of_row_values, perform_readback, passed, passes_in,
  is_failed, is_none_left, receipt_ok,
}
use plus_one.Mutation.Commands.{CheckedCommand, CommandStatus}
use plus_one.Common.{
  ℕ, Bool, List, Option, all, ◌≡◌, false, suc, true, arith, none, some, zero, ◌≤◌, any, ◌∷◌, [],
  refl,
}

abbrev proposal : CheckedCommand
proposal = record {
  command_id = "command_1";
  household_id = "h1";
  task_id = "t1";
  command_type = "post";
  checked_proposal_id = "a1";
  checked_proposal_hash = "x1";
  idempotency_key = "k1";
  confirmation_required = false;
  confirmation_id = none;
  schema_name = "journal";
  schema_version = 1;
  payload = "{}";
}

abbrev receipt : Receipt
receipt = record {
  receipt_id = "receipt_1";
  idempotency_key = "k1";
  checked_proposal_id = "a1";
  checked_proposal_hash = "x1";
}

abbrev artifact : CheckedArtifact
artifact = record {
  artifact_id = "a1";
  household_id = "h1";
  task_id = "t1";
  artifact_hash = "x1";
  schema_name = "maker-artifact";
  schema_version = 1;
  is_maker = true;
  output_schema_name = some "journal";
  output_schema_version = 1;
  output = "{}";
}

abbrev verdict : Bool → LatestVerdict
verdict accepted = record {
  is_accepted = accepted;
  covered_artifact_id = "a1";
  covered_artifact_hash = "x1";
}

abbrev checks : List CheckKind
checks = row_values ∷ idempotency_receipt ∷ []

abbrev domain : DomainOutput
domain = record { checks = (of_row_values, passed) ∷ []; mismatches = [] }

abbrev good : ReadbackResult
good = record {
  receipt_id = "receipt_1";
  ok = true;
  checks =
      record { kind = row_values; status = passed }
      ∷ record { kind = idempotency_receipt; status = passed }
      ∷ [];
  mismatches = [];
}

-- The command is pending before its run and committed after it.
abbrev status_at : ℕ → CommandStatus
status_at zero = CommandStatus.execution_pending
status_at (suc n) = CommandStatus.committed

abbrev counted_run : Call ℕ Receipt
counted_run n = done receipt (suc n)

abbrev counted_status : Call ℕ CommandStatus
counted_status n = done (status_at n) n

abbrev world : Bool → Dependencies ℕ
world accepted = record {
  get_verified = λ id. return artifact;
  find_latest_verdict = λ h task. return (some (verdict accepted));
  prepare = λ c. return checks;
  register = λ c. return tt;
  reconcile = λ h id. counted_status;
  find_receipt = λ h id. return none;
  run = λ c. counted_run;
  mark_execution_failed = λ h id e. return tt;
  perform_readback = λ c required r. return good;
  record_readback = λ h r. return tt;
  find_readback = λ h id. return none;
}

abbrev itself : ℕ → ℕ
itself n = n

world-CountsRuns : (accepted : Bool) → CountsRuns (world accepted) itself
world-CountsRuns accepted = record {
  get_verified = λ id s. omega arith;
  find_latest_verdict = λ h task s. omega arith;
  prepare = λ c s. omega arith;
  register = λ c s. omega arith;
  reconcile = λ h id s. omega arith;
  find_receipt = λ h id s. omega arith;
  run = λ c s. omega arith;
  mark_execution_failed = λ h id e s. omega arith;
  perform_readback = λ c required r s. omega arith;
  record_readback = λ h r s. omega arith;
  find_readback = λ h id s. omega arith;
}

-- The run is counted once, and the read-back is returned.
execute-world : execute (world true) proposal 0 ≡ done (receipt, good) 1
unfolding execute proceed conclude read_back run_command
execute-world = refl

execute-runs_once_example : itself (after (execute (world true) proposal 0)) ≤ suc (itself 0)
execute-runs_once_example = execute-runs_once (world true) itself proposal 0 (world-CountsRuns true)

rejects_all :
    (t u : ℕ) (v : Option LatestVerdict)
    → (world false).find_latest_verdict "h1" "t1" t ≡ done v u
    → accepts proposal v ≡ false
rejects_all t u none e = refl
rejects_all t u (some v) e = let same : verdict false ≡ v = ground arith in rw⁻¹ same refl

execute-never_runs_example : itself (after (execute (world false) proposal 0)) ≤ itself 0
execute-never_runs_example =
    execute-never_runs (world false) itself proposal 0 (world-CountsRuns false) rejects_all

execute-IsVerified_example : good.ok ≡ true
execute-IsVerified_example = execute-IsVerified (world true) proposal 0 1 receipt good execute-world

perform_readback-IsComplete_example :
    (all (passes_in good.checks) checks ≡ true)
    × (any is_failed good.checks ≡ false)
    × (is_none_left good.mismatches ≡ true)
    × (receipt_ok proposal receipt (some receipt) ≡ true)
unfolding perform_readback
perform_readback-IsComplete_example =
    perform_readback-IsComplete proposal checks receipt (some receipt) domain good refl refl refl
