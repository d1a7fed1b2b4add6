-- ===== src/Mutation/Executor/Counts.antt =====
-- packages/mutations/src/checked-mutation-executor.ts: a count of the runs of the mutation, and
-- by how much a call raises it.
use plus_one.Common.Errors.{Thrown}
use plus_one.Common.Effects.{after}
use plus_one.Mutation.Executor.{Dependencies, CheckedCommand, CheckKind, Receipt, ReadbackResult}
use plus_one.Common.{ℕ, String, ◌≤◌, suc, List}

-- A count on the state that a run raises by one at most, and no other call of the interface raises.
pub record CountsRuns {S : Type 0} (d : Dependencies S) (runs : S → ℕ) : Type 0 where
  pub get_verified : (id : String) (s : S) → runs (after (d.get_verified id s)) ≤ runs s
  pub find_latest_verdict :
      (h task : String) (s : S) → runs (after (d.find_latest_verdict h task s)) ≤ runs s
  pub prepare : (c : CheckedCommand) (s : S) → runs (after (d.prepare c s)) ≤ runs s
  pub register : (c : CheckedCommand) (s : S) → runs (after (d.register c s)) ≤ runs s
  pub reconcile : (h id : String) (s : S) → runs (after (d.reconcile h id s)) ≤ runs s
  pub find_receipt : (h id : String) (s : S) → runs (after (d.find_receipt h id s)) ≤ runs s
  pub run : (c : CheckedCommand) (s : S) → runs (after (d.run c s)) ≤ suc (runs s)
  pub mark_execution_failed :
      (h id : String) (e : Thrown) (s : S)
      → runs (after (d.mark_execution_failed h id e s)) ≤ runs s
  pub perform_readback :
      (c : CheckedCommand) (required : List CheckKind) (r : Receipt) (s : S)
      → runs (after (d.perform_readback c required r s)) ≤ runs s
  pub record_readback :
      (h : String) (r : ReadbackResult) (s : S) → runs (after (d.record_readback h r s)) ≤ runs s
  pub find_readback : (h id : String) (s : S) → runs (after (d.find_readback h id s)) ≤ runs s
