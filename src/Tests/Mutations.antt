-- ===== src/Tests/Mutations.antt =====
-- Concrete runs of the mutation runner.
use plus_one.Common.{◌≡◌, refl, ℕ, ◌≤◌, true, false, none, String, arith, ltb, if◌then◌else◌}
use plus_one.Common.Errors.{database_error, failure, serialization_conflict, after_backoff, Thrown}
use plus_one.Mutation.Runner.{
  Attempt, default_policy, run, try_once, attempts, attempted, body, handle, ok, fails,
  execution_pending, stopped,
}
use plus_one.Mutation.Runner.Laws.{commits_at_most_once}
use plus_one.Mutation.Runner.Receipts.{HasEvidence, returns_only_evidence}
use plus_one.Mutation.Runner.Errors.{IsSettled, sent_commit-IsSettled, claim_conflict_ends}

-- An attempt in which everything is answered well.
abbrev good : Attempt String
good = record {
  elapsed_ms = 0;
  connects = ok tt;
  begins = ok tt;
  timeouts_set = ok tt;
  claims = ok execution_pending;
  rolls_back = ok tt;
  receipt_of_claimed = ok none;
  executes = ok tt;
  records = ok "r1";
  commits = ok tt;
  is_valid = true;
  receipt_after_failure = ok none;
}

abbrev conflict : Thrown
conflict = database_error "40001" ""

-- The handler meets a conflict in the first two attempts.
abbrev conflicts_first : ℕ → Attempt String
conflicts_first k = if ltb k 3 then record good { executes = fails conflict } else good

abbrev lost_commit : ℕ → Attempt String
lost_commit k = record good { commits = fails (database_error "08006" "") }

-- Two retries, with sleeps of 25 ms and 50 ms, and then the receipt.
retried :
    run default_policy conflicts_first
    ≡ record { result = ok "r1"; executions = 3; commit_count = 1; slept_ms = 75 }
unfolding run attempts try_once attempted body handle
retried = refl

commits_at_most_once_example :
    ((run default_policy conflicts_first).commit_count ≤ 1)
    × ((run default_policy conflicts_first).executions ≤ default_policy.max_attempts)
commits_at_most_once_example = commits_at_most_once default_policy conflicts_first

returns_only_evidence_example : HasEvidence conflicts_first 1 default_policy.max_attempts "r1"
unfolding run attempts try_once attempted body handle
returns_only_evidence_example = returns_only_evidence default_policy conflicts_first refl

sent_commit-IsSettled_example :
    IsSettled lost_commit default_policy.max_attempts (run default_policy lost_commit).result
unfolding run attempts try_once attempted body handle
sent_commit-IsSettled_example = sent_commit-IsSettled default_policy lost_commit refl

claim_conflict_ends_example :
    (try_once default_policy (record good { claims = fails conflict }) 1 (stopped (ok "r1"))).result
    ≡ fails (failure serialization_conflict "database_serialization_conflict" after_backoff false)
claim_conflict_ends_example =
    claim_conflict_ends default_policy (record good { claims = fails conflict }) 1
      (stopped (ok "r1")) "" (omega arith) refl refl refl refl
