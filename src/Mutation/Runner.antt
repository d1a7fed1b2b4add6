-- ===== src/Mutation/Runner.antt =====
-- packages/mutations/src/serializable-runner.ts. What the database connection, the domain handler
-- and the clock answer in the attempt of one number is an `Attempt`: the handler and the server are
-- not part of the model. `R` stands for receipts. `body` is the `try` block, `handle` the `catch`
-- block, and `run` the loop; how many handler executions and COMMITs a run makes is counted.
pub mod Laws
pub mod Receipts
pub mod Errors
use plus_one.Common.{
  ℕ, zero, suc, Bool, not, Option, none, some, String, false, if◌then◌else◌, leb, ltb, true, ◌&&◌,
  ◌||◌, ◌+◌, ◌*◌,
}
use plus_one.Common.Errors.{
  Thrown, failure, other_error, constraint_violation, serialization_conflict, storage_unavailable,
  after_state_resolution, never,
}
use plus_one.Database.{
  normalize_mutation_database_error, normalize_database_error, is_serialization_failure,
  is_connection_failure,
}

-- How an awaited call settles.
pub data Answer {ℓ} (A : Type ℓ) : Type ℓ where
  ok : A → Answer A
  fails : Thrown → Answer A

pub data ClaimStatus : Type 0 where
  execution_pending committed readback_verified : ClaimStatus

pub record Policy : Type 0 where
  pub max_attempts : ℕ
  pub overall_timeout_ms : ℕ
  pub retry_delay_ms : ℕ

abbrev pub default_policy : Policy
default_policy = record { max_attempts = 3; overall_timeout_ms = 15000; retry_delay_ms = 25 }

-- The constructor's check.
abbrev pub is_runnable : Policy → Bool
is_runnable p = leb 1 p.max_attempts && leb p.max_attempts 5

pub record Attempt (R : Type 0) : Type 0 where
  pub elapsed_ms : ℕ  -- now() - startedAt
  pub connects : Answer (Unit {0})
  pub begins : Answer (Unit {0})
  pub timeouts_set : Answer (Unit {0})
  pub claims : Answer ClaimStatus
  pub rolls_back : Answer (Unit {0})
  pub receipt_of_claimed : Answer (Option R)
  pub executes : Answer (Unit {0})  -- the handler, and the hash of its expected state
  pub records : Answer R  -- operations.commit_mutation_command
  pub commits : Answer (Unit {0})
  pub is_valid : Bool  -- MutationReceiptSchemaV1 accepts the receipt
  pub receipt_after_failure : Answer (Option R)

-- How far the `try` block came: before the handler, in it or in the bridge's commit, or at COMMIT
-- (`commitAttempted`).
pub data Stage : Type 0 where
  claiming executing committing : Stage

abbrev pub sent : Stage → Bool
sent committing = true
sent _ = false

abbrev pub executions_of : Stage → ℕ
executions_of claiming = 0
executions_of _ = 1

abbrev pub commits_of : Stage → ℕ
commits_of committing = 1
commits_of _ = 0

-- How the `try` block ends.
pub data Body (R : Type 0) : Type 0 where
  returned : R → Stage → Body R
  raised : Thrown → Stage → Body R

abbrev pub stage_of : {R : Type 0} → Body R → Stage
stage_of (returned _ s) = s
stage_of (raised _ s) = s

-- What the `catch` block does.
pub data Ending (R : Type 0) : Type 0 where
  finished : Answer R → Ending R
  again : Ending R

abbrev pub receipt_missing : Thrown
receipt_missing = failure constraint_violation "committed_command_receipt_missing" never true

abbrev pub zod_error : Thrown
zod_error = other_error "ZodError"

abbrev pub is_pending : ClaimStatus → Bool
is_pending execution_pending = true
is_pending _ = false

abbrev pub ambiguous_commit : Thrown
ambiguous_commit =
    failure storage_unavailable "ambiguous_mutation_commit" after_state_resolution true

abbrev pub retry_exhausted : String → Thrown
retry_exhausted code = failure serialization_conflict code after_state_resolution true

module _ {R : Type 0} where
  abbrev pub require_existing_receipt : Answer (Option R) → Body R
  require_existing_receipt (ok (some r)) = returned r claiming
  require_existing_receipt (ok none) = raised receipt_missing claiming
  require_existing_receipt (fails e) = raised e claiming

  -- From COMMIT on.
  abbrev pub finish : Attempt R → R → Body R
  finish a r = elim a.commits [
    | fails e ↦ raised e committing
    | ok _ ↦ if a.is_valid then returned r committing else raised zod_error committing
  ]

  -- The claim was pending: the handler runs, and its records are stored.
  abbrev pub execute : Attempt R → Body R
  execute a = elim a.executes [
    | fails e ↦ raised e executing
    | ok _ ↦ elim a.records [
      | fails e ↦ raised (normalize_mutation_database_error e) executing
      | ok r ↦ finish a r
    ]
  ]

  abbrev pub claim : Attempt R → Body R
  claim a = elim a.claims [
    | fails e ↦ raised (normalize_mutation_database_error e) claiming
    | ok status ↦ if is_pending status then execute a else elim a.rolls_back [
      | fails e ↦ raised e claiming
      | ok _ ↦ require_existing_receipt a.receipt_of_claimed
    ]
  ]

  unfoldable pub body : Attempt R → Body R
  body a = elim a.begins [
    | fails e ↦ raised e claiming
    | ok _ ↦ elim a.timeouts_set [ fails e ↦ raised e claiming | ok _ ↦ claim a ]
  ]

  abbrev pub retry_or_throw : Thrown → (more : Bool) → Ending R
  retry_or_throw e more =
      if is_serialization_failure e
      then (if more
          then again
          else finished (fails (retry_exhausted "serialization_retry_exhausted")))
      else finished (fails (normalize_database_error e))

  unfoldable pub handle : Attempt R → Thrown → (commit_attempted more : Bool) → Ending R
  handle a e commit_attempted more =
      if commit_attempted || is_connection_failure e
      then elim a.receipt_after_failure [
        | fails x ↦ finished (fails x)
        | ok (some r) ↦ finished (ok r)
        | ok none ↦
            if commit_attempted then finished (fails ambiguous_commit) else retry_or_throw e more
      ]
      else retry_or_throw e more

  -- `more` is `attempt < maxAttempts`.
  abbrev pub ending_of : Attempt R → Body R → (more : Bool) → Ending R
  ending_of a (returned r s) more = finished (ok r)
  ending_of a (raised e s) more = handle a e (sent s) more

-- A run: how it settles, and how often it ran the handler, sent COMMIT and slept for how long.
pub record Run (R : Type 0) : Type 0 where
  pub result : Answer R
  pub executions : ℕ
  pub commit_count : ℕ
  pub slept_ms : ℕ

module _ {R : Type 0} where
  abbrev pub stopped : Answer R → Run R
  stopped x = record { result = x; executions = 0; commit_count = 0; slept_ms = 0 }

  -- The run that begins with an attempt that came to `s` and ended so; `rest` is what the loop does
  -- when it continues, after the sleep.
  unfoldable pub attempted : Stage → Ending R → (delay : ℕ) → (rest : Run R) → Run R
  attempted s (finished x) delay rest = record {
    result = x;
    executions = executions_of s;
    commit_count = commits_of s;
    slept_ms = 0;
  }
  attempted s again delay rest = record {
    result = rest.result;
    executions = executions_of s + rest.executions;
    commit_count = commits_of s + rest.commit_count;
    slept_ms = delay + rest.slept_ms;
  }

  unfoldable pub try_once : Policy → Attempt R → (attempt : ℕ) → (rest : Run R) → Run R
  try_once p a attempt rest =
      if leb p.overall_timeout_ms a.elapsed_ms
      then stopped (fails (retry_exhausted "mutation_overall_timeout"))
      else elim a.connects [
        | fails e ↦ stopped (fails e)
        | ok _ ↦
            attempted (stage_of (body a)) (ending_of a (body a) (ltb attempt p.max_attempts))
              (p.retry_delay_ms * attempt) rest
      ]

  -- The attempts from `attempt` on, `left` of them.
  unfoldable pub attempts : Policy → (ℕ → Attempt R) → (attempt left : ℕ) → Run R
  attempts p world attempt zero = stopped (fails (retry_exhausted "serialization_retry_exhausted"))
  attempts p world attempt (suc left) =
      let rest = attempts p world (suc attempt) left in try_once p (world attempt) attempt rest

  unfoldable pub run : Policy → (ℕ → Attempt R) → Run R
  run p world = attempts p world 1 p.max_attempts
