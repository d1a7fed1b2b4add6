-- ===== src/Mutation/Runner/Errors.antt =====
-- What a SerializableMutationRunner.run reports where it does not return a receipt.
use plus_one.Common.{
  ◌≤◌, ◌+◌, ◌*◌, ltb, ℕ, zero, suc, ℕ, false, true, ℕ, ◌≡◌, ◌⊎◌, inl, inr, Bool, eq_iff, arith,
  none, some, ◌<◌, String, refl, false, true, Option,
}
use plus_one.Common.Errors.{Thrown, failure, database_error, serialization_conflict, after_backoff}
use plus_one.Database.{normalize_mutation_database_error}
use plus_one.Mutation.Runner.{
  Stage, Body, Ending, sent, stage_of, ending_of, again, claiming, executing, committing, raised,
  returned, attempts, run, Answer, Policy, Attempt, Run, body, handle, attempted, try_once, ok,
  fails, finished, ambiguous_commit, execution_pending,
}

module _ {R : Type 0} where
  -- The error of an attempt that sent COMMIT and found no receipt, or could not look for it.
  abbrev pub IsUnresolved : Attempt R → Thrown → Type 0
  IsUnresolved a e =
      (a.receipt_after_failure ≡ fails e)
      ⊎ ((a.receipt_after_failure ≡ ok none) × (e ≡ ambiguous_commit))

  -- How a run settled whose attempts have the numbers 1 to `n`.
  abbrev pub IsSettled : (ℕ → Attempt R) → (n : ℕ) → Answer R → Type 0
  IsSettled world n x =
      ((r : R) × (x ≡ ok r))
      ⊎ ((k : ℕ) × (1 ≤ k) × (k ≤ n) × (e : Thrown) × (x ≡ fails e) × IsUnresolved (world k) e)

  handle-IsSettled :
      (a : Attempt R) (e : Thrown) (more : Bool)
      → (x : Answer R) × (handle a e true more ≡ finished x)
        × (((r : R) × (x ≡ ok r)) ⊎ ((f : Thrown) × (x ≡ fails f) × IsUnresolved a f))
  unfolding handle
  handle-IsSettled a e more = go a.receipt_after_failure refl
    where
      go :
          (y : Answer (Option R))
          → a.receipt_after_failure ≡ y
          → (x : Answer R) × (elim y [
            | fails x ↦ finished (fails x)
            | ok (some r) ↦ finished (ok r)
            | ok none ↦ finished (fails ambiguous_commit)
          ]
              ≡ finished x)
            × (((r : R) × (x ≡ ok r)) ⊎ ((f : Thrown) × (x ≡ fails f) × IsUnresolved a f))
      go (ok (some r)) h = (ok r, refl, inl (r, refl))
      go (ok none) h = (fails ambiguous_commit, refl, inr (ambiguous_commit, refl, inr (h, refl)))
      go (fails f) h = (fails f, refl, inr (f, refl, inl h))

  -- An attempt that sent no COMMIT leaves it to the rest of the run.
  uncommitted-IsSettled :
      (world : ℕ → Attempt R) (m : ℕ) (s : Stage) (x : Ending R) (delay : ℕ) (rest : Run R)
      → sent s ≡ false
      → (rest.commit_count ≡ 1 → IsSettled world m rest.result)
      → (attempted s x delay rest).commit_count ≡ 1
      → IsSettled world m (attempted s x delay rest).result
  unfolding attempted
  uncommitted-IsSettled world m claiming (finished x) delay rest e known h = ground arith
  uncommitted-IsSettled world m executing (finished x) delay rest e known h = ground arith
  uncommitted-IsSettled world m committing x delay rest e known h = ground arith
  uncommitted-IsSettled world m claiming again delay rest e known h = known (ground arith)
  uncommitted-IsSettled world m executing again delay rest e known h = known (ground arith)

  body-IsSettled :
      (world : ℕ → Attempt R) (m k : ℕ) (b : Body R) (more : Bool) (delay : ℕ) (rest : Run R)
      → 1 ≤ k
      → k ≤ m
      → (rest.commit_count ≡ 1 → IsSettled world m rest.result)
      → (attempted (stage_of b) (ending_of (world k) b more) delay rest).commit_count ≡ 1
      → IsSettled world m (attempted (stage_of b) (ending_of (world k) b more) delay rest).result
  unfolding attempted
  body-IsSettled world m k (returned r s) more delay rest low high known h = inl (r, refl)
  body-IsSettled world m k (raised e claiming) more delay rest low high known h =
      uncommitted-IsSettled world m claiming (handle (world k) e false more) delay rest refl known h
  body-IsSettled world m k (raised e executing) more delay rest low high known h =
      uncommitted-IsSettled world m executing (handle (world k) e false more) delay rest refl known
        h
  body-IsSettled world m k (raised e committing) more delay rest low high known h =
      let (x, same, how) = handle-IsSettled (world k) e more in
      rw same (elim how [ inl (r, g) ↦ inl (r, g) | inr (f, g, u) ↦ inr (k, low, high, f, g, u) ])

  -- One attempt: a COMMIT that it sent settles the run at once.
  try-IsSettled :
      (p : Policy) (world : ℕ → Attempt R) (m n : ℕ) (rest : Run R)
      → 1 ≤ n
      → n ≤ m
      → (rest.commit_count ≡ 1 → IsSettled world m rest.result)
      → (try_once p (world n) n rest).commit_count ≡ 1
      → IsSettled world m (try_once p (world n) n rest).result
  unfolding try_once
  try-IsSettled p world m n rest low high known h =
      let b =
        body-IsSettled world m n (body (world n)) (ltb n p.max_attempts) (p.retry_delay_ms * n) rest
          low high known in
      ground arith

  attempts-IsSettled :
      (p : Policy) (world : ℕ → Attempt R) (m n left : ℕ)
      → 1 ≤ n
      → n + left ≡ suc m
      → (attempts p world n left).commit_count ≡ 1
      → IsSettled world m (attempts p world n left).result
  unfolding attempts
  attempts-IsSettled p world m n zero low all h = ground arith
  attempts-IsSettled p world m n (suc left) low all h =
      try-IsSettled p world m n (attempts p world (suc n) left) low (omega arith)
        (attempts-IsSettled p world m (suc n) left (omega arith) (omega arith)) h

  -- A run that sent COMMIT returns a receipt, or throws what the receipt lookup of one of its
  -- attempts threw, or throws `ambiguous_mutation_commit` after such a lookup found no receipt; it
  -- throws nothing else.
  pub sent_commit-IsSettled :
      (p : Policy) (world : ℕ → Attempt R)
      → (run p world).commit_count ≡ 1
      → IsSettled world p.max_attempts (run p world).result
  unfolding run
  sent_commit-IsSettled p world h =
      attempts-IsSettled p world p.max_attempts 1 p.max_attempts (omega arith) (omega arith) h

  -- While attempts and time are left, an attempt in which the handler meets a serialization
  -- conflict hands over to the next attempts: the run settles as they do.
  handler_conflict_retried :
      (p : Policy) (a : Attempt R) (n : ℕ) (rest : Run R) (constraint : String)
      → a.elapsed_ms < p.overall_timeout_ms
      → n < p.max_attempts
      → a.connects ≡ ok tt
      → a.begins ≡ ok tt
      → a.timeouts_set ≡ ok tt
      → a.claims ≡ ok execution_pending
      → a.executes ≡ fails (database_error "40001" constraint)
      → (try_once p a n rest).result ≡ rest.result
  unfolding try_once attempted body handle
  handler_conflict_retried p a n rest constraint h1 h2 h3 h4 h5 h6 h7 =
      ground (arith, eq_iff "40001" "40001")

  -- A serialization conflict at the claim of an attempt ends the run: it is reported as
  -- `database_serialization_conflict`, however many attempts are left.
  pub claim_conflict_ends :
      (p : Policy) (a : Attempt R) (n : ℕ) (rest : Run R) (constraint : String)
      → a.elapsed_ms < p.overall_timeout_ms
      → a.connects ≡ ok tt
      → a.begins ≡ ok tt
      → a.timeouts_set ≡ ok tt
      → a.claims ≡ fails (database_error "40001" constraint)
      → (try_once p a n rest).result
        ≡ fails
            (failure serialization_conflict "database_serialization_conflict" after_backoff false)
  unfolding try_once attempted body handle normalize_mutation_database_error
  claim_conflict_ends p a n rest constraint h1 h3 h4 h5 h6 =
      ground (arith, eq_iff "40001" "23514", eq_iff "40001" "40001")
