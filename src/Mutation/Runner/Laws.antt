-- ===== src/Mutation/Runner/Laws.antt =====
-- What SerializableMutationRunner.run guarantees.
use plus_one.Common.{ℕ, Bool, ◌≡◌, ◌≤◌, true, ◌≢◌, arith, some, none, zero, suc, ltb, ◌*◌}
use plus_one.Mutation.Runner.{
  Attempt, Stage, Body, Ending, Run, handle, attempted, ending_of, ok, fails, finished, again, sent,
  stage_of, claiming, executing, committing, returned, raised, attempts, run, try_once, Policy,
  body,
}

module _ {R : Type 0} where
  -- After COMMIT was sent the catch block never starts another attempt.
  no_attempt_after_commit :
      (a : Attempt R) (b : Body R) (more : Bool)
      → sent (stage_of b) ≡ true
      → ending_of a b more ≢ again
  unfolding handle
  no_attempt_after_commit a (returned r s) more h = ground arith
  no_attempt_after_commit a (raised e claiming) more h = ground arith
  no_attempt_after_commit a (raised e executing) more h = ground arith
  no_attempt_after_commit a (raised e committing) more h = elim a.receipt_after_failure [
    | fails x ↦ ground arith
    | ok none ↦ ground arith
    | ok (some r) ↦ ground arith
  ]

  commits_once_attempted :
      (a : Attempt R) (b : Body R) (more : Bool) (d : ℕ) (rest : Run R)
      → rest.commit_count ≤ 1
      → (attempted (stage_of b) (ending_of a b more) d rest).commit_count ≤ 1
  unfolding attempted
  commits_once_attempted a b more d rest h =
      let sure = no_attempt_after_commit a b more in go (stage_of b) (ending_of a b more) sure
    where
      go :
          (s : Stage) (x : Ending R)
          → (sent s ≡ true → x ≢ again)
          → (attempted s x d rest).commit_count ≤ 1
      go claiming (finished _) sure = ground arith
      go executing (finished _) sure = ground arith
      go committing (finished _) sure = ground arith
      go claiming again sure = ground arith
      go executing again sure = ground arith
      go committing again sure = ground arith

  executions_attempted :
      (s : Stage) (x : Ending R) (d m : ℕ) (rest : Run R)
      → rest.executions ≤ m
      → (attempted s x d rest).executions ≤ suc m
  unfolding attempted
  executions_attempted claiming (finished _) d m rest h = ground arith
  executions_attempted executing (finished _) d m rest h = ground arith
  executions_attempted committing (finished _) d m rest h = ground arith
  executions_attempted claiming again d m rest h = ground arith
  executions_attempted executing again d m rest h = ground arith
  executions_attempted committing again d m rest h = ground arith

  bounded_try :
      (p : Policy) (a : Attempt R) (n m : ℕ) (rest : Run R)
      → rest.executions ≤ m
      → rest.commit_count ≤ 1
      → ((try_once p a n rest).executions ≤ suc m) × ((try_once p a n rest).commit_count ≤ 1)
  unfolding try_once
  bounded_try p a n m rest h g =
      let e =
        executions_attempted (stage_of (body a)) (ending_of a (body a) (ltb n p.max_attempts))
          (p.retry_delay_ms * n) m rest h in
      let c =
        commits_once_attempted a (body a) (ltb n p.max_attempts) (p.retry_delay_ms * n) rest g in
      elim a.connects [ fails x ↦ ground arith | ok x ↦ ground arith ]

  bounded_attempts :
      (p : Policy) (world : ℕ → Attempt R) (n left : ℕ)
      → ((attempts p world n left).executions ≤ left) × ((attempts p world n left).commit_count ≤ 1)
  unfolding attempts
  bounded_attempts p world n zero = ground arith
  bounded_attempts p world n (suc left) =
      let (h, g) = bounded_attempts p world (suc n) left in
      bounded_try p (world n) n left (attempts p world (suc n) left) h g

  -- Whatever the database, the handler and the clock answer, a run sends COMMIT at most once and
  -- runs the handler at most `max_attempts` times.
  pub commits_at_most_once :
      (p : Policy) (world : ℕ → Attempt R)
      → ((run p world).commit_count ≤ 1) × ((run p world).executions ≤ p.max_attempts)
  unfolding run
  commits_at_most_once p world = let (h, g) = bounded_attempts p world 1 p.max_attempts in (g, h)
