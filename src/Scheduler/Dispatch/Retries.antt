-- ===== src/Scheduler/Dispatch/Retries.antt =====
-- packages/runtime/src/scheduler/application-scheduler.ts: a target is tried a bounded number
-- of times.

use plus_one.Scheduler.Dispatch.{
  TargetAnswer, run_with_retries, Ran, RunError, responds, run_from, fails, other_run_error,
  timeout_error, schema_error, after_attempt,
}
use plus_one.Common.{
  ℕ, Bool, ◌≡◌, suc, true, ◌+◌, arith, false, ◌&&◌, ◌≤◌, zero, ◌∙◌, ◌⊎◌, ap, sym, refl, inr, inl,
}

-- The errors that are tried again.
abbrev pub is_again : {A : Type 0} → TargetAnswer A → Bool
is_again (responds r) = false
is_again (fails timeout_error) = false
is_again (fails schema_error) = true
is_again (fails other_run_error) = true

-- Whether `n` answers from `attempt` on were all tried again.
abbrev pub all_again : {A : Type 0} → (ℕ → TargetAnswer A) → (attempt n : ℕ) → Bool
all_again answers attempt zero = true
all_again answers attempt (suc n) = is_again (answers attempt) && all_again answers (suc attempt) n

-- A loop of `left` attempts from `attempt` on: the answer of its last attempt is its result, those
-- before were tried again, and so was the last one unless it is the last that may be made.
record Tried {A : Type 0} (answers : ℕ → TargetAnswer A) (attempt left : ℕ) (o : Ran A)
    : Type 0 where
  before : ℕ
  used : o.attempts ≡ attempt + suc before
  bound : suc before ≤ left
  again : all_again answers attempt before ≡ true
  last : o.result ≡ answers (attempt + before)
  stopped : (is_again (answers (attempt + before)) ≡ false) ⊎ (suc before ≡ left)

Tried-stop :
    {A : Type 0} (answers : ℕ → TargetAnswer A) (attempt left : ℕ) (o : Ran A)
    → o.attempts ≡ suc attempt
    → o.result ≡ answers attempt
    → (is_again (answers attempt) ≡ false) ⊎ (1 ≡ suc left)
    → Tried answers attempt (suc left) o
Tried-stop answers attempt left o u r stop =
    let same : attempt + 0 ≡ attempt = omega arith in
    record {
      before = 0;
      used = omega arith;
      bound = omega arith;
      again = refl;
      last = r ∙ ap answers (sym same);
      stopped = rw same stop;
    }

Tried-again :
    {A : Type 0} (answers : ℕ → TargetAnswer A) (attempt left : ℕ) (o : Ran A)
    → is_again (answers attempt) ≡ true
    → Tried answers (suc attempt) left o
    → Tried answers attempt (suc left) o
Tried-again answers attempt left o more t =
    let same : attempt + suc t.before ≡ suc attempt + t.before = omega arith in
    record {
      before = suc t.before;
      used = omega (arith, t.used);
      bound = omega (arith, t.bound);
      again = rw (more, t.again) refl;
      last = t.last ∙ ap answers (sym same);
      stopped = rw same (ground (arith, t.stopped));
    }

run_from-Tried :
    {A : Type 0} (answers : ℕ → TargetAnswer A) (attempt left : ℕ) (last : RunError)
    → Tried answers attempt (suc left) (run_from answers attempt (suc left) last)
run_from-Tried {A} answers attempt zero last = last_attempt (answers attempt) refl
  where
    last_attempt :
        (a : TargetAnswer A)
        → answers attempt ≡ a
        → Tried answers attempt 1
            (after_attempt attempt (λ e. run_from answers (suc attempt) 0 e) a)
    last_attempt (responds r) e = Tried-stop answers attempt 0 _ refl (sym e) (inr refl)
    last_attempt (fails timeout_error) e = Tried-stop answers attempt 0 _ refl (sym e) (inr refl)
    last_attempt (fails schema_error) e = Tried-stop answers attempt 0 _ refl (sym e) (inr refl)
    last_attempt (fails other_run_error) e = Tried-stop answers attempt 0 _ refl (sym e) (inr refl)
run_from-Tried {A} answers attempt (suc left) last =
    next_attempt (λ e. run_from-Tried answers (suc attempt) left e) (answers attempt) refl
  where
    next_attempt :
        ((e : RunError)
          → Tried answers (suc attempt) (suc left) (run_from answers (suc attempt) (suc left) e))
        → (a : TargetAnswer A) → answers attempt ≡ a
        → Tried answers attempt
            (suc (suc left))
            (after_attempt attempt (λ e. run_from answers (suc attempt) (suc left) e) a)
    next_attempt deep (responds r) e =
        Tried-stop answers attempt (suc left) _ refl (sym e) (inl (rw e refl))
    next_attempt deep (fails timeout_error) e =
        Tried-stop answers attempt (suc left) _ refl (sym e) (inl (rw e refl))
    next_attempt deep (fails schema_error) e =
        Tried-again answers attempt (suc left) _ (rw e refl) (deep schema_error)
    next_attempt deep (fails other_run_error) e =
        Tried-again answers attempt (suc left) _ (rw e refl) (deep other_run_error)

-- A target is tried at most `maxRetries + 1` times: each attempt but the last ended in an error other
-- than a timeout, the last one's answer is the result, and an error other than a timeout is the
-- result only after all attempts.
run_with_retries-IsTried :
    {A : Type 0} (answers : ℕ → TargetAnswer A) (max_retries : ℕ)
    → (n : ℕ) × ((run_with_retries answers max_retries).attempts ≡ suc n)
      × (n ≤ max_retries)
      × (all_again answers 0 n ≡ true)
      × ((run_with_retries answers max_retries).result ≡ answers n)
      × ((is_again (answers n) ≡ false) ⊎ (n ≡ max_retries))
unfolding run_with_retries
run_with_retries-IsTried answers max_retries =
    let t = run_from-Tried answers 0 max_retries other_run_error in
    let same : 0 + t.before ≡ t.before = omega arith in
    (
      t.before,
      omega (arith, t.used),
      omega (arith, t.bound),
      t.again,
      t.last ∙ ap answers same,
      rw⁻¹ same (ground (arith, t.stopped)),
    )
