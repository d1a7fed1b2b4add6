-- ===== src/Scheduler/Dispatch/Ends.antt =====
-- packages/runtime/src/scheduler/application-scheduler.ts: a dispatched claim is completed, whatever
-- its target, the delivery and the first connection do.
use plus_one.Common.Effects.{after, threw}
use plus_one.Scheduler.{
  is_active, RunStatus, complete_run, complete_where, succeeded, as_completed, failed,
  is_completable_run, skipped, completed_as,
}
use plus_one.Scheduler.Dispatch.{
  dispatch_claim, Completion, Conditions, Run, Job, Outcome, Schedule, done, Delivered, RunError,
  TargetAnswer, answered, error_status, record_error, report, delivered_as, is_missed, responds,
  timeout_error, complete_first, completion, error_category, fails, schema_error, other_run_error,
  delivery_threw, completed_or, run_with_retries, was_blocked, was_failed, was_ambiguous, Link,
  answers_back, complete_over, loses_answer, answer_lost, refuses,
}
use plus_one.Common.{
  Bool, List, find, str_eq, ◌≡◌, some, ◌&&◌, false, any, Bool-cases, Option, map, String, none, inl,
  ◌∷◌, refl, ap, arith, inr, [], Option-cases, ◌⊎◌,
}

-- The run of this occurrence, while it is active.
abbrev pub is_live_run : Run → Run → Bool
is_live_run run r =
    str_eq r.household_id run.household_id
    && str_eq r.occurrence_id run.occurrence_id
    && is_active r.status

-- A call that leaves no active run of the occurrence, and returns a run that has ended unless the
-- connection lost the answer of the first completion.
abbrev IsOver : Link → Run → Outcome Schedule Run → Type 0
IsOver first run o =
    (any (is_live_run run) (after o).runs ≡ false)
    × (((r : Run) × (t : Schedule) × (o ≡ done r t) × (is_active r.status ≡ false))
        ⊎ (first ≡ loses_answer))

any-complete_where :
    (input : Completion) (run : Run) (runs : List Run)
    → input.household_id ≡ run.household_id
    → input.occurrence_id ≡ run.occurrence_id
    → is_active input.status ≡ false
    → any (is_live_run run) (map (complete_where input) runs) ≡ false
any-complete_where input run [] h o over = refl
any-complete_where input run (r ∷ rs) h o over = elim (Bool-cases (is_completable_run input r)) [
  | inl hit ↦
      let shut : is_live_run run (as_completed input r) ≡ false = ground (arith, over) in
      rw (hit, shut) (any-complete_where input run rs h o over)
  | inr miss ↦
      let other : is_live_run run r ≡ false = rw⁻¹ (h, o) miss in
      rw (miss, other) (any-complete_where input run rs h o over)
]

-- A completion revives no run.
complete_run-quiet :
    (input : Completion) (run : Run) (s : Schedule)
    → input.household_id ≡ run.household_id
    → input.occurrence_id ≡ run.occurrence_id
    → is_active input.status ≡ false
    → any (is_live_run run) s.runs ≡ false
    → any (is_live_run run) (after (complete_run input s)).runs ≡ false
unfolding complete_run
complete_run-quiet input run s h o over quiet =
    elim (Option-cases (find (is_completable_run input) s.runs)) [
      | inl none_left ↦ rw none_left quiet
      | inr (x, found) ↦ rw found (any-complete_where input run s.runs h o over)
    ]

error_status-over : (e : RunError) → is_active (error_status e) ≡ false
error_status-over timeout_error = refl
error_status-over schema_error = refl
error_status-over other_run_error = refl

module _ {A : Type 0} (c : Conditions A) (run x : Run) (s : Schedule)
    (live : find (is_live_run run) s.runs ≡ some x) (kept : c.second_link ≡ answers_back) where
  complete_run-IsOver :
      (first : Link) (status : RunStatus) (delivery_id category : Option String)
      → is_active status ≡ false
      → IsOver first run (complete_run (completion run status delivery_id category) s)
  unfolding complete_run
  complete_run-IsOver first status delivery_id category over =
      let input = completion run status delivery_id category in
      let e = ap (λ (o : Option Run). completed_as input o s) live in
      (
        rw e (any-complete_where input run s.runs refl refl over),
        inl (as_completed input x, record s { runs = map (complete_where input) s.runs }, e, over),
      )

  record_error-IsOver : (e : RunError) → IsOver c.first_link run (record_error c run e s)
  record_error-IsOver e = rw kept (
      complete_run-IsOver c.first_link (error_status e) none (some (error_category e))
        (error_status-over e))

  -- The answer of the first completion is lost, so the catch block finds no active run.
  lost-IsOver :
      (o : Outcome Schedule Run)
      → any (is_live_run run) (after o).runs ≡ false
      → IsOver loses_answer run (completed_or c run (answer_lost o))
  lost-IsOver (done r t) quiet =
      let input = completion run failed none (some (error_category other_run_error)) in
      (rw kept (complete_run-quiet input run t refl refl refl quiet), inr refl)
  lost-IsOver (threw e t) quiet =
      let input = completion run failed none (some (error_category other_run_error)) in
      (rw kept (complete_run-quiet input run t refl refl refl quiet), inr refl)

  complete_first-IsOver :
      (status : RunStatus) (delivery_id category : Option String)
      → is_active status ≡ false
      → IsOver c.first_link run
          (complete_first c run (completion run status delivery_id category) s)
  complete_first-IsOver status delivery_id category over = go c.first_link refl
    where
      input : Completion
      input = completion run status delivery_id category

      go :
          (first : Link)
          → c.first_link ≡ first
          → IsOver first run (completed_or c run (complete_over first input s))
      go answers_back e =
          let (quiet, how) = complete_run-IsOver answers_back status delivery_id category over in
          elim how [
            | inl (r, t, returned, ended) ↦
                let same = ap (completed_or c run) returned in
                (rw same (rw returned at quiet), inl (r, t, same, ended))
            | inr lost ↦ absurd (cc)
          ]
      go refuses e = rw e at record_error-IsOver other_run_error
      go loses_answer e =
          lost-IsOver (complete_run input s)
            (complete_run-IsOver loses_answer status delivery_id category over).0

  report-IsOver : (d : Delivered) → IsOver c.first_link run (report c run d s)
  report-IsOver (delivered_as id) = complete_first-IsOver succeeded (some id) none refl
  report-IsOver was_blocked = complete_first-IsOver failed none (some "processor_blocked") refl
  report-IsOver was_failed = complete_first-IsOver failed none (some "delivery_failed") refl
  report-IsOver was_ambiguous = complete_first-IsOver failed none (some "delivery_ambiguous") refl
  report-IsOver (delivery_threw e) = record_error-IsOver e

  answered-IsOver : (a : TargetAnswer A) → IsOver c.first_link run (answered c run a s)
  answered-IsOver (responds r) = report-IsOver (c.deliver r)
  answered-IsOver (fails e) = record_error-IsOver e

-- Where the connection holds at the completion of the catch block, dispatching the claim of an active
-- run leaves no active run of the occurrence, whatever the target and the delivery answer and even
-- if the first completion fails, and it returns a run that has ended unless the first completion is
-- committed and its answer is lost.
pub dispatch_claim-IsOver :
    {A : Type 0} (c : Conditions A) (job : Job) (run x : Run) (s : Schedule)
    → find (is_live_run run) s.runs ≡ some x
    → c.second_link ≡ answers_back
    → (any (is_live_run run) (after (dispatch_claim c job run s)).runs ≡ false)
      × (((r : Run) × (t : Schedule) × (dispatch_claim c job run s ≡ done r t)
            × (is_active r.status ≡ false))
          ⊎ (c.first_link ≡ loses_answer))
unfolding dispatch_claim
dispatch_claim-IsOver c job run x s live kept = elim (Bool-cases (is_missed job run c.now)) [
  | inl missed ↦ rw missed (complete_first-IsOver c run x s live kept skipped none none refl)
  | inr due ↦
      rw due
        (answered-IsOver c run x s live kept (run_with_retries c.answers job.max_retries).result)
]
