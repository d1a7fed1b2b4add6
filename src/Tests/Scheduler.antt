-- ===== src/Tests/Scheduler.antt =====
-- Runs of the scheduler.
use plus_one.Scheduler.Dispatch.Ends.{is_live_run, dispatch_claim-IsOver}
use plus_one.Common.Effects.{done, after}
use plus_one.Scheduler.Keys.{
  run_count, ScheduleEvent, proceed_all, claiming, one_run_per_occurrence,
}
use plus_one.Scheduler.Dispatch.{
  TargetAnswer, Conditions, fails, dispatch_claim, other_run_error, was_ambiguous, responds,
  refuses, answers_back, loses_answer,
}
use plus_one.Scheduler.{Job, Schedule, Run, new_run, run_once, is_active}
use plus_one.Common.{
  ℕ, List, String, Bool, suc, true, ◌∷◌, ◌≡◌, [], false, zero, ◌≤◌, any, refl, ◌⊎◌,
}

abbrev daily : Job
daily = record {
  database_id = 1;
  job_id = "j1";
  household_id = "h1";
  version = 1;
  enabled = true;
  next_eligible_run_at = 10;
  max_retries = 2;
  allows_overlap = false;
  missed_run_policy = run_once;
}

abbrev occurrence : ℕ → String
occurrence zero = "o1"
occurrence (suc n) = "o2"

abbrev unlocked : Job → Bool
unlocked j = false

abbrev claims : List ScheduleEvent
claims = claiming unlocked occurrence 11 5 ∷ claiming unlocked occurrence 12 5 ∷ []

abbrev flaky : ℕ → TargetAnswer ℕ
flaky zero = fails other_run_error
flaky (suc n) = responds n

abbrev busy : Conditions ℕ
busy = record {
  now = 11;
  answers = flaky;
  deliver = λ n. was_ambiguous;
  first_link = refuses;
  second_link = answers_back;
}

abbrev one_claimed : Schedule
one_claimed = record { jobs = daily ∷ []; runs = new_run "o1" daily ∷ [] }

one_run_per_occurrence_example :
    run_count "h1" "j1" 1 10 (proceed_all claims (record { jobs = daily ∷ []; runs = [] })).runs ≤ 1
one_run_per_occurrence_example = one_run_per_occurrence claims (daily ∷ []) "h1" "j1" 1 10

dispatch_claim-IsOver_example :
    (any
        (is_live_run (new_run "o1" daily))
        (after (dispatch_claim busy daily (new_run "o1" daily) one_claimed)).runs
      ≡ false)
    × (((r : Run) × (t : Schedule) × (dispatch_claim busy daily (new_run "o1" daily) one_claimed
            ≡ done r t)
          × (is_active r.status ≡ false))
        ⊎ (busy.first_link ≡ loses_answer))
dispatch_claim-IsOver_example =
    dispatch_claim-IsOver busy daily (new_run "o1" daily) (new_run "o1" daily) one_claimed refl refl
