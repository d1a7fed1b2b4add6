-- ===== src/Scheduler/Keys.antt =====
-- packages/database/src/repositories/operations/delivery-scheduler.ts: no occurrence of a job is
-- claimed twice.
use plus_one.Common.Effects.{after}
use plus_one.Scheduler.{
  Job, Schedule, claim_due_runs, complete_run, Completion, Run, due_jobs, claim_jobs, has_run_key,
  complete_where, completed_as, is_run_of, is_completable_run, new_run, claim_next,
}
use mathlib.Core.Path.{subst}
use plus_one.Common.{
  ℕ, List, String, Bool, [], ◌∷◌, Option, any, count, ◌≤◌, Bool-cases, arith, inl, some, ◌≡◌,
  count-map, false, suc, find, inr, count-none, refl, eq_iff, none, true,
}

-- How many runs have this key.
abbrev pub run_count : String → String → ℕ → ℕ → List Run → ℕ
run_count h job version at_time runs = count (has_run_key h job version at_time) runs

abbrev HasOneRun : List Run → Type 0
HasOneRun runs = (h job : String) (version at_time : ℕ) → run_count h job version at_time runs ≤ 1

insert-HasOneRun :
    (id : String) (j : Job) (runs : List Run)
    → any (is_run_of j) runs ≡ false
    → HasOneRun runs
    → HasOneRun (new_run id j ∷ runs)
insert-HasOneRun id j runs fresh one h job v t =
    elim (Bool-cases (has_run_key h job v t (new_run id j))) [
      | inl mine ↦
          let base = count-none {0} (is_run_of j) runs fresh in
          let same_h : j.household_id ≡ h = ground (arith, eq_iff j.household_id h) in
          let same_j : j.job_id ≡ job = ground (arith, eq_iff j.job_id job) in
          let same_v : j.version ≡ v = ground arith in
          let same_t : j.next_eligible_run_at ≡ t = ground arith in
          let at_h =
            subst (λ (x : String). run_count x j.job_id j.version j.next_eligible_run_at runs ≡ 0)
              same_h base in
          let at_j =
            subst (λ (x : String). run_count h x j.version j.next_eligible_run_at runs ≡ 0) same_j
              at_h in
          let at_v =
            subst (λ (x : ℕ). run_count h job x j.next_eligible_run_at runs ≡ 0) same_v at_j in
          let at_t = subst (λ (x : ℕ). run_count h job v x runs ≡ 0) same_t at_v in
          rw mine (omega (arith, at_t))
      | inr other ↦ rw other (one h job v t)
    ]

claim_next-HasOneRun :
    (id : String) (j : Job) (made : List Run × List Run) (b : Bool)
    → any (is_run_of j) made.1 ≡ b
    → HasOneRun made.1
    → HasOneRun (claim_next b (new_run id j) made).1
claim_next-HasOneRun id j made true taken one = one
claim_next-HasOneRun id j made false fresh one = insert-HasOneRun id j made.1 fresh one

claim_jobs-HasOneRun :
    (ids : ℕ → String) (n : ℕ) (js : List Job) (made : List Run × List Run)
    → HasOneRun made.1
    → HasOneRun (claim_jobs ids n js made).1
claim_jobs-HasOneRun ids n [] made one = one
claim_jobs-HasOneRun ids n (j ∷ js) made one =
    claim_jobs-HasOneRun ids (suc n) js
      (claim_next (any (is_run_of j) made.1) (new_run (ids n) j) made)
      (claim_next-HasOneRun (ids n) j made (any (is_run_of j) made.1) refl one)

has_run_key-complete_where :
    (h job : String) (v t : ℕ) (input : Completion) (r : Run)
    → has_run_key h job v t (complete_where input r) ≡ has_run_key h job v t r
has_run_key-complete_where h job v t input r = elim (Bool-cases (is_completable_run input r)) [
  | inl hit ↦ rw hit refl
  | inr miss ↦ rw miss refl
]

complete_run-HasOneRun :
    (input : Completion) (s : Schedule)
    → HasOneRun s.runs
    → HasOneRun (after (complete_run input s)).runs
unfolding complete_run
complete_run-HasOneRun input s one = go (find (is_completable_run input) s.runs)
  where
    go : (o : Option Run) → HasOneRun (after (completed_as input o s)).runs
    go none = one
    go (some r) = λ h job v t.
        rw
          (count-map {0} (has_run_key h job v t) (complete_where input) s.runs
            (has_run_key-complete_where h job v t input))
          (one h job v t)

-- The calls of the repository; anyone may change the jobs between them.
pub data ScheduleEvent : Type 0 where
  claiming : (locked : Job → Bool) → (ids : ℕ → String) → (now limit : ℕ) → ScheduleEvent
  completing : Completion → ScheduleEvent
  planning : List Job → ScheduleEvent

abbrev pub proceed : ScheduleEvent → Schedule → Schedule
proceed (claiming locked ids now limit) s = (claim_due_runs locked ids now limit s).1
proceed (completing input) s = after (complete_run input s)
proceed (planning jobs) s = record s { jobs = jobs }

abbrev pub proceed_all : List ScheduleEvent → Schedule → Schedule
proceed_all [] s = s
proceed_all (e ∷ es) s = proceed_all es (proceed e s)

proceed-HasOneRun :
    (e : ScheduleEvent) (s : Schedule) → HasOneRun s.runs → HasOneRun (proceed e s).runs
unfolding claim_due_runs
proceed-HasOneRun (claiming locked ids now limit) s one =
    claim_jobs-HasOneRun ids 0 (due_jobs locked now limit s) ([], s.runs) one
proceed-HasOneRun (completing input) s one = complete_run-HasOneRun input s one
proceed-HasOneRun (planning jobs) s one = one

proceed_all-HasOneRun :
    (es : List ScheduleEvent) (s : Schedule) → HasOneRun s.runs → HasOneRun (proceed_all es s).runs
proceed_all-HasOneRun [] s one = one
proceed_all-HasOneRun (e ∷ es) s one =
    proceed_all-HasOneRun es (proceed e s) (proceed-HasOneRun e s one)

-- After any claims and completions, with the jobs changed at will between them, an occurrence of a
-- version of a job of a household has at most one run.
pub one_run_per_occurrence :
    (es : List ScheduleEvent) (jobs : List Job) (h job : String) (version at_time : ℕ)
    → run_count h job version at_time (proceed_all es (record { jobs = jobs; runs = [] })).runs ≤ 1
one_run_per_occurrence es jobs h job version at_time =
    proceed_all-HasOneRun es (record { jobs = jobs; runs = [] }) (λ h j v t. omega arith) h job
      version at_time
