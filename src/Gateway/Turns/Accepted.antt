-- ===== src/Gateway/Turns/Accepted.antt =====
-- packages/runtime/src/gateway/active-turn-registry.ts: only a submission accepts a turn.
use plus_one.Common.{
  ◌≡◌, Bool-cases, List, Option, ◌++◌, arith, some, str_eq, ◌∷◌, [], inl, none, false, inr, refl,
}
use plus_one.Gateway.Turns.{
  Slot, Registry, Line, submit, on_line, is_busy, slot_or_empty, schedule_drain, schedule_from,
  drain_round, call_back, finish_work, call_next, finish, call_first, Job, Caller, String, ℕ,
  run_ends, call_job, drained_from, nth, submit_settles, drain_goes_on, drain_settles,
}

module _ {A : Type 0} where
  pub submit-accepted : (w : A) (l : Line A) → (submit w l).accepted ≡ l.accepted ++ w ∷ []
  unfolding submit
  submit-accepted w l = elim (Bool-cases (is_busy (slot_or_empty l.slot))) [
    | inl busy ↦ rw busy refl
    | inr free ↦ rw free refl
  ]

  schedule_drain-accepted : (s : Slot A) (l : Line A) → (schedule_drain s l).accepted ≡ l.accepted
  unfolding schedule_drain
  schedule_drain-accepted s l = scheduled s.queue
    where
      scheduled : (q : List A) → (schedule_from s q l).accepted ≡ l.accepted
      scheduled [] = ground arith
      scheduled (w ∷ ws) = ground arith

  call_back-accepted : (j : Job) (s : Slot A) (l : Line A) → (call_back j s l).accepted ≡ l.accepted
  unfolding call_back
  call_back-accepted (run_ends caller) s l = refl
  call_back-accepted submit_settles s l = schedule_drain-accepted s l
  call_back-accepted drain_goes_on s l = round s.queue
    where
      round : (q : List A) → (drain_round s q l).accepted ≡ l.accepted
      round [] = refl
      round (w ∷ ws) = refl
  call_back-accepted drain_settles s l = ended s.queue
    where
      ended : (q : List A) → (drained_from (record s { drain = false }) q l).accepted ≡ l.accepted
      ended [] = ground arith
      ended (w ∷ ws) = schedule_drain-accepted (record s { drain = false }) l

  pub finish_work-accepted : (n : ℕ) (l : Line A) → (finish_work n l).accepted ≡ l.accepted
  finish_work-accepted n l = finished (nth n l.works)
    where
      finished : (o : Option Caller) → (finish n o l).accepted ≡ l.accepted
      finished none = refl
      finished (some caller) = refl

  pub call_next-accepted : (l : Line A) → (call_next l).accepted ≡ l.accepted
  call_next-accepted l = called l.jobs
    where
      called_on :
          (j : Job) (m : Line A) (o : Option (Slot A)) → (call_job j o m).accepted ≡ m.accepted
      called_on j m none = refl
      called_on j m (some s) = call_back-accepted j s m

      called : (js : List Job) → (call_first js l).accepted ≡ l.accepted
      called [] = refl
      called (j ∷ js) = called_on j (record l { jobs = js }) l.slot

  pub on_line-accepted :
      (k : String) (change : Line A → Line A) (r : Registry A)
      → ((l : Line A) → (change l).accepted ≡ l.accepted)
      → (j : String) → ((on_line k change r).lines j).accepted ≡ (r.lines j).accepted
  on_line-accepted k change r same j = elim (Bool-cases (str_eq k j)) [
    | inl here ↦ rw here (same (r.lines j))
    | inr other ↦ rw other refl
  ]
