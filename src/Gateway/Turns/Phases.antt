-- ===== src/Gateway/Turns/Phases.antt =====
-- packages/runtime/src/gateway/active-turn-registry.ts: how the code can stand for a key, and that
-- every event leads from one of these to another.
use plus_one.Common.{
  ℕ, zero, suc, Bool, List, [], ◌∷◌, Option, none, some, ◌+◌, ◌≡◌, refl, count, true, arith, false,
  ◌++◌, count-append, ap,
}
use plus_one.Gateway.Turns.{
  Slot, Line, call_back, finish_work, submit, schedule_drain, by_submit, call_next, run_ends,
  submit_settles, by_drain, drain_goes_on, drain_settles,
}

-- How the code stands for a key: no slot, a turn of `submit` runs, its promise has settled, its
-- `finally` is to come, another turn of `submit` runs before that, and has settled before that; the
-- same for a drain, whose loop goes on or whose `finally` is to come.
pub data Phase : Type 0 where
  absent runs run_over settles overtaken overtaken_over : Phase
  drains drain_over goes_on drain_settling : Phase

abbrev pub is_nil : {B : Type 0} → List B → Bool
is_nil [] = true
is_nil (x ∷ xs) = false

module _ {A : Type 0} where
  -- The line of a phase, with the queue, and the record of what was accepted and started.
  abbrev pub line_of : Phase → List A → List A → List A → Line A
  line_of absent q a b = record { slot = none; works = []; jobs = []; accepted = a; started = b }
  line_of runs q a b = record {
    slot = some (record { active = true; queue = q; drain = false });
    works = by_submit ∷ [];
    jobs = [];
    accepted = a;
    started = b;
  }
  line_of run_over q a b = record {
    slot = some (record { active = true; queue = q; drain = false });
    works = [];
    jobs = run_ends by_submit ∷ [];
    accepted = a;
    started = b;
  }
  line_of settles q a b = record {
    slot = some (record { active = false; queue = q; drain = false });
    works = [];
    jobs = submit_settles ∷ [];
    accepted = a;
    started = b;
  }
  line_of overtaken q a b = record {
    slot = some (record { active = true; queue = q; drain = false });
    works = by_submit ∷ [];
    jobs = submit_settles ∷ [];
    accepted = a;
    started = b;
  }
  line_of overtaken_over q a b = record {
    slot = some (record { active = true; queue = q; drain = false });
    works = [];
    jobs = submit_settles ∷ run_ends by_submit ∷ [];
    accepted = a;
    started = b;
  }
  line_of drains q a b = record {
    slot = some (record { active = true; queue = q; drain = true });
    works = by_drain ∷ [];
    jobs = [];
    accepted = a;
    started = b;
  }
  line_of drain_over q a b = record {
    slot = some (record { active = true; queue = q; drain = true });
    works = [];
    jobs = run_ends by_drain ∷ [];
    accepted = a;
    started = b;
  }
  line_of goes_on q a b = record {
    slot = some (record { active = false; queue = q; drain = true });
    works = [];
    jobs = drain_goes_on ∷ [];
    accepted = a;
    started = b;
  }
  line_of drain_settling q a b = record {
    slot = some (record { active = false; queue = q; drain = true });
    works = [];
    jobs = drain_settles ∷ [];
    accepted = a;
    started = b;
  }

  abbrev pub waiting : Option (Slot A) → List A
  waiting none = []
  waiting (some s) = s.queue

  -- In some phase, and as many were accepted as were started and as still wait, by any test.
  pub record IsOrderly (l : Line A) : Type 0 where
    pub phase : Phase
    pub queue : List A
    pub stands : l ≡ line_of phase queue l.accepted l.started
    pub kept : (p : A → Bool) → count p l.accepted ≡ count p l.started + count p (waiting l.slot)

  abbrev IsKept : Phase → List A → List A → List A → Type 0
  IsKept ph q a b =
      (p : A → Bool) → count p a ≡ count p b + count p (waiting (line_of ph q a b).slot)

  abbrev pub Keeps : (Line A → Line A) → Type 0
  Keeps change =
      (ph : Phase) (q a b : List A) → IsKept ph q a b → IsOrderly (change (line_of ph q a b))

  pub Keeps-line :
      (change : Line A → Line A) → Keeps change → (l : Line A) → IsOrderly l → IsOrderly (change l)
  Keeps-line change keeps l o =
      let here : l.slot ≡ (line_of o.phase o.queue l.accepted l.started).slot =
        ap (λ (m : Line A). m.slot) o.stands in
      rw o.stands (keeps o.phase o.queue l.accepted l.started (λ p. rw here at o.kept p))

  started-IsKept :
      (ph : Phase) (q a b : List A) (w : A)
      → IsKept ph q a b
      → (p : A → Bool)
      → count p (a ++ w ∷ []) ≡ count p (b ++ w ∷ []) + count p (waiting (line_of ph q a b).slot)
  started-IsKept ph q a b w k p =
      omega (arith, count-append p a (w ∷ []), count-append p b (w ∷ []), k p)

  queued-IsKept :
      (q a b : List A) (w : A)
      → ((p : A → Bool) → count p a ≡ count p b + count p q)
      → (p : A → Bool) → count p (a ++ w ∷ []) ≡ count p b + count p (q ++ w ∷ [])
  queued-IsKept q a b w k p =
      omega (arith, count-append p a (w ∷ []), count-append p q (w ∷ []), k p)

  taken-IsKept :
      (w : A) (ws a b : List A)
      → ((p : A → Bool) → count p a ≡ count p b + count p (w ∷ ws))
      → (p : A → Bool) → count p a ≡ count p (b ++ w ∷ []) + count p ws
  taken-IsKept w ws a b k p =
      let here : count p a ≡ count p b + count p (w ∷ ws) = k p in
      ground (arith, count-append p b (w ∷ []), here)

  pub stand :
      {l : Line A} (ph : Phase) (q : List A)
      → l ≡ line_of ph q l.accepted l.started
      → ((p : A → Bool) → count p l.accepted ≡ count p l.started + count p (waiting l.slot))
      → IsOrderly l
  stand ph q e k = record { phase = ph; queue = q; stands = e; kept = k }

  pub submit-Keeps : (w : A) → Keeps (submit w)
  unfolding submit
  submit-Keeps w absent q a b k = stand runs [] refl (started-IsKept absent q a b w k)
  submit-Keeps w runs q a b k = stand runs (q ++ w ∷ []) refl (queued-IsKept q a b w k)
  submit-Keeps w run_over q a b k = stand run_over (q ++ w ∷ []) refl (queued-IsKept q a b w k)
  submit-Keeps w settles q a b k = stand overtaken q refl (started-IsKept settles q a b w k)
  submit-Keeps w overtaken q a b k = stand overtaken (q ++ w ∷ []) refl (queued-IsKept q a b w k)
  submit-Keeps w overtaken_over q a b k =
      stand overtaken_over (q ++ w ∷ []) refl (queued-IsKept q a b w k)
  submit-Keeps w drains q a b k = stand drains (q ++ w ∷ []) refl (queued-IsKept q a b w k)
  submit-Keeps w drain_over q a b k = stand drain_over (q ++ w ∷ []) refl (queued-IsKept q a b w k)
  submit-Keeps w goes_on q a b k = stand goes_on (q ++ w ∷ []) refl (queued-IsKept q a b w k)
  submit-Keeps w drain_settling q a b k =
      stand drain_settling (q ++ w ∷ []) refl (queued-IsKept q a b w k)

  pub finish_work-Keeps : (n : ℕ) → Keeps (finish_work n)
  finish_work-Keeps n absent q a b k = stand absent [] refl k
  finish_work-Keeps zero runs q a b k = stand run_over q refl k
  finish_work-Keeps (suc n) runs q a b k = stand runs q refl k
  finish_work-Keeps n run_over q a b k = stand run_over q refl k
  finish_work-Keeps n settles q a b k = stand settles q refl k
  finish_work-Keeps zero overtaken q a b k = stand overtaken_over q refl k
  finish_work-Keeps (suc n) overtaken q a b k = stand overtaken q refl k
  finish_work-Keeps n overtaken_over q a b k = stand overtaken_over q refl k
  finish_work-Keeps zero drains q a b k = stand drain_over q refl k
  finish_work-Keeps (suc n) drains q a b k = stand drains q refl k
  finish_work-Keeps n drain_over q a b k = stand drain_over q refl k
  finish_work-Keeps n goes_on q a b k = stand goes_on q refl k
  finish_work-Keeps n drain_settling q a b k = stand drain_settling q refl k

  pub call_next-Keeps : Keeps call_next
  unfolding call_back schedule_drain
  call_next-Keeps absent q a b k = stand absent [] refl k
  call_next-Keeps runs q a b k = stand runs q refl k
  call_next-Keeps run_over q a b k = stand settles q refl k
  call_next-Keeps settles [] a b k = stand absent [] refl k
  call_next-Keeps settles (w ∷ ws) a b k = stand drains ws refl (taken-IsKept w ws a b k)
  call_next-Keeps overtaken [] a b k = stand runs [] refl k
  call_next-Keeps overtaken (w ∷ ws) a b k = stand runs (w ∷ ws) refl k
  call_next-Keeps overtaken_over [] a b k = stand run_over [] refl k
  call_next-Keeps overtaken_over (w ∷ ws) a b k = stand run_over (w ∷ ws) refl k
  call_next-Keeps drains q a b k = stand drains q refl k
  call_next-Keeps drain_over q a b k = stand goes_on q refl k
  call_next-Keeps goes_on [] a b k = stand drain_settling [] refl k
  call_next-Keeps goes_on (w ∷ ws) a b k = stand drains ws refl (taken-IsKept w ws a b k)
  call_next-Keeps drain_settling [] a b k = stand absent [] refl k
  call_next-Keeps drain_settling (w ∷ ws) a b k = stand drains ws refl (taken-IsKept w ws a b k)
