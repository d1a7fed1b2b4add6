-- ===== src/Gateway/Turns.antt =====
-- packages/runtime/src/gateway/active-turn-registry.ts: the turns of each conversation. What runs
-- between two awaits is one event: a submission, a work's promise that settles, or the next callback
-- of a key in the order in which the code queued them. Submissions and works interleave with the
-- callbacks in every order; no event asks whether another may happen. A callback acts on the slot
-- that it was created for: it is the key's own, since a key without a slot has no work and no
-- callback left.
pub mod Phases
pub mod Orderly
pub mod Accepted
use plus_one.Common.{
  ℕ, zero, suc, String, Bool, List, [], ◌∷◌, ◌++◌, Option, none, some, str_eq, ◌||◌, ◌+◌,
  if◌then◌else◌, true, false, length,
}

-- `drain`: the slot's promise of a drain is there.
pub record Slot (A : Type 0) : Type 0 where
  pub active : Bool
  pub queue : List A
  pub drain : Bool

-- Who called `run` for a work.
pub data Caller : Type 0 where
  by_submit by_drain : Caller

-- A callback: `run` after its await, the `finally` of `submit`, the drain's loop after its await, and
-- the `finally` of a drain.
pub data Job : Type 0 where
  run_ends : Caller → Job
  submit_settles drain_goes_on drain_settles : Job

-- What the map has for a key, the works whose promises are pending, the callbacks in the order in
-- which they are called, and a record of the works that were accepted and started.
pub record Line (A : Type 0) : Type 0 where
  pub slot : Option (Slot A)
  pub works : List Caller
  pub jobs : List Job
  pub accepted : List A
  pub started : List A

pub record Registry (A : Type 0) : Type 0 where
  pub accepting : Bool
  pub lines : String → Line A

-- `finishes k n`: the promise of the n-th pending work settles.
pub data Event (A : Type 0) : Type 0 where
  submits : String → A → Event A
  finishes : String → ℕ → Event A
  calls_back : String → Event A
  shuts_down : Event A

abbrev pub drop_nth : {A : Type 0} → ℕ → List A → List A
drop_nth n [] = []
drop_nth zero (x ∷ xs) = xs
drop_nth (suc n) (x ∷ xs) = x ∷ drop_nth n xs

abbrev pub nth : {A : Type 0} → ℕ → List A → Option A
nth n [] = none
nth zero (x ∷ xs) = some x
nth (suc n) (x ∷ xs) = nth n xs

abbrev pub continuation : Caller → Job
continuation by_submit = submit_settles
continuation by_drain = drain_goes_on

abbrev pub is_run_end : Job → ℕ
is_run_end (run_ends caller) = 1
is_run_end _ = 0

abbrev pub run_ends_in : List Job → ℕ
run_ends_in [] = 0
run_ends_in (j ∷ js) = is_run_end j + run_ends_in js

module _ {A : Type 0} where
  abbrev pub slot_or_empty : Option (Slot A) → Slot A
  slot_or_empty none = record { active = false; queue = []; drain = false }
  slot_or_empty (some s) = s

  abbrev pub with_slot : Slot A → Line A → Line A
  with_slot s l = record l { slot = some s }

  abbrev pub delete_slot : Line A → Line A
  delete_slot l = record l { slot = none }

  abbrev pub call_later : Job → Line A → Line A
  call_later j l = record l { jobs = l.jobs ++ j ∷ [] }

  -- `run`, up to its await.
  abbrev pub run : Caller → Slot A → A → Line A → Line A
  run caller s w l = record l {
    slot = some (record s { active = true });
    works = caller ∷ l.works;
    started = l.started ++ w ∷ [];
  }

  abbrev pub accept : A → Line A → Line A
  accept w l = record l { accepted = l.accepted ++ w ∷ [] }

  abbrev pub is_busy : Slot A → Bool
  is_busy s = s.active || s.drain

  abbrev pub queue_or_run : A → Slot A → Line A → Line A
  queue_or_run w s l =
      if is_busy s
      then with_slot (record s { queue = s.queue ++ w ∷ [] }) l
      else run by_submit s w l

  unfoldable pub submit : A → Line A → Line A
  submit w l = queue_or_run w (slot_or_empty l.slot) (accept w l)

  -- A round of a drain's loop, with the queue that it finds.
  abbrev pub drain_round : Slot A → List A → Line A → Line A
  drain_round s [] l = call_later drain_settles (with_slot s l)
  drain_round s (w ∷ ws) l = run by_drain (record s { queue = ws }) w l

  abbrev pub schedule_from : Slot A → List A → Line A → Line A
  schedule_from s [] l = if is_busy s then with_slot s l else delete_slot l
  schedule_from s (w ∷ ws) l =
      if is_busy s then with_slot s l else drain_round (record s { drain = true }) (w ∷ ws) l

  unfoldable pub schedule_drain : Slot A → Line A → Line A
  schedule_drain s l = schedule_from s s.queue l

  -- The `finally` of `run`.
  abbrev pub end_run : Caller → Slot A → Line A → Line A
  end_run caller s l = call_later (continuation caller) (with_slot (record s { active = false }) l)

  abbrev pub drained_from : Slot A → List A → Line A → Line A
  drained_from s [] l = if s.active then with_slot s l else delete_slot l
  drained_from s (w ∷ ws) l = schedule_drain s l

  -- The `finally` of a drain.
  abbrev pub finish_drain : Slot A → Line A → Line A
  finish_drain s l = drained_from (record s { drain = false }) s.queue l

  unfoldable pub call_back : Job → Slot A → Line A → Line A
  call_back (run_ends caller) s l = end_run caller s l
  call_back submit_settles s l = schedule_drain s l
  call_back drain_goes_on s l = drain_round s s.queue l
  call_back drain_settles s l = finish_drain s l

  abbrev pub call_job : Job → Option (Slot A) → Line A → Line A
  call_job j none l = l
  call_job j (some s) l = call_back j s l

  abbrev pub call_first : List Job → Line A → Line A
  call_first [] l = l
  call_first (j ∷ js) l = call_job j l.slot (record l { jobs = js })

  abbrev pub finish : ℕ → Option Caller → Line A → Line A
  finish n none l = l
  finish n (some caller) l = call_later (run_ends caller) (record l { works = drop_nth n l.works })

  abbrev pub on_line : String → (Line A → Line A) → Registry A → Registry A
  on_line k change r = record r {
    lines = λ j. if str_eq k j then change (r.lines j) else r.lines j;
  }

  abbrev pub finish_work : ℕ → Line A → Line A
  finish_work n l = finish n (nth n l.works) l

  abbrev pub call_next : Line A → Line A
  call_next l = call_first l.jobs l

  unfoldable pub happen : Event A → Registry A → Registry A
  happen (submits k w) r = if r.accepting then on_line k (submit w) r else r
  happen (finishes k n) r = on_line k (finish_work n) r
  happen (calls_back k) r = on_line k call_next r
  happen shuts_down r = record r { accepting = false }

  unfoldable pub happen_all : List (Event A) → Registry A → Registry A
  happen_all [] r = r
  happen_all (e ∷ es) r = happen_all es (happen e r)

  abbrev pub new_registry : Registry A
  new_registry = record {
    accepting = true;
    lines = λ k. record { slot = none; works = []; jobs = []; accepted = []; started = [] };
  }

  -- How many works run: their promises are pending, or `run` has not come back from them.
  abbrev pub running : Line A → ℕ
  running l = length l.works + run_ends_in l.jobs
