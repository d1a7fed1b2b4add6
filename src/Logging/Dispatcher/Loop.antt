-- ===== src/Logging/Dispatcher/Loop.antt =====
-- The loop of `process` keeps the dispatcher's state, also where it ends.
use plus_one.Logging.Dispatcher.Steps.{keep_none, check_waiters-IsSound, enqueue-IsSound}
use plus_one.Logging.Dispatcher.Bounded.{
  unsettled, IsSound, numbers, IsAscending, schedule-IsSound, keep_above, IsAscending-mono,
}
use plus_one.Logging.Dispatcher.Kept.{IsKept, IsKept-by_cases}
use plus_one.Logging.State.{Entry, Dispatcher, warn}
use plus_one.Logging.Dispatcher.{
  check_waiters, take_next, finish, is_idle, drop_control, settle, shift, is_not,
}
use mathlib.Core.Path.{subst}
use plus_one.Common.{
  ℕ, Option, List, ◌≡◌, [], none, true, ◌∷◌, some, false, keep, not, refl, ◌&&◌, arith, ltb, ◌∙◌,
}

-- The loop ends when the queue is empty: nothing is pending then, so no flush waits.
stop-IsKept : (d : Dispatcher) → IsKept d → d.queue ≡ [] → d.in_flight ≡ none → IsKept (shift [] d)
unfolding check_waiters
stop-IsKept d (n, s) q f =
    let rest = record d { processing = false } in
    let settled : d.pending ≡ [] = rw s.tracked (rw (q, f) refl) in
    let nobody = keep_none rest d.waiters settled in
    (
      n,
      schedule-IsSound n (check_waiters rest) s.numbered s.bounded s.tracked s.ascending
          (ground arith) (ground arith),
    )

go_on-IsKept :
    (e : Entry) (es : List Entry) (d : Dispatcher)
    → IsKept d
    → d.queue ≡ e ∷ es
    → d.in_flight ≡ none
    → d.processing ≡ true
    → IsKept (shift (e ∷ es) d)
go_on-IsKept e es d (n, s) q f at_it =
    let same : unsettled d.in_flight d.queue ≡ e.sequence ∷ numbers es = rw (q, f) refl in
    (
      n,
      record {
        numbered = s.numbered;
        bounded = ground (arith, s.bounded);
        tracked = s.tracked ∙ same;
        ascending = subst (λ (ns : List ℕ). IsAscending 0 ns n) same s.ascending;
        attended = ground arith;
        in_process = ground arith;
        waited_for = ground arith;
      },
    )

pub is_idle-none : (o : Option Entry) → is_idle o ≡ true → o ≡ none
is_idle-none none h = refl
is_idle-none (some e) h = cc

pub take_next-IsKept : (d : Dispatcher) → IsKept d → IsKept (take_next d)
unfolding take_next
take_next-IsKept d k =
    IsKept-by_cases (d.processing && is_idle d.in_flight)
      (λ ready. shift-IsKept d.queue refl (is_idle-none d.in_flight (ground arith)) (ground arith))
      (λ busy. k)
  where
    shift-IsKept :
        (q : List Entry)
        → d.queue ≡ q
        → d.in_flight ≡ none
        → d.processing ≡ true
        → IsKept (shift q d)
    shift-IsKept [] e f at_it = stop-IsKept d k e f
    shift-IsKept (x ∷ xs) e f at_it = go_on-IsKept x xs d k e f at_it

drop_control-IsKept :
    (e : Entry) (now : ℕ) (d : Dispatcher) → IsKept d → IsKept (drop_control e now d)
drop_control-IsKept e now d (n, s) =
    IsKept-by_cases (not e.control && ltb 0 d.dropped_since_control)
      (λ due.
        enqueue-IsSound n warn true now (record d { dropped_since_control = 0 })
          (record {
            numbered = s.numbered;
            bounded = s.bounded;
            tracked = s.tracked;
            ascending = s.ascending;
            attended = s.attended;
            in_process = s.in_process;
            waited_for = s.waited_for;
          }))
      (λ nothing. (n, s))

settled-IsSound :
    (n : ℕ) (e : Entry) (d : Dispatcher)
    → IsSound n d
    → d.in_flight ≡ some e
    → IsSound n (record d { in_flight = none; pending = keep (is_not e.sequence) d.pending })
settled-IsSound n e d s f =
    let same : unsettled d.in_flight d.queue ≡ e.sequence ∷ numbers d.queue = rw f refl in
    let (above, a) = subst (λ (ns : List ℕ). IsAscending 0 ns n) same s.ascending in
    let kept = keep_above e.sequence e.sequence (numbers d.queue) n (omega arith) a in
    record {
      numbered = s.numbered;
      bounded = s.bounded;
      tracked = rw (s.tracked ∙ same) (ground arith);
      ascending = IsAscending-mono 0 e.sequence (numbers d.queue) n (omega arith) a;
      attended = s.attended;
      in_process = ground arith;
      waited_for = s.waited_for;
    }

pub finish-IsKept : (now : ℕ) (d : Dispatcher) → IsKept d → IsKept (finish now d)
unfolding finish
finish-IsKept now d (n, s) = settle-IsKept d.in_flight refl
  where
    settle-IsKept : (o : Option Entry) → d.in_flight ≡ o → IsKept (settle o now d)
    settle-IsKept none f = (n, s)
    settle-IsKept (some e) f =
        drop_control-IsKept e now
          (check_waiters
            (record d { in_flight = none; pending = keep (is_not e.sequence) d.pending }))
          (
            n,
            check_waiters-IsSound n
                (record d { in_flight = none; pending = keep (is_not e.sequence) d.pending })
                (settled-IsSound n e d s f),
          )
