-- ===== src/Logging/Dispatcher/Kept.antt =====
-- Each piece that changes the dispatcher's state keeps it: a record, a flush, a wake-up.
use plus_one.Logging.Dispatcher.Steps.{enqueue-IsSound}
use plus_one.Logging.Dispatcher.Bounded.{schedule-IsSound, IsSound, unsettled}
use plus_one.Logging.State.{Dispatcher, Entry, Severity}
use plus_one.Logging.Dispatcher.{
  dispatch, flush, sink_control, wake, schedule, has_pending_at_or_below, is_idle, is_at_or_below,
  is_empty, close, drain_once,
}
use mathlib.Core.Path.{subst}
use plus_one.Common.{
  ℕ, Option, Bool, arith, not, List, ◌≡◌, any, false, true, if◌then◌else◌, ◌||◌, refl, ◌∷◌, some,
  none, [],
}

abbrev pub IsKept : Dispatcher → Type 0
IsKept d = (n : ℕ) × IsSound n d

pub schedule-IsKept : (d : Dispatcher) → IsKept d → IsKept (schedule d)
schedule-IsKept d (n, s) = (
  n,
  schedule-IsSound n d s.numbered s.bounded s.tracked s.ascending s.in_process
      (ground (arith, s.waited_for)),
)

-- A branch on a test keeps what both of its ways keep.
pub IsKept-by_cases :
    {x y : Dispatcher} (t : Bool)
    → (t ≡ true → IsKept x)
    → (t ≡ false → IsKept y)
    → IsKept (if t then x else y)
IsKept-by_cases true when_true when_false = when_true refl
IsKept-by_cases false when_true when_false = when_false refl

pub dispatch-IsKept :
    (severity : Severity) (now : ℕ) (d : Dispatcher) → IsKept d → IsKept (dispatch severity now d)
unfolding dispatch
dispatch-IsKept severity now d (n, s) =
    IsKept-by_cases d.closed (λ shut. (n, s)) (λ open_. enqueue-IsSound n severity false now d s)

at_work_on :
    (flying : Option Entry) (q : List Entry) (processing scheduled : Bool) (barrier : ℕ)
    → any (is_at_or_below barrier) (unsettled flying q) ≡ true
    → (is_empty q || processing || scheduled) ≡ true
    → (is_idle flying || processing) ≡ true
    → (processing || scheduled) ≡ true
at_work_on none [] processing scheduled barrier h a p = cc
at_work_on none (e ∷ es) processing scheduled barrier h a p = a
at_work_on (some e) q processing scheduled barrier h a p = ground arith

-- Where a flush must wait, a record is pending, so the dispatcher is at work.
at_work :
    (n barrier : ℕ) (d : Dispatcher)
    → IsSound n d
    → has_pending_at_or_below barrier d ≡ true
    → (d.processing || d.scheduled) ≡ true
at_work n barrier d s h =
    at_work_on d.in_flight d.queue d.processing d.scheduled barrier
      (subst (λ (ns : List ℕ). any (is_at_or_below barrier) ns ≡ true) s.tracked h) s.attended
      s.in_process

pub flush-IsKept : (id : ℕ) (d : Dispatcher) → IsKept d → IsKept (flush id d)
unfolding flush
flush-IsKept id d k =
    let (n, s) = schedule-IsKept d k in
    IsKept-by_cases (not (has_pending_at_or_below d.sequence (schedule d)))
      (λ free. (
        n,
        record {
          numbered = s.numbered;
          bounded = s.bounded;
          tracked = s.tracked;
          ascending = s.ascending;
          attended = s.attended;
          in_process = s.in_process;
          waited_for = s.waited_for;
        },
      ))
      (λ waits. (
        n,
        record {
          numbered = s.numbered;
          bounded = s.bounded;
          tracked = s.tracked;
          ascending = s.ascending;
          attended = s.attended;
          in_process = s.in_process;
          waited_for = ground (arith, at_work n d.sequence (schedule d) s);
        },
      ))

pub close-IsKept : (id : ℕ) (d : Dispatcher) → IsKept d → IsKept (close id d)
unfolding close
close-IsKept id d (n, s) =
    IsKept-by_cases d.closed (λ shut. (n, s))
      (λ open_.
        flush-IsKept id (record d { closed = true })
          (
            n,
            record {
              numbered = s.numbered;
              bounded = s.bounded;
              tracked = s.tracked;
              ascending = s.ascending;
              attended = s.attended;
              in_process = s.in_process;
              waited_for = s.waited_for;
            },
          ))

pub drain_once-IsKept : (d : Dispatcher) → IsKept d → IsKept (drain_once d)
unfolding drain_once
drain_once-IsKept d k =
    IsKept-by_cases (d.processing || d.scheduled || not (is_empty d.queue))
      (λ busy. schedule-IsKept d k) (λ drained. k)

pub wake-IsKept : (d : Dispatcher) → IsKept d → IsKept (wake d)
unfolding wake
wake-IsKept d (n, s) =
    IsKept-by_cases d.scheduled
      (λ due. (
        n,
        record {
          numbered = s.numbered;
          bounded = s.bounded;
          tracked = s.tracked;
          ascending = s.ascending;
          attended = ground arith;
          in_process = ground arith;
          waited_for = ground arith;
        },
      ))
      (λ idle. (n, s))

pub sink_control-IsKept :
    (severity : Severity) (now : ℕ) (d : Dispatcher)
    → IsKept d
    → IsKept (sink_control severity now d)
unfolding sink_control
sink_control-IsKept severity now d (n, s) =
    IsKept-by_cases (is_idle d.in_flight) (λ idle. (n, s))
      (λ busy. enqueue-IsSound n severity true now d s)
