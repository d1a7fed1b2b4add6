-- ===== src/Logging/Dispatcher/Events.antt =====
-- The pieces of the dispatcher's code as events, and what every order of them keeps.
use plus_one.Logging.Dispatcher.Loop.{take_next-IsKept, finish-IsKept}
use plus_one.Logging.Dispatcher.Bounded.{note_drop_room, report_drops-IsSound, report_drops_room}
use plus_one.Logging.Dispatcher.Kept.{
  IsKept, dispatch-IsKept, flush-IsKept, wake-IsKept, sink_control-IsKept, close-IsKept,
  drain_once-IsKept,
}
use plus_one.Logging.State.{Dispatcher, Severity, created, Entry, warn}
use plus_one.Logging.Dispatcher.{
  dispatch, enqueue, make_room, schedule, take_next, append, check_waiters, finish, flush, wake,
  is_empty, settle, shift, sink_control, is_idle, has_pending_at_or_below, is_not, close,
  drain_once, report_drops,
}
use plus_one.Common.{
  ℕ, List, Bool, ◌∷◌, ◌≡◌, Option, [], arith, if◌then◌else◌, leb, ◌||◌, ◌∙◌, refl, true, ◌+◌, false,
  length, some, ◌&&◌, keep, not, ltb, none,
}

-- One piece of the code between two awaits, at a time.
pub data Event : Type 0 where
  dispatching : (severity : Severity) → (now : ℕ) → Event
  flushing : (id : ℕ) → Event
  waking : Event
  taking_next : Event
  sink_reporting : (severity : Severity) → (now : ℕ) → Event
  finishing : (now : ℕ) → Event
  closing : (id : ℕ) → Event
  draining : Event
  reporting : (now : ℕ) → Event

abbrev pub perform : Event → Dispatcher → Dispatcher
perform (dispatching severity now) d = dispatch severity now d
perform (flushing id) d = flush id d
perform waking d = wake d
perform taking_next d = take_next d
perform (sink_reporting severity now) d = sink_control severity now d
perform (finishing now) d = finish now d
perform (closing id) d = close id d
perform draining d = drain_once d
perform (reporting now) d = report_drops true now d

abbrev pub perform_all : List Event → Dispatcher → Dispatcher
perform_all [] d = d
perform_all (e ∷ es) d = perform_all es (perform e d)

perform-IsKept : (e : Event) (d : Dispatcher) → IsKept d → IsKept (perform e d)
perform-IsKept (dispatching severity now) d k = dispatch-IsKept severity now d k
perform-IsKept (flushing id) d k = flush-IsKept id d k
perform-IsKept waking d k = wake-IsKept d k
perform-IsKept taking_next d k = take_next-IsKept d k
perform-IsKept (sink_reporting severity now) d k = sink_control-IsKept severity now d k
perform-IsKept (finishing now) d k = finish-IsKept now d k
perform-IsKept (closing id) d k = close-IsKept id d k
perform-IsKept draining d k = drain_once-IsKept d k
perform-IsKept (reporting now) d (n, s) = (n, report_drops-IsSound n true now d s)

pub perform_all-IsKept : (es : List Event) (d : Dispatcher) → IsKept d → IsKept (perform_all es d)
perform_all-IsKept [] d k = k
perform_all-IsKept (e ∷ es) d k = perform_all-IsKept es (perform e d) (perform-IsKept e d k)

pub created-IsKept : (capacity : ℕ) → IsKept (created capacity)
created-IsKept capacity = (
  0,
  record {
    numbered = omega arith;
    bounded = omega arith;
    tracked = refl;
    ascending = omega arith;
    attended = refl;
    in_process = refl;
    waited_for = refl;
  },
)

capacity_by_cases :
    (x y : Dispatcher) (t : Bool) (c : ℕ)
    → x.capacity ≡ c
    → y.capacity ≡ c
    → (if t then x else y).capacity ≡ c
capacity_by_cases x y true c left right = left
capacity_by_cases x y false c left right = right

schedule_capacity : (d : Dispatcher) → (schedule d).capacity ≡ d.capacity
unfolding schedule
schedule_capacity d =
    capacity_by_cases _ _ (d.processing || d.scheduled || is_empty d.queue) d.capacity refl refl

make_room_capacity :
    (e : Entry) (now : ℕ) (o : Option (Entry × List Entry)) (d : Dispatcher)
    → (make_room e now o d).capacity ≡ d.capacity
unfolding make_room append check_waiters
make_room_capacity e now none d = (note_drop_room e.control e.severity now d).1
make_room_capacity e now (some (evicted, rest)) d =
    schedule_capacity _
    ∙ (note_drop_room evicted.control evicted.severity now
        (record d { queue = rest; pending = keep (is_not evicted.sequence) d.pending })).1

enqueue_capacity :
    (severity : Severity) (control : Bool) (now : ℕ) (d : Dispatcher)
    → (enqueue severity control now d).capacity ≡ d.capacity
unfolding enqueue append
enqueue_capacity severity control now d =
    capacity_by_cases _ _ (leb (d.capacity + (if control then 1 else 0)) (length d.queue))
      d.capacity (make_room_capacity _ now _ _) (schedule_capacity _)

finish_capacity : (now : ℕ) (d : Dispatcher) → (finish now d).capacity ≡ d.capacity
unfolding finish check_waiters
finish_capacity now d = go d.in_flight
  where
    go : (o : Option Entry) → (settle o now d).capacity ≡ d.capacity
    go none = refl
    go (some e) =
        capacity_by_cases _ _ (not e.control && ltb 0 d.dropped_since_control) d.capacity
          (enqueue_capacity warn true now _) refl

take_next_capacity : (d : Dispatcher) → (take_next d).capacity ≡ d.capacity
unfolding take_next check_waiters
take_next_capacity d =
    capacity_by_cases _ _ (d.processing && is_idle d.in_flight) d.capacity (go d.queue) refl
  where
    go : (q : List Entry) → (shift q d).capacity ≡ d.capacity
    go [] = schedule_capacity _
    go (e ∷ es) = refl

flush_capacity : (id : ℕ) (d : Dispatcher) → (flush id d).capacity ≡ d.capacity
unfolding flush
flush_capacity id d =
    capacity_by_cases _ _ (not (has_pending_at_or_below d.sequence (schedule d))) d.capacity
      (schedule_capacity d) (schedule_capacity d)

perform_capacity : (e : Event) (d : Dispatcher) → (perform e d).capacity ≡ d.capacity
unfolding dispatch wake sink_control close drain_once
perform_capacity (dispatching severity now) d =
    capacity_by_cases _ _ d.closed d.capacity refl (enqueue_capacity severity false now d)
perform_capacity (flushing id) d = flush_capacity id d
perform_capacity waking d = capacity_by_cases _ _ d.scheduled d.capacity refl refl
perform_capacity taking_next d = take_next_capacity d
perform_capacity (sink_reporting severity now) d =
    capacity_by_cases _ _ (is_idle d.in_flight) d.capacity refl
      (enqueue_capacity severity true now d)
perform_capacity (finishing now) d = finish_capacity now d
perform_capacity (closing id) d =
    capacity_by_cases _ _ d.closed d.capacity refl (flush_capacity id (record d { closed = true }))
perform_capacity draining d =
    capacity_by_cases _ _ (d.processing || d.scheduled || not (is_empty d.queue)) d.capacity
      (schedule_capacity d) refl
perform_capacity (reporting now) d = (report_drops_room true now d).1

pub perform_all_capacity :
    (es : List Event) (d : Dispatcher) → (perform_all es d).capacity ≡ d.capacity
perform_all_capacity [] d = refl
perform_all_capacity (e ∷ es) d = perform_all_capacity es (perform e d) ∙ perform_capacity e d
