-- ===== src/Logging/Dispatcher.antt =====
-- packages/runtime/src/logging/dispatcher.ts: the bounded queue of log records. Between two awaits of
-- the code nothing else runs, so each piece between two awaits is one function on the dispatcher's
-- state. What the sinks write, and the text of a record, are left out: a record is its severity.
pub mod Bounded
pub mod Steps
pub mod Kept
pub mod Loop
pub mod Events
use plus_one.Logging.State.{
  Severity, order, Entry, Waiter, Drops, Dispatcher, no_drops, default_capacity,
  control_interval_ms, created, is_capacity, debug, info, warn, error,
}
use plus_one.Common.{
  ℕ, suc, zero, ◌+◌, ◌-◌, Bool, true, false, not, ◌&&◌, ◌||◌, Option, none, some, List, [], ◌∷◌,
  ◌++◌, ltb, leb, ◌==◌, if◌then◌else◌, length, any, keep, map,
}

abbrev pub total : Drops → ℕ
total d = d.debugs + d.infos + d.warns + d.errors

abbrev pub count_drop : Severity → Drops → Drops
count_drop debug d = record d { debugs = suc d.debugs }
count_drop info d = record d { infos = suc d.infos }
count_drop warn d = record d { warns = suc d.warns }
count_drop error d = record d { errors = suc d.errors }

-- Whether `now - lastDropFallbackAt < CONTROL_INTERVAL_MS`.
abbrev pub is_recent : Option ℕ → ℕ → Bool
is_recent none now = false
is_recent (some at_ms) now = ltb now (at_ms + control_interval_ms)

unfoldable pub report_drops : (force : Bool) → (now : ℕ) → Dispatcher → Dispatcher
report_drops force now d =
    let count = total d.dropped in
    if count == d.last_fallback_count
    then d
    else if not force && not (d.last_fallback_count == 0) && is_recent d.last_fallback_at now
    then d
    else record d {
      last_fallback_count = count;
      last_fallback_at = some now;
      reports = count ∷ d.reports;
    }

abbrev pub counted_drop : Severity → Dispatcher → Dispatcher
counted_drop severity d = record d {
  dropped = count_drop severity d.dropped;
  dropped_since_control = suc d.dropped_since_control;
}

unfoldable pub note_drop : Severity → (now : ℕ) → Dispatcher → Dispatcher
note_drop severity now d = report_drops false now (counted_drop severity d)

abbrev pub is_at_or_below : ℕ → ℕ → Bool
is_at_or_below barrier n = leb n barrier

abbrev pub has_pending_at_or_below : ℕ → Dispatcher → Bool
has_pending_at_or_below barrier d = any (is_at_or_below barrier) d.pending

abbrev pub must_wait : Dispatcher → Waiter → Bool
must_wait d w = has_pending_at_or_below w.barrier d

abbrev pub is_served : Dispatcher → Waiter → Bool
is_served d w = not (must_wait d w)

abbrev pub waiter_id : Waiter → ℕ
waiter_id w = w.id

unfoldable pub check_waiters : Dispatcher → Dispatcher
check_waiters d = record d {
  waiters = keep (must_wait d) d.waiters;
  resolved = map waiter_id (keep (is_served d) d.waiters) ++ d.resolved;
}

abbrev pub is_empty : List Entry → Bool
is_empty [] = true
is_empty (e ∷ es) = false

unfoldable pub schedule : Dispatcher → Dispatcher
schedule d =
    if d.processing || d.scheduled || is_empty d.queue then d else record d { scheduled = true }

-- The lowest severity below `incoming` of a record that is not a control record.
abbrev pub lowest_order : ℕ → List Entry → ℕ
lowest_order lowest [] = lowest
lowest_order lowest (e ∷ es) =
    lowest_order
      (if not e.control && ltb (order e.severity) lowest then order e.severity else lowest) es

abbrev pub is_displaceable : ℕ → Entry → Bool
is_displaceable lowest e = not e.control && order e.severity == lowest

-- `findIndex` and `splice(index, 1)` in one: the first such entry, and the others.
unfoldable pub take_out : (Entry → Bool) → List Entry → Option (Entry × List Entry)
take_out p [] = none
take_out p (e ∷ es) = elim (p e) [
  | true ↦ some (e, es)
  | false ↦ elim (take_out p es) [ none ↦ none | some (x, rest) ↦ some (x, e ∷ rest) ]
]

unfoldable pub displaced : Severity → List Entry → Option (Entry × List Entry)
displaced debug queue = none
displaced incoming queue =
    let lowest = lowest_order (order incoming) queue in
    if leb (order incoming) lowest then none else take_out (is_displaceable lowest) queue

abbrev pub is_not : ℕ → ℕ → Bool
is_not n m = not (m == n)

abbrev pub note_drop_unless : Bool → Severity → ℕ → Dispatcher → Dispatcher
note_drop_unless control severity now d = if control then d else note_drop severity now d

unfoldable pub append : Entry → Dispatcher → Dispatcher
append e d =
    schedule (record d { queue = d.queue ++ e ∷ []; pending = d.pending ++ e.sequence ∷ [] })

abbrev pub evict : Entry → List Entry → ℕ → Dispatcher → Dispatcher
evict evicted rest now d =
    note_drop_unless evicted.control evicted.severity now
      (record d { queue = rest; pending = keep (is_not evicted.sequence) d.pending })

abbrev pub entry_of : Severity → Bool → ℕ → Entry
entry_of severity control n = record { sequence = n; severity = severity; control = control }

unfoldable pub make_room : Entry → ℕ → Option (Entry × List Entry) → Dispatcher → Dispatcher
make_room e now none d = check_waiters (note_drop_unless e.control e.severity now d)
make_room e now (some (evicted, rest)) d = append e (evict evicted rest now d)

unfoldable pub enqueue : Severity → (control : Bool) → (now : ℕ) → Dispatcher → Dispatcher
enqueue severity control now d =
    let e = entry_of severity control (suc d.sequence) in
    let counted = record d { sequence = suc d.sequence } in
    if leb (d.capacity + (if control then 1 else 0)) (length d.queue)
    then make_room e now (displaced severity d.queue) counted
    else append e counted

unfoldable pub dispatch : Severity → (now : ℕ) → Dispatcher → Dispatcher
dispatch severity now d = if d.closed then d else enqueue severity false now d

unfoldable pub flush : (id : ℕ) → Dispatcher → Dispatcher
flush id d =
    let awake = schedule d in
    if not (has_pending_at_or_below d.sequence awake)
    then record awake { resolved = id ∷ awake.resolved }
    else record awake { waiters = awake.waiters ++ record { barrier = d.sequence; id = id } ∷ [] }

-- `close` up to its first await; a later call returns the same promise.
unfoldable pub close : (id : ℕ) → Dispatcher → Dispatcher
close id d = if d.closed then d else flush id (record d { closed = true })

-- One turn of the loop of `drain`.
unfoldable pub drain_once : Dispatcher → Dispatcher
drain_once d = if d.processing || d.scheduled || not (is_empty d.queue) then schedule d else d

-- The microtask: `process` is called and waits for `startAfter`.
unfoldable pub wake : Dispatcher → Dispatcher
wake d = if d.scheduled then record d { scheduled = false; processing = true } else d

abbrev pub shift : List Entry → Dispatcher → Dispatcher
shift [] d = schedule (check_waiters (record d { processing = false }))
shift (e ∷ es) d = record d { queue = es; in_flight = some e }

abbrev pub is_idle : Option Entry → Bool
is_idle none = true
is_idle (some e) = false

-- The head of the loop: the next record is taken, or `process` ends.
unfoldable pub take_next : Dispatcher → Dispatcher
take_next d = if d.processing && is_idle d.in_flight then shift d.queue d else d

-- A sink failed or recovered while a record was written.
unfoldable pub sink_control : Severity → (now : ℕ) → Dispatcher → Dispatcher
sink_control severity now d = if is_idle d.in_flight then d else enqueue severity true now d

abbrev pub drop_control : Entry → ℕ → Dispatcher → Dispatcher
drop_control e now d =
    if not e.control && ltb 0 d.dropped_since_control
    then enqueue warn true now (record d { dropped_since_control = 0 })
    else d

abbrev pub settle : Option Entry → ℕ → Dispatcher → Dispatcher
settle none now d = d
settle (some e) now d =
    drop_control e now
      (check_waiters (record d { in_flight = none; pending = keep (is_not e.sequence) d.pending }))

-- What follows the delivery of a record.
unfoldable pub finish : (now : ℕ) → Dispatcher → Dispatcher
finish now d = settle d.in_flight now d
