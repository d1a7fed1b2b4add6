-- ===== src/Tests/Logging.antt =====
-- Runs of the log dispatcher.
use plus_one.Logging.Promises.{perform_all-IsBounded, perform_all-IsAttended}
use plus_one.Logging.Dispatcher.Bounded.{unsettled}
use plus_one.Logging.Dispatcher.Events.{
  Event, dispatching, perform_all, flushing, waking, taking_next, sink_reporting, finishing,
}
use plus_one.Logging.State.{Entry, debug, warn, created, info, error}
use plus_one.Logging.Dispatcher.{
  dispatch, enqueue, entry_of, append, schedule, flush, wake, take_next, sink_control, finish,
  check_waiters,
}
use plus_one.Common.{List, length, ◌≡◌, false, ◌∷◌, ◌≤◌, [], ◌+◌, refl}

abbrev two_records : List Event
two_records = dispatching debug 5 ∷ dispatching info 6 ∷ dispatching error 7 ∷ flushing 1 ∷ []

abbrev served : List Event
served =
    dispatching info 5
    ∷ flushing 1
    ∷ waking
    ∷ taking_next
    ∷ sink_reporting error 6
    ∷ finishing 7
    ∷ taking_next
    ∷ finishing 8
    ∷ taking_next
    ∷ []

abbrev a_debug : Entry
a_debug = entry_of debug false 4

abbrev a_warning : Entry
a_warning = entry_of warn false 5

perform_all-IsBounded_example :
    (length (perform_all two_records (created 2)).queue ≤ 2 + 1)
    × ((perform_all two_records (created 2)).pending
        ≡ unsettled
            (perform_all two_records (created 2)).in_flight
            (perform_all two_records (created 2)).queue)
perform_all-IsBounded_example = perform_all-IsBounded 2 two_records

perform_all-IsAttended_example :
    ((perform_all served (created 2)).queue ≡ [])
    × ((perform_all served (created 2)).pending ≡ [])
    × ((perform_all served (created 2)).waiters ≡ [])
unfolding dispatch enqueue append schedule flush wake take_next sink_control finish check_waiters
perform_all-IsAttended_example = perform_all-IsAttended 2 served refl refl
