-- ===== src/Logging/Promises.antt =====
-- packages/runtime/src/logging/dispatcher.ts: what the dispatcher promises in every order of its
-- events, and which record it gives up for a new one.
use plus_one.Logging.Dispatcher.Loop.{is_idle-none}
use plus_one.Logging.Dispatcher.Bounded.{has_none, unsettled}
use plus_one.Logging.Dispatcher.Events.{
  Event, perform_all, perform_all-IsKept, created-IsKept, perform_all_capacity,
}
use plus_one.Logging.State.{Entry, Severity, Waiter, created, order, debug, info, warn, error}
use plus_one.Logging.Dispatcher.{displaced, take_out, is_empty, lowest_order, is_displaceable}
use plus_one.Common.{
  ℕ, List, Bool, if◌then◌else◌, length, ◌≡◌, leb, some, true, ◌≤◌, [], arith, false, none, suc, ◌+◌,
  ◌∷◌, Bool-cases, not, refl, ◌||◌, inl, ◌&&◌, ◌<◌, inr, ltb, Option-cases, ◌∙◌,
}

-- Whatever happens to a new dispatcher, in any order, its queue holds at most one record more than
-- its capacity, and the pending numbers are those of the record in flight and of the queue, in the
-- queue's order.
pub perform_all-IsBounded :
    (capacity : ℕ) (es : List Event)
    → (length (perform_all es (created capacity)).queue ≤ capacity + 1)
      × ((perform_all es (created capacity)).pending
          ≡ unsettled
              (perform_all es (created capacity)).in_flight
              (perform_all es (created capacity)).queue)
perform_all-IsBounded capacity es =
    let (n, s) = perform_all-IsKept es (created capacity) (created-IsKept capacity) in
    (omega (arith, s.bounded, perform_all_capacity es (created capacity)), s.tracked)

empty_queue : (q : List Entry) → is_empty q ≡ true → q ≡ []
empty_queue [] h = refl
empty_queue (e ∷ es) h = cc

empty_waiters : (ws : List Waiter) → has_none ws ≡ true → ws ≡ []
empty_waiters [] h = refl
empty_waiters (w ∷ ws) h = cc

-- Whatever happened to a new dispatcher, in any order: where it neither processes records nor is
-- scheduled to, no record is in its queue or in flight, none is pending, and no flush waits.
pub perform_all-IsAttended :
    (capacity : ℕ) (es : List Event)
    → (perform_all es (created capacity)).processing ≡ false
    → (perform_all es (created capacity)).scheduled ≡ false
    → ((perform_all es (created capacity)).queue ≡ [])
      × ((perform_all es (created capacity)).pending ≡ [])
      × ((perform_all es (created capacity)).waiters ≡ [])
perform_all-IsAttended capacity es p q =
    let (n, s) = perform_all-IsKept es (created capacity) (created-IsKept capacity) in
    let nothing =
      empty_queue (perform_all es (created capacity)).queue (ground (arith, s.attended)) in
    let landed =
      is_idle-none (perform_all es (created capacity)).in_flight (ground (arith, s.in_process)) in
    (
      nothing,
      s.tracked ∙ rw (nothing, landed) refl,
      empty_waiters (perform_all es (created capacity)).waiters (ground (arith, s.waited_for)),
    )

-- Every record but the control records has at least this order.
abbrev pub is_lowest : ℕ → List Entry → Bool
is_lowest lowest [] = true
is_lowest lowest (e ∷ es) = (e.control || leb lowest (order e.severity)) && is_lowest lowest es

lowest_order-le : (lo : ℕ) (q : List Entry) → lowest_order lo q ≤ lo
lowest_order-le lo [] = omega arith
lowest_order-le lo (e ∷ es) =
    let deep =
      lowest_order-le (if not e.control && ltb (order e.severity) lo then order e.severity else lo)
        es in
    ground arith

lowest_order-is_lowest : (lo : ℕ) (q : List Entry) → is_lowest (lowest_order lo q) q ≡ true
lowest_order-is_lowest lo [] = refl
lowest_order-is_lowest lo (e ∷ es) =
    let next = if not e.control && ltb (order e.severity) lo then order e.severity else lo in
    let below = lowest_order-le next es in ground (arith, lowest_order-is_lowest next es)

take_out-hit :
    (p : Entry → Bool) (q : List Entry) (found : Entry × List Entry)
    → take_out p q ≡ some found
    → (p found.0 ≡ true) × (length q ≡ suc (length found.1))
unfolding take_out
take_out-hit p [] found e = cc
take_out-hit p (y ∷ ys) found e = elim (Bool-cases (p y)) [
  | inl hit ↦ let same : (y, ys) ≡ found = ground arith in rw⁻¹ same (hit, refl)
  | inr miss ↦ elim (Option-cases (take_out p ys)) [
    | inl nothing ↦ ground arith
    | inr (deep, f) ↦
        let same : (deep.0, y ∷ deep.1) ≡ found = ground arith in
        let (hit, l) = take_out-hit p ys deep f in rw⁻¹ same (hit, omega arith)
  ]
]

lowest-IsLowest :
    (incoming : ℕ) (q : List Entry) (e : Entry) (rest : List Entry)
    → (if leb incoming (lowest_order incoming q)
        then none
        else take_out (is_displaceable (lowest_order incoming q)) q)
      ≡ some (e, rest)
    → (e.control ≡ false)
      × (order e.severity < incoming)
      × (is_lowest (order e.severity) q ≡ true)
      × (length q ≡ suc (length rest))
lowest-IsLowest incoming q e rest h = elim (Bool-cases (leb incoming (lowest_order incoming q))) [
  | inl nothing ↦ ground arith
  | inr lower ↦
      let (hit, l) =
        take_out-hit (is_displaceable (lowest_order incoming q)) q (e, rest) (ground arith) in
      let same : order e.severity ≡ lowest_order incoming q = ground arith in
      (ground arith, ground arith, rw same (lowest_order-is_lowest incoming q), l)
]

-- A record that gives way to a new one is no control record, is less severe than the new one and
-- no more severe than any other record that could give way, and it alone leaves the queue.
displaced-IsLowest :
    (severity : Severity) (q : List Entry) (e : Entry) (rest : List Entry)
    → displaced severity q ≡ some (e, rest)
    → (e.control ≡ false)
      × (order e.severity < order severity)
      × (is_lowest (order e.severity) q ≡ true)
      × (length q ≡ suc (length rest))
unfolding displaced
displaced-IsLowest debug q e rest h = cc
displaced-IsLowest info q e rest h = lowest-IsLowest (order info) q e rest h
displaced-IsLowest warn q e rest h = lowest-IsLowest (order warn) q e rest h
displaced-IsLowest error q e rest h = lowest-IsLowest (order error) q e rest h
