-- ===== src/Logging/Dispatcher/Steps.antt =====
-- Whatever happens to the dispatcher, in any order, its queue stays bounded, and no record and no
-- flush is forgotten.
use plus_one.Common.{
  ℕ, ◌≡◌, List, Bool, [], keep, some, length, ◌∷◌, ◌≤◌, Option, arith, true, suc, ◌<◌, none, refl,
  Bool-cases, leb, ◌+◌, if◌then◌else◌, inl, inr, false,
}
use plus_one.Logging.State.{Dispatcher, Entry, Waiter, Severity, order, debug, info, warn, error}
use plus_one.Logging.Dispatcher.{
  check_waiters, take_out, evict, must_wait, displaced, enqueue, is_not, make_room, is_displaceable,
  lowest_order, entry_of, note_drop_unless,
}
use plus_one.Logging.Dispatcher.Bounded.{
  IsSound, has_none, IsAscending, note_drop_room, note_drop-IsSound, unsettled, append-IsSound,
  take_out-Taken,
}

pub keep_none : (d : Dispatcher) (ws : List Waiter) → d.pending ≡ [] → keep (must_wait d) ws ≡ []
keep_none d [] e = refl
keep_none d (w ∷ ws) e = ground (arith, keep_none d ws e)

has_none-keep :
    (p : Waiter → Bool) (ws : List Waiter) → has_none ws ≡ true → has_none (keep p ws) ≡ true
has_none-keep p [] h = refl
has_none-keep p (w ∷ ws) h = cc

pub check_waiters-IsSound : (n : ℕ) (d : Dispatcher) → IsSound n d → IsSound n (check_waiters d)
unfolding check_waiters
check_waiters-IsSound n d s = record {
  numbered = s.numbered;
  bounded = s.bounded;
  tracked = s.tracked;
  ascending = s.ascending;
  attended = s.attended;
  in_process = s.in_process;
  waited_for = ground (arith, s.waited_for, has_none-keep (must_wait d) d.waiters);
}

-- Taking one record out of a queue that waits behind the record in flight.
take_out-unsettled :
    (p : Entry → Bool) (flying : Option Entry) (q : List Entry) (found : Entry × List Entry) (n : ℕ)
    → take_out p q ≡ some found
    → IsAscending 0 (unsettled flying q) n
    → (length q ≡ suc (length found.1))
      × (keep (is_not found.0.sequence) (unsettled flying q) ≡ unsettled flying found.1)
      × IsAscending 0 (unsettled flying found.1) n
take_out-unsettled p none q found n e a =
    let (l, hit, above, kept, rest) = take_out-Taken p q found 0 n e a in (l, kept, rest)
take_out-unsettled p (some f) q found n e (z, a) =
    let (l, hit, above, kept, rest) = take_out-Taken p q found f.sequence n e a in
    (l, ground arith, (z, rest))

evict-IsSound :
    (n now : ℕ) (d : Dispatcher) (p : Entry → Bool) (found : Entry × List Entry)
    → IsSound n d
    → take_out p d.queue ≡ some found
    → IsSound n (evict found.0 found.1 now d)
      × (length (evict found.0 found.1 now d).queue ≤ (evict found.0 found.1 now d).capacity)
evict-IsSound n now d p found s e =
    let (l, kept, a) = take_out-unsettled p d.in_flight d.queue found n e s.ascending in
    let left = record d { queue = found.1; pending = keep (is_not found.0.sequence) d.pending } in
    let (q, c, _) = note_drop_room found.0.control found.0.severity now left in
    (
      note_drop-IsSound n found.0.control found.0.severity now left (record {
        numbered = s.numbered;
        bounded = omega (arith, s.bounded);
        tracked = rw s.tracked kept;
        ascending = a;
        attended = ground (arith, s.attended);
        in_process = s.in_process;
        waited_for = s.waited_for;
      }),
      rw (q, c) (omega (arith, s.bounded)),
    )

displaced-take_out :
    (severity : Severity) (q : List Entry) (found : Entry × List Entry)
    → displaced severity q ≡ some found
    → (p : Entry → Bool) × (take_out p q ≡ some found)
unfolding displaced
displaced-take_out debug q found e = cc
displaced-take_out info q found e = (is_displaceable (lowest_order (order info) q), ground arith)
displaced-take_out warn q found e = (is_displaceable (lowest_order (order warn) q), ground arith)
displaced-take_out error q found e = (is_displaceable (lowest_order (order error) q), ground arith)

IsAscending-lift :
    (lo : ℕ) (ns : List ℕ) (n m : ℕ) → n ≤ m → IsAscending lo ns n → IsAscending lo ns m
IsAscending-lift lo [] n m l a = omega arith
IsAscending-lift lo (x ∷ xs) n m l (z, a) = (z, IsAscending-lift x xs n m l a)

IsSound-lift : (n m : ℕ) (d : Dispatcher) → n ≤ m → m ≤ d.sequence → IsSound n d → IsSound m d
IsSound-lift n m d l h s = record {
  numbered = h;
  bounded = s.bounded;
  tracked = s.tracked;
  ascending = IsAscending-lift 0 (unsettled d.in_flight d.queue) n m l s.ascending;
  attended = s.attended;
  in_process = s.in_process;
  waited_for = s.waited_for;
}

evict_sequence :
    (now : ℕ) (d : Dispatcher) (found : Entry × List Entry)
    → (evict found.0 found.1 now d).sequence ≡ d.sequence
evict_sequence now d found =
    (note_drop_room found.0.control found.0.severity now
      (record d { queue = found.1; pending = keep (is_not found.0.sequence) d.pending })).2

make_room-IsSound :
    (n now : ℕ) (e : Entry) (severity : Severity) (d : Dispatcher)
    → IsSound n d
    → n < e.sequence
    → e.sequence ≤ d.sequence
    → (m : ℕ) × IsSound m (make_room e now (displaced severity d.queue) d)
unfolding make_room
make_room-IsSound n now e severity d s l h = go (displaced severity d.queue) refl
  where
    go :
        (o : Option (Entry × List Entry))
        → displaced severity d.queue ≡ o
        → (m : ℕ) × IsSound m (make_room e now o d)
    go none q = (
      n,
      check_waiters-IsSound n (note_drop_unless e.control e.severity now d)
          (note_drop-IsSound n e.control e.severity now d s),
    )
    go (some found) q =
        let (p, t) = displaced-take_out severity d.queue found q in
        let (sound, room) = evict-IsSound n now d p found s t in
        (
          e.sequence,
          append-IsSound n e (evict found.0 found.1 now d) sound l
              (omega (arith, evict_sequence now d found)) room,
        )

free_room :
    (capacity held : ℕ) (control : Bool)
    → leb (capacity + (if control then 1 else 0)) held ≡ false
    → held ≤ capacity
free_room capacity held true e = ground arith
free_room capacity held false e = ground arith

pub enqueue-IsSound :
    (n : ℕ) (severity : Severity) (control : Bool) (now : ℕ) (d : Dispatcher)
    → IsSound n d
    → (m : ℕ) × IsSound m (enqueue severity control now d)
unfolding enqueue
enqueue-IsSound n severity control now d s =
    let counted = record d { sequence = suc d.sequence } in
    let e = entry_of severity control (suc d.sequence) in
    let c : IsSound n counted = record {
      numbered = omega (arith, s.numbered);
      bounded = s.bounded;
      tracked = s.tracked;
      ascending = s.ascending;
      attended = s.attended;
      in_process = s.in_process;
      waited_for = s.waited_for;
    } in
    elim (Bool-cases (leb (d.capacity + (if control then 1 else 0)) (length d.queue))) [
      | inl full ↦
          rw full
            (make_room-IsSound n now e severity counted c (omega (arith, s.numbered)) (omega arith))
      | inr free ↦ rw free (
        e.sequence,
        append-IsSound n e counted c (omega (arith, s.numbered)) (omega arith)
            (free_room d.capacity (length d.queue) control free),
      )
    ]
