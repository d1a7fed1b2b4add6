-- ===== src/Logging/Dispatcher/Bounded.antt =====
-- The state of the dispatcher that every piece of its code keeps.
use mathlib.Core.Path.{subst}
use plus_one.Common.{
  ap, refl, sym, Option-cases, ℕ, suc, ◌+◌, ◌≡◌, ◌≤◌, ◌<◌, Bool, true, false, not, ◌&&◌, ◌||◌,
  Option, none, some, List, [], ◌∷◌, ◌++◌, ◌==◌, length, keep, arith, length-append, Bool-cases,
  inl, inr, ap,
}
use plus_one.Logging.State.{Entry, Dispatcher, Severity, Waiter}
use plus_one.Logging.Dispatcher.{
  take_out, schedule, note_drop, report_drops, append, is_not, is_idle, is_empty, note_drop_unless,
  total, is_recent, counted_drop,
}

abbrev pub numbers : List Entry → List ℕ
numbers [] = []
numbers (e ∷ es) = e.sequence ∷ numbers es

-- The numbers of the records that no sink has settled yet: the one in flight, then the queue.
abbrev pub unsettled : Option Entry → List Entry → List ℕ
unsettled none queue = numbers queue
unsettled (some e) queue = e.sequence ∷ numbers queue

-- Above `lo`, strictly ascending, at most `hi`.
abbrev pub IsAscending : ℕ → List ℕ → ℕ → Type 0
IsAscending lo [] hi = lo ≤ hi
IsAscending lo (n ∷ ns) hi = (lo < n) × IsAscending n ns hi

abbrev pub has_none : List Waiter → Bool
has_none [] = true
has_none (w ∷ ws) = false

-- The dispatcher whose records have numbers up to `n`.
pub record IsSound (n : ℕ) (d : Dispatcher) : Type 0 where
  pub numbered : n ≤ d.sequence
  pub bounded : length d.queue ≤ d.capacity + 1
  pub tracked : d.pending ≡ unsettled d.in_flight d.queue
  pub ascending : IsAscending 0 (unsettled d.in_flight d.queue) n
  pub attended : (is_empty d.queue || d.processing || d.scheduled) ≡ true
  pub in_process : (is_idle d.in_flight || d.processing) ≡ true
  pub waited_for : (has_none d.waiters || d.processing || d.scheduled) ≡ true

pub IsAscending-le : (lo : ℕ) (ns : List ℕ) (hi : ℕ) → IsAscending lo ns hi → lo ≤ hi
IsAscending-le lo [] hi h = h
IsAscending-le lo (n ∷ ns) hi (l, h) = omega (arith, IsAscending-le n ns hi h)

pub IsAscending-mono :
    (lo lo' : ℕ) (ns : List ℕ) (hi : ℕ) → lo ≤ lo' → IsAscending lo' ns hi → IsAscending lo ns hi
IsAscending-mono lo lo' [] hi l h = omega arith
IsAscending-mono lo lo' (n ∷ ns) hi l (m, h) = (omega arith, h)

-- Numbers above `m` are kept when `m` is deleted.
pub keep_above :
    (m lo : ℕ) (ns : List ℕ) (hi : ℕ) → m ≤ lo → IsAscending lo ns hi → keep (is_not m) ns ≡ ns
keep_above m lo [] hi l h = refl
keep_above m lo (n ∷ ns) hi l (above, h) = ground (arith, keep_above m n ns hi)

numbers-append :
    (lo : ℕ) (q : List Entry) (e : Entry) (n : ℕ)
    → IsAscending lo (numbers q) n
    → n < e.sequence
    → (numbers (q ++ e ∷ []) ≡ numbers q ++ e.sequence ∷ [])
      × IsAscending lo (numbers (q ++ e ∷ [])) e.sequence
numbers-append lo [] e n h l = ground arith
numbers-append lo (x ∷ xs) e n (a, h) l = ground (arith, numbers-append x.sequence xs e n h l)

-- What `take_out` finds, and leaves of a queue in order.
abbrev pub Taken : (Entry → Bool) → List Entry → (lo hi : ℕ) → Entry × List Entry → Type 0
Taken p q lo hi (x, rest) =
    (length q ≡ suc (length rest))
    × (p x ≡ true)
    × (lo < x.sequence)
    × (keep (is_not x.sequence) (numbers q) ≡ numbers rest)
    × IsAscending lo (numbers rest) hi

pub take_out-Taken :
    (p : Entry → Bool) (q : List Entry) (found : Entry × List Entry) (lo hi : ℕ)
    → take_out p q ≡ some found
    → IsAscending lo (numbers q) hi
    → Taken p q lo hi found
unfolding take_out
take_out-Taken p [] found lo hi e h = cc
take_out-Taken p (y ∷ ys) found lo hi e (above, h) = elim (Bool-cases (p y)) [
  | inl hit ↦
      let same : (y, ys) ≡ found = ground arith in
      subst (Taken p (y ∷ ys) lo hi) same (
        refl,
        hit,
        above,
        ground (arith, keep_above y.sequence y.sequence (numbers ys) hi),
        IsAscending-mono lo y.sequence (numbers ys) hi (omega arith) h,
      )
  | inr miss ↦ elim (Option-cases (take_out p ys)) [
    | inl nothing ↦ ground arith
    | inr (deep, f) ↦
        let (l, hit, later, kept, a) = take_out-Taken p ys deep y.sequence hi f h in
        let same : (deep.0, y ∷ deep.1) ≡ found = ground arith in
        subst (Taken p (y ∷ ys) lo hi) same
          (omega arith, hit, omega arith, ground arith, (above, a))
  ]
]

-- Waking up changes no record and leaves nobody unattended.
pub schedule-IsSound :
    (n : ℕ) (d : Dispatcher)
    → n ≤ d.sequence
    → length d.queue ≤ d.capacity + 1
    → d.pending ≡ unsettled d.in_flight d.queue
    → IsAscending 0 (unsettled d.in_flight d.queue) n
    → (is_idle d.in_flight || d.processing) ≡ true
    → (has_none d.waiters || not (is_empty d.queue) || d.processing || d.scheduled) ≡ true
    → IsSound n (schedule d)
unfolding schedule
schedule-IsSound n d m b t a p w =
    elim (Bool-cases (d.processing || d.scheduled || is_empty d.queue)) [
      | inl as_is ↦ rw as_is (record {
        numbered = m;
        bounded = b;
        tracked = t;
        ascending = a;
        attended = ground arith;
        in_process = p;
        waited_for = ground arith;
      })
      | inr woken ↦ rw woken (record {
        numbered = m;
        bounded = b;
        tracked = t;
        ascending = a;
        attended = ground arith;
        in_process = p;
        waited_for = ground arith;
      })
    ]

is_empty-append : (q : List Entry) (e : Entry) → is_empty (q ++ e ∷ []) ≡ false
is_empty-append [] e = refl
is_empty-append (x ∷ xs) e = refl

append-numbers :
    (n : ℕ) (e : Entry) (flying : Option Entry) (q : List Entry)
    → IsAscending 0 (unsettled flying q) n
    → n < e.sequence
    → (unsettled flying (q ++ e ∷ []) ≡ unsettled flying q ++ e.sequence ∷ [])
      × IsAscending 0 (unsettled flying (q ++ e ∷ [])) e.sequence
append-numbers n e none q a l = numbers-append 0 q e n a l
append-numbers n e (some f) q (z, a) l =
    let (same, up) = numbers-append f.sequence q e n a l in
    (ap (λ (ns : List ℕ). f.sequence ∷ ns) same, (z, up))

pub append-IsSound :
    (n : ℕ) (e : Entry) (d : Dispatcher)
    → IsSound n d
    → n < e.sequence
    → e.sequence ≤ d.sequence
    → length d.queue ≤ d.capacity
    → IsSound e.sequence (append e d)
unfolding append
append-IsSound n e d s l m room =
    let (same, up) = append-numbers n e d.in_flight d.queue s.ascending l in
    schedule-IsSound e.sequence
      (record d { queue = d.queue ++ e ∷ []; pending = d.pending ++ e.sequence ∷ [] }) m
      (omega (arith, length-append {0} d.queue (e ∷ []))) (rw s.tracked (sym same)) up s.in_process
      (ground (arith, is_empty-append d.queue e))

-- Counting a drop, and reporting it, leaves the records alone.
pub report_drops-IsSound :
    (n : ℕ) (force : Bool) (now : ℕ) (d : Dispatcher)
    → IsSound n d
    → IsSound n (report_drops force now d)
unfolding report_drops
report_drops-IsSound n force now d s =
    elim (Bool-cases (total d.dropped == d.last_fallback_count)) [
      | inl told ↦ rw told s
      | inr untold ↦
          elim (Bool-cases
            (not force && not (d.last_fallback_count == 0) && is_recent d.last_fallback_at now)) [
              | inl recent ↦ rw (untold, recent) s
              | inr due ↦
                  rw (untold, due)
                    (record {
                      numbered = s.numbered;
                      bounded = s.bounded;
                      tracked = s.tracked;
                      ascending = s.ascending;
                      attended = s.attended;
                      in_process = s.in_process;
                      waited_for = s.waited_for;
                    })
            ]
    ]

pub report_drops_room :
    (force : Bool) (now : ℕ) (d : Dispatcher)
    → ((report_drops force now d).queue ≡ d.queue)
      × ((report_drops force now d).capacity ≡ d.capacity)
      × ((report_drops force now d).sequence ≡ d.sequence)
unfolding report_drops
report_drops_room force now d = elim (Bool-cases (total d.dropped == d.last_fallback_count)) [
  | inl told ↦ rw told (refl, refl, refl)
  | inr untold ↦
      elim (Bool-cases
        (not force && not (d.last_fallback_count == 0) && is_recent d.last_fallback_at now)) [
          | inl recent ↦ rw (untold, recent) (refl, refl, refl)
          | inr due ↦ rw (untold, due) (refl, refl, refl)
        ]
]

pub note_drop-IsSound :
    (n : ℕ) (control : Bool) (severity : Severity) (now : ℕ) (d : Dispatcher)
    → IsSound n d
    → IsSound n (note_drop_unless control severity now d)
unfolding note_drop
note_drop-IsSound n true severity now d s = s
note_drop-IsSound n false severity now d s =
    report_drops-IsSound n false now (counted_drop severity d) (record {
      numbered = s.numbered;
      bounded = s.bounded;
      tracked = s.tracked;
      ascending = s.ascending;
      attended = s.attended;
      in_process = s.in_process;
      waited_for = s.waited_for;
    })

pub note_drop_room :
    (control : Bool) (severity : Severity) (now : ℕ) (d : Dispatcher)
    → ((note_drop_unless control severity now d).queue ≡ d.queue)
      × ((note_drop_unless control severity now d).capacity ≡ d.capacity)
      × ((note_drop_unless control severity now d).sequence ≡ d.sequence)
unfolding note_drop
note_drop_room true severity now d = (refl, refl, refl)
note_drop_room false severity now d = report_drops_room false now (counted_drop severity d)
