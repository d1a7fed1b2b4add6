-- ===== src/Mutation/Resolver/Audit.antt =====
-- What CommandStateResolver.reconcile does to the transition logs, also where it throws.
use plus_one.Common.{
  any, ◌≡◌, refl, true, String, ℕ, zero, suc, ltb, ◌&&◌, Bool-cases, Option-cases, arith, inl, inr,
}
use plus_one.Common.Effects.{done, threw, after, Outcome}
use plus_one.Task.{is, TaskStatus, is_allowed_transition}
use plus_one.Storage.{Db, TaskRow, task_row}
use plus_one.Ledger.{Transition, transition}
use plus_one.Ledger.Log.{IsLogged, transition-IsLogged}
use plus_one.Mutation.Commands.{
  Books, Command, CommandStatus, registered, execution_pending, committed, readback_verified,
  execution_failed, readback_failed, find_by_command_id,
}
use plus_one.Mutation.Commands.Moves.{waits, update_waiting}
use plus_one.Mutation.Resolver.{
  Gaps, find_again, or_again, move_task, catch_up, recovery_of, settled_of, hand_back, settle,
  reconcile_once, reconcile_from, reconcile, is_retried, Thrown,
}

-- Every recovery is a transition that the state machine allows.
recovery_is_allowed :
    (status : CommandStatus) (c : Command)
    → is_allowed_transition (recovery_of status c).expected_from (recovery_of status c).to ≡ true
recovery_is_allowed registered c = refl
recovery_is_allowed execution_pending c = refl
recovery_is_allowed committed c = refl
recovery_is_allowed readback_verified c = refl
recovery_is_allowed execution_failed c = refl
recovery_is_allowed readback_failed c = refl

transition_throws :
    (input : Transition) (db t : Db) (e : Thrown) → transition input db ≡ threw e t → t ≡ db
unfolding transition
transition_throws input db t e h = ground arith

move_task-IsLogged :
    (input : Transition) (books : Books)
    → is_allowed_transition input.expected_from input.to ≡ true
    → IsLogged books.ledger
    → IsLogged (after (move_task input books)).ledger
move_task-IsLogged input books a l = go (transition input books.ledger) refl
  where
    go :
        (o : Outcome Db TaskRow)
        → transition input books.ledger ≡ o
        → IsLogged
            (after {S = Books} {A = Unit {0}} (elim o [
              | done _ next ↦ done tt (record books { ledger = next })
              | threw e next ↦ threw e (record books { ledger = next })
            ])).ledger
    go (done row next) q = transition-IsLogged input books.ledger next row a l q
    go (threw e next) q = rw (transition_throws input books.ledger next e q) l

catch_up-IsLogged :
    (s : TaskStatus) (status : CommandStatus) (c : Command) (books : Books)
    → IsLogged books.ledger
    → IsLogged (after (catch_up s (recovery_of status c) (settled_of status) books)).ledger
unfolding catch_up
catch_up-IsLogged s status c books l =
    let m = move_task-IsLogged (recovery_of status c) books (recovery_is_allowed status c) l in
    elim (Bool-cases (is s (recovery_of status c).expected_from)) [
      | inl due ↦ rw (due, catch_up) m
      | inr late ↦ elim (Bool-cases (any (is s) (settled_of status))) [
        | inl settled ↦ rw (late, settled, catch_up) l
        | inr unsettled ↦ rw (late, unsettled, catch_up) l
      ]
    ]

find_again_books : (h id : String) (books : Books) → after (find_again h id books) ≡ books
find_again_books h id books = elim (Option-cases (find_by_command_id h id books)) [
  | inl missing ↦ ground arith
  | inr (c, found) ↦ ground arith
]

-- What other processes commit keeps the logs unbroken.
record KeepsLogs (g : Gaps) : Type 0 where
  before : (b : Books) → IsLogged b.ledger → IsLogged (g.before b).ledger
  after_command : (b : Books) → IsLogged b.ledger → IsLogged (g.after_command b).ledger
  after_task : (b : Books) → IsLogged b.ledger → IsLogged (g.after_task b).ledger
  after_move : (b : Books) → IsLogged b.ledger → IsLogged (g.after_move b).ledger
  after_mark : (b : Books) → IsLogged b.ledger → IsLogged (g.after_mark b).ledger

module _ (g : Gaps) (keep : KeepsLogs g) where
  hand_back-IsLogged :
      (status : CommandStatus) (h id : String) (c : Command) (books : Books)
      → IsLogged books.ledger
      → IsLogged (after (hand_back g status h id c books)).ledger
  unfolding hand_back update_waiting
  hand_back-IsLogged registered h id c books l =
      let start = g.after_move books in
      let moved = keep.after_move books l in
      elim (Bool-cases (any (waits h id registered) start.commands)) [
        | inl waiting ↦
            rw (waiting, update_waiting, hand_back)
              (rw (find_again_books h id _) (keep.after_mark _ moved))
        | inr gone ↦ rw (gone, update_waiting, hand_back) moved
      ]
  hand_back-IsLogged execution_pending h id c books l = l
  hand_back-IsLogged committed h id c books l = l
  hand_back-IsLogged readback_verified h id c books l = l
  hand_back-IsLogged execution_failed h id c books l = l
  hand_back-IsLogged readback_failed h id c books l = l

  settle-IsLogged :
      (status : CommandStatus) (h id : String) (c : Command) (s : TaskStatus) (books : Books)
      → IsLogged books.ledger
      → IsLogged (after (settle g status h id c s books)).ledger
  unfolding settle
  settle-IsLogged status h id c s books l =
      go (catch_up s (recovery_of status c) (settled_of status) books)
        (catch_up-IsLogged s status c books l)
    where
      go :
          (o : Outcome Books (Unit {0}))
          → IsLogged (after o).ledger
          → IsLogged
              (after {S = Books} {A = Command} (elim o [
                | threw e next ↦ threw e next
                | done _ next ↦ hand_back g status h id c next
              ])).ledger
      go (done _ next) k = hand_back-IsLogged status h id c next k
      go (threw e next) k = k

  reconcile_once-IsLogged :
      (h id : String) (books : Books)
      → IsLogged books.ledger
      → IsLogged (after (reconcile_once g h id books)).ledger
  unfolding reconcile_once
  reconcile_once-IsLogged h id books l =
      let read = g.after_command books in
      let kept = keep.after_command books l in
      elim (Option-cases (find_by_command_id h id books)) [
        | inl missing ↦ rw (missing, reconcile_once) l
        | inr (c, found) ↦ elim (Option-cases (task_row h c.envelope.task_id read.ledger)) [
          | inl gone ↦ rw (found, gone, reconcile_once) kept
          | inr (task, here) ↦
              rw (found, here, reconcile_once)
                (settle-IsLogged c.status h id c task.status (g.after_task read)
                  (keep.after_task read kept))
        ]
      ]

or_again-IsLogged :
    (attempt : ℕ) (tried rest : Outcome Books Command)
    → IsLogged (after tried).ledger
    → IsLogged (after rest).ledger
    → IsLogged (after (or_again attempt tried rest)).ledger
unfolding or_again
or_again-IsLogged attempt (done c a) rest l m = l
or_again-IsLogged attempt (threw e a) rest l m = elim (Bool-cases (is_retried e && ltb attempt 3)) [
  | inl again ↦ rw (again, or_again) m
  | inr given_up ↦ rw (given_up, or_again) l
]

module _ (others : ℕ → Gaps) (keep : (n : ℕ) → KeepsLogs (others n)) (h id : String) where
  reconcile_from-IsLogged :
      (attempt left : ℕ) (books : Books)
      → IsLogged books.ledger
      → IsLogged (after (reconcile_from others attempt left h id books)).ledger
  unfolding reconcile_from
  reconcile_from-IsLogged attempt zero books l = l
  reconcile_from-IsLogged attempt (suc left) books l =
      let start = (others attempt).before books in
      let tried = reconcile_once (others attempt) h id start in
      let logged =
        reconcile_once-IsLogged (others attempt) (keep attempt) h id start
          ((keep attempt).before books l) in
      or_again-IsLogged attempt tried _ logged
        (reconcile_from-IsLogged (suc attempt) left (after tried) logged)

  -- Whether `reconcile` returns or throws, each task's log remains an unbroken chain of allowed
  -- transitions that ends at the status of the task, if the other processes keep it so.
  reconcile-IsLogged :
      (books : Books)
      → IsLogged books.ledger
      → IsLogged (after (reconcile others h id books)).ledger
  unfolding reconcile
  reconcile-IsLogged books l = reconcile_from-IsLogged 1 3 books l
