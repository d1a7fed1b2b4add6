-- ===== src/Mutation/Resolver/Agreement.antt =====
-- After CommandStateResolver.reconcile, a command and its task agree.
use plus_one.Common.{
  sym, ap, ◌∙◌, Bool-cases, ◌≡◌, refl, true, String, some, find, any, arith, List, [], ◌∷◌, inl,
  inr, map, if◌then◌else◌, ◌⊎◌, Bool-cases, false, find-hit, Option-cases, eq_iff,
}
use plus_one.Common.Effects.{done, threw, Outcome}
use plus_one.Task.{TaskStatus, is, is_iff}
use plus_one.Storage.{Db, TaskRow, task_row, Db}
use plus_one.Storage.Rows.{find-update_rows_self}
use plus_one.Ledger.{Transition, transition, moved_row}
use plus_one.Ledger.Log.{transition-inv}
use plus_one.Mutation.Commands.{
  Books, Command, CommandStatus, registered, execution_pending, committed, readback_verified,
  execution_failed, readback_failed, find_by_command_id, has_command_id, is_status,
}
use plus_one.Mutation.Commands.Moves.{
  mark_execution_pending, waits, pending_command, update_waiting,
}
use plus_one.Mutation.Resolver.{
  Gaps, find_again, catch_up, move_task, hand_back, recovery_of, settled_of, reconcile_once, settle,
}

-- The task statuses that fit a status of the command, once it is reconciled.
abbrev pub Agrees : CommandStatus → TaskStatus → Type 0
Agrees registered s = ⊥
Agrees execution_pending s = s ≡ TaskStatus.execution_pending
Agrees committed s = s ≡ TaskStatus.committed
Agrees readback_verified s = (s ≡ TaskStatus.readback_verified) ⊎ (s ≡ TaskStatus.verified)
Agrees execution_failed s = s ≡ TaskStatus.execution_failed
Agrees readback_failed s = s ≡ TaskStatus.readback_failed

-- The command is stored as `c`, and its task is there in a status that fits.
abbrev pub IsReconciled : String → String → Command → Books → Type 0
IsReconciled h id c books =
    (find_by_command_id h id books ≡ some c)
    × ((task : TaskRow) × (task_row h c.envelope.task_id books.ledger ≡ some task)
        × Agrees c.status task.status)

pub move_task-inv :
    (input : Transition) (books after : Books)
    → move_task input books ≡ done tt after
    → (row : TaskRow) × (a : Db) × (transition input books.ledger ≡ done row a)
      × (after ≡ record books { ledger = a })
move_task-inv input books after e = go (transition input books.ledger) refl e
  where
    go :
        (o : Outcome Db TaskRow)
        → transition input books.ledger ≡ o
        → ◌≡◌ {A = Outcome Books (Unit {0})}
            (elim o [
              | done _ a ↦ done tt (record books { ledger = a })
              | threw x a ↦ threw x (record books { ledger = a })
            ])
            (done tt after)
        → (row : TaskRow) × (a : Db) × (transition input books.ledger ≡ done row a)
          × (after ≡ record books { ledger = a })
    go (done row a) q g = (row, a, q, ground arith)
    go (threw x a) q g = ground arith

-- A task that was moved is there, with the status that it was moved to.
move_task-task :
    (input : Transition) (books after : Books)
    → move_task input books ≡ done tt after
    → (after.commands ≡ books.commands)
      × ((task : TaskRow) × (task_row input.household_id input.task_id after.ledger ≡ some task)
          × (task.status ≡ input.to))
move_task-task input books after e =
    let (row, a, moved, same) = move_task-inv input books after e in
    let (old, found, _, _, wrote) = transition-inv input books.ledger a row moved in
    let hit =
      find-update_rows_self input.household_id input.task_id (moved_row input) books.ledger.tasks
        old (λ r. (refl, refl)) found in
    rw same (refl, (moved_row input old, rw wrote hit, refl))

-- Where a task stands after `catch_up`.
pub catch_up-task :
    (task : TaskRow) (input : Transition) (settled : List TaskStatus) (books after : Books)
    → task_row input.household_id input.task_id books.ledger ≡ some task
    → catch_up task.status input settled books ≡ done tt after
    → (after.commands ≡ books.commands)
      × ((moved : TaskRow) × (task_row input.household_id input.task_id after.ledger ≡ some moved)
          × ((moved.status ≡ input.to) ⊎ (any (is moved.status) settled ≡ true)))
unfolding catch_up
catch_up-task task input settled books after found e =
    elim (Bool-cases (is task.status input.expected_from)) [
      | inl due ↦
          let (same, (moved, here, to)) = move_task-task input books after (ground arith) in
          (same, (moved, here, inl to))
      | inr late ↦ (ground arith, (task, ground arith, inr (ground arith)))
    ]

-- The same, for a recovery of the task `t` of household `h`.
pub catch_up-task_at :
    (h t : String) (task : TaskRow) (input : Transition) (settled : List TaskStatus)
    (books after : Books)
    → input.household_id ≡ h
    → input.task_id ≡ t
    → task_row h t books.ledger ≡ some task
    → catch_up task.status input settled books ≡ done tt after
    → (after.commands ≡ books.commands)
      × ((moved : TaskRow) × (task_row h t after.ledger ≡ some moved)
          × ((moved.status ≡ input.to) ⊎ (any (is moved.status) settled ≡ true)))
catch_up-task_at h t task input settled books after eh et found e =
    let (same, (moved, here, how)) =
      catch_up-task task input settled books after (rw (eh, et) found) e in
    (same, (moved, rw (sym eh, sym et) here, how))

find-pending :
    (h id : String) (cs : List Command) (c : Command)
    → find (has_command_id h id) cs ≡ some c
    → c.status ≡ registered
    → find
        (has_command_id h id)
        (map (λ d. if waits h id registered d then pending_command d else d) cs)
      ≡ some (pending_command c)
find-pending h id [] c f s = cc
find-pending h id (d ∷ ds) c f s = ground (arith, find-pending h id ds c)

-- A status that `catch_up` leaves fits every command but a registered one.
pub moved-Agrees :
    (status : CommandStatus) (c : Command) (s : TaskStatus)
    → is_status status registered ≡ false
    → (s ≡ (recovery_of status c).to) ⊎ (any (is s) (settled_of status) ≡ true)
    → Agrees status s
moved-Agrees registered c s n h = ground arith
moved-Agrees execution_pending c s n h = ground (arith, is_iff s TaskStatus.execution_pending)
moved-Agrees committed c s n h = ground (arith, is_iff s TaskStatus.committed)
moved-Agrees readback_verified c s n h =
    ground (arith, is_iff s TaskStatus.readback_verified, is_iff s TaskStatus.verified)
moved-Agrees execution_failed c s n h = ground (arith, is_iff s TaskStatus.execution_failed)
moved-Agrees readback_failed c s n h = ground (arith, is_iff s TaskStatus.readback_failed)

-- What other processes do neither changes the command nor a task of its household.
pub record IsAside (h id : String) (f : Books → Books) : Type 0 where
  pub command : (b : Books) → find_by_command_id h id (f b) ≡ find_by_command_id h id b
  pub task : (t : String) (b : Books) → task_row h t (f b).ledger ≡ task_row h t b.ledger

-- The same of all that they do during an attempt.
pub record IsQuiet (h id : String) (g : Gaps) : Type 0 where
  pub command_read : IsAside h id g.after_command
  pub task_read : IsAside h id g.after_task
  pub moved : IsAside h id g.after_move
  pub marked : IsAside h id g.after_mark

mark-registered :
    (h id : String) (c : Command) (books after : Books)
    → find_by_command_id h id books ≡ some c
    → c.status ≡ registered
    → mark_execution_pending h id books ≡ done tt after
    → (find_by_command_id h id after ≡ some (pending_command c)) × (after.ledger ≡ books.ledger)
unfolding update_waiting
mark-registered h id c books after f s e =
    let hit = find-pending h id books.commands c f s in
    elim (Bool-cases (any (waits h id registered) books.commands)) [
      | inl waiting ↦ ground arith
      | inr gone ↦ ground arith
    ]

pub hand_back-registered :
    (g : Gaps) (h id : String) (c d : Command) (books after : Books)
    → IsQuiet h id g
    → find_by_command_id h id books ≡ some c
    → c.status ≡ registered
    → hand_back g registered h id c books ≡ done d after
    → (d ≡ pending_command c)
      × (find_by_command_id h id after ≡ some d)
      × ((t : String) → task_row h t after.ledger ≡ task_row h t books.ledger)
unfolding hand_back
hand_back-registered g h id c d books after q f s e =
    go (mark_execution_pending h id (g.after_move books)) refl e
  where
    go :
        (o : Outcome Books (Unit {0}))
        → mark_execution_pending h id (g.after_move books) ≡ o
        → ◌≡◌ {A = Outcome Books Command}
            (elim o [ threw x mid ↦ threw x mid | done _ mid ↦ find_again h id (g.after_mark mid) ])
            (done d after)
        → (d ≡ pending_command c)
          × (find_by_command_id h id after ≡ some d)
          × ((t : String) → task_row h t after.ledger ≡ task_row h t books.ledger)
    go (done x mid) m k =
        let (pending, same) =
          mark-registered h id c (g.after_move books) mid (q.moved.command books ∙ f) s m in
        let here : find_by_command_id h id (g.after_mark mid) ≡ some (pending_command c) =
          q.marked.command mid ∙ pending in
        let last : (d ≡ pending_command c) × (g.after_mark mid ≡ after) = ground arith in
        (
          last.0,
          ap (find_by_command_id h id) (sym last.1) ∙ here ∙ ap some (sym last.0),
          λ t.
              ap (λ (b : Books). task_row h t b.ledger) (sym last.1)
              ∙ q.marked.task t mid
              ∙ ap (task_row h t) same
              ∙ q.moved.task t books,
        )
    go (threw x mid) m k = ground arith

pub hand_back-other :
    (g : Gaps) (status : CommandStatus) (h id : String) (c d : Command) (books after : Books)
    → is_status status registered ≡ false
    → hand_back g status h id c books ≡ done d after
    → (d ≡ c) × (after ≡ books)
unfolding hand_back
hand_back-other g registered h id c d books after n e = ground arith
hand_back-other g execution_pending h id c d books after n e = ground arith
hand_back-other g committed h id c d books after n e = ground arith
hand_back-other g readback_verified h id c d books after n e = ground arith
hand_back-other g execution_failed h id c d books after n e = ground arith
hand_back-other g readback_failed h id c d books after n e = ground arith

-- A command that is found has the identifier that was asked for.
pub find_by_command_id-key :
    (h id : String) (c : Command) (books : Books)
    → find_by_command_id h id books ≡ some c
    → c.envelope.household_id ≡ h
find_by_command_id-key h id c books f =
    let hit = find-hit (has_command_id h id) books.commands c f in
    ground (arith, eq_iff c.envelope.household_id h)

pub reconcile_once-inv :
    (g : Gaps) (h id : String) (d : Command) (books after : Books)
    → reconcile_once g h id books ≡ done d after
    → (c : Command) × (task : TaskRow) × (find_by_command_id h id books ≡ some c)
      × (task_row h c.envelope.task_id (g.after_command books).ledger ≡ some task)
      × (settle g c.status h id c task.status (g.after_task (g.after_command books)) ≡ done d after)
unfolding reconcile_once
reconcile_once-inv g h id d books after e = elim (Option-cases (find_by_command_id h id books)) [
  | inl missing ↦ ground arith
  | inr (c, found) ↦
      elim (Option-cases (task_row h c.envelope.task_id (g.after_command books).ledger)) [
        | inl gone ↦ ground arith
        | inr (task, here) ↦ (c, task, found, here, ground arith)
      ]
]

pub settle-inv :
    (g : Gaps) (status : CommandStatus) (h id : String) (c d : Command) (s : TaskStatus)
    (books after : Books)
    → settle g status h id c s books ≡ done d after
    → (mid : Books) × (catch_up s (recovery_of status c) (settled_of status) books ≡ done tt mid)
      × (hand_back g status h id c mid ≡ done d after)
unfolding settle
settle-inv g status h id c d s books after e =
    go (catch_up s (recovery_of status c) (settled_of status) books) refl e
  where
    go :
        (o : Outcome Books (Unit {0}))
        → catch_up s (recovery_of status c) (settled_of status) books ≡ o
        → ◌≡◌ {A = Outcome Books Command}
            (elim o [ threw x mid ↦ threw x mid | done _ mid ↦ hand_back g status h id c mid ])
            (done d after)
        → (mid : Books) × (catch_up s (recovery_of status c) (settled_of status) books
            ≡ done tt mid)
          × (hand_back g status h id c mid ≡ done d after)
    go (done _ mid) q g = (mid, q, g)
    go (threw x mid) q g = ground arith
