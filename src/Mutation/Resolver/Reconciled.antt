-- ===== src/Mutation/Resolver/Reconciled.antt =====
-- What CommandStateResolver.reconcile returns.
use plus_one.Common.{
  zero, ◌⊎◌, any, ◌∙◌, ◌≡◌, refl, true, String, some, arith, inl, inr, ◌⊎◌, any, false, ℕ, suc,
}
use plus_one.Common.Effects.{after, done, after, Outcome, threw}
use plus_one.Task.{is, is_iff, TaskStatus, is_iff}
use plus_one.Storage.{TaskRow, task_row}
use plus_one.Mutation.Commands.{
  Books, Command, CommandStatus, is_status, registered, execution_pending, committed,
  readback_verified, execution_failed, readback_failed, find_by_command_id,
}
use plus_one.Mutation.Resolver.{
  Gaps, or_again, recovery_of, settled_of, settle, is, hand_back, reconcile, reconcile_from,
  reconcile_once,
}
use plus_one.Mutation.Resolver.Agreement.{
  Agrees, IsReconciled, IsQuiet, catch_up-task_at, find_by_command_id-key, settle-inv,
  hand_back-other, hand_back-registered, moved-Agrees, reconcile_once-inv,
}

recovery_of-key :
    (status : CommandStatus) (c : Command)
    → ((recovery_of status c).household_id ≡ c.envelope.household_id)
      × ((recovery_of status c).task_id ≡ c.envelope.task_id)
recovery_of-key registered c = (refl, refl)
recovery_of-key execution_pending c = (refl, refl)
recovery_of-key committed c = (refl, refl)
recovery_of-key readback_verified c = (refl, refl)
recovery_of-key execution_failed c = (refl, refl)
recovery_of-key readback_failed c = (refl, refl)

-- A task that was moved for a registered command waits for the execution.
registered_moved :
    (c : Command) (s : TaskStatus)
    → (s ≡ (recovery_of registered c).to) ⊎ (any (is s) (settled_of registered) ≡ true)
    → Agrees execution_pending s
registered_moved c s h = ground (arith, is_iff s TaskStatus.execution_pending)

-- Where the command and its task stand after the task's move.
caught_up :
    (g : Gaps) (status : CommandStatus) (h id : String) (c d : Command) (task : TaskRow)
    (books after : Books)
    → find_by_command_id h id books ≡ some c
    → task_row h c.envelope.task_id books.ledger ≡ some task
    → settle g status h id c task.status books ≡ done d after
    → (mid : Books) × (hand_back g status h id c mid ≡ done d after)
      × (find_by_command_id h id mid ≡ some c)
      × ((moved : TaskRow) × (task_row h c.envelope.task_id mid.ledger ≡ some moved)
          × ((moved.status ≡ (recovery_of status c).to)
              ⊎ (any (is moved.status) (settled_of status) ≡ true)))
caught_up g status h id c d task books after f here e =
    let (mid, caught, back) = settle-inv g status h id c d task.status books after e in
    let (kh, kt) = recovery_of-key status c in
    let (same, rest) =
      catch_up-task_at h c.envelope.task_id task (recovery_of status c) (settled_of status) books
        mid (kh ∙ find_by_command_id-key h id c books f) kt here caught in
    (mid, back, rw same f, rest)

-- An attempt settles a command of this status.
abbrev Settles : CommandStatus → Type 0
Settles status =
    (g : Gaps) (h id : String) (c d : Command) (task : TaskRow) (books after : Books)
    → IsQuiet h id g
    → c.status ≡ status
    → find_by_command_id h id books ≡ some c
    → task_row h c.envelope.task_id books.ledger ≡ some task
    → settle g status h id c task.status books ≡ done d after
    → IsReconciled h id d after

settle-registered : Settles registered
settle-registered g h id c d task books after q s f here e =
    let (mid, back, still, (moved, there, fits)) =
      caught_up g registered h id c d task books after f here e in
    let (pending, found, kept) = hand_back-registered g h id c d mid after q still s back in
    (
      found,
      (
        moved,
        rw pending (kept c.envelope.task_id ∙ there),
        rw pending (registered_moved c moved.status fits),
      ),
    )

settle-other : (status : CommandStatus) → is_status status registered ≡ false → Settles status
settle-other status n g h id c d task books after q s f here e =
    let (mid, back, still, (moved, there, fits)) =
      caught_up g status h id c d task books after f here e in
    let (unchanged, kept) = hand_back-other g status h id c d mid after n back in
    rw (unchanged, kept) (still, (moved, there, rw s (moved-Agrees status c moved.status n fits)))

settle-IsReconciled : (status : CommandStatus) → Settles status
settle-IsReconciled registered = settle-registered
settle-IsReconciled execution_pending = settle-other execution_pending refl
settle-IsReconciled committed = settle-other committed refl
settle-IsReconciled readback_verified = settle-other readback_verified refl
settle-IsReconciled execution_failed = settle-other execution_failed refl
settle-IsReconciled readback_failed = settle-other readback_failed refl

reconcile_once-IsReconciled :
    (g : Gaps) (h id : String) (d : Command) (books after : Books)
    → IsQuiet h id g
    → reconcile_once g h id books ≡ done d after
    → IsReconciled h id d after
reconcile_once-IsReconciled g h id d books after q e =
    let (c, task, found, here, settled) = reconcile_once-inv g h id d books after e in
    let read = g.after_command books in
    settle-IsReconciled c.status g h id c d task (g.after_task read) after q refl
      (q.task_read.command read ∙ q.command_read.command books ∙ found)
      (q.task_read.task c.envelope.task_id read ∙ here) settled

or_again-done :
    (attempt : ℕ) (tried rest : Outcome Books Command) (d : Command) (next : Books)
    → or_again attempt tried rest ≡ done d next
    → (tried ≡ done d next) ⊎ (rest ≡ done d next)
unfolding or_again
or_again-done attempt (done c a) rest d next e = inl e
or_again-done attempt (threw x a) rest d next e = ground arith

reconcile_from-IsReconciled :
    (others : ℕ → Gaps) (attempt left : ℕ) (h id : String) (d : Command) (books next : Books)
    → ((n : ℕ) → IsQuiet h id (others n))
    → reconcile_from others attempt left h id books ≡ done d next
    → IsReconciled h id d next
unfolding reconcile_from
reconcile_from-IsReconciled others attempt zero h id d books next q e = ground arith
reconcile_from-IsReconciled others attempt (suc left) h id d books next q e =
    let start = (others attempt).before books in
    let tried = reconcile_once (others attempt) h id start in
    let rest = reconcile_from others (suc attempt) left h id (after tried) in
    elim (or_again-done attempt tried rest d next e) [
      | inl now ↦ reconcile_once-IsReconciled (others attempt) h id d start next (q attempt) now
      | inr later ↦
          reconcile_from-IsReconciled others (suc attempt) left h id d (after tried) next q later
    ]

-- Where no other process changes the command or a task of its household between the calls of an
-- attempt, whatever else they commit then and whatever they commit before each attempt, a command
-- that `reconcile` returns is the stored one, it is not left `registered`, and its task is there in
-- the status that fits it.
pub reconcile-IsReconciled :
    (others : ℕ → Gaps) (h id : String) (d : Command) (books next : Books)
    → ((n : ℕ) → IsQuiet h id (others n))
    → reconcile others h id books ≡ done d next
    → IsReconciled h id d next
unfolding reconcile
reconcile-IsReconciled others h id d books next q e =
    reconcile_from-IsReconciled others 1 3 h id d books next q e
