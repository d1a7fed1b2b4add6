-- ===== src/Ledger/Log.antt =====
-- The transition log of a task: an unbroken chain of allowed transitions from `created` to the
-- status that the task has now.
use plus_one.Common.{
  ◌≡◌, refl, ap, ◌∙◌, inl, inr, String, true, List, [], ◌∷◌, some, none, arith, keep, suc, ℕ, max,
  str_eq, eq_iff, ◌&&◌, false, Option-cases, Bool-cases, Option, any, find,
}
use plus_one.Task.{TaskStatus, created, is_allowed_transition, is_iff}
use plus_one.Storage.Rows.{KeepsKey, find-update_rows_self, find-update_rows_ne}
use plus_one.Storage.{Db, TransitionRow, TaskRow, is_logged, task_row}
use plus_one.Ledger.{
  max_sequence, Transition, transition, done, log_row, moved_row, update_rows, NewTask, create_task,
  is_task, new_row, created_log,
}

abbrev pub log_of : String → String → List TransitionRow → List TransitionRow
log_of h t = keep (is_logged h t)

-- `rows`, newest first, lead from `created` to `status` by allowed transitions, numbered from 1.
abbrev pub IsLog : TaskStatus → List TransitionRow → Type 0
IsLog status [] = ⊥
IsLog status (row ∷ []) =
    (row.from_status ≡ none) × (row.to_status ≡ created) × (status ≡ created) × (row.sequence ≡ 1)
IsLog status (row ∷ before ∷ rows) =
    (row.from_status ≡ some before.to_status)
    × (row.to_status ≡ status)
    × (is_allowed_transition before.to_status status ≡ true)
    × (row.sequence ≡ suc before.sequence)
    × IsLog before.to_status (before ∷ rows)

-- The log of a task that is there fits its status; of any other task there is no log.
abbrev pub Fits : Option TaskStatus → List TransitionRow → Type 0
Fits none rows = rows ≡ []
Fits (some status) rows = IsLog status rows

abbrev pub status_of : Option TaskRow → Option TaskStatus
status_of none = none
status_of (some row) = some row.status

abbrev pub IsLogged : Db → Type 0
IsLogged db = (h t : String) → Fits (status_of (task_row h t db)) (log_of h t db.transitions)

top : List TransitionRow → ℕ
top [] = 0
top (r ∷ rows) = max r.sequence (top rows)

max_sequence-top :
    (h t : String) (rows : List TransitionRow) → max_sequence h t rows ≡ top (log_of h t rows)
unfolding top
max_sequence-top h t [] = refl
max_sequence-top h t (r ∷ rows) = ground (arith, max_sequence-top h t rows)

top-IsLog :
    (status : TaskStatus) (r : TransitionRow) (rows : List TransitionRow)
    → IsLog status (r ∷ rows)
    → top (r ∷ rows) ≡ r.sequence
unfolding top
top-IsLog status r [] l = ground arith
top-IsLog status r (before ∷ rows) l =
    omega (arith, l.3, top-IsLog before.to_status before rows l.4)

IsLog-to_status :
    (status : TaskStatus) (r : TransitionRow) (rows : List TransitionRow)
    → IsLog status (r ∷ rows)
    → r.to_status ≡ status
IsLog-to_status status r [] l = cc
IsLog-to_status status r (before ∷ rows) l = l.1

-- One more row, numbered after the highest number and starting at the present status.
IsLog-cons :
    (from to : TaskStatus) (new : TransitionRow) (rows : List TransitionRow)
    → IsLog from rows
    → is_allowed_transition from to ≡ true
    → new.from_status ≡ some from
    → new.to_status ≡ to
    → new.sequence ≡ suc (top rows)
    → IsLog to (new ∷ rows)
IsLog-cons from to new [] l a f t n = absurd l
IsLog-cons from to new (r ∷ rows) l a f t n =
    let last = IsLog-to_status from r rows l in
    (rw last f, t, rw last a, n ∙ ap suc (top-IsLog from r rows l), rw last l)

moved-KeepsKey : (input : Transition) → KeepsKey (moved_row input)
moved-KeepsKey input row = (refl, refl)

-- What `transition` found and wrote, where it returned.
pub transition-inv :
    (input : Transition) (db after : Db) (row : TaskRow)
    → transition input db ≡ done row after
    → (old : TaskRow) × (task_row input.household_id input.task_id db ≡ some old)
      × (old.status ≡ input.expected_from)
      × (row ≡ moved_row input old)
      × (after ≡ record db {
        tasks = update_rows input.household_id input.task_id (moved_row input) db.tasks;
        transitions = log_row input db ∷ db.transitions;
      })
unfolding transition
transition-inv input db after row e =
    elim (Option-cases (task_row input.household_id input.task_id db)) [
      | inl missing ↦ cc (rw (missing, transition) at e)
      | inr (old, found) ↦ (
        old,
        found,
        ground (arith, is_iff old.status input.expected_from),
        ground arith,
        ground arith,
      )
    ]

log_self :
    (input : Transition) (db : Db)
    → log_of input.household_id input.task_id (log_row input db ∷ db.transitions)
      ≡ log_row input db ∷ log_of input.household_id input.task_id db.transitions
log_self input db =
    ground (arith, eq_iff input.household_id input.household_id, eq_iff input.task_id input.task_id)

log-ne :
    (input : Transition) (h t : String) (db : Db)
    → (str_eq input.household_id h && str_eq input.task_id t) ≡ false
    → log_of h t (log_row input db ∷ db.transitions) ≡ log_of h t db.transitions
log-ne input h t db n = ground arith

-- The log of the moved task.
transition-IsLog :
    (input : Transition) (db : Db) (old : TaskRow)
    → is_allowed_transition input.expected_from input.to ≡ true
    → IsLogged db
    → task_row input.household_id input.task_id db ≡ some old
    → old.status ≡ input.expected_from
    → IsLog input.to (log_of input.household_id input.task_id (log_row input db ∷ db.transitions))
transition-IsLog input db old a logged found from =
    let fits : IsLog old.status (log_of input.household_id input.task_id db.transitions) =
      rw found at (logged input.household_id input.task_id) in
    rw (log_self input db) (
      IsLog-cons input.expected_from input.to (log_row input db) _ (rw (← from) fits) a refl refl
        (ap suc (max_sequence-top input.household_id input.task_id db.transitions)))

module _ (input : Transition) (db after : Db) (row : TaskRow) where
  -- An allowed transition keeps every task's log.
  pub transition-IsLogged :
      is_allowed_transition input.expected_from input.to ≡ true
      → IsLogged db
      → transition input db ≡ done row after
      → IsLogged after
  transition-IsLogged a logged e h t =
      let (old, was, from, _, wrote) = transition-inv input db after row e in
      elim (Bool-cases (str_eq input.household_id h && str_eq input.task_id t)) [
        | inl same ↦
            let eh : h ≡ input.household_id = ground (arith, eq_iff input.household_id h) in
            let et : t ≡ input.task_id = ground (arith, eq_iff input.task_id t) in
            rw (eh, et, wrote)
              (rw
                (find-update_rows_self _ _ (moved_row input) db.tasks old (moved-KeepsKey input)
                  was)
                (transition-IsLog input db old a logged was from))
        | inr other ↦ rw wrote (
            rw
              (
                find-update_rows_ne _ _ h t (moved_row input) db.tasks (moved-KeepsKey input) other,
                log-ne input h t db other,
              )
              (logged h t))
      ]

status_of-update_rows :
    (h t h' t' : String) (change : TaskRow → TaskRow) (rows : List TaskRow)
    → KeepsKey change
    → ((row : TaskRow) → (change row).status ≡ row.status)
    → status_of (find (is_task h' t') (update_rows h t change rows))
      ≡ status_of (find (is_task h' t') rows)
status_of-update_rows h t h' t' change [] k s = refl
status_of-update_rows h t h' t' change (r ∷ rows) k s =
    ground (arith, k r, s r, status_of-update_rows h t h' t' change rows k s)

-- A change of columns other than the key and the status keeps every log.
pub update_rows-IsLogged :
    (h t : String) (change : TaskRow → TaskRow) (db after : Db)
    → KeepsKey change
    → ((row : TaskRow) → (change row).status ≡ row.status)
    → after.tasks ≡ update_rows h t change db.tasks
    → after.transitions ≡ db.transitions
    → IsLogged db
    → IsLogged after
update_rows-IsLogged h t change db after k s tasks log logged h' t' =
    rw (tasks, log) (rw (status_of-update_rows h t h' t' change db.tasks k s) (logged h' t'))

find-none_of_fresh :
    (h t : String) (rows : List TaskRow)
    → any (λ row. str_eq row.task_id t) rows ≡ false
    → find (is_task h t) rows ≡ none
find-none_of_fresh h t [] n = refl
find-none_of_fresh h t (r ∷ rows) n = ground (arith, find-none_of_fresh h t rows)

create_task-inv :
    (input : NewTask) (db after : Db) (row : TaskRow)
    → create_task input db ≡ done row after
    → (any (λ old. str_eq old.task_id input.task_id) db.tasks ≡ false)
      × (after.tasks ≡ new_row input ∷ db.tasks)
      × (after.transitions ≡ created_log input ∷ db.transitions)
unfolding create_task
create_task-inv input db after row e = ground arith

module _ (input : NewTask) (db after : Db) (row : TaskRow) where
  pub create_task-IsLogged : IsLogged db → create_task input db ≡ done row after → IsLogged after
  create_task-IsLogged logged e h t =
      let (fresh, tasks, log) = create_task-inv input db after row e in
      elim (Bool-cases (str_eq input.household_id h && str_eq input.task_id t)) [
        | inl same ↦
            let eh : h ≡ input.household_id = ground (arith, eq_iff input.household_id h) in
            let et : t ≡ input.task_id = ground (arith, eq_iff input.task_id t) in
            let none_yet : task_row h t db ≡ none =
              rw et (find-none_of_fresh h input.task_id db.tasks fresh) in
            let empty : log_of h t db.transitions ≡ [] = rw none_yet at (logged h t) in
            rw (tasks, log) (rw same (rw empty (refl, refl, refl, refl)))
        | inr other ↦ rw (tasks, log) (rw other (logged h t))
      ]
