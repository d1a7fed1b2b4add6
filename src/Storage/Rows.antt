-- ===== src/Storage/Rows.antt =====
-- Finding a task after the rows of one task were updated.
use plus_one.Common.{
  ◌≡◌, refl, ◌&&◌, List, [], ◌∷◌, some, arith, find, str_eq, eq_iff, false, String,
}
use plus_one.Storage.{TaskRow, is_task, update_rows}

-- What an UPDATE of a task's columns leaves alone.
abbrev pub KeepsKey : (TaskRow → TaskRow) → Type 0
KeepsKey change =
    (row : TaskRow)
    → ((change row).household_id ≡ row.household_id) × ((change row).task_id ≡ row.task_id)

pub find-update_rows_self :
    (h t : String) (change : TaskRow → TaskRow) (rows : List TaskRow) (row : TaskRow)
    → KeepsKey change
    → find (is_task h t) rows ≡ some row
    → find (is_task h t) (update_rows h t change rows) ≡ some (change row)
find-update_rows_self h t change [] row k e = cc
find-update_rows_self h t change (r ∷ rows) row k e =
    ground (arith, k r, find-update_rows_self h t change rows row k)

pub find-update_rows_ne :
    (h t h' t' : String) (change : TaskRow → TaskRow) (rows : List TaskRow)
    → KeepsKey change
    → (str_eq h h' && str_eq t t') ≡ false
    → find (is_task h' t') (update_rows h t change rows) ≡ find (is_task h' t') rows
find-update_rows_ne h t h' t' change [] k n = refl
find-update_rows_ne h t h' t' change (r ∷ rows) k n = ground (
  arith,
  k r,
  find-update_rows_ne h t h' t' change rows k n,
  eq_iff h h',
  eq_iff t t',
  eq_iff r.household_id h,
  eq_iff r.household_id h',
  eq_iff r.task_id t,
  eq_iff r.task_id t',
)
