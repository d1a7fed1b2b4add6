-- ===== src/Ledger/Verdicts/Coverage.antt =====
-- What a recorded checker verdict covers.
use plus_one.Common.{
  ◌≡◌, refl, some, none, String, true, arith, eq_iff, find, Option-cases, inl, inr, Option,
}
use plus_one.Common.Effects.{done}
use plus_one.Task.{TaskStatus, is_iff}
use plus_one.Storage.{Db, TaskRow, Verdict, VerdictKind, VerdictRow, task_row}
use plus_one.Ledger.Verdicts.{
  record_checker_verdict, is_verdict_by, insert_verdict, same_option, is_kind, covers_current,
  same_verdict, verdict_row,
}

is_kind-eq : (a b : VerdictKind) → is_kind a b ≡ true → a ≡ b
is_kind-eq a b h = ground arith

same_option-eq : (a : Option String) (b : String) → same_option a (some b) ≡ true → a ≡ some b
same_option-eq none b h = ground arith
same_option-eq (some a) b h = ground (arith, eq_iff a b)

-- The stored row says what the verdict says.
abbrev pub IsRecorded : VerdictRow → Verdict → Type 0
IsRecorded row v =
    (row.covered_artifact_id ≡ v.covered_artifact_id)
    × (row.covered_artifact_hash ≡ v.covered_artifact_hash)
    × (row.kind ≡ v.kind)

same_verdict-IsRecorded :
    (row : VerdictRow) (v : Verdict) → same_verdict row v ≡ true → IsRecorded row v
same_verdict-IsRecorded row v h = ground (
  arith,
  eq_iff row.covered_artifact_id v.covered_artifact_id,
  eq_iff row.covered_artifact_hash v.covered_artifact_hash,
  is_kind-eq row.kind v.kind,
)

insert_verdict-IsRecorded :
    (h t id : String) (v : Verdict) (db after : Db)
    → insert_verdict h t id v db ≡ done tt after
    → (r : VerdictRow) × (find (is_verdict_by h t id) after.verdicts ≡ some r) × IsRecorded r v
unfolding insert_verdict
insert_verdict-IsRecorded h t id v db after e =
    elim (Option-cases (find (is_verdict_by h t id) db.verdicts)) [
      | inl new ↦ (
        verdict_row h t id v,
        ground (arith, eq_iff h h, eq_iff t t, eq_iff id id),
        (refl, refl, refl),
      )
      | inr (old, found) ↦ (old, ground arith, same_verdict-IsRecorded old v (ground arith))
    ]

-- A verdict is recorded only while the checker runs, and only if it covers the identifier and the
-- hash of the task's current maker artifact; the verdict that is then stored for that checker
-- artifact covers the same artifact with the same outcome, also where it was stored before.
pub record_checker_verdict-covers :
    (h t id : String) (v : Verdict) (db after : Db)
    → record_checker_verdict h t id v db ≡ done tt after
    → ((task : TaskRow) × (task_row h t db ≡ some task)
        × (task.status ≡ TaskStatus.checker_running)
        × (task.current_maker_artifact_id ≡ some v.covered_artifact_id)
        × (task.current_maker_artifact_hash ≡ some v.covered_artifact_hash))
      × ((r : VerdictRow) × (find (is_verdict_by h t id) after.verdicts ≡ some r) × IsRecorded r v)
unfolding record_checker_verdict
record_checker_verdict-covers h t id v db after e = elim (Option-cases (task_row h t db)) [
  | inl missing ↦ ground arith
  | inr (task, found) ↦
      let covered : covers_current task v ≡ true = ground arith in
      (
        (
          task,
          found,
          ground (arith, is_iff task.status TaskStatus.checker_running),
          same_option-eq task.current_maker_artifact_id v.covered_artifact_id (ground arith),
          same_option-eq task.current_maker_artifact_hash v.covered_artifact_hash (ground arith),
        ),
        insert_verdict-IsRecorded h t id v db after (ground arith),
      )
]
