-- ===== src/Task/Lifecycle.antt =====
-- What the transition table of packages/runtime/src/state-machine.ts says of whole task histories.
use plus_one.Common.{
  ℕ, ◌+◌, ◌*◌, ◌≤◌, ◌≡◌, refl, ◌↔◌, true, false, List, [], ◌∷◌, arith, any, length, if◌then◌else◌,
  Bool-cases, inl, inr,
}
use plus_one.Task.{
  TaskStatus, created, skill_selected, maker_running, maker_validated, checker_running,
  checker_validated, revision_requested, execution_pending, committed, readback_verified,
  execution_failed, readback_failed, verified, failed, is, allowed, is_allowed_transition,
  is_terminal_status,
}

-- A history: each status may follow the one before it.
abbrev pub Follows : TaskStatus → List TaskStatus → Type 0
Follows s [] = Unit {0}
Follows s (t ∷ ts) = (is_allowed_transition s t ≡ true) × Follows t ts

-- The status at the end of a history.
abbrev pub final : TaskStatus → List TaskStatus → TaskStatus
final s [] = s
final s (t ∷ ts) = final t ts

-- The terminal statuses are exactly those with no way out.
pub is_terminal_status_iff : (s : TaskStatus) → (is_terminal_status s ≡ true) ↔ (allowed s ≡ [])
is_terminal_status_iff s = ground arith

-- What a task can be while no checker verdict has been validated.
abbrev pub unchecked : List TaskStatus
unchecked =
    created ∷ skill_selected ∷ maker_running ∷ maker_validated ∷ checker_running ∷ failed ∷ []

unchecked-step :
    (s t : TaskStatus)
    → any (is s) unchecked ≡ true
    → is_allowed_transition s t ≡ true
    → is checker_validated t ≡ false
    → any (is t) unchecked ≡ true
unchecked-step s t u a n = ground arith

unchecked-final :
    (s : TaskStatus) (ts : List TaskStatus)
    → any (is s) unchecked ≡ true
    → Follows s ts
    → any (is checker_validated) ts ≡ false
    → any (is (final s ts)) unchecked ≡ true
unchecked-final s [] u f n = u
unchecked-final s (t ∷ ts) u (a, f) n =
    unchecked-final t ts (unchecked-step s t u a (ground arith)) f (ground arith)

-- A history from creation that ends in a business outcome or in a mutation state holds a validated
-- checker verdict: only an open pre-check status or `failed` is reached without one.
pub checked_before_outcome :
    (ts : List TaskStatus)
    → Follows created ts
    → any (is (final created ts)) unchecked ≡ false
    → any (is checker_validated) ts ≡ true
checked_before_outcome ts f o = elim (Bool-cases (any (is checker_validated) ts)) [
  | inl seen ↦ seen
  | inr missed ↦ cc (unchecked-final created ts refl f missed)
]

-- Where a task can be once its mutation command may have started.
abbrev pub mutating : List TaskStatus
mutating =
    execution_pending ∷ committed ∷ readback_verified ∷ execution_failed ∷ readback_failed
    ∷ verified ∷ []

mutating-step :
    (s t : TaskStatus)
    → any (is s) mutating ≡ true
    → is_allowed_transition s t ≡ true
    → any (is t) mutating ≡ true
mutating-step s t u a = ground arith

mutating-final :
    (s : TaskStatus) (ts : List TaskStatus)
    → any (is s) mutating ≡ true
    → Follows s ts
    → any (is (final s ts)) mutating ≡ true
mutating-final s [] u f = u
mutating-final s (t ∷ ts) u (a, f) = mutating-final t ts (mutating-step s t u a) f

-- From `execution_pending` on a task never ends as `failed`, `partial`, `insufficient_evidence` or
-- `conflicted`: it stays in a mutation state, or ends as `execution_failed`, `readback_failed` or
-- `verified`.
pending_stays_accountable :
    (ts : List TaskStatus)
    → Follows execution_pending ts
    → any (is (final execution_pending ts)) mutating ≡ true
pending_stays_accountable ts f = mutating-final execution_pending ts refl f

-- How many more steps a status allows while no revision is requested.
abbrev rank : TaskStatus → ℕ
rank created = 9
rank skill_selected = 8
rank maker_running = 7
rank maker_validated = 6
rank checker_running = 5
rank checker_validated = 4
rank revision_requested = 8
rank execution_pending = 3
rank committed = 2
rank readback_verified = 1
rank _ = 0

abbrev pub revisions : List TaskStatus → ℕ
revisions [] = 0
revisions (t ∷ ts) = (if is t revision_requested then 1 else 0) + revisions ts

rank-step :
    (s t : TaskStatus)
    → is_allowed_transition s t ≡ true
    → rank t + 1 ≤ rank s + 5 * (if is t revision_requested then 1 else 0)
rank-step s t a = ground arith

length-le-rank :
    (s : TaskStatus) (ts : List TaskStatus) → Follows s ts → length ts ≤ rank s + 5 * revisions ts
length-le-rank s [] f = omega arith
length-le-rank s (t ∷ ts) (a, f) = omega (arith, rank-step s t a, length-le-rank t ts f)

-- A task's history has at most nine transitions, and five more for each requested revision.
pub history_bounded : (ts : List TaskStatus) → Follows created ts → length ts ≤ 9 + 5 * revisions ts
history_bounded ts f = length-le-rank created ts f
