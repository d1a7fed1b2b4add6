-- ===== src/Task.antt =====
-- packages/contracts/src/runtime.ts and packages/runtime/src/state-machine.ts: the statuses of a
-- verification task and the transitions that the runtime allows.
pub mod Lifecycle
pub mod Resume
use plus_one.Common.{
  ℕ, zero, suc, ◌≡◌, refl, ap, ◌↔◌, Bool, true, false, not, List, [], ◌∷◌, arith, ◌==◌, ==_iff, any,
}
use plus_one.Common.Errors.{Thrown, failure, constraint_violation, never}
use plus_one.Common.Effects.{Call, throw_if}

pub data TaskStatus : Type 0 where
  created skill_selected maker_running maker_validated checker_running : TaskStatus
  checker_validated revision_requested execution_pending committed readback_verified : TaskStatus
  execution_failed readback_failed verified partial insufficient_evidence : TaskStatus
  conflicted failed : TaskStatus

abbrev pub index : TaskStatus → ℕ
index created = 0
index skill_selected = 1
index maker_running = 2
index maker_validated = 3
index checker_running = 4
index checker_validated = 5
index revision_requested = 6
index execution_pending = 7
index committed = 8
index readback_verified = 9
index execution_failed = 10
index readback_failed = 11
index verified = 12
index partial = 13
index insufficient_evidence = 14
index conflicted = 15
index failed = 16

-- `===` on statuses.
abbrev pub is : TaskStatus → TaskStatus → Bool
is a b = index a == index b

of_index : ℕ → TaskStatus
of_index zero = created
of_index (suc zero) = skill_selected
of_index (suc (suc zero)) = maker_running
of_index (suc (suc (suc zero))) = maker_validated
of_index (suc (suc (suc (suc zero)))) = checker_running
of_index (suc (suc (suc (suc (suc zero))))) = checker_validated
of_index (suc (suc (suc (suc (suc (suc zero)))))) = revision_requested
of_index (suc (suc (suc (suc (suc (suc (suc zero))))))) = execution_pending
of_index (suc (suc (suc (suc (suc (suc (suc (suc zero)))))))) = committed
of_index (suc (suc (suc (suc (suc (suc (suc (suc (suc zero))))))))) = readback_verified
of_index (suc (suc (suc (suc (suc (suc (suc (suc (suc (suc zero)))))))))) = execution_failed
of_index (suc (suc (suc (suc (suc (suc (suc (suc (suc (suc (suc zero))))))))))) = readback_failed
of_index (suc (suc (suc (suc (suc (suc (suc (suc (suc (suc (suc (suc zero)))))))))))) = verified
of_index (suc (suc (suc (suc (suc (suc (suc (suc (suc (suc (suc (suc (suc zero))))))))))))) =
    partial
of_index (suc (suc (suc (suc (suc (suc (suc (suc (suc (suc (suc (suc (suc (suc zero)))))))))))))) =
    insufficient_evidence
of_index
      (suc
        (suc (suc (suc (suc (suc (suc (suc (suc (suc (suc (suc (suc (suc (suc zero))))))))))))))) =
    conflicted
of_index _ = failed

of_index-index : (s : TaskStatus) → of_index (index s) ≡ s
unfolding of_index
of_index-index created = refl
of_index-index _ = refl

pub is_iff : (a b : TaskStatus) → (is a b ≡ true) ↔ (a ≡ b)
is_iff a b = (
  λ h. cc (of_index-index a, of_index-index b, (==_iff _ _).0 h),
  λ e. (==_iff _ _).1 (ap index e),
)

abbrev pub allowed : TaskStatus → List TaskStatus
allowed created = skill_selected ∷ failed ∷ []
allowed skill_selected = maker_running ∷ failed ∷ []
allowed maker_running = maker_validated ∷ failed ∷ []
allowed maker_validated = checker_running ∷ failed ∷ []
allowed checker_running = checker_validated ∷ failed ∷ []
allowed checker_validated =
    verified ∷ partial ∷ insufficient_evidence ∷ conflicted ∷ failed ∷ revision_requested
    ∷ execution_pending ∷ []
allowed revision_requested = maker_running ∷ failed ∷ []
allowed execution_pending = committed ∷ execution_failed ∷ []
allowed committed = readback_verified ∷ readback_failed ∷ []
allowed readback_verified = verified ∷ []
allowed _ = []

abbrev pub terminal : List TaskStatus
terminal =
    execution_failed ∷ readback_failed ∷ verified ∷ partial ∷ insufficient_evidence ∷ conflicted
    ∷ failed ∷ []

abbrev pub is_allowed_transition : TaskStatus → TaskStatus → Bool
is_allowed_transition from to = any (is to) (allowed from)

abbrev pub is_terminal_status : TaskStatus → Bool
is_terminal_status status = any (is status) terminal

abbrev pub invalid_transition : Thrown
invalid_transition = failure constraint_violation "invalid_task_transition" never false

abbrev pub assert_allowed_transition {ν} :
    {S : Type ν} → TaskStatus → TaskStatus → Call S (Unit {0})
assert_allowed_transition from to =
    throw_if (not (is_allowed_transition from to)) invalid_transition
