-- ===== src/Task/Resume.antt =====
-- packages/runtime/src/resume.ts: what to do with a task that was left open. An instant is its
-- number of milliseconds, so `Date.parse` of a stored instant is the value itself.
use plus_one.Common.{
  ℕ, ◌≡◌, ◌↔◌, Bool, true, false, ◌||◌, Option, none, some, arith, leb, if◌then◌else◌,
}
use plus_one.Task.{TaskStatus, execution_pending, committed, is, is_terminal_status}

pub data ResumeAction : Type 0 where
  none_terminal retry_allowed fail_expired resolve_command_state : ResumeAction
  manual_recovery_required : ResumeAction

abbrev pub deadline_passed : Option ℕ → ℕ → Bool
deadline_passed none now = false
deadline_passed (some deadline) now = leb deadline now

unfoldable pub classify_resume_action : TaskStatus → Option ℕ → Bool → ℕ → ResumeAction
classify_resume_action status deadline_at resumable now =
    if is_terminal_status status
    then none_terminal
    else if is status execution_pending || is status committed
    then resolve_command_state
    else if deadline_passed deadline_at now
    then fail_expired
    else if resumable
    then retry_allowed
    else manual_recovery_required

-- A retry is offered exactly to a resumable task that is not terminal, whose mutation command
-- cannot have started, and whose deadline, if it has one, is later than `now`.
retry_allowed_iff :
    (status : TaskStatus) (deadline_at : Option ℕ) (resumable : Bool) (now : ℕ)
    → (classify_resume_action status deadline_at resumable now ≡ retry_allowed) ↔ (
        (is_terminal_status status ≡ false)
        × (is status execution_pending ≡ false)
        × (is status committed ≡ false)
        × (deadline_passed deadline_at now ≡ false)
        × (resumable ≡ true))
unfolding classify_resume_action
retry_allowed_iff status deadline_at resumable now = ground arith
