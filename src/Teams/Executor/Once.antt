-- ===== src/Teams/Executor/Once.antt =====
-- packages/runtime/src/execution/team-executor.ts: how often the agents are asked.
use plus_one.Common.{
  ℕ, ◌+◌, ◌≤◌, List, [], ◌∷◌, Option, none, some, ◌⊎◌, inl, inr, false, arith, String, Bool, suc,
  true, zero,
}
use plus_one.Common.Errors.{Thrown}
use plus_one.Common.Effects.{after, Call, throw, ◌>>=◌, Outcome, done, threw}
use plus_one.Common.Raises.{Raises-bind, Raises-return, Raises-throw, Raises-throw_if, Raises-if}
use plus_one.Task.{TaskStatus, maker_running, checker_running}
use plus_one.Storage.{Payload, Artifact}
use plus_one.Ledger.{create_task}
use plus_one.Policy.{RuntimePolicy}
use plus_one.Verification.{
  Completion, complete, fail, validate_maker, validate_checker, begin_maker, begin_checker,
  select_contract,
}
use plus_one.Teams.{
  WorkCell, MakerArtifact, CheckedVerdict, Evaluation, Proposal, Decision, WorkCellResult,
}
use plus_one.Teams.Failures.{
  Phase, maker_generation, maker_validation, checker_generation, normalize_execution_failure,
  normalize_checker_failure,
}
use plus_one.Teams.Executor.Asked.{
  times_asked, share, Asks, Asks-in_db, Asks-ask, Asks-tried, Asks-resolve, Asks-more, Asks-then,
}
use plus_one.Teams.Outputs.{covers, covering, terminal_state, is_failed}
use plus_one.Teams.Executor.{
  Role, maker, checker, Session, Agents, Request, is_cancelled, agent_failed, checker_failure,
  complete_unless_pending, concluded, finish, judge, decided, throw_some, check, validated,
  validated_output, generated, execute_work_cell, maker_round, attempt_limit, check_rounds,
  maker_rounds, begin_first, returned, next_round,
}

module _ {W : Type 0} (agents : Agents W) (hash : Payload → String) (policies : List RuntimePolicy)
    (cell : WorkCell) (request : Request) (role : Role) where
  abbrev number : Session W → ℕ
  number = times_asked role

  Asks-agent_failed :
      (from : TaskStatus) (artifacts : List Artifact) (phase : Phase) (e : Thrown)
      → Asks role 0 (agent_failed agents hash policies cell request from artifacts phase e)
  unfolding agent_failed normalize_execution_failure
  Asks-agent_failed from artifacts phase e =
      Raises-if number (is_cancelled e)
        (λ _.
          Asks-then role 0 _ (Asks-in_db role (fail request.identity from "cancelled" false))
            (λ _. Raises-throw number e))
        (λ _.
          Asks-then role 0 _ (Asks-in_db role (fail request.identity from "runtime_failure" false))
            (λ _.
              Asks-then role 0 _
                (Asks-then role 0 _ (Raises-throw_if number _ _) (λ _. Raises-return number _))
                (λ f. Raises-return number _)))

  Asks-checker_failure :
      (v : CheckedVerdict) (t : Evaluation)
      → Asks role 0 (checker_failure agents hash policies cell request v t)
  unfolding normalize_checker_failure
  Asks-checker_failure v t =
      Raises-if number (is_failed t.status)
        (λ _.
          Asks-then role 0 _
            (Asks-then role 0 _ (Raises-throw_if number _ _) (λ _. Raises-return number _))
            (λ f. Raises-return number _))
        (λ _. Raises-return number none)

  Asks-complete_unless_pending :
      (effect : Option Proposal) (status : Completion)
      → Asks role 0 (complete_unless_pending agents hash policies cell request effect status)
  Asks-complete_unless_pending none status =
      Asks-then role 0 _ (Asks-in_db role (complete request.identity status))
        (λ _. Raises-return number tt)
  Asks-complete_unless_pending (some p) status = Raises-return number tt

  Asks-concluded :
      (m : MakerArtifact) (a : Artifact) (v : CheckedVerdict) (x : Thrown ⊎ Evaluation)
      → Asks role 0 (concluded agents hash policies cell request m a v x)
  unfolding finish
  Asks-concluded m a v (inl e) =
      Asks-then role 0 _ (Asks-in_db role (complete request.identity Completion.failed))
        (λ _. Raises-throw number e)
  Asks-concluded m a v (inr t) =
      Asks-then role 0 _ (Asks-complete_unless_pending _ t.status)
        (λ _. Asks-then role 0 _ (Asks-checker_failure v t) (λ f. Raises-return number _))

  Asks-judge :
      (m : MakerArtifact) (a : Artifact) (v : CheckedVerdict)
      → Asks role 0 (judge agents hash policies cell request m a v)
  unfolding judge
  Asks-judge m a v =
      Raises-if number (covers a v)
        (λ _.
          Asks-then role 0 _
            (Asks-in_db role
              (validate_checker hash request.identity request.checker_artifact_id v.verdict))
            (λ _. Asks-concluded m a v (terminal_state cell m v)))
        (λ _.
          Asks-then role 0 _
            (Asks-in_db role (fail request.identity checker_running "checker_rejected" false))
            (λ _. Raises-throw number _))

  Asks-throw_some :
      (e : Option Thrown) → Asks role 0 (throw_some agents hash policies cell request e)
  Asks-throw_some none = Raises-return number tt
  Asks-throw_some (some e) = Raises-throw number e

  Asks-throw : {A : Type 0} (n : ℕ) (e : Thrown) → Asks role n (throw {S = Session W} {A = A} e)
  Asks-throw n e = record { at_most = λ s. omega arith }

  Asks-check_rounds :
      (m : MakerArtifact) (a : Artifact) (left : ℕ)
      → Asks role
          (share role checker + 0)
          (check_rounds agents hash policies cell request m a none left)
  unfolding check_rounds
  Asks-check_rounds m a zero = Asks-throw (share role checker + 0) _
  Asks-check_rounds m a (suc left) =
      Asks-then role (share role checker + 0) _ (Asks-throw_some (agents.task_error a)) (λ _.
        Raises-bind number (share role checker) 0 _ _
          (Asks-tried role (share role checker) _ (Asks-ask role checker (agents.ask_checker a)))
          decided_once)
    where
      decided_once :
          (x : Thrown ⊎ Decision)
          → Asks role 0 (
              decided agents hash policies cell request a
                (λ v. check_rounds agents hash policies cell request m a (some v) left)
                x)
      decided_once (inl e) = Asks-agent_failed checker_running (a ∷ []) checker_generation e
      decided_once (inr d) = Asks-judge m a (covering a d)

  Asks-check :
      (checks : ℕ) (m : MakerArtifact)
      → Asks role (share role checker + 0) (check agents hash policies cell request checks m)
  unfolding check
  Asks-check checks m =
      Asks-then role (share role checker + 0) _
        (Asks-in_db role (
          validate_maker hash request.identity request.maker_artifact_id
            (record { schema_name = "maker-artifact"; schema_version = 1 }) (agents.encode m)))
        (λ a.
          Asks-then role (share role checker + 0) _
            (Asks-in_db role (begin_checker request.identity)) (λ _. Asks-check_rounds m a checks))

  Asks-validated :
      (checks : ℕ) (x : Thrown ⊎ MakerArtifact)
      → Asks role (share role checker + 0) (validated agents hash policies cell request checks x)
  Asks-validated checks (inl e) =
      Asks-more role (share role checker) _ (Asks-agent_failed maker_running [] maker_validation e)
  Asks-validated checks (inr m) = Asks-check checks m

  Asks-validated_output :
      (raw : MakerArtifact) → Asks role 0 (validated_output agents hash policies cell request raw)
  unfolding validated_output
  Asks-validated_output raw = record { at_most = λ s. ground arith }

  Asks-generated :
      (checks : ℕ) (x : Thrown ⊎ MakerArtifact)
      → Asks role (share role checker + 0) (generated agents hash policies cell request checks x)
  Asks-generated checks (inl e) =
      Asks-more role (share role checker) _ (Asks-agent_failed maker_running [] maker_generation e)
  Asks-generated checks (inr raw) =
      Asks-then role (share role checker + 0) _ (Asks-tried role 0 _ (Asks-validated_output raw))
        (Asks-validated checks)

  -- A round whose body returns ends the loop.
  Asks-returned :
      (n : ℕ) (body : Call (Session W) WorkCellResult) (rest : ℕ → Call (Session W) WorkCellResult)
      → Asks role n body
      → Asks role n (
          (body >>= returned agents hash policies cell request)
          >>= next_round agents hash policies cell request rest)
  Asks-returned n body rest r = record { at_most = λ s. go s (body s) (r.at_most s) }
    where
      go :
          (s : Session W) (o : Outcome (Session W) WorkCellResult)
          → number (after o) ≤ number s + n
          → number (
              after
                (elim (elim o as (λ x. Outcome (Session W) (ℕ ⊎ WorkCellResult)) [
                  | done r t ↦ done (inr r) t
                  | threw e t ↦ threw e t
                ])
                  as (λ x. Outcome (Session W) WorkCellResult) [
                    | done x t ↦ next_round agents hash policies cell request rest x t
                    | threw e t ↦ threw e t
                  ]))
            ≤ number s + n
      go s (done a t) h = h
      go s (threw e t) h = h

  Asks-maker_rounds :
      (left checks : ℕ) (b : Bool)
      → Asks role
          (share role maker + (share role checker + 0))
          (maker_rounds agents hash policies cell request left checks b)
  unfolding maker_rounds maker_round
  Asks-maker_rounds zero checks b = Asks-throw (share role maker + (share role checker + 0)) _
  Asks-maker_rounds (suc left) checks b =
      let n = share role maker + (share role checker + 0) in
      Asks-then role n _ (begins b) (λ _. Asks-returned n _ _ (
        Raises-bind number (share role maker) (share role checker + 0) _
          (generated agents hash policies cell request checks)
          (Asks-tried role (share role maker) _ (Asks-ask role maker agents.ask_maker))
          (Asks-generated checks)))
    where
      begins : (b : Bool) → Asks role 0 (begin_first agents hash policies cell request b)
      begins true =
          Asks-then role 0 _ (Asks-in_db role (begin_maker request.identity))
            (λ _. Raises-return number tt)
      begins false = Raises-return number tt

  Asks-execute_work_cell :
      Asks role
        (share role maker + (share role checker + 0))
        (execute_work_cell agents hash policies cell request)
  unfolding execute_work_cell
  Asks-execute_work_cell =
      let n = share role maker + (share role checker + 0) in
      Asks-then role n _ (Raises-throw_if number _ _) (λ _.
        Asks-then role n _ (Asks-resolve role policies cell.maker_policy) (λ p.
          Asks-then role n _ (Asks-resolve role policies cell.checker_policy) (λ q.
            Asks-then role n _ (Raises-throw_if number _ _) (λ _.
              Asks-then role n _ (Asks-in_db role (create_task _)) (λ _.
                Asks-then role n _
                  (Asks-in_db role (
                    select_contract policies request.identity request.skill cell.input_schema
                      cell.output_schema p.identity))
                  (λ _. Asks-maker_rounds attempt_limit attempt_limit true))))))

  -- A run of a work cell, however it ends, asks the maker at most once and the checker at most
  -- once.
  pub execute_work_cell-once :
      (s : Session W)
      → times_asked role (after (execute_work_cell agents hash policies cell request s))
        ≤ times_asked role s + 1
  execute_work_cell-once s = ground (arith, Asks-execute_work_cell.at_most s)
