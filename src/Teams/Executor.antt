-- ===== src/Teams/Executor.antt =====
-- packages/runtime/src/execution/team-executor.ts: one run of a work cell. A maker and a checker
-- are asked, and the verification runtime records what they answer. `agents` stands for the agent
-- invocation runner with the contexts that it is given, `hash` for `hashArtifact`.
pub mod Reports
pub mod Checked
pub mod Asked
pub mod Once
use plus_one.Teams.Outputs.{
  covering, is_accepting, outstanding_code, retain_permitted, covers, effect_requirement_for,
  is_failed, synthesize_claims_if_needed, zod_error, uses_permitted, terminal_state,
}
use plus_one.Common.{
  ℕ, String, Bool, not, List, [], ◌∷◌, Option, none, some, str_eq, any, all, ◌&&◌, ◌+◌, min,
  if◌then◌else◌, map, ◌⊎◌, inl, inr, false, true, suc, zero,
}
use plus_one.Common.Errors.{
  Thrown, plus_one_error, failure, policy_rejected, validation_rejected, checker_rejected, never,
  safe, other_error,
}
use plus_one.Common.Effects.{tried, ◌>>=◌, ◌>>◌, Call, done, threw, return, throw, throw_if}
use plus_one.Task.{TaskStatus, maker_running, checker_running}
use plus_one.Storage.{Db, Payload, Artifact, SkillIdentity, VerdictKind}
use plus_one.Ledger.{create_task, NewTask}
use plus_one.Ledger.Verdicts.{is_kind}
use plus_one.Policy.{RuntimePolicy, resolve}
use plus_one.Verification.{
  TaskIdentity, Completion, select_contract, begin_maker, validate_maker, begin_checker,
  validate_checker, complete, fail, is_verified,
}
use plus_one.Teams.{
  MakerArtifact, Finding, Decision, CheckedVerdict, Proposal, Evaluation, WorkCell, WorkCellResult,
  same_schema, schema_identity_mismatch,
}
use plus_one.Teams.Failures.{
  Issue, Phase, maker_generation, maker_validation, checker_generation, normalize_execution_failure,
  normalize_checker_failure, ExecutionFailure,
}

pub data Role : Type 0 where
  maker checker : Role

-- The database, which roles were asked, newest first, and all else that the agents read or change.
pub record Session (W : Type 0) : Type 0 where
  pub db : Db
  pub asked : List Role
  pub world : W

-- `agentInvocationRunner.run` for the two roles, VerificationTaskSchemaV1.parse where it throws, the
-- JSON of a maker's artifact, and what an error carries: its causes, and its issues if it is a
-- `ZodError`.
pub record Agents (W : Type 0) : Type 0 where
  pub ask_maker : Call W MakerArtifact
  pub ask_checker : Artifact → Call W Decision
  pub task_error : Artifact → Option Thrown
  pub encode : MakerArtifact → Payload
  pub causes : Thrown → List Thrown
  pub zod_issues : Thrown → Option (List Issue)

-- The arguments of `executeWorkCell`, with the permitted evidence by its identifiers, the two
-- artifact identifiers that the generator gives and the clock's time.
pub record Request : Type 0 where
  pub identity : TaskIdentity
  pub parent_task_id : Option String
  pub team : String
  pub skill : SkillIdentity
  pub maker_input : String
  pub permitted_evidence : List String
  pub maker_artifact_id : String
  pub checker_artifact_id : String
  pub now : ℕ

abbrev pub attempt_limit : ℕ
attempt_limit = 1

abbrev pub is_cancelled : Thrown → Bool
is_cancelled (plus_one_error e) = str_eq e.code "agent_call_cancelled"
is_cancelled _ = false

-- A call of the verification runtime.
abbrev pub in_db : {W A : Type 0} → Call Db A → Call (Session W) A
in_db m s = elim (m s.db) [
  | done a db ↦ done a (record s { db = db })
  | threw e db ↦ threw e (record s { db = db })
]

-- A call of the agent invocation runner.
abbrev pub ask : {W A : Type 0} → Role → Call W A → Call (Session W) A
ask role m s = elim (m s.world) [
  | done a w ↦ done a (record s { world = w; asked = role ∷ s.asked })
  | threw e w ↦ threw e (record s { world = w; asked = role ∷ s.asked })
]

module _ {W : Type 0} (agents : Agents W) (hash : Payload → String) (policies : List RuntimePolicy)
    (cell : WorkCell) (request : Request) where
  abbrev pub failed_result : List Artifact → Thrown → ExecutionFailure → WorkCellResult
  failed_result artifacts e f = record {
    status = Completion.failed;
    effect = none;
    maker_artifacts = artifacts;
    checker_verdicts = [];
    accepted_maker = none;
    failure = some f;
    outstanding = outstanding_code e;
  }

  -- The two `catch` blocks: the task fails, and a cancellation is thrown on.
  unfoldable pub agent_failed :
      TaskStatus → List Artifact → Phase → Thrown → Call (Session W) WorkCellResult
  agent_failed from artifacts phase e =
      if is_cancelled e
      then in_db (fail request.identity from "cancelled" false) >>= (λ _. throw e)
      else in_db (fail request.identity from "runtime_failure" false) >>= (λ _.
        normalize_execution_failure phase (e ∷ agents.causes e) (agents.zod_issues e)
        >>= (λ f. return (failed_result artifacts e f)))

  unfoldable pub validated_output : MakerArtifact → Call (Session W) MakerArtifact
  validated_output raw =
      let m =
        retain_permitted request.permitted_evidence
          (synthesize_claims_if_needed cell.output_schema.schema_name raw) in
      throw_if (not (same_schema m.output_schema cell.output_schema)) schema_identity_mismatch
      >> (throw_if (not (cell.accepts_output m.output)) zod_error
          >> (throw_if (not (all (uses_permitted request.permitted_evidence) m.claims))
                (failure validation_rejected "maker_claim_evidence_not_permitted" safe false)
              >> return m))

  abbrev pub effect_of : MakerArtifact → CheckedVerdict → Evaluation → Option Proposal
  effect_of m v t =
      if is_accepting v && is_verified t.status then effect_requirement_for cell m.output else none

  abbrev pub checker_failure :
      CheckedVerdict → Evaluation → Call (Session W) (Option ExecutionFailure)
  checker_failure v t =
      if is_failed t.status
      then normalize_checker_failure (is_kind v.verdict.kind VerdictKind.revision_requested)
          (map (λ (f : Finding). f.code) v.findings)
        >>= (λ f. return (some f))
      else return none

  abbrev pub complete_unless_pending : Option Proposal → Completion → Call (Session W) (Unit {0})
  complete_unless_pending none status =
      in_db (complete request.identity status) >>= (λ _. return tt)
  complete_unless_pending (some p) status = return tt

  unfoldable pub finish :
      MakerArtifact → Artifact → CheckedVerdict → Evaluation → Call (Session W) WorkCellResult
  finish m artifact v t =
      complete_unless_pending (effect_of m v t) t.status
      >> (checker_failure v t >>= (λ f. return (record {
        status = t.status;
        effect = effect_of m v t;
        maker_artifacts = artifact ∷ [];
        checker_verdicts = v ∷ [];
        accepted_maker = if is_accepting v then some m else none;
        failure = f;
        outstanding = t.outstanding;
      })))

  abbrev pub concluded :
      MakerArtifact
      → Artifact
      → CheckedVerdict
      → Thrown ⊎ Evaluation
      → Call (Session W) WorkCellResult
  concluded m artifact v (inl e) =
      in_db (complete request.identity Completion.failed) >>= (λ _. throw e)
  concluded m artifact v (inr t) = finish m artifact v t

  unfoldable pub judge : MakerArtifact → Artifact → CheckedVerdict → Call (Session W) WorkCellResult
  judge m artifact v =
      if covers artifact v
      then in_db (validate_checker hash request.identity request.checker_artifact_id v.verdict)
        >>= (λ _. concluded m artifact v (terminal_state cell m v))
      else in_db (fail request.identity checker_running "checker_rejected" false)
        >>= (λ _. throw (failure checker_rejected "checker_coverage_mismatch" never false))

  -- What follows the checker's answer: a failure returns, and `rest` is the rest of the loop.
  abbrev pub decided :
      Artifact
      → (rest : CheckedVerdict → Call (Session W) WorkCellResult) → Thrown ⊎ Decision
      → Call (Session W) WorkCellResult
  decided artifact rest (inl e) = agent_failed checker_running (artifact ∷ []) checker_generation e
  decided artifact rest (inr d) = rest (covering artifact d)

  abbrev pub throw_some : Option Thrown → Call (Session W) (Unit {0})
  throw_some none = return tt
  throw_some (some e) = throw e

  -- The checker's loop and what follows it, with the verdict so far and the attempts that are left.
  unfoldable pub check_rounds :
      MakerArtifact
      → Artifact
      → Option CheckedVerdict
      → (left : ℕ) → Call (Session W) WorkCellResult
  check_rounds m artifact (some v) left = judge m artifact v
  check_rounds m artifact none zero = throw (other_error "Error")
  check_rounds m artifact none (suc left) =
      throw_some (agents.task_error artifact)
      >> (tried (ask checker (agents.ask_checker artifact))
          >>= decided artifact (λ v. check_rounds m artifact (some v) left))

  -- From the maker's artifact on; `checks` is how often the checker may still be asked.
  unfoldable pub check : (checks : ℕ) → MakerArtifact → Call (Session W) WorkCellResult
  check checks m =
      in_db (
        validate_maker hash request.identity request.maker_artifact_id
          (record { schema_name = "maker-artifact"; schema_version = 1 }) (agents.encode m))
      >>= (λ artifact.
          in_db (begin_checker request.identity) >>= (λ _. check_rounds m artifact none checks))

  abbrev pub validated : (checks : ℕ) → Thrown ⊎ MakerArtifact → Call (Session W) WorkCellResult
  validated checks (inl e) = agent_failed maker_running [] maker_validation e
  validated checks (inr m) = check checks m

  abbrev pub generated : (checks : ℕ) → Thrown ⊎ MakerArtifact → Call (Session W) WorkCellResult
  generated checks (inl e) = agent_failed maker_running [] maker_generation e
  generated checks (inr raw) = tried (validated_output raw) >>= validated checks

  -- A round of the maker's loop that goes on gives the checks that are left, one that returns gives
  -- its result. In the code's body every path returns or throws.
  abbrev pub returned : WorkCellResult → Call (Session W) (ℕ ⊎ WorkCellResult)
  returned r = return (inr r)

  unfoldable pub maker_round : (checks : ℕ) → Call (Session W) (ℕ ⊎ WorkCellResult)
  maker_round checks = (tried (ask maker agents.ask_maker) >>= generated checks) >>= returned

  abbrev pub next_round :
      (rest : ℕ → Call (Session W) WorkCellResult)
      → ℕ ⊎ WorkCellResult
      → Call (Session W) WorkCellResult
  next_round rest (inl checks) = rest checks
  next_round rest (inr r) = return r

  abbrev pub begin_first : Bool → Call (Session W) (Unit {0})
  begin_first true = in_db (begin_maker request.identity) >>= (λ _. return tt)
  begin_first false = return tt

  -- The maker's loop: `left` is how often the maker may still be asked.
  unfoldable pub maker_rounds : (left checks : ℕ) → Bool → Call (Session W) WorkCellResult
  maker_rounds zero checks first_round = throw (other_error "Error")
  maker_rounds (suc left) checks first_round =
      begin_first first_round
      >> (maker_round checks >>= next_round (λ c. maker_rounds left c false))

  abbrev pub new_task : RuntimePolicy → RuntimePolicy → NewTask
  new_task maker_policy checker_policy = record {
    household_id = request.identity.household_id;
    task_id = request.identity.task_id;
    parent_task_id = request.parent_task_id;
    team = request.team;
    attempt_limit = attempt_limit;
    deadline_at =
        some (request.now + min maker_policy.team_deadline_ms checker_policy.team_deadline_ms);
  }

  unfoldable pub execute_work_cell : Call (Session W) WorkCellResult
  execute_work_cell =
      throw_if (not (any (str_eq request.skill.skill_name) cell.allowed_skill_names))
        (failure policy_rejected "work_cell_skill_not_allowed" never false)
      >> (resolve policies cell.maker_policy >>= (λ maker_policy.
          resolve policies cell.checker_policy >>= (λ checker_policy.
            throw_if (not (cell.accepts_input request.maker_input)) zod_error
            >> (in_db (create_task (new_task maker_policy checker_policy)) >>= (λ _.
                in_db (
                  select_contract policies request.identity request.skill cell.input_schema
                    cell.output_schema maker_policy.identity)
                >>= (λ _. maker_rounds attempt_limit attempt_limit true))))))
