-- ===== src/Teams/Executor/Checked.antt =====
-- packages/runtime/src/execution/team-executor.ts: every way in which a run of a work cell returns.
use plus_one.Task.{checker_validated, maker_running, checker_running}
use mathlib.Core.Path.{subst}
use plus_one.Common.{
  ◌≡◌, all, arith, true, ◌∷◌, [], false, some, refl, ℕ, Bool, Option, suc, none, zero,
}
use plus_one.Teams.Executor.{
  Agents, Payload, WorkCell, MakerArtifact, String, inl, CheckedVerdict, List, inr, Evaluation,
  RuntimePolicy, Thrown, Request, ◌⊎◌, Completion, WorkCellResult, validated_output, Artifact,
  Session, is_accepting, uses_permitted, same_schema, covers, Decision, TaskStatus, agent_failed,
  check, execute_work_cell, finish, generated, judge, validated, Phase, concluded, decided,
  effect_of, in_db, maker_round, validate_checker, complete, fail, is_cancelled, maker_generation,
  maker_validation, begin_checker, checker_generation, normalize_execution_failure, resolve,
  covering, create_task, throw_some, ask, select_contract, checker, maker, attempt_limit,
  check_rounds, maker_rounds, next_round, begin_first,
}
use plus_one.Teams.Outputs.{terminal_state, is_empty}
use plus_one.Common.Effects.{tried, Call, Outcome, done, threw, throw_if}
use plus_one.Teams.Executor.Reports.{
  Reports, agent_failed-Reports, LeftBy, complete_unless_pending-Leads, checker_failure-Leads,
  in_db-Leads, validate_checker-IsStored, IsStored, IsArtifactOf, in_db-Gives, validate_maker-hash,
}
use plus_one.Common.Leads.{
  Leads, Leads-bind, Leads-return, Leads-next, Any, Leads-weaken, Leads-if, Leads-throw,
  Leads-given,
}

-- What a `try` block gives, where it gives something.
abbrev Gives : {A : Type 0} → (A → Type 0) → Thrown ⊎ A → Type 0
Gives Q (inl e) = Unit
Gives Q (inr a) = Q a

tried-Leads :
    {S A : Type 0} {m : Call S A} (Q : A → Type 0)
    → Leads Any m (λ a _. Q a)
    → Leads Any (tried m) (λ x _. Gives Q x)
tried-Leads {S} {A} {m} Q l = record { leads = λ s t x _ e. go s t x (m s) refl e }
  where
    go :
        (s t : S) (x : Thrown ⊎ A) (o : Outcome S A)
        → m s ≡ o
        → elim o [ done a s' ↦ done (inr a) s' | threw e s' ↦ done (inl e) s' ] ≡ done x t
        → Gives Q x
    go s t x (done a s') h e =
        let same : inr a ≡ x = cc in subst (Gives Q) same (l.leads s s' a tt h)
    go s t x (threw b s') h e = let same : inl b ≡ x = cc in subst (Gives Q) same tt

-- A terminal state that is `verified` comes from an acceptance of a maker's artifact with claims.
terminal_state-verified :
    (cell : WorkCell) (m : MakerArtifact) (v : CheckedVerdict) (t : Evaluation)
    → terminal_state cell m v ≡ inr t
    → t.status ≡ Completion.verified
    → (is_accepting v ≡ true) × (is_empty m.claims ≡ false)
unfolding terminal_state
terminal_state-verified cell m v t e h = ground arith

module _ {W : Type 0} (agents : Agents W) (hash : Payload → String) (policies : List RuntimePolicy)
    (cell : WorkCell) (request : Request) where
  -- What the executor itself has checked of a maker's artifact.
  abbrev pub IsValidated : MakerArtifact → Type 0
  IsValidated m =
      (all (uses_permitted request.permitted_evidence) m.claims ≡ true)
      × (same_schema m.output_schema cell.output_schema ≡ true)
      × (cell.accepts_output m.output ≡ true)

  validated_output-IsValidated :
      (raw : MakerArtifact)
      → Leads Any (validated_output agents hash policies cell request raw) (λ m _. IsValidated m)
  unfolding validated_output
  validated_output-IsValidated raw = record { leads = λ s t m _ e. ground arith }

  -- An artifact of the task that has the content hash of the maker's answer.
  abbrev pub IsStoredAs : MakerArtifact → Artifact → Type 0
  IsStoredAs m a = IsArtifactOf hash request.identity (agents.encode m) a

  -- A result rests on one artifact, which is the maker's answer, and one acceptance that covers it.
  abbrev pub IsChecked : WorkCellResult → Type 0
  IsChecked r =
      (a : Artifact) × (m : MakerArtifact) × (v : CheckedVerdict) × (r.maker_artifacts ≡ a ∷ [])
      × (r.checker_verdicts ≡ v ∷ [])
      × (r.accepted_maker ≡ some m)
      × (covers a v ≡ true)
      × (is_accepting v ≡ true)
      × (is_empty m.claims ≡ false)
      × IsStoredAs m a
      × IsValidated m

  abbrev Ends : WorkCellResult → Session W → Type 0
  Ends r s =
      Reports agents hash policies cell request r s × (r.status ≡ Completion.verified → IsChecked r)

  finish-Ends :
      (m : MakerArtifact) (a : Artifact) (v : CheckedVerdict) (t : Evaluation)
      → IsValidated m
      → IsStoredAs m a
      → covers a v ≡ true
      → (t.status ≡ Completion.verified → (is_accepting v ≡ true) × (is_empty m.claims ≡ false))
      → Leads
          (λ s. IsStored request.identity checker_validated s.db)
          (finish agents hash policies cell request m a v t)
          Ends
  unfolding finish
  finish-Ends m a v t valid stored covered accepted =
      let effect = effect_of agents hash policies cell request m v t in
      let left = LeftBy agents hash policies cell request effect t.status in
      Leads-bind (λ _. left) Ends
        (complete_unless_pending-Leads agents hash policies cell request effect t.status)
        (λ _.
          Leads-bind (λ _. left) Ends
            (checker_failure-Leads agents hash policies cell request left v t)
            (λ f. Leads-return Ends _ (λ s p. (
              p,
              λ h.
                  let (acceptance, claims) = accepted h in
                  (
                    a,
                    m,
                    v,
                    refl,
                    refl,
                    rw acceptance refl,
                    covered,
                    acceptance,
                    claims,
                    stored,
                    valid,
                  ),
            ))))

  agent_failed-failed :
      (from : TaskStatus) (artifacts : List Artifact) (phase : Phase) (e : Thrown)
      → Leads Any
          (agent_failed agents hash policies cell request from artifacts phase e)
          (λ r _. r.status ≡ Completion.failed)
  unfolding agent_failed
  agent_failed-failed from artifacts phase e =
      Leads-if (is_cancelled e)
        (λ _.
          Leads-next (in_db (fail request.identity from "cancelled" false)) (λ _. Leads-throw e))
        (λ _. Leads-next (in_db (fail request.identity from "runtime_failure" false)) (λ _.
          Leads-next (normalize_execution_failure phase (e ∷ agents.causes e) (agents.zod_issues e))
            (λ f. Leads-return (λ r _. r.status ≡ Completion.failed) _ (λ s p. refl))))

  agent_failed-Ends :
      (from : TaskStatus) (artifacts : List Artifact) (phase : Phase) (e : Thrown)
      → Leads Any (agent_failed agents hash policies cell request from artifacts phase e) Ends
  agent_failed-Ends from artifacts phase e = record {
    leads = λ s t r _ h. (
      (agent_failed-Reports agents hash policies cell request from artifacts phase e).leads s t r tt
          h,
      λ v.
          let failed : r.status ≡ Completion.failed =
            (agent_failed-failed from artifacts phase e).leads s t r tt h in
          absurd (cc),
    );
  }

  concluded-Ends :
      (m : MakerArtifact) (a : Artifact) (v : CheckedVerdict) (x : Thrown ⊎ Evaluation)
      → terminal_state cell m v ≡ x
      → IsValidated m
      → IsStoredAs m a
      → covers a v ≡ true
      → Leads
          (λ s. IsStored request.identity checker_validated s.db)
          (concluded agents hash policies cell request m a v x)
          Ends
  concluded-Ends m a v (inl e) h valid stored covered =
      Leads-next (in_db (complete request.identity Completion.failed)) (λ _. Leads-throw e)
  concluded-Ends m a v (inr t) h valid stored covered =
      finish-Ends m a v t valid stored covered (terminal_state-verified cell m v t h)

  judge-Ends :
      (m : MakerArtifact) (a : Artifact) (v : CheckedVerdict)
      → IsValidated m
      → IsStoredAs m a
      → Leads Any (judge agents hash policies cell request m a v) Ends
  unfolding judge
  judge-Ends m a v valid stored =
      Leads-if (covers a v)
        (λ covered.
          Leads-bind (λ _ s. IsStored request.identity checker_validated s.db) Ends
            (in_db-Leads
              (validate_checker hash request.identity request.checker_artifact_id v.verdict) _
              (validate_checker-IsStored request.identity hash request.checker_artifact_id
                v.verdict))
            (λ _. concluded-Ends m a v (terminal_state cell m v) refl valid stored covered))
        (λ _.
          Leads-next (in_db (fail request.identity checker_running "checker_rejected" false))
            (λ _. Leads-throw _))

  check_rounds-Ends :
      (m : MakerArtifact) (a : Artifact) (v : Option CheckedVerdict) (left : ℕ)
      → IsValidated m
      → IsStoredAs m a
      → Leads Any (check_rounds agents hash policies cell request m a v left) Ends
  unfolding check_rounds
  check_rounds-Ends m a (some v) left valid stored = judge-Ends m a v valid stored
  check_rounds-Ends m a none zero valid stored = Leads-throw _
  check_rounds-Ends m a none (suc left) valid stored =
      Leads-next (throw_some agents hash policies cell request (agents.task_error a)) (λ _.
        Leads-next (tried (ask checker (agents.ask_checker a)))
          (decided-Ends (λ v. check_rounds-Ends m a (some v) left valid stored)))
    where
      decided-Ends :
          ((v : CheckedVerdict)
            → Leads Any (check_rounds agents hash policies cell request m a (some v) left) Ends)
          → (x : Thrown ⊎ Decision)
          → Leads Any
              (decided agents hash policies cell request a
                (λ v. check_rounds agents hash policies cell request m a (some v) left)
                x)
              Ends
      decided-Ends rest (inl e) = agent_failed-Ends checker_running (a ∷ []) checker_generation e
      decided-Ends rest (inr d) = rest (covering a d)

  check-Ends :
      (checks : ℕ) (m : MakerArtifact)
      → IsValidated m
      → Leads Any (check agents hash policies cell request checks m) Ends
  unfolding check
  check-Ends checks m valid =
      Leads-bind (λ a _. IsStoredAs m a) Ends
        (in_db-Gives _ (IsStoredAs m)
          (validate_maker-hash request.identity hash request.maker_artifact_id _ (agents.encode m)))
        (λ a. Leads-given (λ stored.
          Leads-next (in_db (begin_checker request.identity))
            (λ _. check_rounds-Ends m a none checks valid stored)))

  validated-Ends :
      (checks : ℕ) (x : Thrown ⊎ MakerArtifact)
      → Leads (λ _. Gives IsValidated x) (validated agents hash policies cell request checks x) Ends
  validated-Ends checks (inl e) =
      Leads-weaken (agent_failed-Ends maker_running [] maker_validation e)
  validated-Ends checks (inr m) = Leads-given (check-Ends checks m)

  generated-Ends :
      (checks : ℕ) (x : Thrown ⊎ MakerArtifact)
      → Leads Any (generated agents hash policies cell request checks x) Ends
  generated-Ends checks (inl e) = agent_failed-Ends maker_running [] maker_generation e
  generated-Ends checks (inr raw) =
      Leads-bind (λ x _. Gives IsValidated x) Ends
        (tried-Leads IsValidated (validated_output-IsValidated raw)) (validated-Ends checks)

  -- What a round of the maker's loop gives, if it returns.
  abbrev Round : ℕ ⊎ WorkCellResult → Session W → Type 0
  Round (inl checks) s = Unit
  Round (inr r) s = Ends r s

  maker_round-Ends :
      (checks : ℕ) → Leads Any (maker_round agents hash policies cell request checks) Round
  unfolding maker_round
  maker_round-Ends checks =
      Leads-bind Ends Round
        (Leads-next (tried (ask maker agents.ask_maker)) (generated-Ends checks))
        (λ r. Leads-return Round (inr r) (λ s p. p))

  maker_rounds-Ends :
      (left checks : ℕ) (b : Bool)
      → Leads Any (maker_rounds agents hash policies cell request left checks b) Ends
  unfolding maker_rounds
  maker_rounds-Ends zero checks b = Leads-throw _
  maker_rounds-Ends (suc left) checks b =
      Leads-next (begin_first agents hash policies cell request b) (λ _.
        Leads-bind Round Ends (maker_round-Ends checks)
          (next (λ c. maker_rounds-Ends left c false)))
    where
      next :
          ((c : ℕ) → Leads Any (maker_rounds agents hash policies cell request left c false) Ends)
          → (x : ℕ ⊎ WorkCellResult)
          → Leads
              (Round x)
              (next_round agents hash policies cell request
                (λ c. maker_rounds agents hash policies cell request left c false)
                x)
              Ends
      next rest (inl c) = Leads-weaken (rest c)
      next rest (inr r) = Leads-return Ends r (λ s p. p)

  execute_work_cell-Ends : Leads Any (execute_work_cell agents hash policies cell request) Ends
  unfolding execute_work_cell
  execute_work_cell-Ends = Leads-next (throw_if _ _) (λ _.
      Leads-next (resolve policies cell.maker_policy) (λ maker_policy.
        Leads-next (resolve policies cell.checker_policy) (λ checker_policy.
          Leads-next (throw_if _ _) (λ _. Leads-next (in_db (create_task _)) (λ _.
            Leads-next
              (in_db (
                select_contract policies request.identity request.skill cell.input_schema
                  cell.output_schema maker_policy.identity))
              (λ _. maker_rounds-Ends attempt_limit attempt_limit true))))))

  module _ (s t : Session W) (r : WorkCellResult) where
    -- If a run of a work cell returns, the database holds the task in the status that the result
    -- reports: the result's own status, or `checker_validated` where a checked mutation is still
    -- required.
    pub execute_work_cell-Reports :
        execute_work_cell agents hash policies cell request s ≡ done r t
        → Reports agents hash policies cell request r t
    execute_work_cell-Reports e = (execute_work_cell-Ends.leads s t r tt e).0

    -- If a run of a work cell returns a `verified` result, the result holds one artifact and one
    -- verdict that accepts and covers it, the artifact is one of the task with the content hash of
    -- the accepted answer of the maker, and that answer has claims, uses permitted evidence only and
    -- has the output schema that the work cell asks for.
    pub execute_work_cell-IsChecked :
        execute_work_cell agents hash policies cell request s ≡ done r t
        → r.status ≡ Completion.verified
        → IsChecked r
    execute_work_cell-IsChecked e h = (execute_work_cell-Ends.leads s t r tt e).1 h
