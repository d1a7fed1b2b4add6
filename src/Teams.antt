-- ===== src/Teams.antt =====
-- packages/runtime/src/teams/definitions.ts, with the maker's artifact of
-- packages/contracts/src/invocations.ts: work cells, what their agents answer and what a run of one
-- results in. Texts for people, roles' agent identifiers and rubrics are left out.
pub mod Failures
pub mod Outputs
pub mod Executor
use plus_one.Common.{
  ℕ, String, Bool, not, List, Option, none, some, str_eq, any, ◌&&◌, ◌==◌, ◌⊎◌, keep, map, [], ◌∷◌,
  if◌then◌else◌, true, false,
}
use plus_one.Common.Errors.{Thrown, failure, validation_rejected, never}
use plus_one.Storage.{SchemaIdentity, PolicyIdentity, Artifact, VerdictKind, Verdict}
use plus_one.Verification.{Completion}
use plus_one.Teams.Failures.{ExecutionFailure}

pub record QueryResult : Type 0 where
  pub relation_name : String
  pub row_count : ℕ

-- What the runtime reads of a maker's JSON output: its canonical text, its properties where they
-- have the type that is asked for (an entry of `questions` that is no string is `none`), and what
-- QueryResultSchemaV1.safeParse makes of it.
pub record Output : Type 0 where
  pub text : String
  pub schema_name : Option String
  pub schema_version : Option ℕ
  pub reason : Option String
  pub questions : List (Option String)
  pub query_result : Option QueryResult

-- The text of a claim: the maker's, or the summary of a query result.
pub data ClaimText : Type 0 where
  written : String → ClaimText
  query_summary : QueryResult → ClaimText

pub record Claim : Type 0 where
  pub claim_id : String
  pub text : ClaimText
  pub evidence_artifact_ids : List String

pub record MakerArtifact : Type 0 where
  pub output_schema : SchemaIdentity
  pub output : Output
  pub claims : List Claim

pub record Finding : Type 0 where
  pub code : List ℕ
  pub message : String

-- CheckerDecisionSchemaV1.
pub record Decision : Type 0 where
  pub kind : VerdictKind
  pub findings : List Finding

pub record CheckedVerdict : Type 0 where
  pub verdict : Verdict
  pub findings : List Finding

pub data Confirmation : Type 0 where
  required optional forbidden : Confirmation

pub record Proposal : Type 0 where
  pub schema : SchemaIdentity
  pub confirmation : Confirmation

pub record Evaluation : Type 0 where
  pub status : Completion
  pub reason : String
  pub outstanding : List String

-- An effect policy of kind `none` has no proposals. The schemas and the stop condition are the
-- work cell's own code.
pub record WorkCell : Type 0 where
  pub work_cell_id : String
  pub maker_policy : PolicyIdentity
  pub checker_policy : PolicyIdentity
  pub input_schema : SchemaIdentity
  pub output_schema : SchemaIdentity
  pub proposals : List Proposal
  pub allowed_skill_names : List String
  pub accepts_input : String → Bool
  pub accepts_output : Output → Bool
  pub evaluate_stop_condition : MakerArtifact → CheckedVerdict → Thrown ⊎ Evaluation

-- CheckedWorkCellResult, without the mutation that the lead adds later. `effect` is the checked
-- mutation that is required, if one is; the result is then `checked_mutation_pending`.
pub record WorkCellResult : Type 0 where
  pub status : Completion
  pub effect : Option Proposal
  pub maker_artifacts : List Artifact
  pub checker_verdicts : List CheckedVerdict
  pub accepted_maker : Option MakerArtifact
  pub failure : Option ExecutionFailure
  pub outstanding : List String

abbrev pub same_schema : SchemaIdentity → SchemaIdentity → Bool
same_schema a b = str_eq a.schema_name b.schema_name && a.schema_version == b.schema_version

abbrev pub schema_identity_mismatch : Thrown
schema_identity_mismatch =
    failure validation_rejected "maker_output_schema_identity_mismatch" never false
