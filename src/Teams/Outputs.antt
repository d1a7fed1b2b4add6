-- ===== src/Teams/Outputs.antt =====
-- packages/runtime/src/execution/team-executor.ts: what a run of a work cell reads of a maker's output
-- and of a checker's verdict, without any effect.
use plus_one.Common.{
  String, Bool, not, List, [], ◌∷◌, Option, none, some, str_eq, find, any, all, ◌&&◌, ◌||◌, ◌==◌,
  if◌then◌else◌, map, keep, ◌⊎◌, inl, inr, true, false,
}
use plus_one.Common.Errors.{
  Thrown, plus_one_error, other_error, failure, validation_rejected, never,
}
use plus_one.Storage.{Artifact, VerdictKind}
use plus_one.Ledger.Verdicts.{is_kind}
use plus_one.Verification.{Completion, is_verified}
use plus_one.Teams.{
  Output, QueryResult, Claim, query_summary, MakerArtifact, Finding, Decision, CheckedVerdict,
  Proposal, Evaluation, WorkCell,
}

abbrev pub zod_error : Thrown
zod_error = other_error "ZodError"

abbrev pub is_empty : {A : Type 0} → List A → Bool
is_empty [] = true
is_empty (x ∷ xs) = false

abbrev pub ends_with : String → String → Bool
ends_with suffix String.[] = str_eq String.[] suffix
ends_with suffix (String.◌∷◌ c s) = str_eq (String.◌∷◌ c s) suffix || ends_with suffix s

abbrev pub strings : List (Option String) → List String
strings [] = []
strings (none ∷ os) = strings os
strings (some s ∷ os) = s ∷ strings os

abbrev pub or_string : Option String → String → String
or_string none s = s
or_string (some r) s = r

abbrev pub or_list : List String → List String → List String
or_list [] ys = ys
or_list (x ∷ xs) ys = x ∷ xs

abbrev pub clarifying : Output → Evaluation
clarifying output =
    let reason = or_string output.reason "Maker requested clarification." in
    record {
      status = Completion.insufficient_evidence;
      reason = reason;
      outstanding = or_list (strings output.questions) (reason ∷ []);
    }

abbrev pub accepted_clarification : Output → Option Evaluation
accepted_clarification output = elim output.schema_name [
  | none ↦ none
  | some name ↦ if ends_with "clarification" name then some (clarifying output) else none
]

abbrev pub summary_claim : QueryResult → Claim
summary_claim result = record {
  claim_id = "query-result-summary";
  text = query_summary result;
  evidence_artifact_ids = [];
}

abbrev pub with_summary : MakerArtifact → Option QueryResult → MakerArtifact
with_summary m none = m
with_summary m (some result) = record m { claims = summary_claim result ∷ [] }

abbrev pub synthesize_claims_if_needed : String → MakerArtifact → MakerArtifact
synthesize_claims_if_needed schema m =
    if not (is_empty m.claims) || not (str_eq schema "query-result")
    then m
    else with_summary m m.output.query_result

abbrev pub is_permitted : List String → String → Bool
is_permitted permitted id = any (str_eq id) permitted

abbrev pub retained_claim : List String → Claim → Claim
retained_claim permitted c = record c {
  evidence_artifact_ids = keep (is_permitted permitted) c.evidence_artifact_ids;
}

abbrev pub retain_permitted : List String → MakerArtifact → MakerArtifact
retain_permitted permitted m = record m { claims = map (retained_claim permitted) m.claims }

abbrev pub uses_permitted : List String → Claim → Bool
uses_permitted permitted c = all (is_permitted permitted) c.evidence_artifact_ids

abbrev pub outstanding_of : List Finding → List String
outstanding_of = map (λ (f : Finding). f.message)

abbrev pub terminal_for : CheckedVerdict → Evaluation
terminal_for v = elim v.verdict.kind [
  | VerdictKind.insufficient_evidence ↦ record {
    status = Completion.insufficient_evidence;
    reason = "The checker found required evidence absent or too weak.";
    outstanding = outstanding_of v.findings;
  }
  | VerdictKind.conflicted ↦ record {
    status = Completion.conflicted;
    reason = "The checker found irreconcilable checked evidence.";
    outstanding = outstanding_of v.findings;
  }
  | _ ↦ record {
    status = Completion.failed;
    reason = "The checker rejected the artifact or revision attempts were exhausted.";
    outstanding = outstanding_of v.findings;
  }
]

abbrev pub is_accepting : CheckedVerdict → Bool
is_accepting v = is_kind v.verdict.kind VerdictKind.accepted

abbrev pub proposes : Output → Proposal → Bool
proposes output p = elim output.schema_name [
  | none ↦ false
  | some name ↦ elim output.schema_version [
    | none ↦ false
    | some version ↦ str_eq p.schema.schema_name name && p.schema.schema_version == version
  ]
]

abbrev pub effect_requirement_for : WorkCell → Output → Option Proposal
effect_requirement_for cell output = find (proposes output) cell.proposals

-- The verdict that the runtime makes of a decision: it covers the maker's artifact.
abbrev pub covering : Artifact → Decision → CheckedVerdict
covering artifact d = record {
  verdict = record {
    kind = d.kind;
    covered_artifact_id = artifact.artifact_id;
    covered_artifact_hash = artifact.artifact_hash;
  };
  findings = d.findings;
}

abbrev pub covers : Artifact → CheckedVerdict → Bool
covers artifact v =
    str_eq v.verdict.covered_artifact_id artifact.artifact_id
    && str_eq v.verdict.covered_artifact_hash artifact.artifact_hash

-- The two parses of a terminal state and the guard on verified claims.
abbrev pub checked_terminal : MakerArtifact → Evaluation → Thrown ⊎ Evaluation
checked_terminal m e =
    if str_eq e.reason "" || any (str_eq "") e.outstanding
    then inl zod_error
    else if is_verified e.status && is_empty m.claims
    then inl (failure validation_rejected "verified_stop_without_claims" never false)
    else inr e

abbrev pub parsed_terminal : MakerArtifact → Thrown ⊎ Evaluation → Thrown ⊎ Evaluation
parsed_terminal m (inl e) = inl e
parsed_terminal m (inr t) = checked_terminal m t

abbrev pub evaluated : WorkCell → MakerArtifact → CheckedVerdict → Thrown ⊎ Evaluation
evaluated cell m v =
    if is_accepting v
    then elim (accepted_clarification m.output) [
      | some e ↦ inr e
      | none ↦ cell.evaluate_stop_condition m v
    ]
    else inr (terminal_for v)

unfoldable pub terminal_state : WorkCell → MakerArtifact → CheckedVerdict → Thrown ⊎ Evaluation
terminal_state cell m v = parsed_terminal m (evaluated cell m v)

abbrev pub outstanding_code : Thrown → List String
outstanding_code (plus_one_error e) = e.code ∷ []
outstanding_code _ = []

abbrev pub is_failed : Completion → Bool
is_failed Completion.failed = true
is_failed _ = false
