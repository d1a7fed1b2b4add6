-- ===== src/Policy.antt =====
-- packages/contracts/src/runtime.ts (RuntimePolicySchemaV1) and
-- packages/runtime/src/runtime-policy.ts: the runtime policies that a deployment registers. The
-- registry's state is the list of policies registered so far, newest first.
pub mod Laws
use plus_one.Common.{
  ℕ, String, Bool, not, List, [], ◌∷◌, Option, none, some, str_eq, find, any, all, leb, keep, false,
  if◌then◌else◌, true, ◌&&◌, ◌==◌,
}
use plus_one.Common.Errors.{failure, other_error, validation_rejected, never}
use plus_one.Common.Effects.{Call, done, threw}
use plus_one.Storage.{PolicyIdentity}

pub data Capability : Type 0 where
  structured_output tool_calling web_research long_context vision : Capability

abbrev capability_index : Capability → ℕ
capability_index structured_output = 0
capability_index tool_calling = 1
capability_index web_research = 2
capability_index long_context = 3
capability_index vision = 4

abbrev pub same_capability : Capability → Capability → Bool
same_capability a b = capability_index a == capability_index b

pub record RuntimePolicy : Type 0 where
  pub identity : PolicyIdentity
  pub required_capabilities : List Capability
  pub primary_model : String
  pub fallback_models : List String
  pub max_model_steps : ℕ
  pub max_tool_concurrency : ℕ
  pub max_attempts : ℕ
  pub max_model_request_retries : ℕ
  pub max_processor_retries : ℕ
  pub max_sandbox_reproductions : ℕ
  pub call_deadline_ms : ℕ
  pub team_deadline_ms : ℕ
  pub end_to_end_deadline_ms : ℕ
  pub max_output_bytes : ℕ

abbrev is_empty {ℓ} : {A : Type ℓ} → List A → Bool
is_empty [] = true
is_empty (x ∷ xs) = false

limits_positive : RuntimePolicy → Bool
limits_positive p =
    not (is_empty p.required_capabilities)
    && leb 1 p.max_model_steps
    && leb 1 p.max_tool_concurrency
    && leb 1 p.max_attempts
    && leb 1 p.call_deadline_ms
    && leb 1 p.team_deadline_ms
    && leb 1 p.end_to_end_deadline_ms
    && leb 1 p.max_output_bytes

abbrev deadlines_ordered : RuntimePolicy → Bool
deadlines_ordered p =
    leb p.call_deadline_ms p.team_deadline_ms && leb p.team_deadline_ms p.end_to_end_deadline_ms

-- RuntimePolicySchemaV1, but for the lengths of the model names.
unfoldable pub is_well_formed : RuntimePolicy → Bool
unfolding limits_positive
is_well_formed p = deadlines_ordered p && limits_positive p

-- What the deployment says each model can do.
abbrev pub Models : Type 0
Models = List (String × List Capability)

abbrev pub capabilities_of : Models → String → List Capability
capabilities_of [] model = []
capabilities_of ((name, caps) ∷ rest) model =
    if str_eq name model then caps else capabilities_of rest model

unfoldable pub supports : Models → List Capability → String → Bool
supports models required model =
    all (λ c. any (same_capability c) (capabilities_of models model)) required

abbrev pub models_of : RuntimePolicy → List String
models_of p = p.primary_model ∷ p.fallback_models

abbrev pub same_identity : PolicyIdentity → PolicyIdentity → Bool
same_identity a b = str_eq a.policy_name b.policy_name && a.policy_version == b.policy_version

abbrev pub has_identity : PolicyIdentity → RuntimePolicy → Bool
has_identity identity p = same_identity p.identity identity

-- The body of the constructor's loop.
unfoldable pub register : Models → RuntimePolicy → Call (List RuntimePolicy) (Unit {0})
register models p registry =
    if not (is_well_formed p)
    then threw (other_error "ZodError") registry
    else if not (all (supports models p.required_capabilities) (models_of p))
    then threw (failure validation_rejected "model_capability_mismatch" never false) registry
    else if any (has_identity p.identity) registry
    then threw (other_error "Duplicate runtime policy") registry
    else done tt (p ∷ registry)

unfoldable pub register_all : Models → List RuntimePolicy → Call (List RuntimePolicy) (Unit {0})
unfolding register
register_all models [] registry = done tt registry
register_all models (p ∷ ps) registry = elim (register models p registry) [
  | done _ more ↦ register_all models ps more
  | threw e same ↦ threw e same
]

unfoldable pub resolve {ν} :
    {S : Type ν} → List RuntimePolicy → PolicyIdentity → Call S RuntimePolicy
resolve registry identity s = elim (find (has_identity identity) registry) [
  | none ↦ threw (failure validation_rejected "runtime_policy_not_found" never false) s
  | some p ↦ done p s
]
