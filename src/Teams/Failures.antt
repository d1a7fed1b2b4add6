-- ===== src/Teams/Failures.antt =====
-- packages/runtime/src/execution/execution-failure.ts: how an error or a checker's rejection is told
-- to the lead. A code is the list of its characters; case is changed for ASCII letters only.
pub mod Codes
use Prim.Native.Char.{code}
use Prim.Native.String.{String}
use plus_one.Common.{
  ℕ, Bool, not, List, [], ◌∷◌, Option, none, some, str_eq, any, all, ◌&&◌, ◌||◌, ◌==◌, leb, map,
  if◌then◌else◌, length, true, false, zero, suc, ◌+◌,
}
use plus_one.Common.Errors.{
  Thrown, PlusOneError, plus_one_error, other_error, ErrorCategory, RetryDirective, safe, never,
  after_backoff,
}
use plus_one.Common.Effects.{Call, return, throw_if, ◌>>◌}

abbrev pub codes : String → List ℕ
codes String.[] = []
codes (String.◌∷◌ c s) = code c ∷ codes s

abbrev pub is_lower : ℕ → Bool
is_lower c = leb b'a' c && leb c b'z'

-- [a-z0-9_]
abbrev pub is_code_char : ℕ → Bool
is_code_char c = is_lower c || leb b'0' c && leb c b'9' || c == b'_'

abbrev is_upper : ℕ → Bool
is_upper c = leb b'A' c && leb c b'Z'

abbrev pub to_lower : ℕ → ℕ
to_lower c = if is_upper c then c + 32 else c

abbrev pub is_space : ℕ → Bool
is_space c = c == b' ' || leb 9 c && leb c 13

abbrev pub is_underscore : ℕ → Bool
is_underscore c = c == b'_'

abbrev pub strip_start : (ℕ → Bool) → List ℕ → List ℕ
strip_start p [] = []
strip_start p (c ∷ cs) = let rest = strip_start p cs in if p c then rest else c ∷ cs

-- A character before what is left of a text whose end is stripped.
abbrev pub put_before : (ℕ → Bool) → ℕ → List ℕ → List ℕ
put_before p c [] = if p c then [] else c ∷ []
put_before p c (d ∷ ds) = c ∷ d ∷ ds

abbrev pub strip_end : (ℕ → Bool) → List ℕ → List ℕ
strip_end p [] = []
strip_end p (c ∷ cs) = put_before p c (strip_end p cs)

-- replace(/[^a-z0-9_]+/g, '_'); `within` tells that the run of other characters began before.
abbrev pub underscored : Bool → List ℕ → List ℕ
underscored within [] = []
underscored within (c ∷ cs) =
    let rest = underscored (not (is_code_char c)) cs in
    if is_code_char c then c ∷ rest else if within then rest else b'_' ∷ rest

abbrev pub take : ℕ → List ℕ → List ℕ
take zero cs = []
take (suc n) [] = []
take (suc n) (c ∷ cs) = c ∷ take n cs

abbrev pub starts_lower : List ℕ → Bool
starts_lower [] = false
starts_lower (c ∷ cs) = is_lower c

abbrev pub joined : List ℕ → List ℕ
joined cs = underscored false (map to_lower (strip_end is_space (strip_start is_space cs)))

abbrev pub normalized : List ℕ → List ℕ
normalized cs = strip_end is_underscore (strip_start is_underscore (joined cs))

unfoldable pub normalize_error_code : List ℕ → List ℕ
normalize_error_code cs =
    if starts_lower (normalized cs) then take 128 (normalized cs) else codes "execution_failed"

-- z.string().regex(/^[a-z][a-z0-9_]+$/).max(128)
abbrev pub is_code : List ℕ → Bool
is_code cs = starts_lower cs && all is_code_char cs && leb 2 (length cs) && leb (length cs) 128

pub data Phase : Type 0 where
  lead_planning maker_generation maker_validation checker_generation checker_validation : Phase
  checker_rejection execution : Phase

-- The path of an issue: that of a schema's issue, or `checker.findings.n`.
pub data IssuePath : Type 0 where
  schema_path : String → IssuePath
  finding_path : ℕ → IssuePath

pub record Issue : Type 0 where
  pub path : IssuePath
  pub code : List ℕ

pub record ExecutionFailure : Type 0 where
  pub phase : Phase
  pub category : ErrorCategory
  pub code : List ℕ
  pub retry : RetryDirective
  pub issues : List Issue

-- LeadExecutionFailureSchemaV1.parse, for the codes.
abbrev pub parse_failure {ν} : {S : Type ν} → ExecutionFailure → Call S ExecutionFailure
parse_failure f =
    throw_if (not (is_code f.code && all (λ (i : Issue). is_code i.code) f.issues))
      (other_error "ZodError")
    >> return f

abbrev is_generic : PlusOneError → Bool
is_generic e = any (str_eq e.code) ("agent_model_failed" ∷ "agent_tool_failed" ∷ [])

-- The body of the walk down the causes: what is selected so far, and the next error.
abbrev select_error : Option PlusOneError → PlusOneError → Option PlusOneError
select_error none e = some e
select_error (some before) e = if is_generic e then some before else some e

abbrev pub specific_from : Option PlusOneError → List Thrown → Option PlusOneError
specific_from selected [] = selected
specific_from selected (plus_one_error e ∷ causes) = specific_from (select_error selected e) causes
specific_from selected (_ ∷ causes) = specific_from selected causes

-- `mostSpecificPlusOneError`, of an error followed by its causes.
abbrev pub most_specific : List Thrown → Option PlusOneError
most_specific errors = specific_from none errors

abbrev take_issues : ℕ → List Issue → List Issue
take_issues zero is = []
take_issues (suc n) [] = []
take_issues (suc n) (i ∷ is) = i ∷ take_issues n is

abbrev normal_issue : Issue → Issue
normal_issue i = record i { code = normalize_error_code i.code }

-- The failure that is parsed; the issues are there if the error is a `ZodError`.
abbrev pub failure_of : Phase → Option PlusOneError → Option (List Issue) → ExecutionFailure
failure_of phase (some e) zod = record {
  phase = phase;
  category = e.category;
  code = normalize_error_code (codes e.code);
  retry = e.retry;
  issues = [];
}
failure_of phase none (some issues) = record {
  phase = phase;
  category = ErrorCategory.validation_rejected;
  code = codes "agent_output_schema_failed";
  retry = safe;
  issues = map normal_issue (take_issues 16 issues);
}
failure_of phase none none = record {
  phase = phase;
  category = ErrorCategory.runtime_failure;
  code = codes "execution_failed";
  retry = after_backoff;
  issues = [];
}

-- The error comes with its causes, and with its issues if it is a `ZodError`.
unfoldable pub normalize_execution_failure {ν} :
    {S : Type ν} → Phase → List Thrown → Option (List Issue) → Call S ExecutionFailure
normalize_execution_failure phase errors zod =
    parse_failure (failure_of phase (most_specific errors) zod)

abbrev finding_issues : ℕ → List (List ℕ) → List Issue
finding_issues n [] = []
finding_issues n (c ∷ cs) =
    record { path = finding_path n; code = normalize_error_code c } ∷ finding_issues (suc n) cs

-- `normalizeCheckerFailure`, of a verdict's findings by their codes.
unfoldable pub normalize_checker_failure {ν} :
    {S : Type ν} → (is_revision : Bool) → List (List ℕ) → Call S ExecutionFailure
normalize_checker_failure is_revision findings = parse_failure (record {
  phase = checker_rejection;
  category = ErrorCategory.checker_rejected;
  code = codes (if is_revision then "checker_revision_requested" else "checker_rejected");
  retry = if is_revision then safe else never;
  issues = take_issues 16 (finding_issues 0 findings);
})
