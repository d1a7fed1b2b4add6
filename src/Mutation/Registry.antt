-- ===== src/Mutation/Registry.antt =====
-- packages/mutations/src/command-registry.ts: the allowlist of mutation commands. The registry's
-- state is the list of handlers registered so far, newest first. What a handler's input schema
-- parses, and its code, belong to the handler: `I` stands for parsed inputs.
pub mod Prepared
use plus_one.Common.{
  ℕ, String, Bool, true, false, not, Option, none, some, is_some, List, [], ◌∷◌, any, find, str_eq,
  if◌then◌else◌, ◌&&◌, ◌==◌,
}
use plus_one.Common.Errors.{
  failure, other_error, policy_rejected, validation_rejected, confirmation_required, never,
  after_state_resolution,
}
use plus_one.Common.Effects.{Call, Outcome, done, threw}

pub data CheckKind : Type 0 where
  identifiers row_values balances source_links artifact_links idempotency_receipt : CheckKind

abbrev pub is_idempotency_receipt : CheckKind → Bool
is_idempotency_receipt idempotency_receipt = true
is_idempotency_receipt _ = false

pub data Confirmation : Type 0 where
  required optional forbidden : Confirmation

abbrev is_required : Confirmation → Bool
is_required required = true
is_required _ = false

abbrev is_forbidden : Confirmation → Bool
is_forbidden forbidden = true
is_forbidden _ = false

pub record Handler (I : Type 0) : Type 0 where
  pub command_type : String
  pub schema_name : String
  pub schema_version : ℕ
  pub confirmation : Confirmation
  pub required_checks : List CheckKind
  pub parse : String → Option I  -- inputSchema.parse

pub record Request : Type 0 where
  pub command_type : String
  pub schema_name : String
  pub schema_version : ℕ
  pub payload : String
  pub confirmation_id : Option String

module _ {I : Type 0} where
  abbrev pub has_type : String → Handler I → Bool
  has_type type handler = str_eq handler.command_type type

  -- The body of the constructor's loop.
  unfoldable pub add_handler : Handler I → Call (List (Handler I)) (Unit {0})
  add_handler handler registry =
      if any (has_type handler.command_type) registry
      then threw (other_error "Duplicate command type") registry
      else if not (any is_idempotency_receipt handler.required_checks)
      then threw (other_error "Mutation handlers must require idempotency_receipt read-back")
          registry
      else done tt (handler ∷ registry)

  unfoldable pub add_all : List (Handler I) → Call (List (Handler I)) (Unit {0})
  add_all [] registry = done tt registry
  add_all (handler ∷ rest) registry = elim (add_handler handler registry) [
    | done _ more ↦ add_all rest more
    | threw e same ↦ threw e same
  ]

  abbrev pub parsed : Handler I → Option I → Call (List (Handler I)) (Handler I × I)
  parsed handler none registry = threw (other_error "ZodError") registry
  parsed handler (some input) registry = done (handler, input) registry

  unfoldable pub check_handler : Request → Handler I → Call (List (Handler I)) (Handler I × I)
  check_handler request handler registry =
      if not (
        str_eq handler.schema_name request.schema_name
        && handler.schema_version == request.schema_version)
      then threw
          (failure validation_rejected "mutation_command_schema_identity_mismatch" never false)
          registry
      else if is_required handler.confirmation && not (is_some request.confirmation_id)
      then threw
          (failure confirmation_required "external_confirmation_required" after_state_resolution
            false)
          registry
      else if is_forbidden handler.confirmation && is_some request.confirmation_id
      then threw (failure validation_rejected "unexpected_confirmation_reference" never false)
          registry
      else parsed handler (handler.parse request.payload) registry

  unfoldable pub prepare : Request → Call (List (Handler I)) (Handler I × I)
  prepare request registry = elim (find (has_type request.command_type) registry) [
    | none ↦ threw (failure policy_rejected "mutation_command_not_allowlisted" never false) registry
    | some handler ↦ check_handler request handler registry
  ]
