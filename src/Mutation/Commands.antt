-- ===== src/Mutation/Commands.antt =====
-- packages/database/src/repositories/operations/mutation-command-repository.ts: the commands that
-- are registered for checked proposals, and their states. A payload is its `stableJson` text, and
-- the triggers and remaining constraints of the command table (database/migrations/
-- 0005_checked_mutations.sql) are the parameter `rejects`.
pub mod Replay
pub mod Moves
use plus_one.Common.{
  ℕ, String, Bool, true, false, not, Option, none, some, List, ◌∷◌, find, any, map, str_eq,
  if◌then◌else◌, ◌&&◌, ◌||◌, ◌==◌, same_option,
}
use plus_one.Common.Errors.{
  Thrown, failure, database_error, validation_rejected, duplicate_replay, serialization_conflict,
  never, after_state_resolution,
}
use plus_one.Common.Effects.{Call, Outcome, done, threw}
use plus_one.Database.{normalize_mutation_database_error}
use plus_one.Storage.{Db}

pub data CommandStatus : Type 0 where
  registered execution_pending committed readback_verified execution_failed readback_failed :
      CommandStatus

abbrev status_index : CommandStatus → ℕ
status_index registered = 0
status_index execution_pending = 1
status_index committed = 2
status_index readback_verified = 3
status_index execution_failed = 4
status_index readback_failed = 5

abbrev pub is_status : CommandStatus → CommandStatus → Bool
is_status a b = status_index a == status_index b

-- CheckedCommandV1, with the caller's `confirmationRequired`.
pub record CheckedCommand : Type 0 where
  pub command_id : String
  pub household_id : String
  pub task_id : String
  pub command_type : String
  pub checked_proposal_id : String
  pub checked_proposal_hash : String
  pub idempotency_key : String
  pub confirmation_required : Bool
  pub confirmation_id : Option String
  pub schema_name : String
  pub schema_version : ℕ
  pub payload : String

pub record Command : Type 0 where
  pub envelope : CheckedCommand
  pub status : CommandStatus
  pub failure_category : Option String

-- A row of operations.external_confirmations, by what tells it apart.
pub record ConfirmationRow : Type 0 where
  pub household_id : String
  pub confirmation_id : String

-- The ledger's tables, the confirmations, and the command table, newest command first.
pub record Books : Type 0 where
  pub ledger : Db
  pub confirmations : List ConfirmationRow
  pub commands : List Command

abbrev pub has_idempotency_key : String → String → Command → Bool
has_idempotency_key h key c =
    str_eq c.envelope.household_id h && str_eq c.envelope.idempotency_key key

abbrev pub has_command_id : String → String → Command → Bool
has_command_id h id c = str_eq c.envelope.household_id h && str_eq c.envelope.command_id id

abbrev pub has_public_id : String → Command → Bool
has_public_id id c = str_eq c.envelope.command_id id

abbrev pub has_proposal : CheckedCommand → Command → Bool
has_proposal input c =
    str_eq c.envelope.household_id input.household_id
    && str_eq c.envelope.checked_proposal_id input.checked_proposal_id
    && str_eq c.envelope.checked_proposal_hash input.checked_proposal_hash

abbrev pub find_by_idempotency : String → String → Books → Option Command
find_by_idempotency h key books = find (has_idempotency_key h key) books.commands

abbrev pub find_by_command_id : String → String → Books → Option Command
find_by_command_id h id books = find (has_command_id h id) books.commands

unfoldable pub same_envelope : Command → CheckedCommand → Bool
same_envelope found input =
    let e = found.envelope in
    str_eq e.command_id input.command_id
    && str_eq e.task_id input.task_id
    && str_eq e.command_type input.command_type
    && str_eq e.checked_proposal_id input.checked_proposal_id
    && str_eq e.checked_proposal_hash input.checked_proposal_hash
    && same_bool e.confirmation_required input.confirmation_required
    && same_option e.confirmation_id input.confirmation_id
    && str_eq e.schema_name input.schema_name
    && e.schema_version == input.schema_version
    && str_eq e.payload input.payload
  where
    same_bool : Bool → Bool → Bool
    same_bool a b = if a then b else not b

abbrev pub validate_replay : Command → CheckedCommand → Call Books Command
validate_replay found input books =
    if same_envelope found input
    then done found books
    else threw (failure duplicate_replay "idempotency_key_reused" never true) books

abbrev normalize_proposal : Bool → Thrown → Thrown
normalize_proposal true e = failure duplicate_replay "checked_proposal_already_commanded" never true
normalize_proposal false e = normalize_mutation_database_error e

unfoldable pub normalize_registration_error : Thrown → Thrown
normalize_registration_error (database_error state constraint) =
    normalize_proposal
      (str_eq state "23505" && str_eq constraint "mutation_commands_checked_proposal_once")
      (database_error state constraint)
normalize_registration_error e = normalize_mutation_database_error e

abbrev pub new_command : CheckedCommand → Command
new_command input = record { envelope = input; status = registered; failure_category = none }

abbrev is_confirmation : String → String → ConfirmationRow → Bool
is_confirmation h id row = str_eq row.household_id h && str_eq row.confirmation_id id

-- LEFT JOIN operations.external_confirmations: an identifier without a row is NULL.
abbrev pub joined_confirmation : String → Option String → List ConfirmationRow → Option String
joined_confirmation h none rows = none
joined_confirmation h (some id) rows = if any (is_confirmation h id) rows then some id else none

-- The row that is stored; the record that `register` returns has the confirmation as it was given.
abbrev pub stored_command : CheckedCommand → Books → Command
stored_command input books = new_command (record input {
  confirmation_id =
      joined_confirmation input.household_id input.confirmation_id books.confirmations;
})

abbrev pub is_replay_conflict : Thrown → Bool
is_replay_conflict (database_error state constraint) =
    str_eq state "23505"
    && (str_eq constraint "mutation_commands_public_unique"
        || str_eq constraint "mutation_commands_idempotency_unique")
is_replay_conflict _ = false

abbrev pub replay_or : CheckedCommand → Thrown → Option Command → Call Books Command
replay_or input e (some found) after = validate_replay found input after
replay_or input e none after = threw (normalize_registration_error e) after

-- The `catch` block of `register`.
unfoldable pub recover : CheckedCommand → Thrown → Call Books Command
recover input e after =
    if is_replay_conflict e
    then replay_or input e (find_by_idempotency input.household_id input.idempotency_key after)
        after
    else threw (normalize_registration_error e) after

module _ (rejects : CheckedCommand → Books → Option Thrown) where
  -- INSERT … SELECT … FROM operations.households LEFT JOIN …, with the uniqueness constraints.
  unfoldable pub insert_command : CheckedCommand → Call Books Command
  insert_command input books =
      if not (any (str_eq input.household_id) books.ledger.households)
      then threw (failure validation_rejected "mutation_command_household_not_found" never false)
          books
      else elim (rejects input books) [
        | some e ↦ threw e books
        | none ↦
            if any (has_public_id input.command_id) books.commands
            then threw (database_error "23505" "mutation_commands_public_unique") books
            else if any (has_idempotency_key input.household_id input.idempotency_key)
                books.commands
            then threw (database_error "23505" "mutation_commands_idempotency_unique") books
            else if any (has_proposal input) books.commands
            then threw (database_error "23505" "mutation_commands_checked_proposal_once") books
            else done (new_command input)
                (record books { commands = stored_command input books ∷ books.commands })
      ]

  -- `others` is what other processes committed between the first look and the INSERT.
  unfoldable pub register : (others : Books → Books) → CheckedCommand → Call Books Command
  register others input books =
      elim (find_by_idempotency input.household_id input.idempotency_key books) [
        | some found ↦ validate_replay found input books
        | none ↦ elim (insert_command input (others books)) [
          | done c after ↦ done c after
          | threw e after ↦ recover input e after
        ]
      ]
