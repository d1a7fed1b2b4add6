-- ===== src/Mutation/Commands/Moves.antt =====
-- The changes of a command's status in packages/database/src/repositories/operations/
-- mutation-command-repository.ts.
use plus_one.Common.{String, Bool, ◌&&◌, some, any, map, if◌then◌else◌, true}
use plus_one.Common.Errors.{Thrown, failure, serialization_conflict, after_state_resolution}
use plus_one.Common.Effects.{Call, done, threw}
use plus_one.Mutation.Commands.{Books, Command, CommandStatus, has_command_id, is_status}

abbrev pub waits : String → String → CommandStatus → Command → Bool
waits h id from c = has_command_id h id c && is_status c.status from

abbrev pub state_conflict : Thrown
state_conflict =
    failure serialization_conflict "mutation_command_state_conflict" after_state_resolution true

-- UPDATE … WHERE command.status = …, which must change a row.
unfoldable pub update_waiting :
    String → String → CommandStatus → (Command → Command) → Call Books (Unit {0})
update_waiting h id from change books =
    if any (waits h id from) books.commands
    then done tt (record books {
      commands = map (λ c. if waits h id from c then change c else c) books.commands;
    })
    else threw state_conflict books

abbrev pub pending_command : Command → Command
pending_command c = record c { status = CommandStatus.execution_pending }

abbrev pub failed_command : String → Command → Command
failed_command code c = record c {
  status = CommandStatus.execution_failed;
  failure_category = some code;
}

abbrev pub mark_execution_pending : String → String → Call Books (Unit {0})
mark_execution_pending h id = update_waiting h id CommandStatus.registered pending_command

abbrev pub mark_execution_failed : String → String → String → Call Books (Unit {0})
mark_execution_failed h id code =
    update_waiting h id CommandStatus.execution_pending (failed_command code)
