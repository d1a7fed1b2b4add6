-- ===== src/Gateway/Channel/Messages.antt =====
-- packages/runtime/src/gateway/channel-gateway.ts: a message that comes in, with `recordInboundMessage`
-- of packages/database/src/repositories/operations/delivery-scheduler.ts.
use plus_one.Common.{
  String, Bool, not, List, [], ◌∷◌, Option, none, some, ◌&&◌, if◌then◌else◌, true, false, str_eq,
  any,
}
use plus_one.Common.Errors.{failure, validation_rejected, never}
use plus_one.Common.Effects.{◌>>=◌, Call, done, threw, return, after}
use plus_one.Gateway.Turns.{Registry, Event, submits, is_busy, slot_or_empty, happen}
use plus_one.Gateway.Channel.{GatewayResult, duplicate, queued, closed, command_handled}

pub record Message : Type 0 where
  pub household_id : String
  pub channel : String
  pub external_message_id : String
  pub conversation_id : String
  pub body : String

-- The unique index of operations.channel_messages.
abbrev pub same_message : Message → Message → Bool
same_message a b =
    str_eq a.household_id b.household_id
    && str_eq a.channel b.channel
    && str_eq a.external_message_id b.external_message_id

-- The inbound rows, the conversations that there are, and the registry of turns.
pub record Gateway : Type 0 where
  pub messages : List Message
  pub turns : Registry Message

unfoldable pub record_inbound_message : (has_conversation : Bool) → Message → Call Gateway Bool
record_inbound_message has_conversation m g =
    if has_conversation && not (any (same_message m) g.messages)
    then done true (record g { messages = m ∷ g.messages })
    else if any (same_message m) g.messages
    then done false g
    else threw (failure validation_rejected "channel_conversation_not_found" never false) g

-- What `submit` answers: `none` where the turn was started.
abbrev pub submission : Message → Registry Message → Option GatewayResult
submission m r =
    if not r.accepting
    then some closed
    else if is_busy (slot_or_empty (r.lines m.conversation_id).slot)
    then some queued
    else none

unfoldable pub submit_turn : Message → Call Gateway (Option GatewayResult)
submit_turn m g =
    done (submission m g.turns) (record g { turns = happen (submits m.conversation_id m) g.turns })

abbrev pub after_record : Message → Bool → Call Gateway (Option GatewayResult)
after_record m false = return (some duplicate)
after_record m true = submit_turn m

-- `handleInbound`, up to the turn itself: `none` where it was started. `command` is what the channel
-- commands answer.
unfoldable pub handle_inbound :
    (command : Option String)
    → (has_conversation : Bool) → Message
    → Call Gateway (Option GatewayResult)
handle_inbound (some body) has_conversation m = return (some (command_handled body))
handle_inbound none has_conversation m =
    record_inbound_message has_conversation m >>= after_record m

-- A message comes in, or the registry goes on.
pub data Step : Type 0 where
  arrives : (command : Option String) → (has_conversation : Bool) → Message → Step
  goes_on : Event Message → Step

-- Only a message that comes in is submitted.
abbrev pub progress : Event Message → Registry Message → Registry Message
progress (submits k m) r = r
progress e r = happen e r

unfoldable pub take_step : Step → Gateway → Gateway
unfolding handle_inbound
take_step (arrives command has_conversation m) g =
    after (handle_inbound command has_conversation m g)
take_step (goes_on e) g = record g { turns = progress e g.turns }

unfoldable pub take_steps : List Step → Gateway → Gateway
take_steps [] g = g
take_steps (s ∷ ss) g = take_steps ss (take_step s g)
