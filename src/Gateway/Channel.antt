-- ===== src/Gateway/Channel.antt =====
-- packages/runtime/src/gateway/channel-gateway.ts: a message that comes in, and the turn that it
-- leads to. What the orchestrator and the delivery handler answer, also where the signal cuts them
-- off, and the points at which the signal is found aborted are conditions of a turn. Events of the
-- sink are kept newest first; the errors that it throws are swallowed, as in `emitGatewayEvent`.
pub mod Turn
pub mod Messages
pub mod Inbound
use plus_one.Common.{
  ℕ, String, Bool, not, List, ◌∷◌, Option, none, some, ◌&&◌, ◌+◌, if◌then◌else◌, true, false, ◌⊎◌,
  inl, inr,
}
use plus_one.Common.Errors.{Thrown, other_error}
use plus_one.Common.Effects.{◌>>=◌, ◌>>◌, Call, done, threw, return, throw, tried}

pub data DeliveryStatus : Type 0 where
  delivered failed ambiguous : DeliveryStatus

-- DeliveryResult of the delivery handler.
pub data DeliveryResult : Type 0 where
  blocked : (reason : String) → DeliveryResult
  ended : DeliveryStatus → (category : Option String) → (sent : Bool) → DeliveryResult

abbrev pub is_delivered : DeliveryResult → Bool
is_delivered (ended delivered category sent) = true
is_delivered _ = false

-- ChannelGatewayResult.
pub data GatewayResult : Type 0 where
  duplicate queued closed : GatewayResult
  command_handled : (body : String) → GatewayResult
  blocked_by : (reason : String) → GatewayResult
  turn_failed : (error : String) → GatewayResult
  turn_ended : DeliveryStatus → (sent : Bool) → GatewayResult

pub data FailedStatus : Type 0 where
  was_blocked was_failed was_ambiguous : FailedStatus

pub data ChannelEvent : Type 0 where
  delivery_started final_delivered : ChannelEvent
  final_failed : FailedStatus → (reason : String) → ChannelEvent

-- Where a turn looks at its signal: before the orchestrator is called, after it threw, after it
-- answered, before the delivery, after that threw, and after it answered.
pub data Point : Type 0 where
  at_start orchestrator_threw answered at_delivery delivery_threw after_delivery : Point

pub record Conditions (R : Type 0) : Type 0 where
  pub aborted : Point → Bool
  pub orchestrator : Thrown ⊎ R
  pub delivery : R → Thrown ⊎ DeliveryResult
  pub is_transient : Thrown → Bool

pub record Trace : Type 0 where
  pub events : List ChannelEvent
  pub orchestrator_runs : ℕ
  pub deliveries : ℕ
  pub heartbeat_open : Bool

abbrev abort_reason : Thrown
abort_reason = other_error "AbortError"

abbrev emit : ChannelEvent → Call Trace (Unit {0})
emit e t = done tt (record t { events = e ∷ t.events })

abbrev pub answer : {A : Type 0} → Thrown ⊎ A → Call Trace A
answer (inl e) = throw e
answer (inr a) = return a

abbrev timed_out : Call Trace GatewayResult
timed_out =
    emit (final_failed was_failed "orchestrator_timed_out")
    >> return (turn_failed "orchestrator_timed_out")

abbrev failed_status : DeliveryStatus → FailedStatus
failed_status ambiguous = was_ambiguous
failed_status _ = was_failed

abbrev status_text : DeliveryStatus → String
status_text delivered = "delivered"
status_text failed = "failed"
status_text ambiguous = "ambiguous"

abbrev or_text : Option String → String → String
or_text none s = s
or_text (some r) s = r

abbrev pub end_turn : DeliveryResult → Call Trace GatewayResult
end_turn (blocked reason) = emit (final_failed was_blocked reason) >> return (blocked_by reason)
end_turn (ended delivered category sent) =
    emit final_delivered >> return (turn_ended delivered sent)
end_turn (ended status category sent) =
    emit (final_failed (failed_status status) (or_text category (status_text status)))
    >> return (turn_ended status sent)

-- The `finally` that closes the heartbeat.
abbrev pub closing : {A : Type 0} → Call Trace A → Call Trace A
closing m t = elim (m (record t { heartbeat_open = true })) [
  | done a t' ↦ done a (record t' { heartbeat_open = false })
  | threw e t' ↦ threw e (record t' { heartbeat_open = false })
]

module _ {R : Type 0} (c : Conditions R) where
  abbrev pub ask_orchestrator : Call Trace R
  ask_orchestrator t =
      if c.aborted at_start
      then threw abort_reason t
      else answer c.orchestrator (record t { orchestrator_runs = t.orchestrator_runs + 1 })

  abbrev pub deliver : R → Call Trace DeliveryResult
  deliver response t =
      if c.aborted at_delivery
      then threw abort_reason t
      else answer (c.delivery response) (record t { deliveries = t.deliveries + 1 })

  abbrev failure_reason : Thrown → String
  failure_reason e =
      if c.is_transient e then "model_temporarily_unavailable" else "orchestrator_failed"

  abbrev pub with_delivery : Thrown ⊎ DeliveryResult → Call Trace GatewayResult
  with_delivery (inl e) =
      if c.aborted delivery_threw
      then timed_out
      else emit (final_failed was_failed "delivery_failed") >> throw e
  with_delivery (inr d) =
      if c.aborted after_delivery && not (is_delivered d) then timed_out else end_turn d

  abbrev pub with_response : Thrown ⊎ R → Call Trace GatewayResult
  with_response (inl e) =
      if c.aborted orchestrator_threw
      then timed_out
      else emit (final_failed was_failed (failure_reason e))
        >> return (turn_failed (failure_reason e))
  with_response (inr response) =
      if c.aborted answered
      then timed_out
      else emit delivery_started >> (tried (deliver response) >>= with_delivery)

  unfoldable pub run_recorded_turn : Call Trace GatewayResult
  run_recorded_turn = closing (tried ask_orchestrator >>= with_response)
