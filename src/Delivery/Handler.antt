-- ===== src/Delivery/Handler.antt =====
-- packages/runtime/src/delivery/final-delivery-handler.ts: FinalDeliveryHandler.deliver. What the
-- processors, the transport, the database and the caller's signal do in one call is a parameter,
-- as is the hash of the delivery key; the logging is left out. A call runs from its start to its end
-- without another call of the same key: calls that overlap are not modelled.
use plus_one.Common.Effects.{Outcome, Call, done, threw, after}
use plus_one.Delivery.Failures.{
  FailureCategory, TransportFailure, SendError, is_ambiguous, plain_error,
  transport_failure_from_unknown,
}
use plus_one.Delivery.Store.{
  Delivery, DeliveryStatus, Response, Outbox, mark_delivery_failed, reserve_delivery,
  mark_delivered,
}
use plus_one.Common.Errors.{Thrown, other_error}
use plus_one.Common.{ℕ, Bool, Option, String, false, if◌then◌else◌, some, true, ◌∷◌, leb, none}

pub data Processed : Type 0 where
  passes : Processed
  blocks : Processed
  crashes : Thrown → Processed

pub data Sent : Type 0 where
  accepted : (platform_message_id : String) → Sent
  refused : SendError → Sent

-- One call's conditions. The signal is aborted from the point `abort_at` on; the points are
-- numbered in the order in which the call passes them. A repository call whose wait is given up
-- still takes effect: `late_mark` tells whether the mark lands after what the handler does next.
pub record Conditions : Type 0 where
  pub delivery_id : String
  pub processed : Processed
  pub abort_at : Option ℕ
  pub sent : Sent
  pub mark_fails : Bool
  pub record_fails : Bool
  pub late_mark : Bool

pub data DeliveryResult : Type 0 where
  blocked : DeliveryResult
  ended : Delivery → (sent : Bool) → DeliveryResult

abbrev pub is_aborted_by : ℕ → Option ℕ → Bool
is_aborted_by point none = false
is_aborted_by point (some at_point) = leb at_point point

abbrev pub abort_reason : Thrown
abort_reason = other_error "AbortError"

abbrev pub database_fault : Thrown
database_fault = other_error "Error"

abbrev pub category_text : FailureCategory → String
category_text FailureCategory.too_long = "too_long"
category_text FailureCategory.bad_format = "bad_format"
category_text FailureCategory.forbidden = "forbidden"
category_text FailureCategory.not_found = "not_found"
category_text FailureCategory.rate_limited = "rate_limited"
category_text FailureCategory.transient = "transient"
category_text FailureCategory.ambiguous = "ambiguous"
category_text FailureCategory.unknown = "unknown"

abbrev pub failed_status : TransportFailure → DeliveryStatus
failed_status f = if is_ambiguous f then DeliveryStatus.ambiguous else DeliveryStatus.failed

abbrev pub with_send : Response → Outbox → Outbox
with_send r s = record s { sends = r ∷ s.sends }

-- `repository.markDeliveryFailed`, where the database may answer with an error.
abbrev pub record_failure :
    Conditions → Response → Delivery → DeliveryStatus → String → Call Outbox Delivery
record_failure c r d status category s =
    if c.record_fails
    then threw database_fault s
    else mark_delivery_failed r.household_id d.delivery_id status category s

-- The catch block where the signal was aborted after the send was attempted.
abbrev pub recover_aborted : Conditions → Response → Delivery → Call Outbox DeliveryResult
recover_aborted c r d s =
    threw abort_reason (after (record_failure c r d DeliveryStatus.ambiguous "timeout" s))

abbrev pub ended_with : Bool → Outcome Outbox Delivery → Outcome Outbox DeliveryResult
ended_with sent (done d s) = done (ended d sent) s
ended_with sent (threw e s) = threw e s

-- The catch block otherwise.
abbrev pub recover_failure :
    Conditions → Response → Delivery → TransportFailure → Call Outbox DeliveryResult
recover_failure c r d f s =
    ended_with true (record_failure c r d (failed_status f) (category_text f.category) s)

abbrev pub recover :
    Conditions → (point : ℕ) → Response → Delivery → SendError → Call Outbox DeliveryResult
recover c point r d e s =
    if is_aborted_by point c.abort_at
    then recover_aborted c r d s
    else recover_failure c r d (transport_failure_from_unknown e) s

-- The mark that nobody waits for any more, before or after the recovery.
abbrev pub unawaited_mark : Conditions → Response → Delivery → String → Call Outbox DeliveryResult
unawaited_mark c r d message s =
    if c.mark_fails
    then recover_aborted c r d s
    else if c.late_mark
    then threw abort_reason (
        after
          (mark_delivered r.household_id d.delivery_id message (after (recover_aborted c r d s))))
    else recover_aborted c r d (after (mark_delivered r.household_id d.delivery_id message s))

abbrev pub marked :
    Conditions → Response → Delivery → Outcome Outbox Delivery → Outcome Outbox DeliveryResult
marked c r d (done now s) = done (ended now true) s
marked c r d (threw e s) = recover c 8 r d plain_error s

abbrev pub mark : Conditions → Response → Delivery → String → Call Outbox DeliveryResult
mark c r d message s =
    if is_aborted_by 7 c.abort_at
    then unawaited_mark c r d message s
    else if c.mark_fails
    then recover c 8 r d plain_error s
    else marked c r d (mark_delivered r.household_id d.delivery_id message s)

-- The answer of the transport.
abbrev pub answered : Conditions → Response → Delivery → Sent → Call Outbox DeliveryResult
answered c r d (accepted message) s =
    if is_aborted_by 6 c.abort_at then recover_aborted c r d s else mark c r d message s
answered c r d (refused e) s = recover c 6 r d e s

unfoldable pub send : Conditions → Response → Delivery → Call Outbox DeliveryResult
send c r d s =
    if is_aborted_by 4 c.abort_at
    then threw abort_reason s
    else if is_aborted_by 5 c.abort_at
    then recover_aborted c r d (with_send r s)
    else answered c r d c.sent (with_send r s)

abbrev pub is_settled : DeliveryStatus → Bool
is_settled DeliveryStatus.pending = false
is_settled DeliveryStatus.sending = false
is_settled DeliveryStatus.delivered = true
is_settled DeliveryStatus.failed = true
is_settled DeliveryStatus.ambiguous = true

abbrev pub reserved :
    Conditions → Response → Outcome Outbox Delivery → Outcome Outbox DeliveryResult
reserved c r (threw e s) = threw (if is_aborted_by 2 c.abort_at then abort_reason else e) s
reserved c r (done d s) =
    if is_aborted_by 3 c.abort_at
    then threw abort_reason s
    else if is_settled d.status
    then done (ended d false) s
    else send c r d s

abbrev pub processed_as :
    (Response → String) → Conditions → Response → Processed → Call Outbox DeliveryResult
processed_as key c r (crashes e) s = threw e s
processed_as key c r blocks s = done blocked s
processed_as key c r passes s =
    if is_aborted_by 1 c.abort_at
    then threw abort_reason s
    else reserved c r (reserve_delivery c.delivery_id (key r) r s)

unfoldable pub deliver : (Response → String) → Conditions → Response → Call Outbox DeliveryResult
deliver key c r s =
    if is_aborted_by 0 c.abort_at then threw abort_reason s else processed_as key c r c.processed s
