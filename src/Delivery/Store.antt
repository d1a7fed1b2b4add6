-- ===== src/Delivery/Store.antt =====
-- packages/database/src/repositories/operations/delivery-scheduler.ts: the rows of the outbound
-- deliveries, newest first, with what was handed to a transport. Instants, the destination and the
-- stored response are left out.
use plus_one.Common.Effects.{Outcome, Call, threw, done}
use plus_one.Common.Errors.{Thrown, failure, validation_rejected, never, database_error}
use plus_one.Common.{
  ℕ, Bool, List, Option, String, find, if◌then◌else◌, none, some, str_eq, suc, ◌&&◌, map, not, any,
  false, ◌∷◌,
}

pub data DeliveryStatus : Type 0 where
  pending sending delivered failed ambiguous : DeliveryStatus

pub record Response : Type 0 where
  pub response_id : String
  pub household_id : String
  pub conversation_id : String
  pub body : String
  pub response_hash : String

pub record Delivery : Type 0 where
  pub delivery_id : String
  pub household_id : String
  pub conversation_id : String
  pub idempotency_key : String
  pub response_hash : String
  pub status : DeliveryStatus
  pub platform_message_id : Option String
  pub attempt_count : ℕ
  pub failure_category : Option String

pub record Conversation : Type 0 where
  pub household_id : String
  pub conversation_id : String

pub record Outbox : Type 0 where
  pub conversations : List Conversation
  pub deliveries : List Delivery
  pub sends : List Response  -- what was handed to a transport, newest first

abbrev pub not_found : String → Thrown
not_found code = failure validation_rejected code never false

abbrev pub has_key : String → String → Delivery → Bool
has_key h key d = str_eq d.household_id h && str_eq d.idempotency_key key

abbrev pub has_id : String → String → Delivery → Bool
has_id h id d = str_eq d.household_id h && str_eq d.delivery_id id

abbrev pub is_conversation : String → String → Conversation → Bool
is_conversation h c x = str_eq x.household_id h && str_eq x.conversation_id c

abbrev pub find_by_idempotency : String → String → Outbox → Option Delivery
find_by_idempotency h key s = find (has_key h key) s.deliveries

abbrev pub has_public_id : String → Delivery → Bool
has_public_id id d = str_eq d.delivery_id id

abbrev pub new_delivery : String → String → Response → Delivery
new_delivery id key r = record {
  delivery_id = id;
  household_id = r.household_id;
  conversation_id = r.conversation_id;
  idempotency_key = key;
  response_hash = r.response_hash;
  status = pending;
  platform_message_id = none;
  attempt_count = 0;
  failure_category = none;
}

-- The insertion where no row has the key yet.
abbrev pub insert_delivery : String → String → Response → Call Outbox Delivery
insert_delivery id key r s =
    if not (any (is_conversation r.household_id r.conversation_id) s.conversations)
    then threw (not_found "delivery_conversation_not_found") s
    else if any (has_public_id id) s.deliveries
    then threw (database_error "23505" "outbound_deliveries_public_unique") s
    else done (new_delivery id key r)
        (record s { deliveries = new_delivery id key r ∷ s.deliveries })

abbrev pub reserve_found : String → String → Response → Option Delivery → Call Outbox Delivery
reserve_found id key r (some d) s = done d s
reserve_found id key r none s = insert_delivery id key r s

unfoldable pub reserve_delivery : String → String → Response → Call Outbox Delivery
reserve_delivery id key r s = reserve_found id key r (find_by_idempotency r.household_id key s) s

abbrev pub update_where : (Delivery → Bool) → (Delivery → Delivery) → Delivery → Delivery
update_where p f d = if p d then f d else d

abbrev pub updated : (Delivery → Delivery) → Option Delivery → Outbox → Outcome Outbox Delivery
updated f none s = threw (not_found "delivery_not_found") s
updated f (some d) s = done (f d) s

unfoldable pub update_delivery : String → String → (Delivery → Delivery) → Call Outbox Delivery
update_delivery h id f s =
    updated f (find (has_id h id) s.deliveries)
      (record s { deliveries = map (update_where (has_id h id) f) s.deliveries })

abbrev pub as_delivered : String → Delivery → Delivery
as_delivered message d = record d {
  status = delivered;
  platform_message_id = some message;
  failure_category = none;
  attempt_count = suc d.attempt_count;
}

abbrev pub as_failed : DeliveryStatus → String → Delivery → Delivery
as_failed status category d = record d {
  status = status;
  failure_category = some category;
  attempt_count = suc d.attempt_count;
}

abbrev pub mark_delivered : String → String → String → Call Outbox Delivery
mark_delivered h id message = update_delivery h id (as_delivered message)

abbrev pub mark_delivery_failed : String → String → DeliveryStatus → String → Call Outbox Delivery
mark_delivery_failed h id status category = update_delivery h id (as_failed status category)
