-- ===== src/Delivery/Lost.antt =====
-- packages/runtime/src/delivery/final-delivery-handler.ts: the database fails after the transport
-- accepted the message.
use plus_one.Common.Effects.{done}
use plus_one.Delivery.Store.{
  as_failed, reserve_delivery, update_delivery, Response, Delivery, Outbox, find_by_idempotency,
  has_id, DeliveryStatus, update_where, reserve_found, updated,
}
use plus_one.Delivery.Handler.{
  deliver, Conditions, passes, send, accepted, is_settled, ended, reserved, ended_with,
}
use plus_one.Common.{
  String, none, true, false, ◌≡◌, some, find, map, ◌∷◌, ap, Option, ◌∙◌, Bool, if◌then◌else◌,
}

-- The transport accepts the message and the database answers `markDelivered` with an error.
abbrev pub lost_mark : String → String → Conditions
lost_mark id message = record {
  delivery_id = id;
  processed = passes;
  abort_at = none;
  sent = accepted message;
  mark_fails = true;
  record_fails = false;
  late_mark = false;
}

-- A reserved message that the transport accepted is recorded as `failed`, with the category of a
-- transient failure of the transport, where the database answers `markDelivered` with an error and
-- the following `markDeliveryFailed` without one.
pub lost_mark-eq-failed :
    (key : Response → String) (id message : String) (r : Response) (d : Delivery) (s : Outbox)
    → find_by_idempotency r.household_id (key r) s ≡ some d
    → find (has_id r.household_id d.delivery_id) s.deliveries ≡ some d
    → is_settled d.status ≡ false
    → deliver key (lost_mark id message) r s
      ≡ done (ended (as_failed DeliveryStatus.failed "transient" d) true) (record s {
        deliveries =
            map
              (update_where
                (has_id r.household_id d.delivery_id)
                (as_failed DeliveryStatus.failed "transient"))
              s.deliveries;
        sends = r ∷ s.sends;
      })
unfolding deliver reserve_delivery send update_delivery
lost_mark-eq-failed key id message r d s found named open_ =
    ap (λ (o : Option Delivery). reserved (lost_mark id message) r (reserve_found id (key r) r o s))
      found
    ∙ ap (λ (b : Bool). if b then done (ended d false) s else send (lost_mark id message) r d s)
        open_
    ∙ ap
        (λ (o : Option Delivery). ended_with true (
          updated (as_failed DeliveryStatus.failed "transient") o (record s {
            deliveries =
                map
                  (update_where (has_id r.household_id d.delivery_id)
                    (as_failed DeliveryStatus.failed "transient"))
                  s.deliveries;
            sends = r ∷ s.sends;
          })))
        named
