-- ===== src/Tests/Delivery.antt =====
-- Runs of the delivery handler.
use plus_one.Common.Effects.{done}
use plus_one.Delivery.Lost.{lost_mark, lost_mark-eq-failed}
use plus_one.Delivery.Once.{sends_of, deliver_all, opened, sends_at_most_once}
use plus_one.Delivery.Handler.{deliver, Conditions, Sent, send, accepted, passes, ended}
use plus_one.Delivery.Store.{
  Delivery, Outbox, Response, Conversation, new_delivery, reserve_delivery, as_failed,
  update_delivery, DeliveryStatus,
}
use plus_one.Common.{
  ℕ, List, String, Option, ◌∷◌, [], some, ◌≡◌, none, ◌≤◌, false, length, refl, true,
}

abbrev key_of : Response → String
key_of r = r.response_id

abbrev home : List Conversation
home = record { household_id = "h1"; conversation_id = "c1" } ∷ []

abbrev answer : Response
answer = record {
  response_id = "r1";
  household_id = "h1";
  conversation_id = "c1";
  body = "hello";
  response_hash = "x";
}

abbrev conditions : String → Option ℕ → Sent → Conditions
conditions id abort_at sent = record {
  delivery_id = id;
  processed = passes;
  abort_at = abort_at;
  sent = sent;
  mark_fails = false;
  record_fails = false;
  late_mark = false;
}

abbrev three_calls : List (Conditions × Response)
three_calls =
    (conditions "d1" (some 2) (accepted "m1"), answer)
    ∷ (conditions "d2" (some 5) (accepted "m1"), answer)
    ∷ (conditions "d3" none (accepted "m2"), answer)
    ∷ []

-- The second call sends, and the third finds the delivery ambiguous.
sends_of_three : length (deliver_all key_of three_calls (opened home)).sends ≡ 1
unfolding deliver reserve_delivery send update_delivery
sends_of_three = refl

sends_at_most_once_example :
    sends_of key_of "h1" "r1" (deliver_all key_of three_calls (opened home)).sends ≤ 1
sends_at_most_once_example = sends_at_most_once key_of home three_calls "h1" "r1" refl

abbrev waiting : Delivery
waiting = new_delivery "d1" "r1" answer

abbrev one_waiting : Outbox
one_waiting = record { conversations = home; deliveries = waiting ∷ []; sends = [] }

lost_mark-eq-failed_example :
    deliver key_of (lost_mark "d2" "m1") answer one_waiting
    ≡ done (ended (as_failed DeliveryStatus.failed "transient" waiting) true) (record one_waiting {
      deliveries = as_failed DeliveryStatus.failed "transient" waiting ∷ [];
      sends = answer ∷ [];
    })
lost_mark-eq-failed_example =
    lost_mark-eq-failed key_of "d2" "m1" answer waiting one_waiting refl refl refl
