-- ===== src/Delivery/Once.antt =====
-- packages/runtime/src/delivery/final-delivery-handler.ts: a response is handed to a transport at
-- most once, as long as the database records what became of the attempt.
use plus_one.Delivery.Marks.{accounted, Follows, allowance}
use plus_one.Common.Effects.{after, Outcome, threw, done}
use plus_one.Delivery.Endings.{Settled, recover_aborted-Over, answered-Over}
use plus_one.Delivery.Handler.{
  send, Conditions, is_settled, with_send, is_aborted_by, recover_aborted, answered, deliver,
  Processed, reserved, processed_as, crashes, blocks, passes,
}
use plus_one.Delivery.Store.{
  Response, Delivery, Outbox, find_by_idempotency, has_key, Conversation, reserve_delivery,
  new_delivery, reserve_found, is_conversation, has_public_id,
}
use mathlib.Core.Path.{ap, subst}
use plus_one.Common.{
  ℕ, String, List, str_eq, ◌∷◌, ◌≡◌, ◌≤◌, false, if◌then◌else◌, some, true, arith, eq_iff, ◌&&◌,
  refl, suc, [], Bool-cases, find-hit, inl, inr, ◌∙◌, Bool, Option, all, none, not, any,
}

-- How many of the sends are of the household's key.
abbrev pub sends_of : (Response → String) → String → String → List Response → ℕ
sends_of key h k [] = 0
sends_of key h k (r ∷ rs) =
    let rest = sends_of key h k rs in
    if str_eq r.household_id h && str_eq (key r) k then suc rest else rest

-- Each send is accounted for by a settled delivery of its key.
abbrev IsOnce : (Response → String) → Outbox → Type 0
IsOnce key s = (h k : String) → sends_of key h k s.sends ≤ accounted h k s

has_key-eq :
    (h k : String) (d : Delivery)
    → has_key h k d ≡ true
    → (d.household_id ≡ h) × (d.idempotency_key ≡ k)
has_key-eq h k d e = ground (arith, eq_iff d.household_id h, eq_iff d.idempotency_key k)

str_eq_refl : (a : String) → str_eq a a ≡ true
str_eq_refl a = (eq_iff a a).1 refl

abbrev Counted : (Response → String) → Outbox → Outbox → String → String → Type 0
Counted key s t h k = suc (sends_of key h k s.sends) ≤ accounted h k t

unsettled_before :
    (key : Response → String) (r : Response) (d : Delivery) (s t : Outbox)
    → IsOnce key s
    → find_by_idempotency r.household_id (key r) s ≡ some d
    → is_settled d.status ≡ false
    → accounted r.household_id (key r) t ≡ 1
    → suc (sends_of key r.household_id (key r) s.sends) ≤ accounted r.household_id (key r) t
unsettled_before key r d s t once found open_ over =
    let nothing : accounted r.household_id (key r) s ≡ 0 = ap allowance found ∙ rw open_ refl in
    omega (arith, once r.household_id (key r))

-- One more send of a key whose delivery was not settled, and is now.
sent-IsOnce :
    (key : Response → String) (r : Response) (d : Delivery) (s t : Outbox)
    → IsOnce key s
    → find_by_idempotency r.household_id (key r) s ≡ some d
    → is_settled d.status ≡ false
    → Settled r.household_id (key r) d.delivery_id (with_send r s) t
    → IsOnce key t
sent-IsOnce key r d s t once found open_ (fo, over) h k =
    rw fo.same_sends (elim (Bool-cases (str_eq r.household_id h && str_eq (key r) k)) [
      | inl mine ↦
          let same_h : r.household_id ≡ h =
            ground (arith, eq_iff r.household_id h, eq_iff (key r) k) in
          let same_k : key r ≡ k = ground (arith, eq_iff r.household_id h, eq_iff (key r) k) in
          let base = unsettled_before key r d s t once found open_ over in
          let keyed = subst (Counted key s t r.household_id) same_k base in
          rw mine (subst (λ (x : String). Counted key s t x k) same_h keyed)
      | inr other ↦ rw other (omega (arith, once h k, fo.grown h k))
    ])

send-IsOnce :
    (key : Response → String) (c : Conditions) (r : Response) (d : Delivery) (s : Outbox)
    → c.record_fails ≡ false
    → IsOnce key s
    → find_by_idempotency r.household_id (key r) s ≡ some d
    → is_settled d.status ≡ false
    → IsOnce key (after (send c r d s))
unfolding send
send-IsOnce key c r d s records once found open_ =
    let w = with_send r s in
    let (owned, _) =
      has_key-eq r.household_id (key r) d
        (find-hit {0} (has_key r.household_id (key r)) s.deliveries d found) in
    let ready : Follows r.household_id (key r) d.delivery_id w w = record {
      same_sends = refl;
      grown = λ h k. omega arith;
      row = d;
      found = found;
      owned = owned;
      named = refl;
    } in
    elim (Bool-cases (is_aborted_by 4 c.abort_at)) [
      | inl unsent ↦ rw unsent once
      | inr attempts ↦ elim (Bool-cases (is_aborted_by 5 c.abort_at)) [
        | inl given_up ↦
            rw (attempts, given_up)
              (sent-IsOnce key r d s (after (recover_aborted c r d w)) once found open_
                (recover_aborted-Over key c r d w records w ready))
        | inr waits ↦
            rw (attempts, waits)
              (sent-IsOnce key r d s (after (answered c r d c.sent w)) once found open_
                (answered-Over key c r d w records c.sent w ready))
      ]
    ]

insert_delivery-IsOnce :
    (key : Response → String) (id : String) (r : Response) (s : Outbox)
    → IsOnce key s
    → find_by_idempotency r.household_id (key r) s ≡ none
    → IsOnce key (record s { deliveries = new_delivery id (key r) r ∷ s.deliveries })
insert_delivery-IsOnce key id r s once missing h k =
    elim (Bool-cases (has_key h k (new_delivery id (key r) r))) [
      | inl mine ↦
          let (same_h, same_k) = has_key-eq h k (new_delivery id (key r) r) mine in
          let gone : accounted r.household_id (key r) s ≡ 0 = ap allowance missing in
          let base : sends_of key r.household_id (key r) s.sends ≤ 0 =
            omega (arith, once r.household_id (key r)) in
          let keyed =
            subst (λ (y : String). sends_of key r.household_id y s.sends ≤ 0) same_k base in
          rw mine (subst (λ (x : String). sends_of key x k s.sends ≤ 0) same_h keyed)
      | inr other ↦ rw other (once h k)
    ]

-- A reservation accounts for the sends as before, and what it returns is the delivery of the key.
abbrev Reserved : (Response → String) → Response → Outcome Outbox Delivery → Type 0
Reserved key r (threw e t) = IsOnce key t
Reserved key r (done d t) = IsOnce key t × (find_by_idempotency r.household_id (key r) t ≡ some d)

reserve_delivery-Reserved :
    (key : Response → String) (id : String) (r : Response) (s : Outbox)
    → IsOnce key s
    → Reserved key r (reserve_delivery id (key r) r s)
unfolding reserve_delivery
reserve_delivery-Reserved key id r s once = go (find_by_idempotency r.household_id (key r) s) refl
  where
    go :
        (o : Option Delivery)
        → find_by_idempotency r.household_id (key r) s ≡ o
        → Reserved key r (reserve_found id (key r) r o s)
    go (some d) e = (once, e)
    go none e =
        elim (Bool-cases
          (not (any (is_conversation r.household_id r.conversation_id) s.conversations))) [
            | inl homeless ↦ rw homeless once
            | inr known ↦ elim (Bool-cases (any (has_public_id id) s.deliveries)) [
              | inl taken ↦ rw (known, taken) once
              | inr fresh ↦
                  rw (known, fresh)
                    (
                      insert_delivery-IsOnce key id r s once e,
                      rw (str_eq_refl r.household_id, str_eq_refl (key r)) refl,
                    )
            ]
          ]

reserved-IsOnce :
    (key : Response → String) (c : Conditions) (r : Response) (o : Outcome Outbox Delivery)
    → c.record_fails ≡ false
    → Reserved key r o
    → IsOnce key (after (reserved c r o))
reserved-IsOnce key c r (threw e t) records kept = kept
reserved-IsOnce key c r (done d t) records (once, found) =
    elim (Bool-cases (is_aborted_by 3 c.abort_at)) [
      | inl aborted ↦ rw aborted once
      | inr running ↦ elim (Bool-cases (is_settled d.status)) [
        | inl over ↦ rw (running, over) once
        | inr open_ ↦ rw (running, open_) (send-IsOnce key c r d t records once found open_)
      ]
    ]

deliver-IsOnce :
    (key : Response → String) (c : Conditions) (r : Response) (s : Outbox)
    → c.record_fails ≡ false
    → IsOnce key s
    → IsOnce key (after (deliver key c r s))
unfolding deliver
deliver-IsOnce key c r s records once = elim (Bool-cases (is_aborted_by 0 c.abort_at)) [
  | inl aborted ↦ rw aborted once
  | inr running ↦ rw running (go c.processed)
]
  where
    go : (p : Processed) → IsOnce key (after (processed_as key c r p s))
    go (crashes e) = once
    go blocks = once
    go passes = elim (Bool-cases (is_aborted_by 1 c.abort_at)) [
      | inl aborted ↦ rw aborted once
      | inr running ↦ rw running (
          reserved-IsOnce key c r (reserve_delivery c.delivery_id (key r) r s) records
            (reserve_delivery-Reserved key c.delivery_id r s once))
    ]

-- The calls of `deliver`, one after the other, whatever each of them returns or throws.
abbrev pub deliver_all : (Response → String) → List (Conditions × Response) → Outbox → Outbox
deliver_all key [] s = s
deliver_all key ((c, r) ∷ calls) s = deliver_all key calls (after (deliver key c r s))

abbrev records_outcome : Conditions × Response → Bool
records_outcome (c, r) = not c.record_fails

deliver_all-IsOnce :
    (key : Response → String) (calls : List (Conditions × Response)) (s : Outbox)
    → all records_outcome calls ≡ true
    → IsOnce key s
    → IsOnce key (deliver_all key calls s)
deliver_all-IsOnce key [] s h once = once
deliver_all-IsOnce key ((c, r) ∷ calls) s h once =
    deliver_all-IsOnce key calls (after (deliver key c r s)) (ground arith)
      (deliver-IsOnce key c r s (ground arith) once)

abbrev pub opened : List Conversation → Outbox
opened conversations = record { conversations = conversations; deliveries = []; sends = [] }

allowance-le : (o : Option Delivery) → allowance o ≤ 1
allowance-le none = omega arith
allowance-le (some d) = ground arith

-- Over any calls of `deliver` that run one after the other, returned, thrown or aborted at any point,
-- responses with one key are handed to a transport at most once, where the database answers each
-- `markDeliveryFailed`.
pub sends_at_most_once :
    (key : Response → String) (conversations : List Conversation)
    (calls : List (Conditions × Response)) (h k : String)
    → all records_outcome calls ≡ true
    → sends_of key h k (deliver_all key calls (opened conversations)).sends ≤ 1
sends_at_most_once key conversations calls h k recorded =
    let s = deliver_all key calls (opened conversations) in
    let once = deliver_all-IsOnce key calls (opened conversations) recorded (λ h k. omega arith) in
    omega (arith, once h k, allowance-le (find_by_idempotency h k s))
