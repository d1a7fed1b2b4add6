-- ===== src/Delivery/Marks.antt =====
-- packages/database/src/repositories/operations/delivery-scheduler.ts: an update settles the
-- delivery that it names and unsettles none.
use plus_one.Common.Effects.{after}
use plus_one.Delivery.Handler.{is_settled}
use plus_one.Delivery.Store.{
  Delivery, DeliveryStatus, update_delivery, Outbox, as_delivered, find_by_idempotency, has_key,
  as_failed, update_where, updated, has_id,
}
use mathlib.Core.Path.{subst, ap, sym}
use plus_one.Common.{
  ℕ, Option, String, Bool, some, ◌≡◌, List, if◌then◌else◌, none, true, ◌≤◌, find, refl, Bool-cases,
  arith, map, inl, ◌∷◌, inr, [], eq_iff, ◌∙◌,
}

abbrev pub allowance : Option Delivery → ℕ
allowance none = 0
allowance (some d) = if is_settled d.status then 1 else 0

-- How many sends the table accounts for: one where the delivery of the key is settled.
abbrev pub accounted : String → String → Outbox → ℕ
accounted h key s = allowance (find_by_idempotency h key s)

-- An assignment that keeps the identity of a delivery and settles it.
pub record Settles (f : Delivery → Delivery) : Type 0 where
  pub keeps_household : (d : Delivery) → (f d).household_id ≡ d.household_id
  pub keeps_key : (d : Delivery) → (f d).idempotency_key ≡ d.idempotency_key
  pub keeps_id : (d : Delivery) → (f d).delivery_id ≡ d.delivery_id
  pub settles : (d : Delivery) → is_settled (f d).status ≡ true

pub as_delivered-Settles : (message : String) → Settles (as_delivered message)
as_delivered-Settles message = record {
  keeps_household = λ d. refl;
  keeps_key = λ d. refl;
  keeps_id = λ d. refl;
  settles = λ d. refl;
}

pub as_failed-Settles :
    (status : DeliveryStatus) (category : String)
    → is_settled status ≡ true
    → Settles (as_failed status category)
as_failed-Settles status category e = record {
  keeps_household = λ d. refl;
  keeps_key = λ d. refl;
  keeps_id = λ d. refl;
  settles = λ d. e;
}

abbrev update_option : (Delivery → Delivery) → Option Delivery → Option Delivery
update_option u none = none
update_option u (some d) = some (u d)

has_key-update_where :
    (h key : String) (p : Delivery → Bool) (f : Delivery → Delivery) (d : Delivery)
    → Settles f
    → has_key h key (update_where p f d) ≡ has_key h key d
has_key-update_where h key p f d s = elim (Bool-cases (p d)) [
  | inl hit ↦ rw (hit, s.keeps_household d, s.keeps_key d) refl
  | inr miss ↦ rw miss refl
]

find-update_where :
    (h key : String) (p : Delivery → Bool) (f : Delivery → Delivery) (ds : List Delivery)
    → Settles f
    → find (has_key h key) (map (update_where p f) ds)
      ≡ update_option (update_where p f) (find (has_key h key) ds)
find-update_where h key p f [] s = refl
find-update_where h key p f (d ∷ ds) s = elim (Bool-cases (has_key h key d)) [
  | inl hit ↦ rw (has_key-update_where h key p f d s, hit) refl
  | inr miss ↦ rw (has_key-update_where h key p f d s, miss) (find-update_where h key p f ds s)
]

allowance-update :
    (p : Delivery → Bool) (f : Delivery → Delivery) (o : Option Delivery)
    → Settles f
    → allowance o ≤ allowance (update_option (update_where p f) o)
allowance-update p f none s = omega arith
allowance-update p f (some d) s = elim (Bool-cases (p d)) [
  | inl hit ↦ rw (hit, s.settles d) (ground arith)
  | inr miss ↦ rw miss (omega arith)
]

-- A state that came from `w` by updates, in which the delivery of the key has this identifier.
pub record Follows (h key id : String) (w t : Outbox) : Type 0 where
  pub same_sends : t.sends ≡ w.sends
  pub grown : (h' key' : String) → accounted h' key' w ≤ accounted h' key' t
  pub row : Delivery
  pub found : find_by_idempotency h key t ≡ some row
  pub owned : row.household_id ≡ h
  pub named : row.delivery_id ≡ id

after-updated :
    (f : Delivery → Delivery) (o : Option Delivery) (s : Outbox) → after (updated f o s) ≡ s
after-updated f none s = refl
after-updated f (some d) s = refl

has_id-own :
    (h id : String) (d : Delivery) → d.household_id ≡ h → d.delivery_id ≡ id → has_id h id d ≡ true
has_id-own h id d e f = ground (arith, eq_iff d.household_id h, eq_iff d.delivery_id id)

update_accounted :
    (h' key' h id : String) (f : Delivery → Delivery) (w t : Outbox)
    → Settles f
    → ((h'' key'' : String) → accounted h'' key'' w ≤ accounted h'' key'' t)
    → accounted h' key' w
      ≤ accounted h' key'
          (record t { deliveries = map (update_where (has_id h id) f) t.deliveries })
update_accounted h' key' h id f w t s grown =
    rw (find-update_where h' key' (has_id h id) f t.deliveries s) (
      omega
        (arith, grown h' key', allowance-update (has_id h id) f (find_by_idempotency h' key' t) s))

pub update_delivery-Follows :
    (h key id : String) (f : Delivery → Delivery) (w t : Outbox)
    → Settles f
    → Follows h key id w t
    → Follows h key id w (after (update_delivery h id f t))
      × (accounted h key (after (update_delivery h id f t)) ≡ 1)
unfolding update_delivery
update_delivery-Follows h key id f w t s fo =
    let u = update_where (has_id h id) f in
    let next = record t { deliveries = map u t.deliveries } in
    let here = after-updated f (find (has_id h id) t.deliveries) next in
    let hit : has_id h id fo.row ≡ true = has_id-own h id fo.row fo.owned fo.named in
    let now : find_by_idempotency h key next ≡ some (f fo.row) =
      find-update_where h key (has_id h id) f t.deliveries s
      ∙ ap (update_option u) fo.found
      ∙ rw hit refl in
    subst (λ (x : Outbox). Follows h key id w x × (accounted h key x ≡ 1)) (sym here)
      (
        record {
          same_sends = fo.same_sends;
          grown = λ h' key'. update_accounted h' key' h id f w t s fo.grown;
          row = f fo.row;
          found = now;
          owned = s.keeps_household fo.row ∙ fo.owned;
          named = s.keeps_id fo.row ∙ fo.named;
        },
        ap allowance now ∙ rw (s.settles fo.row) refl,
      )
