-- ===== src/Delivery/Endings.antt =====
-- packages/runtime/src/delivery/final-delivery-handler.ts: every way in which a call ends after the
-- send was attempted settles the delivery, as long as the database records what became of it.
use plus_one.Delivery.Marks.{
  update_delivery-Follows, Follows, accounted, as_delivered-Settles, as_failed-Settles,
}
use plus_one.Delivery.Handler.{
  Conditions, is_settled, failed_status, ended_with, Sent, mark, marked, recover_aborted,
  unawaited_mark, answered, is_aborted_by, record_failure, recover, accepted, refused,
  category_text,
}
use plus_one.Common.Effects.{Outcome, after, done, threw}
use plus_one.Delivery.Failures.{
  TransportFailure, SendError, is_ambiguous, plain_error, transport_failure_from_unknown,
}
use plus_one.Delivery.Store.{
  Response, Outbox, Delivery, DeliveryStatus, mark_delivered, as_delivered, as_failed,
}
use mathlib.Core.Path.{subst, sym}
use plus_one.Common.{ℕ, Bool, String, ◌≡◌, false, true, Bool-cases, inl, inr, refl}

-- What a send and its recovery end in: the delivery of the key is settled.
abbrev pub Settled : String → String → String → Outbox → Outbox → Type 0
Settled h k id w t = Follows h k id w t × (accounted h k t ≡ 1)

after-ended_with : (sent : Bool) (o : Outcome Outbox Delivery) → after (ended_with sent o) ≡ after o
after-ended_with sent (done d s) = refl
after-ended_with sent (threw e s) = refl

failed_status-is_settled : (f : TransportFailure) → is_settled (failed_status f) ≡ true
failed_status-is_settled f = elim (Bool-cases (is_ambiguous f)) [
  | inl unclear ↦ rw unclear refl
  | inr clear ↦ rw clear refl
]

module _ (key : Response → String) (c : Conditions) (r : Response) (d : Delivery) (w : Outbox)
    (records : c.record_fails ≡ false) where
  abbrev pub Ready : Outbox → Type 0
  Ready t = Follows r.household_id (key r) d.delivery_id w t

  abbrev pub Over : Outbox → Type 0
  Over t = Settled r.household_id (key r) d.delivery_id w t

  record_failure-Over :
      (status : DeliveryStatus) (category : String) (t : Outbox)
      → is_settled status ≡ true
      → Ready t
      → Over (after (record_failure c r d status category t))
  record_failure-Over status category t e ready = rw records (
      update_delivery-Follows r.household_id (key r) d.delivery_id (as_failed status category) w t
        (as_failed-Settles status category e) ready)

  pub recover_aborted-Over : (t : Outbox) → Ready t → Over (after (recover_aborted c r d t))
  recover_aborted-Over t ready = record_failure-Over DeliveryStatus.ambiguous "timeout" t refl ready

  recover-Over :
      (point : ℕ) (e : SendError) (t : Outbox) → Ready t → Over (after (recover c point r d e t))
  recover-Over point e t ready = elim (Bool-cases (is_aborted_by point c.abort_at)) [
    | inl aborted ↦ rw aborted (recover_aborted-Over t ready)
    | inr running ↦
        let f = transport_failure_from_unknown e in
        rw running (
          subst Over
            (sym (
              after-ended_with true
                (record_failure c r d (failed_status f) (category_text f.category) t)))
            (record_failure-Over (failed_status f) (category_text f.category) t
              (failed_status-is_settled f) ready))
  ]

  mark_delivered-Over :
      (message : String) (t : Outbox)
      → Ready t
      → Over (after (mark_delivered r.household_id d.delivery_id message t))
  mark_delivered-Over message t ready =
      update_delivery-Follows r.household_id (key r) d.delivery_id (as_delivered message) w t
        (as_delivered-Settles message) ready

  unawaited_mark-Over :
      (message : String) (t : Outbox) → Ready t → Over (after (unawaited_mark c r d message t))
  unawaited_mark-Over message t ready = elim (Bool-cases c.mark_fails) [
    | inl lost ↦ rw lost (recover_aborted-Over t ready)
    | inr lands ↦ elim (Bool-cases c.late_mark) [
      | inl late ↦
          rw (lands, late)
            (mark_delivered-Over message (after (recover_aborted c r d t))
              (recover_aborted-Over t ready).0)
      | inr early ↦
          rw (lands, early)
            (recover_aborted-Over (after (mark_delivered r.household_id d.delivery_id message t))
              (mark_delivered-Over message t ready).0)
    ]
  ]

  marked-Over : (o : Outcome Outbox Delivery) → Over (after o) → Over (after (marked c r d o))
  marked-Over (done now t) over = over
  marked-Over (threw e t) over = recover-Over 8 plain_error t over.0

  mark-Over : (message : String) (t : Outbox) → Ready t → Over (after (mark c r d message t))
  mark-Over message t ready = elim (Bool-cases (is_aborted_by 7 c.abort_at)) [
    | inl aborted ↦ rw aborted (unawaited_mark-Over message t ready)
    | inr running ↦ elim (Bool-cases c.mark_fails) [
      | inl lost ↦ rw (running, lost) (recover-Over 8 plain_error t ready)
      | inr lands ↦
          rw (running, lands)
            (marked-Over (mark_delivered r.household_id d.delivery_id message t)
              (mark_delivered-Over message t ready))
    ]
  ]

  pub answered-Over :
      (answer : Sent) (t : Outbox) → Ready t → Over (after (answered c r d answer t))
  answered-Over (accepted message) t ready = elim (Bool-cases (is_aborted_by 6 c.abort_at)) [
    | inl aborted ↦ rw aborted (recover_aborted-Over t ready)
    | inr running ↦ rw running (mark-Over message t ready)
  ]
  answered-Over (refused e) t ready = recover-Over 6 e t ready
