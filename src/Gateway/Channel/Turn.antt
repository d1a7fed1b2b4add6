-- ===== src/Gateway/Channel/Turn.antt =====
-- packages/runtime/src/gateway/channel-gateway.ts: what the channel is told of a turn.
use plus_one.Common.{
  ℕ, Bool, true, false, ◌+◌, ◌≡◌, refl, arith, count, if◌then◌else◌, ◌⊎◌, inl, inr, Bool-cases, ◌∷◌,
}
use plus_one.Common.Errors.{Thrown}
use plus_one.Common.Effects.{Outcome, done, threw, after, Call, tried, ◌>>=◌}
use plus_one.Gateway.Channel.{
  ChannelEvent, delivery_started, final_delivered, Trace, GatewayResult, turn_ended, Conditions,
  run_recorded_turn, delivered, DeliveryResult, end_turn, with_delivery, with_response, blocked,
  ended, failed, ambiguous, answer, answered, ask_orchestrator, deliver, at_delivery, at_start,
}

abbrev pub is_final : ChannelEvent → Bool
is_final delivery_started = false
is_final _ = true

abbrev pub is_delivery : ChannelEvent → Bool
is_delivery final_delivered = true
is_delivery _ = false

abbrev pub is_delivered_turn : GatewayResult → Bool
is_delivered_turn (turn_ended delivered sent) = true
is_delivered_turn _ = false

abbrev pub ends_delivered : Outcome Trace GatewayResult → Bool
ends_delivered (done r t) = is_delivered_turn r
ends_delivered (threw e t) = false

abbrev number : Bool → ℕ
number b = if b then 1 else 0

-- One end is told from a trace on, and it is a delivery exactly where the result is one.
abbrev pub TellsOnce : Trace → Outcome Trace GatewayResult → Type 0
TellsOnce t o =
    (count is_final (after o).events ≡ count is_final t.events + 1)
    × (count is_delivery (after o).events ≡ count is_delivery t.events + number (ends_delivered o))

end_turn-TellsOnce : (d : DeliveryResult) (t : Trace) → TellsOnce t (end_turn d t)
end_turn-TellsOnce (blocked reason) t = omega arith
end_turn-TellsOnce (ended delivered category sent) t = omega arith
end_turn-TellsOnce (ended failed category sent) t = omega arith
end_turn-TellsOnce (ended ambiguous category sent) t = omega arith

-- From a call that tells nothing on.
after-tried :
    {A : Type 0} (o : Outcome Trace A) (k : Thrown ⊎ A → Call Trace GatewayResult) (t : Trace)
    → (after o).events ≡ t.events
    → ((x : Thrown ⊎ A) (t' : Trace) → TellsOnce t' (k x t'))
    → TellsOnce t
        (elim (elim o as (λ x. Outcome Trace (Thrown ⊎ A)) [
          | done a t' ↦ done (inr a) t'
          | threw e t' ↦ done (inl e) t'
        ])
          as (λ x. Outcome Trace GatewayResult) [ done x t' ↦ k x t' | threw e t' ↦ threw e t' ])
after-tried (done a t') k t same tells = rw (← same) (tells (inr a) t')
after-tried (threw e t') k t same tells = rw (← same) (tells (inl e) t')

-- The `finally` tells nothing, and closes the heartbeat.
after-closing :
    (o : Outcome Trace GatewayResult) (t : Trace)
    → TellsOnce t o
    → TellsOnce t (elim o as (λ x. Outcome Trace GatewayResult) [
      | done a t' ↦ done a (record t' { heartbeat_open = false })
      | threw e t' ↦ threw e (record t' { heartbeat_open = false })
    ])
      × ((after {S = Trace} {A = GatewayResult} (elim o as (λ x. Outcome Trace GatewayResult) [
        | done a t' ↦ done a (record t' { heartbeat_open = false })
        | threw e t' ↦ threw e (record t' { heartbeat_open = false })
      ])).heartbeat_open
          ≡ false)
after-closing (done a t') t h = (h, refl)
after-closing (threw e t') t h = (h, refl)

answer-events : {A : Type 0} (x : Thrown ⊎ A) (t : Trace) → (after (answer x t)).events ≡ t.events
answer-events (inl e) t = refl
answer-events (inr a) t = refl

module _ {R : Type 0} (c : Conditions R) where
  with_delivery-TellsOnce :
      (x : Thrown ⊎ DeliveryResult) (t : Trace) → TellsOnce t (with_delivery c x t)
  with_delivery-TellsOnce (inl e) t = ground arith
  with_delivery-TellsOnce (inr d) t = ground (arith, end_turn-TellsOnce d t)

  deliver-events : (r : R) (t : Trace) → (after (deliver c r t)).events ≡ t.events
  deliver-events r t = elim (Bool-cases (c.aborted at_delivery)) [
    | inl cut ↦ rw cut refl
    | inr on ↦ rw on (answer-events (c.delivery r) _)
  ]

  delivery-TellsOnce :
      (r : R) (t : Trace) → TellsOnce t ((tried (deliver c r) >>= with_delivery c) t)
  delivery-TellsOnce r t =
      after-tried (deliver c r t) (with_delivery c) t (deliver-events r t) with_delivery-TellsOnce

  with_response-TellsOnce : (x : Thrown ⊎ R) (t : Trace) → TellsOnce t (with_response c x t)
  with_response-TellsOnce (inl e) t = ground arith
  with_response-TellsOnce (inr r) t = elim (Bool-cases (c.aborted answered)) [
    | inl cut ↦ rw cut (omega arith)
    | inr on ↦ rw on (delivery-TellsOnce r (record t { events = delivery_started ∷ t.events }))
  ]

  ask_orchestrator-events : (t : Trace) → (after (ask_orchestrator c t)).events ≡ t.events
  ask_orchestrator-events t = elim (Bool-cases (c.aborted at_start)) [
    | inl cut ↦ rw cut refl
    | inr on ↦ rw on (answer-events c.orchestrator _)
  ]

  -- However a turn ends, also where it throws and wherever its signal is aborted, the channel is
  -- told of one end, which is a delivery exactly where the turn's result is one, and the heartbeat
  -- is closed.
  pub run_recorded_turn-TellsOnce :
      (t : Trace)
      → TellsOnce t (run_recorded_turn c t)
        × ((after (run_recorded_turn c t)).heartbeat_open ≡ false)
  unfolding run_recorded_turn
  run_recorded_turn-TellsOnce t =
      let opened = record t { heartbeat_open = true } in
      after-closing _ t (
        after-tried (ask_orchestrator c opened) (with_response c) opened
          (ask_orchestrator-events opened) with_response-TellsOnce)
