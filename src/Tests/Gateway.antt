-- ===== src/Tests/Gateway.antt =====
-- Two messages of one conversation, the first sent twice.
use plus_one.Common.{ℕ, Bool, List, [], ◌∷◌, none, true, false, ◌≡◌, ◌≤◌, ◌+◌, count, inr, refl}
use plus_one.Gateway.Turns.{
  Event, submits, finishes, calls_back, happen_all, new_registry, running, submit, happen,
  call_back, schedule_drain,
}
use plus_one.Gateway.Turns.Phases.{waiting}
use plus_one.Gateway.Turns.Orderly.{happen_all-le_one, happen_all-IsKept, is_under_way, has_slot}
use plus_one.Gateway.Channel.{Conditions, Trace, run_recorded_turn, ended, delivered}
use plus_one.Gateway.Channel.Turn.{TellsOnce, run_recorded_turn-TellsOnce}
use plus_one.Gateway.Channel.Messages.{Message, Step, arrives, goes_on, take_steps}
use plus_one.Gateway.Channel.Inbound.{times_accepted, new_gateway, take_steps-accepts_once}
use plus_one.Common.Effects.{after}

-- The second turn waits, the third overtakes it, and a drain starts the second.
abbrev works : List (Event ℕ)
works =
    submits "c1" 1
    ∷ submits "c1" 2
    ∷ finishes "c1" 0
    ∷ calls_back "c1"
    ∷ submits "c1" 3
    ∷ calls_back "c1"
    ∷ finishes "c1" 0
    ∷ calls_back "c1"
    ∷ calls_back "c1"
    ∷ []

works_started : ((happen_all works new_registry).lines "c1").started ≡ 1 ∷ 3 ∷ 2 ∷ []
unfolding happen_all happen submit call_back schedule_drain
works_started = refl

happen_all-le_one_example : running ((happen_all works new_registry).lines "c1") ≤ 1
happen_all-le_one_example = happen_all-le_one works "c1"

abbrev any_work : ℕ → Bool
any_work w = true

happen_all-IsKept_example :
    (count any_work ((happen_all works new_registry).lines "c1").accepted
      ≡ count any_work ((happen_all works new_registry).lines "c1").started
        + count any_work (waiting ((happen_all works new_registry).lines "c1").slot))
    × (is_under_way ((happen_all works new_registry).lines "c1")
        ≡ has_slot ((happen_all works new_registry).lines "c1"))
happen_all-IsKept_example = happen_all-IsKept any_work works "c1"

abbrev calm : Conditions (Unit {0})
calm = record {
  aborted = λ p. false;
  orchestrator = inr tt;
  delivery = λ r. inr (ended delivered none true);
  is_transient = λ e. false;
}

abbrev blank : Trace
blank = record { events = []; orchestrator_runs = 0; deliveries = 0; heartbeat_open = false }

run_recorded_turn-TellsOnce_example :
    TellsOnce blank (run_recorded_turn calm blank)
    × ((after (run_recorded_turn calm blank)).heartbeat_open ≡ false)
run_recorded_turn-TellsOnce_example = run_recorded_turn-TellsOnce calm blank

abbrev hello : Message
hello = record {
  household_id = "h1";
  channel = "telegram";
  external_message_id = "m1";
  conversation_id = "c1";
  body = "hello";
}

abbrev steps : List Step
steps = arrives none true hello ∷ goes_on (finishes "c1" 0) ∷ arrives none true hello ∷ []

take_steps-accepts_once_example : times_accepted hello "c1" (take_steps steps new_gateway) ≤ 1
take_steps-accepts_once_example = take_steps-accepts_once steps hello "c1"
