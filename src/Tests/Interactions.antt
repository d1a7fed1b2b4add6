-- ===== src/Tests/Interactions.antt =====
-- Runs of the pending interactions.
use plus_one.Common.Effects.{done, threw}
use plus_one.Interactions.Final.{claimed_once, happen-IsStep}
use plus_one.Interactions.Resolutions.{
  InteractionEvent, Resolution, happen_all, completing, creating, as_resolved, happen, claiming,
}
use plus_one.Interactions.Scope.{open_count, no_interactions, one_open_question}
use plus_one.Interactions.{
  Interaction, InteractionStatus, Interactions, find_by_id, Claim, as_claimed, claim, approve,
  replay, state_conflict,
}
use plus_one.Interactions.Machine.{is_step}
use plus_one.Common.{
  ℕ, List, String, Bool, none, ◌∷◌, [], str_eq, ◌≡◌, some, ◌≤◌, if◌then◌else◌, refl, ◌⊎◌, true, suc,
}

abbrev question : String → Interaction
question id = record {
  interaction_id = id;
  household_id = "h1";
  conversation_id = "c1";
  speaker_principal_ref = "ann";
  payload = "budget";
  status = InteractionStatus.pending;
  version = 0;
  resolution_external_message_id = none;
  resolution_decision = none;
  resolution_code = none;
  resolution_response = none;
  created_at = 10;
  expires_at = 20;
  resolved_at = none;
}

abbrev same_id : Interaction → Interaction → Bool
same_id i j = str_eq i.interaction_id j.interaction_id

abbrev yes_by : String → Claim
yes_by message = record {
  household_id = "h1";
  interaction_id = "q1";
  external_message_id = message;
  decision = approve;
  expected_version = 0;
}

abbrev ending : InteractionStatus → ℕ → Resolution
ending status version = record {
  household_id = "h1";
  interaction_id = "q1";
  external_message_id = "m1";
  expected_version = version;
  status = status;
  resolution_code = "applied";
  resolution_response = "done";
  resolved_at = 15;
}

abbrev asked : List InteractionEvent
asked = creating (question "q1") ∷ creating (question "q2") ∷ []

abbrev settled : List InteractionEvent
settled = completing (ending InteractionStatus.applied 1) ∷ creating (question "q2") ∷ []

abbrev one_asked : Interactions
one_asked = record { households = "h1" ∷ []; rows = question "q1" ∷ [] }

abbrev claimed_row : Interaction
claimed_row = as_claimed (yes_by "m1") (question "q1")

abbrev one_claimed : Interactions
one_claimed = record { households = "h1" ∷ []; rows = claimed_row ∷ [] }

abbrev one_closed : Interactions
one_closed = record {
  households = "h1" ∷ [];
  rows = as_resolved (ending InteractionStatus.applied 1) claimed_row ∷ [];
}

one_open_question_example :
    open_count "h1" "c1" "ann" (happen_all same_id asked (no_interactions ("h1" ∷ []))) ≤ 1
one_open_question_example = one_open_question same_id asked ("h1" ∷ []) "h1" "c1" "ann"

claimed_once_example :
    (j : Interaction) × (j.resolution_external_message_id ≡ some "m1")
    × (claim (yes_by "m2") (happen_all same_id settled one_claimed) ≡ (
        if str_eq "m1" "m2"
        then done (replay j) (happen_all same_id settled one_claimed)
        else threw state_conflict (happen_all same_id settled one_claimed)))
unfolding claim
claimed_once_example =
    claimed_once same_id settled (yes_by "m1") one_asked one_claimed claimed_row "m2" approve 0 refl

happen-IsStep_example :
    (j : Interaction) × (find_by_id "h1" "q1" (happen same_id (claiming (yes_by "m1")) one_asked)
      ≡ some j)
    × ((j ≡ question "q1")
        ⊎ ((is_step InteractionStatus.pending j.status ≡ true) × (j.version ≡ suc 0)))
happen-IsStep_example =
    happen-IsStep same_id (claiming (yes_by "m1")) "h1" "q1" (question "q1") one_asked refl
