-- ===== src/Interactions/Resolutions.antt =====
-- packages/database/src/repositories/operations/pending-interactions.ts: how an interaction ends, and
-- the repository's calls as events.
use plus_one.Common.Effects.{after, done}
use plus_one.Interactions.{
  Interaction, Call, Claim, InteractionStatus, Interactions, expired, is_open, is_resolving,
  find_by_id, threw, create, state_conflict, claim, is_resolved_by, message_taken, change_rows,
}
use plus_one.Common.{
  ℕ, Bool, Option, String, List, not, some, suc, none, same_option, ◌&&◌, ◌∷◌, [], any, ◌==◌,
  if◌then◌else◌, leb,
}

-- `expire` and `complete`, with the status that the row gets.
pub record Resolution : Type 0 where
  pub household_id : String
  pub interaction_id : String
  pub external_message_id : String
  pub expected_version : ℕ
  pub status : InteractionStatus
  pub resolution_code : String
  pub resolution_response : String
  pub resolved_at : ℕ

abbrev pub or_else : Option String → String → Option String
or_else none message = some message
or_else (some m) message = some m

abbrev pub as_resolved : Resolution → Interaction → Interaction
as_resolved input i = record i {
  status = input.status;
  version = suc i.version;
  resolution_code = some input.resolution_code;
  resolution_response = some input.resolution_response;
  resolved_at = some input.resolved_at;
}

abbrev pub as_expired : Resolution → Interaction → Interaction
as_expired input i = record (as_resolved input i) {
  status = expired;
  resolution_external_message_id =
      or_else i.resolution_external_message_id input.external_message_id;
}

abbrev pub is_expirable : (now : ℕ) → ℕ → Interaction → Bool
is_expirable now version i = is_open i.status && i.version == version && leb i.expires_at now

abbrev pub is_completable : ℕ → Interaction → Bool
is_completable version i = is_resolving i.status && i.version == version

abbrev pub takes_message : Resolution → Interaction → Interactions → Bool
takes_message input i s =
    same_option i.resolution_external_message_id none
    && any (is_resolved_by i.household_id i.conversation_id input.external_message_id) s.rows

abbrev pub expire_found : ℕ → Resolution → Option Interaction → Call Interactions Interaction
expire_found now input none s = threw state_conflict s
expire_found now input (some i) s =
    if not (is_expirable now input.expected_version i)
    then threw state_conflict s
    else if takes_message input i s
    then threw message_taken s
    else done (as_expired input i) (
        change_rows input.household_id input.interaction_id
          (is_expirable now input.expected_version) (as_expired input) s)

unfoldable pub expire : (now : ℕ) → Resolution → Call Interactions Interaction
expire now input s = expire_found now input (find_by_id input.household_id input.interaction_id s) s

abbrev pub complete_found : Resolution → Option Interaction → Call Interactions Interaction
complete_found input none s = threw state_conflict s
complete_found input (some i) s =
    if is_completable input.expected_version i
    then done (as_resolved input i) (
        change_rows input.household_id input.interaction_id (is_completable input.expected_version)
          (as_resolved input) s)
    else threw state_conflict s

unfoldable pub complete : Resolution → Call Interactions Interaction
complete input s = complete_found input (find_by_id input.household_id input.interaction_id s) s

-- `complete` ends an interaction: its input has no open status.
pub data InteractionEvent : Type 0 where
  creating : Interaction → InteractionEvent
  claiming : Claim → InteractionEvent
  expiring : (now : ℕ) → Resolution → InteractionEvent
  completing : Resolution → InteractionEvent

abbrev pub ends : Resolution → Bool
ends input = not (is_open input.status)

-- The state after a call; `complete` is only typed for a status that ends an interaction.
abbrev pub happen :
    (Interaction → Interaction → Bool) → InteractionEvent → Interactions → Interactions
happen same (creating i) s = after (create same i s)
happen same (claiming input) s = after (claim input s)
happen same (expiring now input) s = after (expire now input s)
happen same (completing input) s = if ends input then after (complete input s) else s

abbrev pub happen_all :
    (Interaction → Interaction → Bool) → List InteractionEvent → Interactions → Interactions
happen_all same [] s = s
happen_all same (e ∷ es) s = happen_all same es (happen same e s)
