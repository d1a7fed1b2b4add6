-- ===== src/Interactions.antt =====
-- packages/database/src/repositories/operations/pending-interactions.ts: the questions that wait for
-- an answer of a speaker. The rows stand newest first; a payload and a response are their texts, and
-- the constraints of the table (database/migrations/0023_pending_interactions.sql) are its unique
-- indices. The clock of the database is an argument.
pub mod Resolutions
pub mod Machine
pub mod Changes
pub mod Calls
pub mod Histories
pub mod Final
pub mod Scope
use plus_one.Common.Effects.{Call, threw, done}
use plus_one.Common.Errors.{
  Thrown, database_error, failure, duplicate_replay, serialization_conflict, validation_rejected,
  after_state_resolution, never,
}
use plus_one.Common.{
  ℕ, Bool, List, Option, String, all, none, suc, false, find, if◌then◌else◌, ltb, map, some, str_eq,
  true, ◌&&◌, ◌||◌, not, same_option, ◌==◌, any, ◌∷◌,
}

pub data InteractionStatus : Type 0 where
  pending resolving applied rejected expired stale failed : InteractionStatus

pub data Decision : Type 0 where
  approve reject : Decision

pub record Interaction : Type 0 where
  pub interaction_id : String
  pub household_id : String
  pub conversation_id : String
  pub speaker_principal_ref : String
  pub payload : String
  pub status : InteractionStatus
  pub version : ℕ
  pub resolution_external_message_id : Option String
  pub resolution_decision : Option Decision
  pub resolution_code : Option String
  pub resolution_response : Option String
  pub created_at : ℕ
  pub expires_at : ℕ
  pub resolved_at : Option ℕ

pub record Interactions : Type 0 where
  pub households : List String
  pub rows : List Interaction

abbrev pub is_pending : InteractionStatus → Bool
is_pending pending = true
is_pending resolving = false
is_pending applied = false
is_pending rejected = false
is_pending expired = false
is_pending stale = false
is_pending failed = false

abbrev pub is_resolving : InteractionStatus → Bool
is_resolving pending = false
is_resolving resolving = true
is_resolving applied = false
is_resolving rejected = false
is_resolving expired = false
is_resolving stale = false
is_resolving failed = false

abbrev pub is_open : InteractionStatus → Bool
is_open s = is_pending s || is_resolving s

abbrev pub has_interaction_id : String → String → Interaction → Bool
has_interaction_id h id i = str_eq i.household_id h && str_eq i.interaction_id id

abbrev pub is_of_scope : String → String → String → Interaction → Bool
is_of_scope h c p i =
    str_eq i.household_id h && str_eq i.conversation_id c && str_eq i.speaker_principal_ref p

abbrev pub is_open_in : String → String → String → Interaction → Bool
is_open_in h c p i = is_of_scope h c p i && is_open i.status

abbrev pub find_by_id : String → String → Interactions → Option Interaction
find_by_id h id s = find (has_interaction_id h id) s.rows

abbrev is_live : ℕ → Interaction → Bool
is_live now i = ltb now i.expires_at

abbrev is_unexpired : String → String → String → ℕ → Interaction → Bool
is_unexpired h c p now i = is_open_in h c p i && is_live now i

abbrev is_overdue : String → String → String → ℕ → Interaction → Bool
is_overdue h c p now i = is_open_in h c p i && not (is_live now i)

abbrev pub find_open : String → String → String → (now : ℕ) → Interactions → Option Interaction
find_open h c p now s = find (is_unexpired h c p now) s.rows

abbrev pub find_expired : String → String → String → (now : ℕ) → Interactions → Option Interaction
find_expired h c p now s = find (is_overdue h c p now) s.rows

abbrev pub is_resolved_by : String → String → String → Interaction → Bool
is_resolved_by h c message i =
    str_eq i.household_id h
    && str_eq i.conversation_id c
    && same_option i.resolution_external_message_id (some message)

abbrev pub find_by_resolution_message : String → String → String → Interactions → Option Interaction
find_by_resolution_message h c message s = find (is_resolved_by h c message) s.rows

abbrev pub state_conflict : Thrown
state_conflict =
    failure serialization_conflict "pending_interaction_state_conflict" after_state_resolution true

abbrev pub idempotency_conflict : Thrown
idempotency_conflict =
    failure duplicate_replay "pending_interaction_idempotency_conflict" never true

abbrev pub household_not_found : Thrown
household_not_found =
    failure validation_rejected "pending_interaction_household_not_found" never false

abbrev pub interaction_not_found : Thrown
interaction_not_found = failure validation_rejected "pending_interaction_not_found" never false

abbrev pub scope_conflict : Thrown
scope_conflict =
    failure serialization_conflict "pending_interaction_scope_conflict" after_state_resolution true

abbrev pub message_taken : Thrown
message_taken = database_error "23505" "pending_interactions_resolution_message_unique"

-- The row that `create` inserts.
abbrev pub unresolved : Interaction → Interaction
unresolved i = record i {
  resolution_external_message_id = none;
  resolution_decision = none;
  resolution_code = none;
  resolution_response = none;
  resolved_at = none;
}

abbrev pub has_public_interaction_id : String → Interaction → Bool
has_public_interaction_id id i = str_eq i.interaction_id id

-- `create` where the insertion met a row of this identifier, or no household. Whether two
-- interactions have one `stableJson` text is the parameter `same`.
abbrev pub existing :
    (Interaction → Interaction → Bool)
    → Interaction
    → Option Interaction
    → Call Interactions Interaction
existing same i none s = threw household_not_found s
existing same i (some found) s = if same found i then done found s else threw idempotency_conflict s

unfoldable pub create :
    (Interaction → Interaction → Bool) → Interaction → Call Interactions Interaction
create same i s =
    if not (any (str_eq i.household_id) s.households)
      || any (has_public_interaction_id i.interaction_id) s.rows
    then existing same i (find_by_id i.household_id i.interaction_id s) s
    else if is_open i.status
        && any (is_open_in i.household_id i.conversation_id i.speaker_principal_ref) s.rows
    then threw scope_conflict s
    else done (unresolved i) (record s { rows = unresolved i ∷ s.rows })

abbrev pub change_where :
    (Interaction → Bool) → (Interaction → Interaction) → Interaction → Interaction
change_where p f i = if p i then f i else i

abbrev pub is_target : String → String → (Interaction → Bool) → Interaction → Bool
is_target h id guard i = has_interaction_id h id i && guard i

-- The rows after an update of the one that has this identifier, where it passes the guard.
abbrev pub change_rows :
    String
    → String
    → (Interaction → Bool)
    → (Interaction → Interaction)
    → Interactions
    → Interactions
change_rows h id guard f s = record s { rows = map (change_where (is_target h id guard) f) s.rows }

pub record Claim : Type 0 where
  pub household_id : String
  pub interaction_id : String
  pub external_message_id : String
  pub decision : Decision
  pub expected_version : ℕ

pub data ClaimResult : Type 0 where
  claimed replay : Interaction → ClaimResult

abbrev pub is_claimable : ℕ → Interaction → Bool
is_claimable version i = is_pending i.status && i.version == version

abbrev pub as_claimed : Claim → Interaction → Interaction
as_claimed input i = record i {
  status = resolving;
  version = suc i.version;
  resolution_external_message_id = some input.external_message_id;
  resolution_decision = some input.decision;
}

-- `claim` where the update changed no row.
abbrev pub unclaimed : Claim → Interaction → Call Interactions ClaimResult
unclaimed input i s =
    if same_option i.resolution_external_message_id (some input.external_message_id)
    then done (replay i) s
    else threw state_conflict s

abbrev pub claim_found : Claim → Option Interaction → Call Interactions ClaimResult
claim_found input none s = threw interaction_not_found s
claim_found input (some i) s =
    if is_claimable input.expected_version i
    then (if any (is_resolved_by i.household_id i.conversation_id input.external_message_id) s.rows
        then threw message_taken s
        else done (claimed (as_claimed input i)) (
            change_rows input.household_id input.interaction_id
              (is_claimable input.expected_version) (as_claimed input) s))
    else unclaimed input i s

unfoldable pub claim : Claim → Call Interactions ClaimResult
claim input s = claim_found input (find_by_id input.household_id input.interaction_id s) s
