-- ===== src/Interactions/Final.antt =====
-- packages/database/src/repositories/operations/pending-interactions.ts: what a claim and an end of an
-- interaction settle for good.
use plus_one.Interactions.Changes.{find-change_where, as_claimed-KeepsId}
use plus_one.Interactions.Histories.{happen-Found, happen_all-Found}
use plus_one.Common.Effects.{Outcome, threw}
use plus_one.Interactions.Resolutions.{InteractionEvent, happen, happen_all}
use plus_one.Interactions.{
  Interaction, Interactions, claim, Claim, find_by_id, has_interaction_id, done, claimed, is_open,
  is_pending, Decision, change_rows, claim_found, is_claimable, as_claimed, is_resolved_by, replay,
  is_target, ClaimResult, state_conflict,
}
use mathlib.Core.Path.{subst}
use plus_one.Interactions.Machine.{is_step}
use plus_one.Common.{
  none, Option, ℕ, String, Bool, List, any, ◌∙◌, ◌≡◌, false, some, true, Bool-cases, Option, ap,
  inl, arith, inr, refl, str_eq, if◌then◌else◌, find-hit, same_option, ◌⊎◌, suc,
}

-- An interaction that has ended is found unchanged after any calls of the repository.
closed-IsFinal :
    (same : Interaction → Interaction → Bool) (es : List InteractionEvent) (h id : String)
    (i : Interaction) (s : Interactions)
    → find_by_id h id s ≡ some i
    → is_open i.status ≡ false
    → find_by_id h id (happen_all same es s) ≡ some i
closed-IsFinal same es h id i s f closed =
    let (j, g, later) = happen_all-Found same h id i es s f in g ∙ ap some (later.stays closed)

-- What `claim` leaves where it claimed.
abbrev ClaimedIn : Claim → Interactions → Interaction → Type 0
ClaimedIn input t i =
    (find_by_id input.household_id input.interaction_id t ≡ some i)
    × (is_pending i.status ≡ false)
    × (i.resolution_external_message_id ≡ some input.external_message_id)

abbrev claimed_rows : Claim → Interactions → Interactions
claimed_rows input s =
    change_rows input.household_id input.interaction_id (is_claimable input.expected_version)
      (as_claimed input) s

as_claimed-ClaimedIn :
    (input : Claim) (s : Interactions) (j : Interaction)
    → find_by_id input.household_id input.interaction_id s ≡ some j
    → is_claimable input.expected_version j ≡ true
    → ClaimedIn input (claimed_rows input s) (as_claimed input j)
as_claimed-ClaimedIn input s j f free =
    let target : is_target input.household_id input.interaction_id
          (is_claimable input.expected_version) j
        ≡ true =
      ground (
        arith,
        free,
        find-hit {0} (has_interaction_id input.household_id input.interaction_id) s.rows j f,
      ) in
    (
      find-change_where input.household_id input.interaction_id
            (is_target input.household_id input.interaction_id
              (is_claimable input.expected_version))
            (as_claimed input) s.rows j (as_claimed-KeepsId input) f
          ∙ rw target refl,
      refl,
      refl,
    )

claimed_found-ClaimedIn :
    (input : Claim) (s t : Interactions) (i j : Interaction)
    → find_by_id input.household_id input.interaction_id s ≡ some j
    → claim_found input (some j) s ≡ done (claimed i) t
    → ClaimedIn input t i
claimed_found-ClaimedIn input s t i j f e =
    elim (Bool-cases (is_claimable input.expected_version j)) [
      | inl free ↦
          elim (Bool-cases (
            any (is_resolved_by j.household_id j.conversation_id input.external_message_id)
              s.rows)) [
                | inl taken ↦ let threw_it = rw (free, taken) at e in cc
                | inr unused ↦
                    let returned : ◌≡◌ {A = Outcome Interactions ClaimResult}
                        (done (claimed (as_claimed input j)) (claimed_rows input s))
                        (done (claimed i) t) =
                      rw (free, unused) at e in
                    let same_i : as_claimed input j ≡ i = ground arith in
                    let same_t : claimed_rows input s ≡ t = ground arith in
                    subst (ClaimedIn input t) same_i (
                      subst (λ (u : Interactions). ClaimedIn input u (as_claimed input j)) same_t
                        (as_claimed-ClaimedIn input s j f free))
              ]
      | inr held ↦
          elim (Bool-cases
            (same_option j.resolution_external_message_id (some input.external_message_id))) [
              | inl again ↦ let replayed = rw (held, again) at e in cc
              | inr other ↦ let threw_it = rw (held, other) at e in cc
            ]
    ]

claim-ClaimedIn :
    (input : Claim) (s t : Interactions) (i : Interaction)
    → claim input s ≡ done (claimed i) t
    → ClaimedIn input t i
unfolding claim
claim-ClaimedIn input s t i e = go (find_by_id input.household_id input.interaction_id s) refl e
  where
    go :
        (o : Option Interaction)
        → find_by_id input.household_id input.interaction_id s ≡ o
        → claim_found input o s ≡ done (claimed i) t
        → ClaimedIn input t i
    go none f e = cc
    go (some j) f e = claimed_found-ClaimedIn input s t i j f e

-- A claim of an interaction that is not pending compares the messages.
claim-held :
    (input : Claim) (u : Interactions) (j : Interaction) (m : String)
    → find_by_id input.household_id input.interaction_id u ≡ some j
    → is_pending j.status ≡ false
    → j.resolution_external_message_id ≡ some m
    → claim input u
      ≡ (if str_eq m input.external_message_id then done (replay j) u else threw state_conflict u)
unfolding claim
claim-held input u j m f held e =
    ap (λ (o : Option Interaction). claim_found input o u) f ∙ rw (held, e) refl

-- Once `claim` claimed an interaction for a message, whatever calls follow: a claim of the
-- interaction for that message is a replay with the same message, and a claim for another message is
-- a state conflict, whichever decisions and versions they carry; neither changes anything.
pub claimed_once :
    (same : Interaction → Interaction → Bool) (es : List InteractionEvent) (input : Claim)
    (s t : Interactions) (i : Interaction) (message : String) (decision : Decision) (version : ℕ)
    → claim input s ≡ done (claimed i) t
    → (j : Interaction) × (j.resolution_external_message_id ≡ some input.external_message_id)
      × (claim
            (record input {
              external_message_id = message;
              decision = decision;
              expected_version = version;
            })
            (happen_all same es t)
          ≡ (if str_eq input.external_message_id message
              then done (replay j) (happen_all same es t)
              else threw state_conflict (happen_all same es t)))
claimed_once same es input s t i message decision version e =
    let (f, held, m) = claim-ClaimedIn input s t i e in
    let (j, g, later) = happen_all-Found same input.household_id input.interaction_id i es t f in
    let (still, kept) = later.keeps_message input.external_message_id held m in
    (
      j,
      kept,
      claim-held
          (record input {
            external_message_id = message;
            decision = decision;
            expected_version = version;
          })
          (happen_all same es t) j input.external_message_id g still kept,
    )

-- A call of the repository takes an interaction that it can find one step further in the machine of
-- interactions, from waiting over being resolved to an end, and raises its version by one, or leaves
-- it as it is.
pub happen-IsStep :
    (same : Interaction → Interaction → Bool) (e : InteractionEvent) (h id : String)
    (i : Interaction) (s : Interactions)
    → find_by_id h id s ≡ some i
    → (j : Interaction) × (find_by_id h id (happen same e s) ≡ some j)
      × ((j ≡ i) ⊎ ((is_step i.status j.status ≡ true) × (j.version ≡ suc i.version)))
happen-IsStep same e h id i s f =
    let (j, g, step) = happen-Found same h id i e s f in (j, g, step.one)
