-- ===== src/Interactions/Calls.antt =====
-- packages/database/src/repositories/operations/pending-interactions.ts: what a call makes of an
-- interaction that can be found.
use plus_one.Interactions.Changes.{
  Step, Step-refl, as_claimed-KeepsId, as_expired-KeepsId, as_resolved-KeepsId, KeepsId,
  as_claimed-Step, as_expired-Step, as_resolved-Step, find-change_where,
}
use plus_one.Common.Effects.{after}
use plus_one.Interactions.Resolutions.{
  Resolution, as_expired, as_resolved, complete, expire, ends, is_expirable, is_completable,
  complete_found, expire_found, takes_message,
}
use plus_one.Interactions.{
  Claim, Interaction, as_claimed, change_where, Interactions, claim, find_by_id, is_claimable,
  change_rows, claim_found, is_target, is_resolved_by,
}
use plus_one.Common.{
  Option, String, Bool, ◌≡◌, Bool-cases, some, inl, inr, arith, ℕ, true, any, none, not,
  same_option,
}

-- What has become of the interaction of this identifier.
abbrev pub Found : String → String → Interaction → Interactions → Type 0
Found h id i t = (j : Interaction) × (find_by_id h id t ≡ some j) × Step i j

change_rows-Found :
    (h id h' id' : String) (guard : Interaction → Bool) (f : Interaction → Interaction)
    (i : Interaction) (s : Interactions)
    → KeepsId f
    → ((j : Interaction) → guard j ≡ true → Step j (f j))
    → find_by_id h id s ≡ some i
    → Found h id i (change_rows h' id' guard f s)
change_rows-Found h id h' id' guard f i s k later e = (
  change_where (is_target h' id' guard) f i,
  find-change_where h id (is_target h' id' guard) f s.rows i k e,
  elim (Bool-cases (is_target h' id' guard i)) [
    | inl hit ↦ rw hit (later i (ground (arith, hit)))
    | inr miss ↦ rw miss (Step-refl i)
  ],
)

Found-refl :
    (h id : String) (i : Interaction) (s : Interactions)
    → find_by_id h id s ≡ some i
    → Found h id i s
Found-refl h id i s e = (i, e, Step-refl i)

pub claim-Found :
    (h id : String) (i : Interaction) (input : Claim) (s : Interactions)
    → find_by_id h id s ≡ some i
    → Found h id i (after (claim input s))
unfolding claim
claim-Found h id i input s e = go (find_by_id input.household_id input.interaction_id s)
  where
    go : (o : Option Interaction) → Found h id i (after (claim_found input o s))
    go none = Found-refl h id i s e
    go (some j) = elim (Bool-cases (is_claimable input.expected_version j)) [
      | inl free ↦
          elim (Bool-cases (
            any (is_resolved_by j.household_id j.conversation_id input.external_message_id)
              s.rows)) [
                | inl taken ↦ rw (free, taken) (Found-refl h id i s e)
                | inr unused ↦
                    rw (free, unused)
                      (change_rows-Found h id input.household_id input.interaction_id
                        (is_claimable input.expected_version) (as_claimed input) i s
                        (as_claimed-KeepsId input) (as_claimed-Step input input.expected_version) e)
              ]
      | inr held ↦
          elim (Bool-cases
            (same_option j.resolution_external_message_id (some input.external_message_id))) [
              | inl again ↦ rw (held, again) (Found-refl h id i s e)
              | inr other ↦ rw (held, other) (Found-refl h id i s e)
            ]
    ]

pub expire-Found :
    (h id : String) (i : Interaction) (now : ℕ) (input : Resolution) (s : Interactions)
    → find_by_id h id s ≡ some i
    → Found h id i (after (expire now input s))
unfolding expire
expire-Found h id i now input s e = go (find_by_id input.household_id input.interaction_id s)
  where
    go : (o : Option Interaction) → Found h id i (after (expire_found now input o s))
    go none = Found-refl h id i s e
    go (some j) = elim (Bool-cases (not (is_expirable now input.expected_version j))) [
      | inl early ↦ rw early (Found-refl h id i s e)
      | inr due ↦ elim (Bool-cases (takes_message input j s)) [
        | inl taken ↦ rw (due, taken) (Found-refl h id i s e)
        | inr unused ↦
            rw (due, unused)
              (change_rows-Found h id input.household_id input.interaction_id
                (is_expirable now input.expected_version) (as_expired input) i s
                (as_expired-KeepsId input) (as_expired-Step now input input.expected_version) e)
      ]
    ]

pub complete-Found :
    (h id : String) (i : Interaction) (input : Resolution) (s : Interactions)
    → ends input ≡ true
    → find_by_id h id s ≡ some i
    → Found h id i (after (complete input s))
unfolding complete
complete-Found h id i input s last e = go (find_by_id input.household_id input.interaction_id s)
  where
    go : (o : Option Interaction) → Found h id i (after (complete_found input o s))
    go none = Found-refl h id i s e
    go (some j) = elim (Bool-cases (is_completable input.expected_version j)) [
      | inl held ↦ rw held (
          change_rows-Found h id input.household_id input.interaction_id
            (is_completable input.expected_version) (as_resolved input) i s
            (as_resolved-KeepsId input) (λ j. as_resolved-Step input input.expected_version j last)
            e)
      | inr other ↦ rw other (Found-refl h id i s e)
    ]
