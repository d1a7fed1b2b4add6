-- ===== src/Interactions/Scope.antt =====
-- packages/database/src/repositories/operations/pending-interactions.ts: one open question for each
-- speaker of a conversation.
use plus_one.Common.Effects.{after}
use plus_one.Interactions.Resolutions.{
  Resolution, expire, complete, ends, is_expirable, InteractionEvent, as_expired, expire_found,
  happen, happen_all, complete_found, creating, is_completable, as_resolved, claiming, expiring,
  completing, takes_message,
}
use plus_one.Interactions.{
  Claim, Interaction, Interactions, create, claim, is_claimable, is_open, is_open_in, as_claimed,
  change_rows, change_where, claim_found, existing, is_target, unresolved, is_resolved_by,
  find_by_id, has_public_interaction_id,
}
use mathlib.Core.Path.{subst}
use plus_one.Common.{
  ℕ, List, String, Bool, [], ◌≤◌, Option, any, map, ◌&&◌, ◌∷◌, ◌≡◌, arith, false, true, Bool-cases,
  some, inl, not, eq_iff, inr, same_option, str_eq, none, ◌||◌, count, count-none,
}

-- How many interactions of a scope are open.
abbrev pub open_count : String → String → String → Interactions → ℕ
open_count h c p s = count (is_open_in h c p) s.rows

abbrev HasOneOpen : Interactions → Type 0
HasOneOpen s = (h c p : String) → open_count h c p s ≤ 1

-- A change that opens no interaction.
abbrev OpensNone : (Interaction → Bool) → (Interaction → Interaction) → Type 0
OpensNone guard f =
    (h c p : String) (i : Interaction)
    → guard i ≡ true
    → is_open_in h c p (f i) ≡ true
    → is_open_in h c p i ≡ true

count-change_where :
    (h c p : String) (guard : Interaction → Bool) (f : Interaction → Interaction)
    (rows : List Interaction)
    → OpensNone guard f
    → count (is_open_in h c p) (map (change_where guard f) rows) ≤ count (is_open_in h c p) rows
count-change_where h c p guard f [] o = omega arith
count-change_where h c p guard f (i ∷ is) o = elim (Bool-cases (guard i)) [
  | inl hit ↦ elim (Bool-cases (is_open_in h c p (f i))) [
    | inl now ↦
        rw (hit, now, o h c p i hit now) (omega (arith, count-change_where h c p guard f is o))
    | inr shut ↦ rw (hit, shut) (ground (arith, count-change_where h c p guard f is o))
  ]
  | inr miss ↦ elim (Bool-cases (is_open_in h c p i)) [
    | inl now ↦ rw (miss, now) (omega (arith, count-change_where h c p guard f is o))
    | inr shut ↦ rw (miss, shut) (count-change_where h c p guard f is o)
  ]
]

change_rows-HasOneOpen :
    (h id : String) (guard : Interaction → Bool) (f : Interaction → Interaction) (s : Interactions)
    → OpensNone guard f
    → HasOneOpen s
    → HasOneOpen (change_rows h id guard f s)
change_rows-HasOneOpen h id guard f s o one h' c p = omega (
  arith,
  one h' c p,
  count-change_where h' c p (is_target h id guard) f s.rows
      (λ h'' c' p' i hit now. o h'' c' p' i (ground (arith, hit)) now),
)

as_claimed-OpensNone : (input : Claim) (v : ℕ) → OpensNone (is_claimable v) (as_claimed input)
as_claimed-OpensNone input v h c p i g now = ground arith

as_expired-OpensNone :
    (clock : ℕ) (input : Resolution) (v : ℕ) → OpensNone (is_expirable clock v) (as_expired input)
as_expired-OpensNone clock input v h c p i g now = ground arith

as_resolved-OpensNone :
    (input : Resolution) (v : ℕ)
    → ends input ≡ true
    → OpensNone (is_completable v) (as_resolved input)
as_resolved-OpensNone input v last h c p i g now = ground arith

claim-HasOneOpen :
    (input : Claim) (s : Interactions) → HasOneOpen s → HasOneOpen (after (claim input s))
unfolding claim
claim-HasOneOpen input s one = go (find_by_id input.household_id input.interaction_id s)
  where
    go : (o : Option Interaction) → HasOneOpen (after (claim_found input o s))
    go none = one
    go (some j) = elim (Bool-cases (is_claimable input.expected_version j)) [
      | inl free ↦
          elim (Bool-cases (
            any (is_resolved_by j.household_id j.conversation_id input.external_message_id)
              s.rows)) [
                | inl taken ↦ rw (free, taken) one
                | inr unused ↦
                    rw (free, unused)
                      (change_rows-HasOneOpen input.household_id input.interaction_id
                        (is_claimable input.expected_version) (as_claimed input) s
                        (as_claimed-OpensNone input input.expected_version) one)
              ]
      | inr held ↦
          elim (Bool-cases
            (same_option j.resolution_external_message_id (some input.external_message_id))) [
              | inl again ↦ rw (held, again) one
              | inr other ↦ rw (held, other) one
            ]
    ]

expire-HasOneOpen :
    (clock : ℕ) (input : Resolution) (s : Interactions)
    → HasOneOpen s
    → HasOneOpen (after (expire clock input s))
unfolding expire
expire-HasOneOpen clock input s one = go (find_by_id input.household_id input.interaction_id s)
  where
    go : (o : Option Interaction) → HasOneOpen (after (expire_found clock input o s))
    go none = one
    go (some j) = elim (Bool-cases (not (is_expirable clock input.expected_version j))) [
      | inl early ↦ rw early one
      | inr due ↦ elim (Bool-cases (takes_message input j s)) [
        | inl taken ↦ rw (due, taken) one
        | inr unused ↦
            rw (due, unused)
              (change_rows-HasOneOpen input.household_id input.interaction_id
                (is_expirable clock input.expected_version) (as_expired input) s
                (as_expired-OpensNone clock input input.expected_version) one)
      ]
    ]

complete-HasOneOpen :
    (input : Resolution) (s : Interactions)
    → ends input ≡ true
    → HasOneOpen s
    → HasOneOpen (after (complete input s))
unfolding complete
complete-HasOneOpen input s last one = go (find_by_id input.household_id input.interaction_id s)
  where
    go : (o : Option Interaction) → HasOneOpen (after (complete_found input o s))
    go none = one
    go (some j) = elim (Bool-cases (is_completable input.expected_version j)) [
      | inl held ↦ rw held (
          change_rows-HasOneOpen input.household_id input.interaction_id
            (is_completable input.expected_version) (as_resolved input) s
            (as_resolved-OpensNone input input.expected_version last) one)
      | inr other ↦ rw other one
    ]

insert-HasOneOpen :
    (new : Interaction) (s : Interactions)
    → (is_open new.status
        && any (is_open_in new.household_id new.conversation_id new.speaker_principal_ref) s.rows)
      ≡ false
    → HasOneOpen s
    → HasOneOpen (record s { rows = unresolved new ∷ s.rows })
insert-HasOneOpen new s free one h c p = elim (Bool-cases (is_open_in h c p (unresolved new))) [
  | inl mine ↦
      let open_ : is_open new.status ≡ true = ground arith in
      let base =
        count-none (is_open_in new.household_id new.conversation_id new.speaker_principal_ref)
          s.rows (ground (arith, free, open_)) in
      let same_h : new.household_id ≡ h = ground (arith, eq_iff new.household_id h) in
      let same_c : new.conversation_id ≡ c = ground (arith, eq_iff new.conversation_id c) in
      let same_p : new.speaker_principal_ref ≡ p =
        ground (arith, eq_iff new.speaker_principal_ref p) in
      let at_h =
        subst (λ (x : String). open_count x new.conversation_id new.speaker_principal_ref s ≡ 0)
          same_h base in
      let at_c =
        subst (λ (x : String). open_count h x new.speaker_principal_ref s ≡ 0) same_c at_h in
      let at_p = subst (λ (x : String). open_count h c x s ≡ 0) same_p at_c in
      rw mine (omega (arith, at_p))
  | inr other ↦ rw other (one h c p)
]

create-HasOneOpen :
    (same : Interaction → Interaction → Bool) (new : Interaction) (s : Interactions)
    → HasOneOpen s
    → HasOneOpen (after (create same new s))
unfolding create
create-HasOneOpen same new s one =
    elim (Bool-cases (
      not (any (str_eq new.household_id) s.households)
      || any (has_public_interaction_id new.interaction_id) s.rows)) [
        | inl met ↦ rw met (go (find_by_id new.household_id new.interaction_id s))
        | inr fresh ↦
            elim (Bool-cases (
              is_open new.status
              && any (is_open_in new.household_id new.conversation_id new.speaker_principal_ref)
                  s.rows)) [
                    | inl occupied ↦ rw (fresh, occupied) one
                    | inr free ↦ rw (fresh, free) (insert-HasOneOpen new s free one)
                  ]
      ]
  where
    go : (o : Option Interaction) → HasOneOpen (after (existing same new o s))
    go none = one
    go (some j) = elim (Bool-cases (same j new)) [
      | inl equal ↦ rw equal one
      | inr different ↦ rw different one
    ]

happen-HasOneOpen :
    (same : Interaction → Interaction → Bool) (e : InteractionEvent) (s : Interactions)
    → HasOneOpen s
    → HasOneOpen (happen same e s)
happen-HasOneOpen same (creating new) s one = create-HasOneOpen same new s one
happen-HasOneOpen same (claiming input) s one = claim-HasOneOpen input s one
happen-HasOneOpen same (expiring now input) s one = expire-HasOneOpen now input s one
happen-HasOneOpen same (completing input) s one = elim (Bool-cases (ends input)) [
  | inl last ↦ rw last (complete-HasOneOpen input s last one)
  | inr open_ ↦ rw open_ one
]

happen_all-HasOneOpen :
    (same : Interaction → Interaction → Bool) (es : List InteractionEvent) (s : Interactions)
    → HasOneOpen s
    → HasOneOpen (happen_all same es s)
happen_all-HasOneOpen same [] s one = one
happen_all-HasOneOpen same (e ∷ es) s one =
    happen_all-HasOneOpen same es (happen same e s) (happen-HasOneOpen same e s one)

abbrev pub no_interactions : List String → Interactions
no_interactions households = record { households = households; rows = [] }

-- After any calls of the repository on an empty table, at most one interaction of a speaker in a
-- conversation of a household is open.
pub one_open_question :
    (same : Interaction → Interaction → Bool) (es : List InteractionEvent)
    (households : List String) (h c p : String)
    → open_count h c p (happen_all same es (no_interactions households)) ≤ 1
one_open_question same es households h c p =
    happen_all-HasOneOpen same es (no_interactions households) (λ h c p. omega arith) h c p
