-- ===== src/Interactions/Histories.antt =====
-- packages/database/src/repositories/operations/pending-interactions.ts: what any calls make of an
-- interaction that can be found.
use plus_one.Interactions.Changes.{Later, Later-refl, Step-refl}
use plus_one.Interactions.Calls.{Found, claim-Found, expire-Found, complete-Found}
use plus_one.Common.Effects.{after}
use plus_one.Interactions.Resolutions.{
  InteractionEvent, happen, happen_all, creating, claiming, expiring, completing, ends,
}
use plus_one.Interactions.{
  Interaction, create, Interactions, find_by_id, has_interaction_id, has_public_interaction_id,
  is_open, unresolved, existing, is_open_in,
}
use plus_one.Common.{
  none, Option, String, Bool, List, any, find, ◌∙◌, ◌≡◌, false, some, true, ◌∷◌, Bool-cases, Option,
  [], inl, arith, inr, eq_iff, not, refl, str_eq, ◌||◌, ◌&&◌,
}

find-any :
    (h id : String) (rows : List Interaction) (i : Interaction)
    → find (has_interaction_id h id) rows ≡ some i
    → any (has_public_interaction_id id) rows ≡ true
find-any h id [] i e = cc
find-any h id (x ∷ xs) i e = elim (Bool-cases (has_interaction_id h id x)) [
  | inl hit ↦ let here : has_public_interaction_id id x ≡ true = ground arith in rw here refl
  | inr miss ↦ elim (Bool-cases (has_public_interaction_id id x)) [
    | inl here ↦ rw here refl
    | inr other ↦ rw other (find-any h id xs i (rw miss at e))
  ]
]

insert-Found :
    (h id : String) (i new : Interaction) (s : Interactions)
    → any (has_public_interaction_id new.interaction_id) s.rows ≡ false
    → find_by_id h id s ≡ some i
    → find_by_id h id (record s { rows = unresolved new ∷ s.rows }) ≡ some i
insert-Found h id i new s fresh e = elim (Bool-cases (has_interaction_id h id (unresolved new))) [
  | inl clash ↦
      let same : new.interaction_id ≡ id = ground (arith, eq_iff new.interaction_id id) in
      let there = find-any h id s.rows i e in
      let here : any (has_public_interaction_id id) s.rows ≡ false = rw same at fresh in cc
  | inr other ↦ rw other e
]

create-Found :
    (same : Interaction → Interaction → Bool) (h id : String) (i new : Interaction)
    (s : Interactions)
    → find_by_id h id s ≡ some i
    → Found h id i (after (create same new s))
unfolding create
create-Found same h id i new s e =
    elim (Bool-cases (
      not (any (str_eq new.household_id) s.households)
      || any (has_public_interaction_id new.interaction_id) s.rows)) [
        | inl met ↦ rw met (existing-Found (find_by_id new.household_id new.interaction_id s))
        | inr fresh ↦
            elim (Bool-cases (
              is_open new.status
              && any (is_open_in new.household_id new.conversation_id new.speaker_principal_ref)
                  s.rows)) [
                    | inl occupied ↦ rw (fresh, occupied) (i, e, Step-refl i)
                    | inr free ↦
                        rw (fresh, free)
                          (i, insert-Found h id i new s (ground (arith, fresh)) e, Step-refl i)
                  ]
      ]
  where
    existing-Found : (o : Option Interaction) → Found h id i (after (existing same new o s))
    existing-Found none = (i, e, Step-refl i)
    existing-Found (some j) = elim (Bool-cases (same j new)) [
      | inl equal ↦ rw equal (i, e, Step-refl i)
      | inr different ↦ rw different (i, e, Step-refl i)
    ]

pub happen-Found :
    (same : Interaction → Interaction → Bool) (h id : String) (i : Interaction)
    (e : InteractionEvent) (s : Interactions)
    → find_by_id h id s ≡ some i
    → Found h id i (happen same e s)
happen-Found same h id i (creating new) s f = create-Found same h id i new s f
happen-Found same h id i (claiming input) s f = claim-Found h id i input s f
happen-Found same h id i (expiring now input) s f = expire-Found h id i now input s f
happen-Found same h id i (completing input) s f = elim (Bool-cases (ends input)) [
  | inl last ↦ rw last (complete-Found h id i input s last f)
  | inr open_ ↦ rw open_ (i, f, Step-refl i)
]

Later-trans : (i j k : Interaction) → Later i j → Later j k → Later i k
Later-trans i j k a b = record {
  keeps_message = λ m p e. let (q, f) = a.keeps_message m p e in b.keeps_message m q f;
  stays = λ p. let same = a.stays p in b.stays (rw same p) ∙ same;
}

-- What has become of the interaction after any number of calls.
abbrev pub FoundLater : String → String → Interaction → Interactions → Type 0
FoundLater h id i t = (j : Interaction) × (find_by_id h id t ≡ some j) × Later i j

pub happen_all-Found :
    (same : Interaction → Interaction → Bool) (h id : String) (i : Interaction)
    (es : List InteractionEvent) (s : Interactions)
    → find_by_id h id s ≡ some i
    → FoundLater h id i (happen_all same es s)
happen_all-Found same h id i [] s f = (i, f, Later-refl i)
happen_all-Found same h id i (e ∷ es) s f =
    let (j, g, a) = happen-Found same h id i e s f in
    let (k, l, b) = happen_all-Found same h id j es (happen same e s) g in
    (k, l, Later-trans i j k a.later b)
