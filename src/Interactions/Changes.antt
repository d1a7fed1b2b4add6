-- ===== src/Interactions/Changes.antt =====
-- packages/database/src/repositories/operations/pending-interactions.ts: how a call may change an
-- interaction.
use plus_one.Interactions.Machine.{claimable_step, completable_step, expirable_step, is_step}
use plus_one.Interactions.Resolutions.{
  Resolution, as_expired, as_resolved, ends, is_expirable, is_completable,
}
use plus_one.Interactions.{
  Claim, Interaction, as_claimed, is_pending, has_interaction_id, change_where, is_open,
  is_claimable,
}
use mathlib.Core.Path.{ap}
use plus_one.Common.{
  String, Bool, ◌≡◌, List, false, refl, find, Bool-cases, some, inl, map, inr, ◌∷◌, arith, [], ℕ,
  true, ◌⊎◌, suc,
}

-- A change that keeps the identity of an interaction.
pub record KeepsId (f : Interaction → Interaction) : Type 0 where
  pub household : (i : Interaction) → (f i).household_id ≡ i.household_id
  pub identity : (i : Interaction) → (f i).interaction_id ≡ i.interaction_id

pub as_claimed-KeepsId : (input : Claim) → KeepsId (as_claimed input)
as_claimed-KeepsId input = record { household = λ i. refl; identity = λ i. refl }

pub as_expired-KeepsId : (input : Resolution) → KeepsId (as_expired input)
as_expired-KeepsId input = record { household = λ i. refl; identity = λ i. refl }

pub as_resolved-KeepsId : (input : Resolution) → KeepsId (as_resolved input)
as_resolved-KeepsId input = record { household = λ i. refl; identity = λ i. refl }

pub has_interaction_id-change_where :
    (h id : String) (p : Interaction → Bool) (f : Interaction → Interaction) (i : Interaction)
    → KeepsId f
    → has_interaction_id h id (change_where p f i) ≡ has_interaction_id h id i
has_interaction_id-change_where h id p f i k = elim (Bool-cases (p i)) [
  | inl hit ↦ rw (hit, k.household i, k.identity i) refl
  | inr miss ↦ rw miss refl
]

pub find-change_where :
    (h id : String) (p : Interaction → Bool) (f : Interaction → Interaction)
    (rows : List Interaction) (i : Interaction)
    → KeepsId f
    → find (has_interaction_id h id) rows ≡ some i
    → find (has_interaction_id h id) (map (change_where p f) rows) ≡ some (change_where p f i)
find-change_where h id p f [] i k e = cc
find-change_where h id p f (x ∷ xs) i k e = elim (Bool-cases (has_interaction_id h id x)) [
  | inl hit ↦
      let same : x ≡ i = ground arith in
      rw (has_interaction_id-change_where h id p f x k, hit)
        (ap (λ (y : Interaction). some (change_where p f y)) same)
  | inr miss ↦
      rw (has_interaction_id-change_where h id p f x k, miss)
        (find-change_where h id p f xs i k (ground arith))
]

-- How an interaction may change: what is no longer pending keeps its message, and what is no longer
-- open stays as it is.
pub record Later (i j : Interaction) : Type 0 where
  pub keeps_message :
      (m : String)
      → is_pending i.status ≡ false
      → i.resolution_external_message_id ≡ some m
      → (is_pending j.status ≡ false) × (j.resolution_external_message_id ≡ some m)
  pub stays : is_open i.status ≡ false → j ≡ i

pub Later-refl : (i : Interaction) → Later i i
Later-refl i = record { keeps_message = λ m p e. (p, e); stays = λ p. refl }

as_claimed-Later :
    (input : Claim) (v : ℕ) (i : Interaction)
    → is_claimable v i ≡ true
    → Later i (as_claimed input i)
as_claimed-Later input v i g = record {
  keeps_message = λ m p e. ground (arith, g, p);
  stays = λ p. ground (arith, g, p);
}

as_expired-Later :
    (now : ℕ) (input : Resolution) (v : ℕ) (i : Interaction)
    → is_expirable now v i ≡ true
    → Later i (as_expired input i)
as_expired-Later now input v i g = record {
  keeps_message = λ m p e. (refl, rw e refl);
  stays = λ p. ground (arith, g, p);
}

as_resolved-Later :
    (input : Resolution) (v : ℕ) (i : Interaction)
    → ends input ≡ true
    → is_completable v i ≡ true
    → Later i (as_resolved input i)
as_resolved-Later input v i last g = record {
  keeps_message = λ m p e. (ground arith, e);
  stays = λ p. ground (arith, g, p);
}

-- One step of the machine, or none.
abbrev pub IsStep : Interaction → Interaction → Type 0
IsStep i j = (j ≡ i) ⊎ ((is_step i.status j.status ≡ true) × (j.version ≡ suc i.version))

pub record Step (i j : Interaction) : Type 0 where
  pub later : Later i j
  pub one : IsStep i j

pub Step-refl : (i : Interaction) → Step i i
Step-refl i = record { later = Later-refl i; one = inl refl }

pub as_claimed-Step :
    (input : Claim) (v : ℕ) (i : Interaction)
    → is_claimable v i ≡ true
    → Step i (as_claimed input i)
as_claimed-Step input v i g = record {
  later = as_claimed-Later input v i g;
  one = inr (claimable_step i.status (ground (arith, g)), refl);
}

pub as_expired-Step :
    (now : ℕ) (input : Resolution) (v : ℕ) (i : Interaction)
    → is_expirable now v i ≡ true
    → Step i (as_expired input i)
as_expired-Step now input v i g = record {
  later = as_expired-Later now input v i g;
  one = inr (expirable_step i.status (ground (arith, g)), refl);
}

pub as_resolved-Step :
    (input : Resolution) (v : ℕ) (i : Interaction)
    → ends input ≡ true
    → is_completable v i ≡ true
    → Step i (as_resolved input i)
as_resolved-Step input v i last g = record {
  later = as_resolved-Later input v i last g;
  one = inr (completable_step i.status input.status (ground (arith, g)) last, refl);
}
