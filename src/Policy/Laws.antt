-- ===== src/Policy/Laws.antt =====
-- What a registry guarantees of the policies that it resolves.
use mathlib.Core.Bool.{and-eq-true_iff}
use plus_one.Common.{
  All-mono, All-of_all, find-All, find-hit, any_of_find, ◌≡◌, refl, true, false, List, [], ◌∷◌,
  some, arith, find, any, all, All, eq_iff, ◌≤◌, Bool-cases, inl, inr,
}
use plus_one.Common.Effects.{done, Outcome, threw}
use plus_one.Storage.{PolicyIdentity}
use plus_one.Policy.{
  RuntimePolicy, Models, is_well_formed, supports, models_of, has_identity, register, register_all,
  resolve, same_capability, capabilities_of, limits_positive,
}

-- Each registered policy is well formed, and every model that it may use has what it requires.
abbrev pub IsUsable : Models → RuntimePolicy → Type 0
IsUsable models p =
    (is_well_formed p ≡ true) × (all (supports models p.required_capabilities) (models_of p) ≡ true)

abbrev HasUniqueIdentities : List RuntimePolicy → Type 0
HasUniqueIdentities [] = Unit {0}
HasUniqueIdentities (p ∷ ps) = (any (has_identity p.identity) ps ≡ false) × HasUniqueIdentities ps

abbrev IsRegistry : Models → List RuntimePolicy → Type 0
IsRegistry models ps = All (IsUsable models) ps × HasUniqueIdentities ps

register-inv :
    (models : Models) (p : RuntimePolicy) (registry more : List RuntimePolicy)
    → register models p registry ≡ done tt more
    → (more ≡ p ∷ registry) × IsUsable models p × (any (has_identity p.identity) registry ≡ false)
unfolding register
register-inv models p registry more e = (ground arith, (ground arith, ground arith), ground arith)

register_all-inv :
    (models : Models) (p : RuntimePolicy) (ps registry final : List RuntimePolicy)
    → register_all models (p ∷ ps) registry ≡ done tt final
    → (more : List RuntimePolicy) × (register models p registry ≡ done tt more)
      × (register_all models ps more ≡ done tt final)
unfolding register_all
register_all-inv models p ps registry final e = go (register models p registry) refl
  where
    go :
        (o : Outcome (List RuntimePolicy) (Unit {0}))
        → register models p registry ≡ o
        → (more : List RuntimePolicy) × (register models p registry ≡ done tt more)
          × (register_all models ps more ≡ done tt final)
    go (done tt more) q = (more, q, rw (q, register_all) at e)
    go (threw x same) q = cc (rw (q, register_all) at e)

register_all-IsRegistry :
    (models : Models) (ps registry final : List RuntimePolicy)
    → IsRegistry models registry
    → register_all models ps registry ≡ done tt final
    → IsRegistry models final
unfolding register_all
register_all-IsRegistry models [] registry final r e = ground arith
register_all-IsRegistry models (p ∷ ps) registry final r e =
    let (more, one, rest) = register_all-inv models p ps registry final e in
    let (grown, usable, fresh) = register-inv models p registry more one in
    register_all-IsRegistry models ps more final (rw grown ((usable, r.0), (fresh, r.1))) rest

has_identity-eq :
    (identity : PolicyIdentity) (p : RuntimePolicy)
    → has_identity identity p ≡ true
    → p.identity ≡ identity
has_identity-eq identity p h = ground (arith, eq_iff p.identity.policy_name identity.policy_name)

-- A policy that is found stays found, since its identity cannot be registered again.
find-register :
    (models : Models) (identity : PolicyIdentity) (p q : RuntimePolicy)
    (registry more : List RuntimePolicy)
    → find (has_identity identity) registry ≡ some p
    → register models q registry ≡ done tt more
    → find (has_identity identity) more ≡ some p
find-register models identity p q registry more found e =
    let (grown, _, fresh) = register-inv models q registry more e in
    elim (Bool-cases (has_identity identity q)) [
      | inl hit ↦ cc (
        any_of_find (has_identity identity) registry p found,
        rw (has_identity-eq identity q hit) at fresh,
      )
      | inr miss ↦ rw grown (rw miss found)
    ]

find-register_all :
    (models : Models) (identity : PolicyIdentity) (p : RuntimePolicy)
    (ps registry final : List RuntimePolicy)
    → find (has_identity identity) registry ≡ some p
    → register_all models ps registry ≡ done tt final
    → find (has_identity identity) final ≡ some p
unfolding register_all
find-register_all models identity p [] registry final found e = ground arith
find-register_all models identity p (q ∷ qs) registry final found e =
    let (more, one, rest) = register_all-inv models q qs registry final e in
    find-register_all models identity p qs more final
      (find-register models identity p q registry more found one) rest

-- Every policy that the deployment lists is found by its own identity.
abbrev pub IsFoundIn : List RuntimePolicy → RuntimePolicy → Type 0
IsFoundIn registry p = find (has_identity p.identity) registry ≡ some p

register_all-IsFoundIn :
    (models : Models) (ps registry final : List RuntimePolicy)
    → register_all models ps registry ≡ done tt final
    → All (IsFoundIn final) ps
register_all-IsFoundIn models [] registry final e = tt
register_all-IsFoundIn models (p ∷ ps) registry final e =
    let (more, one, rest) = register_all-inv models p ps registry final e in
    let (grown, _, _) = register-inv models p registry more one in
    let here : find (has_identity p.identity) more ≡ some p =
      rw grown (ground (arith, eq_iff p.identity.policy_name p.identity.policy_name)) in
    (
      find-register_all models p.identity p ps more final here rest,
      register_all-IsFoundIn models ps more final rest,
    )

-- What the deployment may rely on: the deadlines are ordered, and every model that the policy may
-- use, a fallback too, has every capability that the policy requires.
abbrev pub IsServed : Models → RuntimePolicy → Type 0
IsServed models p =
    (p.call_deadline_ms ≤ p.team_deadline_ms)
    × (p.team_deadline_ms ≤ p.end_to_end_deadline_ms)
    × All
        (λ model.
          All (λ c. any (same_capability c) (capabilities_of models model) ≡ true)
            p.required_capabilities)
        (models_of p)

is_well_formed-deadlines :
    (p : RuntimePolicy)
    → is_well_formed p ≡ true
    → (p.call_deadline_ms ≤ p.team_deadline_ms) × (p.team_deadline_ms ≤ p.end_to_end_deadline_ms)
unfolding is_well_formed
is_well_formed-deadlines p h =
    let ordered = ((and-eq-true_iff _ (limits_positive p)).0 h).0 in ground arith

IsUsable-IsServed : (models : Models) (p : RuntimePolicy) → IsUsable models p → IsServed models p
unfolding supports
IsUsable-IsServed models p (formed, able) =
    let (call, team) = is_well_formed-deadlines p formed in
    (
      call,
      team,
      All-mono (λ model. supports models p.required_capabilities model ≡ true) _ (models_of p)
          (λ model h. All-of_all _ p.required_capabilities h)
          (All-of_all (supports models p.required_capabilities) (models_of p) able),
    )

-- Of a registry that the constructor accepts: every listed policy resolves to itself, and whatever
-- resolves has the identity that was asked for, has ordered deadlines, and requires only
-- capabilities that each of its models has, the fallback models too.
resolve-register_all :
    (models : Models) (ps registry : List RuntimePolicy)
    → register_all models ps [] ≡ done tt registry
    → All (λ p. resolve {S = Unit {0}} registry p.identity tt ≡ done p tt) ps
      × ((identity : PolicyIdentity) (p : RuntimePolicy)
          → resolve {S = Unit {0}} registry identity tt ≡ done p tt
          → (p.identity ≡ identity) × IsServed models p)
unfolding resolve
resolve-register_all models ps registry e = (
  All-mono (IsFoundIn registry) _ ps (λ p h. rw (h, resolve))
      (register_all-IsFoundIn models ps [] registry e),
  λ identity p r.
      let found : find (has_identity identity) registry ≡ some p = ground arith in
      let usable =
        find-All (IsUsable models) _ registry p
          (register_all-IsRegistry models ps [] registry (tt, tt) e).0 found in
      (has_identity-eq identity p (find-hit _ registry p found), IsUsable-IsServed models p usable),
)
