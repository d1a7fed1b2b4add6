-- ===== src/Teams/Executor/Asked.antt =====
-- packages/runtime/src/execution/team-executor.ts: which calls ask an agent.
use plus_one.Common.{
  ℕ, Bool, ◌+◌, ◌≤◌, List, ◌∷◌, ◌⊎◌, inl, inr, true, false, arith, count, if◌then◌else◌,
}
use plus_one.Common.Errors.{Thrown}
use plus_one.Common.Effects.{tried, Call, Outcome, done, threw, after, ◌>>=◌}
use plus_one.Common.Raises.{Raises, Raises-bind}
use plus_one.Storage.{Db, PolicyIdentity}
use plus_one.Policy.{RuntimePolicy, resolve}
use plus_one.Teams.Executor.{Role, maker, checker, Session, in_db, ask}

abbrev pub same_role : Role → Role → Bool
same_role maker maker = true
same_role checker checker = true
same_role _ _ = false

-- How often a role has been asked.
abbrev pub times_asked : {W : Type 0} → Role → Session W → ℕ
times_asked role s = count (same_role role) s.asked

abbrev pub share : Role → Role → ℕ
share role asked = if same_role role asked then 1 else 0

module _ {W : Type 0} (role : Role) where
  abbrev pub Asks : {A : Type 0} → ℕ → Call (Session W) A → Type 0
  Asks = Raises (times_asked role)

  pub Asks-in_db : {A : Type 0} (m : Call Db A) → Asks 0 (in_db m)
  Asks-in_db {A} m = record { at_most = λ s. go s (m s.db) }
    where
      go :
          (s : Session W) (o : Outcome Db A)
          → times_asked role (
              after {A = A} (elim o [
                | done a db ↦ done a (record s { db = db })
                | threw e db ↦ threw e (record s { db = db })
              ]))
            ≤ times_asked role s + 0
      go s (done a db) = omega arith
      go s (threw e db) = omega arith

  pub Asks-ask : {A : Type 0} (asked : Role) (m : Call W A) → Asks (share role asked) (ask asked m)
  Asks-ask {A} asked m = record { at_most = λ s. go s (m s.world) }
    where
      go :
          (s : Session W) (o : Outcome W A)
          → times_asked role (
              after {A = A} (elim o [
                | done a w ↦ done a (record s { world = w; asked = asked ∷ s.asked })
                | threw e w ↦ threw e (record s { world = w; asked = asked ∷ s.asked })
              ]))
            ≤ times_asked role s + share role asked
      go s (done a w) = ground arith
      go s (threw e w) = ground arith

  pub Asks-tried : {A : Type 0} (n : ℕ) (m : Call (Session W) A) → Asks n m → Asks n (tried m)
  Asks-tried {A} n m r = record { at_most = λ s. go s (m s) (r.at_most s) }
    where
      go :
          (s : Session W) (o : Outcome (Session W) A)
          → times_asked role (after o) ≤ times_asked role s + n
          → times_asked role (
              after {A = Thrown ⊎ A}
                (elim o [ done a t ↦ done (inr a) t | threw e t ↦ done (inl e) t ]))
            ≤ times_asked role s + n
      go s (done a t) h = h
      go s (threw e t) h = h

  pub Asks-resolve :
      (policies : List RuntimePolicy) (p : PolicyIdentity) → Asks 0 (resolve policies p)
  unfolding resolve
  Asks-resolve policies p = record { at_most = λ s. ground arith }

  pub Asks-more : {A : Type 0} (n : ℕ) (m : Call (Session W) A) → Asks 0 m → Asks (n + 0) m
  Asks-more n m r = record { at_most = λ s. omega (arith, r.at_most s) }

  -- Where nothing is asked first.
  pub Asks-then :
      {A B : Type 0} (n : ℕ) (m : Call (Session W) A) {f : A → Call (Session W) B}
      → Asks 0 m
      → ((a : A) → Asks n (f a))
      → Asks n (m >>= f)
  Asks-then n m {f} rm rf = record {
    at_most = λ s. omega (arith, (Raises-bind (times_asked role) 0 n m f rm rf).at_most s);
  }
