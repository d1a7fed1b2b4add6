-- ===== src/Interactions/Machine.antt =====
-- packages/database/src/repositories/operations/pending-interactions.ts: the abstract machine of an
-- interaction, by its status.
use plus_one.Common.{Bool, true, false, ◌||◌, not, ◌≡◌, refl}
use plus_one.Interactions.{
  InteractionStatus, pending, resolving, applied, rejected, expired, stale, failed, is_pending,
  is_resolving, is_open,
}

abbrev is_expired : InteractionStatus → Bool
is_expired expired = true
is_expired pending = false
is_expired resolving = false
is_expired applied = false
is_expired rejected = false
is_expired stale = false
is_expired failed = false

-- The machine of an interaction: it waits, one message resolves it, and it ends.
abbrev pub is_step : InteractionStatus → InteractionStatus → Bool
is_step pending next = is_resolving next || is_expired next
is_step resolving next = not (is_open next)
is_step applied next = false
is_step rejected next = false
is_step expired next = false
is_step stale next = false
is_step failed next = false

pub claimable_step : (s : InteractionStatus) → is_pending s ≡ true → is_step s resolving ≡ true
claimable_step pending e = refl
claimable_step resolving e = cc
claimable_step applied e = cc
claimable_step rejected e = cc
claimable_step expired e = cc
claimable_step stale e = cc
claimable_step failed e = cc

pub expirable_step : (s : InteractionStatus) → is_open s ≡ true → is_step s expired ≡ true
expirable_step pending e = refl
expirable_step resolving e = refl
expirable_step applied e = cc
expirable_step rejected e = cc
expirable_step expired e = cc
expirable_step stale e = cc
expirable_step failed e = cc

pub completable_step :
    (s next : InteractionStatus)
    → is_resolving s ≡ true
    → not (is_open next) ≡ true
    → is_step s next ≡ true
completable_step resolving next e last = last
completable_step pending next e last = cc
completable_step applied next e last = cc
completable_step rejected next e last = cc
completable_step expired next e last = cc
completable_step stale next e last = cc
completable_step failed next e last = cc
