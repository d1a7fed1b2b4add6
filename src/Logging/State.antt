-- ===== src/Logging/State.antt =====
-- packages/runtime/src/logging/dispatcher.ts: the state of the dispatcher.
use plus_one.Common.{ℕ, Bool, false, not, Option, none, List, [], ltb}

pub data Severity : Type 0 where
  debug info warn error : Severity

abbrev pub order : Severity → ℕ
order debug = 0
order info = 1
order warn = 2
order error = 3

pub record Entry : Type 0 where
  pub sequence : ℕ
  pub severity : Severity
  pub control : Bool

-- A promise of `flush`, by its number.
pub record Waiter : Type 0 where
  pub barrier : ℕ
  pub id : ℕ

-- `droppedBySeverity`.
pub record Drops : Type 0 where
  pub debugs : ℕ
  pub infos : ℕ
  pub warns : ℕ
  pub errors : ℕ

pub record Dispatcher : Type 0 where
  pub capacity : ℕ
  pub queue : List Entry
  pub in_flight : Option Entry  -- what `deliver` is writing
  pub pending : List ℕ  -- pendingSequences
  pub waiters : List Waiter
  pub resolved : List ℕ  -- the promises of `flush` that were resolved
  pub sequence : ℕ
  pub processing : Bool
  pub scheduled : Bool
  pub closed : Bool
  pub dropped : Drops
  pub dropped_since_control : ℕ
  pub last_fallback_count : ℕ
  pub last_fallback_at : Option ℕ
  pub reports : List ℕ  -- the counts that were written to stderr, newest first

abbrev pub no_drops : Drops
no_drops = record { debugs = 0; infos = 0; warns = 0; errors = 0 }

abbrev pub default_capacity : ℕ
default_capacity = 4096

abbrev pub control_interval_ms : ℕ
control_interval_ms = 60000

abbrev pub created : ℕ → Dispatcher
created capacity = record {
  capacity = capacity;
  queue = [];
  in_flight = none;
  pending = [];
  waiters = [];
  resolved = [];
  sequence = 0;
  processing = false;
  scheduled = false;
  closed = false;
  dropped = no_drops;
  dropped_since_control = 0;
  last_fallback_count = 0;
  last_fallback_at = none;
  reports = [];
}

-- The constructor's check.
abbrev pub is_capacity : ℕ → Bool
is_capacity n = not (ltb n 1)
