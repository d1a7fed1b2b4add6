-- ===== src/Delivery/Failures.antt =====
-- packages/runtime/src/gateway/send-result.ts: what a failed send means. Messages and the time to
-- wait are left out.
use plus_one.Common.{ℕ, Bool, Option, true, false, if◌then◌else◌, ◌||◌, some, leb, ◌==◌, none}

pub data FailureCategory : Type 0 where
  too_long bad_format forbidden not_found rate_limited transient ambiguous unknown : FailureCategory

pub record TransportFailure : Type 0 where
  pub category : FailureCategory
  pub retryable : Bool
  pub receipt_lookup_required : Bool

abbrev pub transport_failure : FailureCategory → Bool → Bool → TransportFailure
transport_failure category retryable lookup = record {
  category = category;
  retryable = retryable;
  receipt_lookup_required = lookup;
}

-- What a send throws: a `TransportSendError`, a `TypeError`, another `Error`, or no `Error`.
pub data SendError : Type 0 where
  send_error : TransportFailure → SendError
  type_error : SendError
  plain_error : SendError
  no_error : SendError

abbrev pub transport_failure_from_unknown : SendError → TransportFailure
transport_failure_from_unknown (send_error f) = f
transport_failure_from_unknown type_error = transport_failure ambiguous true true
transport_failure_from_unknown plain_error = transport_failure transient true false
transport_failure_from_unknown no_error = transport_failure unknown false false

-- The description of a failure, as what the classification looks for in its lower-case text.
pub record Described : Type 0 where
  pub says_too_long : Bool
  pub says_bad_format : Bool
  pub says_forbidden : Bool
  pub says_not_found : Bool

abbrev is_status : ℕ → Option ℕ → Bool
is_status n none = false
is_status n (some m) = m == n

abbrev is_server_error : Option ℕ → Bool
is_server_error none = false
is_server_error (some n) = leb 500 n

unfoldable pub classify_telegram_api_failure : Option ℕ → Described → TransportFailure
classify_telegram_api_failure status d =
    if is_status 429 status
    then transport_failure rate_limited true false
    else if is_server_error status
    then transport_failure transient true false
    else if d.says_too_long
    then transport_failure too_long false false
    else if d.says_bad_format
    then transport_failure bad_format false false
    else if is_status 403 status || d.says_forbidden
    then transport_failure forbidden false false
    else if is_status 404 status || d.says_not_found
    then transport_failure not_found false false
    else transport_failure unknown false false

abbrev is_ambiguous_category : FailureCategory → Bool
is_ambiguous_category ambiguous = true
is_ambiguous_category too_long = false
is_ambiguous_category bad_format = false
is_ambiguous_category forbidden = false
is_ambiguous_category not_found = false
is_ambiguous_category rate_limited = false
is_ambiguous_category transient = false
is_ambiguous_category unknown = false

-- Whether the handler records the failure as `ambiguous`.
abbrev pub is_ambiguous : TransportFailure → Bool
is_ambiguous f = f.receipt_lookup_required || is_ambiguous_category f.category
