-- ===== src/Mutation/Readback/Complete.antt =====
-- packages/mutations/src/checked-mutation-executor.ts: what a read-back that passed has checked.
use plus_one.Mutation.Registry.{identifiers, row_values, balances, source_links, artifact_links}
use plus_one.Mutation.Commands.{CheckedCommand}
use plus_one.Mutation.Readback.{
  ReadbackResult, perform_readback, CheckKind, DomainKind, Mismatch, is_consistent, is_passed,
  Check, CheckStatus, Receipt, is_none_left, receipt_check, required_failures, DomainOutput,
  is_failed, is_idempotency_receipt, is_kind, idempotency_receipt, passes_in, domain_check,
  domain_mismatch, receipt_ok, all_checks, of_identifiers, of_row_values, result_of, of_balances,
  has_passed, of_source_links, of_artifact_links,
}
use mathlib.Core.Path.{subst, ap}
use plus_one.Common.{
  Bool, List, ◌≡◌, Option, any, find, true, ◌++◌, all, false, ◌∷◌, [], arith, map, refl, some,
  Bool-cases, inr, inl, ◌∙◌,
}

find-domain_check :
    (ds : List (DomainKind × CheckStatus)) (b : Bool)
    → find (is_kind idempotency_receipt) (map domain_check ds ++ receipt_check b ∷ [])
      ≡ some (receipt_check b)
find-domain_check [] b = refl
find-domain_check ((of_identifiers, status) ∷ ds) b = find-domain_check ds b
find-domain_check ((of_row_values, status) ∷ ds) b = find-domain_check ds b
find-domain_check ((of_balances, status) ∷ ds) b = find-domain_check ds b
find-domain_check ((of_source_links, status) ∷ ds) b = find-domain_check ds b
find-domain_check ((of_artifact_links, status) ∷ ds) b = find-domain_check ds b

required_failures-passed :
    (required : List CheckKind) (checks : List Check)
    → is_none_left (required_failures required checks) ≡ true
    → all (passes_in checks) required ≡ true
required_failures-passed [] checks e = refl
required_failures-passed (k ∷ ks) checks e = ground (arith, required_failures-passed ks checks)

is_none_left-append :
    (xs ys : List Mismatch)
    → is_none_left (xs ++ ys) ≡ true
    → (is_none_left xs ≡ true) × (is_none_left ys ≡ true)
is_none_left-append [] ys e = (refl, e)
is_none_left-append (x ∷ xs) ys e = cc

required_receipt :
    (required : List CheckKind) (checks : List Check)
    → any is_idempotency_receipt required ≡ true
    → all (passes_in checks) required ≡ true
    → passes_in checks idempotency_receipt ≡ true
required_receipt [] checks e h = cc
required_receipt (identifiers ∷ ks) checks e h = required_receipt ks checks e (ground arith)
required_receipt (row_values ∷ ks) checks e h = required_receipt ks checks e (ground arith)
required_receipt (balances ∷ ks) checks e h = required_receipt ks checks e (ground arith)
required_receipt (source_links ∷ ks) checks e h = required_receipt ks checks e (ground arith)
required_receipt (artifact_links ∷ ks) checks e h = required_receipt ks checks e (ground arith)
required_receipt (idempotency_receipt ∷ ks) checks e h = ground arith

receipt_check-passed : (b : Bool) → is_passed (receipt_check b).status ≡ true → b ≡ true
receipt_check-passed true e = refl
receipt_check-passed false e = cc

consistent_sound :
    (r : ReadbackResult) → is_consistent r ≡ true → r.ok ≡ true → any is_failed r.checks ≡ false
consistent_sound r c e = ground (arith, c, e)

-- What a passing result says of its checks and mismatches.
abbrev Passes : CheckedCommand → List CheckKind → Receipt → Option Receipt → ReadbackResult → Type 0
Passes command required receipt persisted r =
    (all (passes_in r.checks) required ≡ true)
    × (any is_failed r.checks ≡ false)
    × (is_none_left r.mismatches ≡ true)
    × (receipt_ok command receipt persisted ≡ true)

result-Passes :
    (command : CheckedCommand) (required : List CheckKind) (receipt : Receipt)
    (persisted : Option Receipt) (domain : DomainOutput)
    → any is_idempotency_receipt required ≡ true
    → is_none_left (
        map domain_mismatch domain.mismatches
        ++ required_failures required (all_checks command receipt persisted domain))
      ≡ true
    → any is_failed (all_checks command receipt persisted domain) ≡ false
    → Passes command required receipt persisted (
        result_of receipt (all_checks command receipt persisted domain) (
          map domain_mismatch domain.mismatches
          ++ required_failures required (all_checks command receipt persisted domain)))
result-Passes command required receipt persisted domain named nothing sound =
    let checks = all_checks command receipt persisted domain in
    let (_, left) =
      is_none_left-append (map domain_mismatch domain.mismatches)
        (required_failures required checks) nothing in
    let met = required_failures-passed required checks left in
    let passes = required_receipt required checks named met in
    let b = receipt_ok command receipt persisted in
    (
      met,
      sound,
      nothing,
      receipt_check-passed b (rw (ap has_passed (find-domain_check domain.checks b)) at passes),
    )

-- A read-back that passed, of a handler that requires the idempotency receipt, has passed every
-- required check, has no failed check and no mismatch, and has found the command's receipt persisted
-- with the command's idempotency key, proposal and hash.
pub perform_readback-IsComplete :
    (command : CheckedCommand) (required : List CheckKind) (receipt : Receipt)
    (persisted : Option Receipt) (domain : DomainOutput) (r : ReadbackResult)
    → perform_readback command required receipt persisted domain ≡ some r
    → r.ok ≡ true
    → any is_idempotency_receipt required ≡ true
    → (all (passes_in r.checks) required ≡ true)
      × (any is_failed r.checks ≡ false)
      × (is_none_left r.mismatches ≡ true)
      × (receipt_ok command receipt persisted ≡ true)
unfolding perform_readback
perform_readback-IsComplete command required receipt persisted domain r e ok named =
    let checks = all_checks command receipt persisted domain in
    let found =
      result_of receipt checks
        (map domain_mismatch domain.mismatches ++ required_failures required checks) in
    elim (Bool-cases (is_consistent found)) [
      | inr rejected ↦ let nothing = rw rejected at e in cc
      | inl consistent ↦
          let same : found ≡ r = ground arith in
          let passed_it : found.ok ≡ true = ap (λ (x : ReadbackResult). x.ok) same ∙ ok in
          subst (Passes command required receipt persisted) same (
            result-Passes command required receipt persisted domain named passed_it
              (consistent_sound found consistent passed_it))
    ]
