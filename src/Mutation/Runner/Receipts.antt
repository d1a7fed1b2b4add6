-- ===== src/Mutation/Runner/Receipts.antt =====
-- What the receipt stands on that SerializableMutationRunner.run returns, and what its errors say.
use plus_one.Common.{
  ◌⊎◌, ◌+◌, zero, suc, ◌<◌, ◌≤◌, ltb, inl, inr, refl, Bool, Option, ◌≡◌, some, none, arith, ℕ, ◌⊎◌,
  ◌+◌, sym,
}
use plus_one.Common.Errors.{Thrown}
use plus_one.Mutation.Runner.{
  Answer, Attempt, Stage, handle, ok, fails, finished, finish, require_existing_receipt, returned,
  body, claim, execute, attempts, ending_of, run, try_once, Body, Policy, attempted, Run, raised,
  sent,
}

module _ {R : Type 0} where
  -- The evidence in one attempt: its COMMIT was answered, or a durable receipt was found.
  pub data IsEvidence (a : Attempt R) (r : R) : Type 0 where
    committed_now : a.records ≡ ok r → a.commits ≡ ok tt → IsEvidence a r
    found_claimed : a.receipt_of_claimed ≡ ok (some r) → IsEvidence a r
    found_after_failure : a.receipt_after_failure ≡ ok (some r) → IsEvidence a r

  require-IsEvidence :
      (a : Attempt R) (x : Answer (Option R)) {r : R} {s : Stage}
      → a.receipt_of_claimed ≡ x
      → require_existing_receipt x ≡ returned r s
      → IsEvidence a r
  require-IsEvidence a (ok (some q)) e h = found_claimed (ground arith)
  require-IsEvidence a (ok none) e h = ground arith
  require-IsEvidence a (fails x) e h = ground arith

  finish-IsEvidence :
      (a : Attempt R) {q r : R} {s : Stage}
      → a.records ≡ ok q
      → finish a q ≡ returned r s
      → IsEvidence a r
  finish-IsEvidence a {q} {r} e h = committed_now (ground arith) (ground arith)

  handle-IsEvidence :
      (a : Attempt R) (e : Thrown) (c more : Bool) {r : R}
      → handle a e c more ≡ finished (ok r)
      → IsEvidence a r
  unfolding handle
  handle-IsEvidence a e c more h = found_after_failure (ground arith)

  execute-IsEvidence :
      (a : Attempt R) {r : R} {s : Stage} → execute a ≡ returned r s → IsEvidence a r
  execute-IsEvidence a h = committed_now (ground arith) (ground arith)

  claim-IsEvidence : (a : Attempt R) {r : R} {s : Stage} → claim a ≡ returned r s → IsEvidence a r
  claim-IsEvidence a {r} {s} h =
      let e = execute-IsEvidence a {r = r} {s = s} in
      let f = require-IsEvidence a a.receipt_of_claimed {r = r} {s = s} refl in ground arith

  returned-IsEvidence : (a : Attempt R) {r : R} {s : Stage} → body a ≡ returned r s → IsEvidence a r
  unfolding body
  returned-IsEvidence a {r} {s} h = let c = claim-IsEvidence a {r = r} {s = s} in ground arith

  -- The evidence in one of the attempts from `n` on.
  abbrev pub HasEvidence : (ℕ → Attempt R) → (n left : ℕ) → R → Type 0
  HasEvidence world n left r = (k : ℕ) × (n ≤ k) × (k < n + left) × IsEvidence (world k) r

  ending-IsEvidence :
      (a : Attempt R) (more : Bool) {r : R}
      → ending_of a (body a) more ≡ finished (ok r)
      → IsEvidence a r
  ending-IsEvidence a more {r} h = go (body a) refl h
    where
      go : (b : Body R) → body a ≡ b → ending_of a b more ≡ finished (ok r) → IsEvidence a r
      go (returned q s) e g =
          let f = returned-IsEvidence a {r = q} {s = s} e in
          let same : q ≡ r = ground arith in rw (sym same) f
      go (raised x s) e g = handle-IsEvidence a x (sent s) more g

  try-IsEvidence :
      (p : Policy) (a : Attempt R) (n : ℕ) (rest : Run R) {r : R}
      → (try_once p a n rest).result ≡ ok r
      → IsEvidence a r ⊎ (rest.result ≡ ok r)
  unfolding try_once attempted
  try-IsEvidence p a n rest {r} h =
      let e = ending-IsEvidence a (ltb n p.max_attempts) {r = r} in ground arith

  attempts-HasEvidence :
      (p : Policy) (world : ℕ → Attempt R) (n left : ℕ) {r : R}
      → (attempts p world n left).result ≡ ok r
      → HasEvidence world n left r
  unfolding attempts
  attempts-HasEvidence p world n zero h = ground arith
  attempts-HasEvidence p world n (suc left) {r} h =
      elim (try-IsEvidence p (world n) n (attempts p world (suc n) left) h) [
        | inl e ↦ (n, omega arith, omega arith, e)
        | inr g ↦
            let (k, low, high, e) = attempts-HasEvidence p world (suc n) left g in
            (k, omega arith, omega arith, e)
      ]

  -- A receipt is returned only on evidence: within `max_attempts` attempts there is one whose
  -- COMMIT was answered for that receipt, or that found it durable in the database.
  pub returns_only_evidence :
      (p : Policy) (world : ℕ → Attempt R) {r : R}
      → (run p world).result ≡ ok r
      → HasEvidence world 1 p.max_attempts r
  unfolding run
  returns_only_evidence p world h = attempts-HasEvidence p world 1 p.max_attempts h
