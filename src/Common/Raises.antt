-- ===== src/Common/Raises.antt =====
-- A count on the state, and by how much a call raises it at most, however the call ends.
use plus_one.Common.Errors.{Thrown}
use plus_one.Common.Effects.{
  return, Call, throw, throw_if, after, catch, ◌>>=◌, Outcome, done, threw,
}
use Prim.Native.Nat.{ℕ, ◌+◌, ◌≤◌}
use mathlib.Core.Path.{◌≡◌, refl}
use mathlib.Core.Bool.{Bool, true, false}
use native.Mathlib.Omega.{arith}
use plus_one.Common.Tests.{if◌then◌else◌}

module _ {S : Type 0} (runs : S → ℕ) where
  -- A call that raises the count by `n` at most.
  pub record Raises {B : Type 0} (n : ℕ) (m : Call S B) : Type 0 where
    pub at_most : (s : S) → runs (after (m s)) ≤ runs s + n

  pub Raises-bind :
      {B C : Type 0} (n k : ℕ) (m : Call S B) (f : B → Call S C)
      → Raises n m
      → ((b : B) → Raises k (f b))
      → Raises (n + k) (m >>= f)
  Raises-bind {B} n k m f a b = record { at_most = λ s. go s (m s) (a.at_most s) }
    where
      go :
          (s : S) (o : Outcome S B)
          → runs (after o) ≤ runs s + n
          → runs (after (elim o [ done x t ↦ f x t | threw e t ↦ threw e t ])) ≤ runs s + (n + k)
      go s (done x t) l = omega (arith, (b x).at_most t)
      go s (threw e t) l = omega arith

  pub Raises-catch :
      {B : Type 0} (n k : ℕ) (m : Call S B) (h : Thrown → Call S B)
      → Raises n m
      → ((e : Thrown) → Raises k (h e))
      → Raises (n + k) (catch m h)
  Raises-catch {B} n k m h a b = record { at_most = λ s. go s (m s) (a.at_most s) }
    where
      go :
          (s : S) (o : Outcome S B)
          → runs (after o) ≤ runs s + n
          → runs (after (elim o [ done x t ↦ done x t | threw e t ↦ h e t ])) ≤ runs s + (n + k)
      go s (done x t) l = omega arith
      go s (threw e t) l = omega (arith, (b e).at_most t)

  pub Raises-return : {B : Type 0} (b : B) → Raises 0 (return {S = S} b)
  Raises-return b = record { at_most = λ s. omega arith }

  pub Raises-throw : {B : Type 0} (e : Thrown) → Raises 0 (throw {S = S} {A = B} e)
  Raises-throw e = record { at_most = λ s. omega arith }

  pub Raises-throw_if : (b : Bool) (e : Thrown) → Raises 0 (throw_if {S = S} b e)
  Raises-throw_if true e = record { at_most = λ s. omega arith }
  Raises-throw_if false e = record { at_most = λ s. omega arith }

  -- Where what follows need only be bounded for what the call returns.
  pub Raises-bind_done :
      {B C : Type 0} (n k : ℕ) (m : Call S B) (f : B → Call S C)
      → Raises n m
      → ((s t : S) (b : B) → m s ≡ done b t → Raises k (f b))
      → Raises (n + k) (m >>= f)
  Raises-bind_done {B} n k m f a b = record { at_most = λ s. go s (m s) refl (a.at_most s) }
    where
      go :
          (s : S) (o : Outcome S B)
          → m s ≡ o
          → runs (after o) ≤ runs s + n
          → runs (after (elim o [ done x t ↦ f x t | threw e t ↦ threw e t ])) ≤ runs s + (n + k)
      go s (done x t) e l = omega (arith, (b s t x e).at_most t)
      go s (threw x t) e l = omega arith

  -- The branches may be bounded by one number.
  pub Raises-if :
      {B : Type 0} {n : ℕ} {m k : Call S B} (b : Bool)
      → (b ≡ true → Raises n m)
      → (b ≡ false → Raises n k)
      → Raises n (if b then m else k)
  Raises-if true rm rk = rm refl
  Raises-if false rm rk = rk refl
