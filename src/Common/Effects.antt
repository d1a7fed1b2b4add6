-- ===== src/Common/Effects.antt =====
-- Calls that may throw and that change a state. What a throwing call wrote before it threw stays
-- written, as in the program; a repository's call that rolls back leaves the state that it found.
use mathlib.Core.Path.{◌≡◌, refl}
use mathlib.Core.Logic.{◌⊎◌, inl, inr}
use mathlib.Core.Bool.{Bool, true, false}
use plus_one.Common.Errors.{Thrown}

-- The two ways in which a call ends, with the state that it leaves.
pub data Outcome {ℓ κ} (S : Type κ) (A : Type ℓ) : Type (ℓ ⊔ κ) where
  done : A → S → Outcome S A
  threw : Thrown → S → Outcome S A

abbrev pub Call {ℓ κ} : Type κ → Type ℓ → Type (ℓ ⊔ κ)
Call S A = S → Outcome S A

infixl 5 ◌>>=◌ ◌>>◌
abbrev pub ◌>>=◌ {ℓ κ ν} :
    {S : Type ν} {A : Type ℓ} {B : Type κ} → Call S A → (A → Call S B) → Call S B
◌>>=◌ m f s = elim (m s) [ done a s' ↦ f a s' | threw e s' ↦ threw e s' ]

abbrev pub ◌>>◌ {ℓ ν} : {S : Type ν} {B : Type ℓ} → Call S (Unit {0}) → Call S B → Call S B
m >> k = m >>= λ _. k

abbrev pub return {ℓ ν} : {S : Type ν} {A : Type ℓ} → A → Call S A
return a s = done a s

abbrev pub throw {ℓ ν} : {S : Type ν} {A : Type ℓ} → Thrown → Call S A
throw e s = threw e s

-- `if (c) throw e`.
abbrev pub throw_if {ν} : {S : Type ν} → Bool → Thrown → Call S (Unit {0})
throw_if true e s = threw e s
throw_if false e s = done tt s

abbrev pub catch {ℓ ν} : {S : Type ν} {A : Type ℓ} → Call S A → (Thrown → Call S A) → Call S A
catch m h s = elim (m s) [ done a s' ↦ done a s' | threw e s' ↦ h e s' ]

-- A `try` block: what it gives, or what it throws.
abbrev pub tried {ℓ ν} : {S : Type ν} {A : Type ℓ} → Call S A → Call S (Thrown ⊎ A)
tried m s = elim (m s) [ done a s' ↦ done (inr a) s' | threw e s' ↦ done (inl e) s' ]

-- Inversion of a call that returns.
pub >>=-eq-done {ℓ κ ν} :
    {S : Type ν} {A : Type ℓ} {B : Type κ} (o : Outcome S A) (f : A → Call S B) {b : B} {t : S}
    → elim o [ done a s' ↦ f a s' | threw e s' ↦ threw e s' ] ≡ done b t
    → (a : A) × (s' : S) × (o ≡ done a s') × (f a s' ≡ done b t)
>>=-eq-done (done a s') f h = (a, s', refl, h)
>>=-eq-done (threw e s') f h = cc

-- What follows a guard that let the call go on.
pub throw_if-eq-done {ℓ ν} :
    {S : Type ν} {B : Type ℓ} (b : Bool) (e : Thrown) (k : Call S B) (s : S) {r : B} {t : S}
    → (throw_if b e >> k) s ≡ done r t
    → (b ≡ false) × (k s ≡ done r t)
throw_if-eq-done true e k s h = cc
throw_if-eq-done false e k s h = (refl, h)

-- The state that a call leaves, whichever way it ends.
abbrev pub after {ℓ ν} : {S : Type ν} {A : Type ℓ} → Outcome S A → S
after (done a s) = s
after (threw e s) = s

-- A call that keeps a property of the state, also where it throws.
pub record Keeps {ℓ κ ν} {S : Type ν} {A : Type ℓ} (P : S → Type κ) (m : Call S A)
    : Type (κ ⊔ ν) where
  pub kept : (s : S) → P s → P (after (m s))

module _ {κ ν} {S : Type ν} {P : S → Type κ} where
  pub Keeps-bind {ℓ μ} :
      {A : Type ℓ} {B : Type μ} {m : Call S A} {f : A → Call S B}
      → Keeps P m
      → ((a : A) → Keeps P (f a))
      → Keeps P (m >>= f)
  Keeps-bind {m} {f} km kf = record { kept = λ s p. go (m s) (km.kept s p) }
    where
      go :
          (o : Outcome S _)
          → P (after o)
          → P (after (elim o [ done a s' ↦ f a s' | threw e s' ↦ threw e s' ]))
      go (done a s') q = (kf a).kept s' q
      go (threw e s') q = q

  pub Keeps-throw_if : (b : Bool) (e : Thrown) → Keeps P (throw_if {S = S} b e)
  Keeps-throw_if b e = record { kept = λ s p. go b s p }
    where
      go : (c : Bool) (s : S) → P s → P (after (throw_if c e s))
      go true s p = p
      go false s p = p

  pub Keeps-return {ℓ} : {A : Type ℓ} (a : A) → Keeps P (return {S = S} a)
  Keeps-return a = record { kept = λ s p. p }

  -- A call that leaves the state alone where it throws keeps what its returns keep.
  pub Keeps-of_returns {ℓ} :
      {A : Type ℓ} {m : Call S A}
      → ((s t : S) (a : A) → P s → m s ≡ done a t → P t)
      → ((s t : S) (e : Thrown) → m s ≡ threw e t → t ≡ s)
      → Keeps P m
  Keeps-of_returns {m} returns throws = record { kept = λ s p. go s p (m s) refl }
    where
      go : (s : S) → P s → (o : Outcome S _) → m s ≡ o → P (after o)
      go s p (done a t) e = returns s t a p e
      go s p (threw x t) e = rw (throws s t x e) p
