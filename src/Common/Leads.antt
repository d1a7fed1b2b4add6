-- ===== src/Common/Leads.antt =====
-- What a call that returns leads to: a condition on the state before it, and one on its result and
-- the state after it. A call that throws promises nothing here.
use mathlib.Core.Path.{◌≡◌, refl, subst}
use mathlib.Core.Bool.{Bool, true, false}
use plus_one.Common.Tests.{if◌then◌else◌}
use plus_one.Common.Errors.{Thrown}
use plus_one.Common.Effects.{Call, done, ◌>>=◌, return, throw, >>=-eq-done, throw_if}

pub record Leads {S A : Type 0} (P : S → Type 0) (m : Call S A) (Q : A → S → Type 0) : Type 0 where
  pub leads : (s t : S) (a : A) → P s → m s ≡ done a t → Q a t

module _ {S : Type 0} {P : S → Type 0} where
  pub Leads-bind :
      {A B : Type 0} {m : Call S A} {f : A → Call S B} (R : A → S → Type 0) (Q : B → S → Type 0)
      → Leads P m R
      → ((a : A) → Leads (R a) (f a) Q)
      → Leads P (m >>= f) Q
  Leads-bind {m} {f} R Q lm lf = record {
    leads = λ s t b p e.
        let (a, s', here, later) = >>=-eq-done (m s) f e in
        (lf a).leads s' t b (lm.leads s s' a p here) later;
  }

  pub Leads-throw : {A : Type 0} {Q : A → S → Type 0} (e : Thrown) → Leads P (throw e) Q
  Leads-throw e = record { leads = λ s t a p h. cc }

  pub Leads-return :
      {A : Type 0} (Q : A → S → Type 0) (a : A) → ((s : S) → P s → Q a s) → Leads P (return a) Q
  Leads-return Q a k = record {
    leads = λ s t b p e.
        let result : a ≡ b = cc in
        let state : s ≡ t = cc in subst (λ x. Q x t) result (subst (λ y. Q a y) state (k s p));
  }

  pub Leads-if :
      {A : Type 0} {m n : Call S A} {Q : A → S → Type 0} (b : Bool)
      → (b ≡ true → Leads P m Q)
      → (b ≡ false → Leads P n Q)
      → Leads P (if b then m else n) Q
  Leads-if true lm ln = lm refl
  Leads-if false lm ln = ln refl

  pub Leads-throw_if : (b : Bool) (e : Thrown) → Leads P (throw_if b e) (λ _. P)
  Leads-throw_if true e = record { leads = λ s t a p h. cc }
  Leads-throw_if false e = record { leads = λ s t a p h. let state : s ≡ t = cc in subst P state p }

-- No condition on a state.
abbrev pub Any : {S : Type 0} → S → Type 0
Any s = Unit

module _ {S A : Type 0} {P : S → Type 0} {m : Call S A} {Q : A → S → Type 0} where
  -- What holds from every state.
  pub Leads-weaken : Leads Any m Q → Leads P m Q
  Leads-weaken l = record { leads = λ s t a p e. l.leads s t a tt e }

module _ {S A B : Type 0} where
  -- Where nothing is asked of the first call.
  pub Leads-next :
      {P : S → Type 0} (m : Call S A) {f : A → Call S B} {Q : B → S → Type 0}
      → ((a : A) → Leads Any (f a) Q)
      → Leads P (m >>= f) Q
  Leads-next m {f} {Q} lf = Leads-bind (λ _. Any) Q (record { leads = λ s t a p e. tt }) lf

module _ {S A : Type 0} where
  -- A condition on no state lasts.
  pub Leads-kept : {X : Type 0} (m : Call S A) → Leads (λ _. X) m (λ _ _. X)
  Leads-kept m = record { leads = λ s t a p e. p }

  pub Leads-given :
      {X : Type 0} {m : Call S A} {Q : A → S → Type 0} → (X → Leads Any m Q) → Leads (λ _. X) m Q
  Leads-given l = record { leads = λ s t a p e. (l p).leads s t a tt e }
