-- ===== src/Proc/Agree.antt =====
-- Procedures that agree on every state, and the congruence of a bind.
use cfdp_py.Base.{◌≡◌, refl, Bool, true, false, if◌then◌else◌}
use cfdp_py.Proc.{Outcome, returned, raised, Proc, ◌>>=◌}

module _ {ℓ κ μ} {S : Type ℓ} {A : Type κ} {B : Type μ} where
  -- The rest of a bind matters only in the state in which the first part returns.
  pub bind-congr :
      (m : Proc S A) (k k' : A → Proc S B) (s : S)
      → ((a : A) → (m s).0 ≡ returned a → k a (m s).1 ≡ k' a (m s).1)
      → (m >>= k) s ≡ (m >>= k') s
  unfolding ◌>>=◌
  bind-congr m k k' s h = of_outcome (m s).0 h
    where
      of_outcome :
          (r : Outcome A)
          → ((a : A) → r ≡ returned a → k a (m s).1 ≡ k' a (m s).1)
          → ◌>>=◌ (λ _. (r, (m s).1)) k s ≡ ◌>>=◌ (λ _. (r, (m s).1)) k' s
      of_outcome (returned a) h = h a refl
      of_outcome (raised e) h = refl

module _ {ℓ κ μ ν} {S : Type ℓ} {A : Type κ} {B : Type μ} {C : Type ν} where
  pub bind_assoc :
      (m : Proc S A) (k : A → Proc S B) (l : B → Proc S C) (s : S)
      → (m >>= k >>= l) s ≡ (m >>= λ a. k a >>= l) s
  unfolding ◌>>=◌
  bind_assoc m k l s = of_outcome (m s).0
    where
      of_outcome :
          (r : Outcome A)
          → (◌>>=◌ (λ (_ : S). (r, (m s).1)) k >>= l) s
            ≡ (◌>>=◌ (λ (_ : S). (r, (m s).1)) (λ a. k a >>= l)) s
      of_outcome (returned a) = refl
      of_outcome (raised e) = refl

pub record Agree {ℓ κ} {S : Type ℓ} {A : Type κ} (m m' : Proc S A) : Type (ℓ ⊔ κ) where
  pub agree : (s : S) → m s ≡ m' s

module _ {ℓ κ} {S : Type ℓ} {A : Type κ} where
  pub Agree-refl : (m : Proc S A) → Agree m m
  Agree-refl m = record { agree = λ s. refl }

  pub Agree-if :
      (b : Bool) (m m' n n' : Proc S A)
      → Agree m m'
      → Agree n n'
      → Agree (if b then m else n) (if b then m' else n')
  Agree-if true m m' n n' p q = p
  Agree-if false m m' n n' p q = q

module _ {ℓ κ μ} {S : Type ℓ} {A : Type κ} {B : Type μ} where
  -- Two binds whose first parts are one procedure.
  pub Agree-bind :
      (m : Proc S A) (k k' : A → Proc S B)
      → ((a : A) → Agree (k a) (k' a))
      → Agree (m >>= k) (m >>= k')
  Agree-bind m k k' h = record { agree = λ s. bind-congr m k k' s (λ a _. (h a).agree (m s).1) }

pub ruleset agree_rules = (Agree-bind, Agree-if, Agree-refl)
