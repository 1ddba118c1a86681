-- ===== src/Proc/Steps.antt =====
-- What a procedure that returned says of its parts.
use cfdp_py.Base.{◌∷◌, List, arith, ◌≡◌, refl, ap, Bool, true, false, not}
use cfdp_py.Errors.{Error}
use cfdp_py.Proc.{
  pure, for_each, Outcome, returned, raised, Proc, ◌>>=◌, ◌>>◌, when, raise, skip, gets,
}

module _ {ℓ κ μ} {S : Type ℓ} {A : Type κ} {B : Type μ} where
  pub bind_step :
      (m : Proc S A) (k : A → Proc S B) (s s' : S) (a : A)
      → m s ≡ (returned a, s')
      → (m >>= k) s ≡ k a s'
  unfolding ◌>>=◌
  bind_step m k s s' a e = ap (λ r. ◌>>=◌ (λ (_ : S). r) k s) e

  pub bind_same :
      (m : Proc S A) (k : A → Proc S B) (s t : S) → m s ≡ m t → (m >>= k) s ≡ (m >>= k) t
  unfolding ◌>>=◌
  bind_same m k s t e = ap (λ r. ◌>>=◌ (λ (_ : S). r) k s) e

  -- A bind that returned ran its second part on what the first one returned.
  pub bind-returned :
      (m : Proc S A) (k : A → Proc S B) (s : S) (b : B)
      → ((m >>= k) s).0 ≡ returned b
      → (a : A) × ((m s).0 ≡ returned a) × ((m >>= k) s ≡ k a (m s).1)
  unfolding ◌>>=◌
  bind-returned m k s b h = of_outcome (m s).0 h
    where
      of_outcome :
          (r : Outcome A)
          → (◌>>=◌ (λ (_ : S). (r, (m s).1)) k s).0 ≡ returned b
          → (a : A) × (r ≡ returned a) × (◌>>=◌ (λ (_ : S). (r, (m s).1)) k s ≡ k a (m s).1)
      of_outcome (returned a) h = (a, refl, refl)
      of_outcome (raised e) h = ground arith

module _ {ℓ κ} {S : Type ℓ} {A : Type κ} where
  pub pure_step : (a : A) (s : S) → pure a s ≡ (returned a, s)
  unfolding pure
  pure_step a s = refl

module _ {ℓ κ} {S : Type ℓ} {B : Type κ} where
  -- A guard before a procedure that returned did not hold.
  pub guard_passed :
      (test : Bool) (e : Error) (m : Proc S B) (s : S) (b : B)
      → ((when test (raise e) >> m) s).0 ≡ returned b
      → (test ≡ false) × ((when test (raise e) >> m) s ≡ m s)
  unfolding ◌>>=◌ raise skip
  guard_passed true e m s b h = ground arith
  guard_passed false e m s b h = (refl, refl)

module _ {ℓ κ μ} {S : Type ℓ} {A : Type κ} {B : Type μ} where
  pub gets_bind : (f : S → A) (k : A → Proc S B) (s : S) → (gets f >>= k) s ≡ k (f s) s
  unfolding ◌>>=◌ gets
  gets_bind f k s = refl

module _ {ℓ} {S : Type ℓ} where
  -- The same of a guard that ends a procedure.
  pub last_guard_passed :
      (test : Bool) (e : Error) (s : S)
      → (when test (raise e) s).0 ≡ returned tt
      → (test ≡ false) × (when test (raise e) s ≡ (returned tt, s))
  unfolding raise skip
  last_guard_passed true e s h = ground arith
  last_guard_passed false e s h = (refl, refl)

pub not-false : (b : Bool) → not b ≡ false → b ≡ true
not-false true e = refl
not-false false e = ground arith

module _ {ℓ κ} {S : Type ℓ} {B : Type κ} where
  -- A step whose test does not hold.
  pub skip_when :
      (test : Bool) (n : Proc S (Unit {0})) (m : Proc S B) (s : S)
      → test ≡ false
      → (when test n >> m) s ≡ m s
  unfolding ◌>>=◌ skip
  skip_when true n m s h = ground arith
  skip_when false n m s h = refl

module _ {ℓ} {S : Type ℓ} where
  pub skip_last :
      (test : Bool) (n : Proc S (Unit {0})) (s : S)
      → test ≡ false
      → when test n s ≡ (returned tt, s)
  unfolding skip
  skip_last true n s h = ground arith
  skip_last false n s h = refl

module _ {ℓ κ} {S : Type ℓ} {A : Type κ} where
  pub for_step :
      (x : A) (xs : List A) (body : A → Proc S (Unit {0})) (s t : S)
      → body x s ≡ (returned tt, t)
      → for_each (x ∷ xs) body s ≡ for_each xs body t
  unfolding for_each
  for_step x xs body s t e = bind_step (body x) (λ _. for_each xs body) s t tt e
