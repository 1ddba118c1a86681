-- ===== src/Proc/Holds.antt =====
-- Invariants of procedures: one rule for each way to build a procedure.
use cfdp_py.Base.{
  refl, ◌≡◌, ◌⊎◌, inl, inr, Bool, true, false, Option, none, some, List, [], ◌∷◌, if◌then◌else◌,
}
use cfdp_py.Errors.{Error}
use cfdp_py.Proc.{
  Outcome, returned, raised, Proc, pure, raise, gets, require, try_except, ◌>>=◌, modify, skip,
  for_each,
}

-- The procedure keeps `P`, also where it raises.
pub record Keeps {ℓ κ μ} {S : Type ℓ} {A : Type κ} (P : S → Type μ) (m : Proc S A)
    : Type (ℓ ⊔ κ ⊔ μ) where
  pub keep : (s : S) → P s → P (m s).1

module _ {ℓ κ μ} {S : Type ℓ} {A : Type κ} {P : S → Type μ} where
  pub Keeps-pure : (a : A) → Keeps P (pure a)
  unfolding pure
  Keeps-pure a = record { keep = λ s h. h }

  pub Keeps-raise : (e : Error) → Keeps P (raise {A = A} e)
  unfolding raise
  Keeps-raise e = record { keep = λ s h. h }

  pub Keeps-gets : (f : S → A) → Keeps P (gets f)
  unfolding gets
  Keeps-gets f = record { keep = λ s h. h }

  pub Keeps-require : (e : Error) (o : Option A) → Keeps P (require e o)
  unfolding require
  Keeps-require e none = record { keep = λ s h. h }
  Keeps-require e (some a) = record { keep = λ s h. h }

  pub Keeps-if : (b : Bool) (m n : Proc S A) → Keeps P m → Keeps P n → Keeps P (if b then m else n)
  Keeps-if true m n km kn = km
  Keeps-if false m n km kn = kn

  pub Keeps-try :
      (m : Proc S A) (handler : Error → Proc S A)
      → Keeps P m
      → ((e : Error) → Keeps P (handler e))
      → Keeps P (try_except m handler)
  unfolding try_except
  Keeps-try m handler km kh = record { keep = λ s h. after s (m s).0 (km.keep s h) }
    where
      after : (s : S) (r : Outcome A) → P (m s).1 → P (try_except (λ _. (r, (m s).1)) handler s).1
      after s (returned a) h = h
      after s (raised e) h = (kh e).keep (m s).1 h

module _ {ℓ κ μ ν} {S : Type ℓ} {A : Type κ} {B : Type μ} {P : S → Type ν} where
  pub Keeps-bind :
      (m : Proc S A) (k : A → Proc S B) → Keeps P m → ((a : A) → Keeps P (k a)) → Keeps P (m >>= k)
  unfolding ◌>>=◌
  Keeps-bind m k km kk = record { keep = λ s h. after s (m s).0 (km.keep s h) }
    where
      after : (s : S) (r : Outcome A) → P (m s).1 → P (◌>>=◌ (λ _. (r, (m s).1)) k s).1
      after s (returned a) h = (kk a).keep (m s).1 h
      after s (raised e) h = h

  -- What holds after the first part of a bind, and which the second part keeps.
  pub after_bind :
      (m : Proc S A) (k : A → Proc S B) (s : S)
      → P (m s).1
      → ((a : A) → Keeps P (k a))
      → P ((m >>= k) s).1
  unfolding ◌>>=◌
  after_bind m k s h kk = of_outcome (m s).0
    where
      of_outcome : (r : Outcome A) → P (◌>>=◌ (λ _. (r, (m s).1)) k s).1
      of_outcome (returned a) = (kk a).keep (m s).1 h
      of_outcome (raised e) = h

module _ {ℓ κ μ ν} {S : Type ℓ} {A : Type κ} {B : Type μ} where
  -- What holds after both parts of a bind, the second one by what the first returned.
  pub bind_cases :
      (P : S → Type ν) (m : Proc S A) (k : A → Proc S B) (s : S)
      → P (m s).1
      → ((a : A) → (m s).0 ≡ returned a → P (k a (m s).1).1)
      → P ((m >>= k) s).1
  unfolding ◌>>=◌
  bind_cases P m k s h kk = of_outcome (m s).0 kk
    where
      of_outcome :
          (r : Outcome A)
          → ((a : A) → r ≡ returned a → P (k a (m s).1).1)
          → P (◌>>=◌ (λ (_ : S). (r, (m s).1)) k s).1
      of_outcome (returned a) kk = kk a refl
      of_outcome (raised e) kk = h

module _ {ℓ μ} {S : Type ℓ} {P : S → Type μ} where
  pub Keeps-skip : Keeps P skip
  unfolding skip
  Keeps-skip = record { keep = λ s h. h }

  pub Keeps-modify : (f : S → S) → ((s : S) → P s → P (f s)) → Keeps P (modify f)
  unfolding modify
  Keeps-modify f h = record { keep = h }

  pub Keeps-for {κ} :
      {A : Type κ} (xs : List A) (body : A → Proc S (Unit {0}))
      → ((x : A) → Keeps P (body x))
      → Keeps P (for_each xs body)
  unfolding for_each
  Keeps-for [] body kb = Keeps-skip
  Keeps-for (x ∷ xs) body kb =
      Keeps-bind (body x) (λ _. for_each xs body) (kb x) (λ _. Keeps-for xs body kb)

pub ruleset keeps_rules = (
  Keeps-pure, Keeps-raise, Keeps-gets, Keeps-require, Keeps-if, Keeps-try, Keeps-bind, Keeps-skip,
  Keeps-for,
)

pub Outcome-cases {ℓ} :
    {A : Type ℓ} (r : Outcome A) → ((a : A) × (r ≡ returned a)) ⊎ ((e : Error) × (r ≡ raised e))
Outcome-cases (returned a) = inl (a, refl)
Outcome-cases (raised e) = inr (e, refl)
