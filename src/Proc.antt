-- ===== src/Proc.antt =====
-- Methods as procedures on a state: a call returns a value or raises, and in both cases leaves the
-- state as far as it was changed.
pub mod Holds
pub mod Agree
pub mod Steps
pub mod Judged
use cfdp_py.Base.{Bool, true, false, Option, none, some, List, [], ◌∷◌, if◌then◌else◌}
use cfdp_py.Errors.{Error, assertion_error}

pub data Outcome {ℓ} (A : Type ℓ) : Type ℓ where
  returned : A → Outcome A
  raised : Error → Outcome A

abbrev pub Proc {ℓ κ} : Type ℓ → Type κ → Type (ℓ ⊔ κ)
Proc S A = S → Outcome A × S

module _ {ℓ κ} {S : Type ℓ} {A : Type κ} where
  unfoldable pub pure : A → Proc S A
  pure a s = (returned a, s)

  unfoldable pub raise : Error → Proc S A
  raise e s = (raised e, s)

  unfoldable pub gets : (S → A) → Proc S A
  gets f s = (returned (f s), s)

  -- The value of an optional field, where `None` is an error.
  unfoldable pub require : Error → Option A → Proc S A
  require e none s = (raised e, s)
  require e (some a) s = (returned a, s)

  abbrev handled : (Error → Proc S A) → Outcome A → S → Outcome A × S
  handled handler (returned a) s = (returned a, s)
  handled handler (raised e) s = handler e s

  -- `try: m; except …`; the handler raises again what it does not catch.
  unfoldable pub try_except : Proc S A → (Error → Proc S A) → Proc S A
  try_except m handler s = let (r, s') = m s in handled handler r s'

module _ {ℓ κ μ} {S : Type ℓ} {A : Type κ} {B : Type μ} where
  abbrev resume : (A → Proc S B) → Outcome A → S → Outcome B × S
  resume k (returned a) s = k a s
  resume k (raised e) s = (raised e, s)

  infixl 10 ◌>>=◌ ◌>>◌
  unfoldable pub ◌>>=◌ : Proc S A → (A → Proc S B) → Proc S B
  ◌>>=◌ m k s = let (r, s') = m s in resume k r s'

  abbrev pub ◌>>◌ : Proc S A → Proc S B → Proc S B
  m >> n = m >>= λ _. n

module _ {ℓ} {S : Type ℓ} where
  unfoldable pub modify : (S → S) → Proc S (Unit {0})
  modify f s = (returned tt, f s)

  unfoldable pub skip : Proc S (Unit {0})
  skip s = (returned tt, s)

  abbrev pub when : Bool → Proc S (Unit {0}) → Proc S (Unit {0})
  when b m = if b then m else skip

  abbrev pub assert : Bool → Proc S (Unit {0})
  assert b = if b then skip else raise assertion_error

  -- A `for` loop over a list.
  unfoldable pub for_each {κ} : {A : Type κ} → List A → (A → Proc S (Unit {0})) → Proc S (Unit {0})
  unfolding skip ◌>>=◌
  for_each [] body = skip
  for_each (x ∷ xs) body = do body x; for_each xs body

-- A procedure on a part of the state.
unfoldable pub on_part {ℓ κ μ} :
    {S : Type ℓ} {P : Type κ} {A : Type μ} → (S → P) → (P → S → S) → Proc P A → Proc S A
on_part part put m s = let (r, p) = m (part s) in (r, put p s)

-- The plumbing, for the `unfolding` line of a proof that runs a procedure.
unfoldable pub run : Unit {0}
unfolding pure raise gets require try_except ◌>>=◌ modify skip on_part
run = tt
