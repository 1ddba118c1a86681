-- ===== src/Proc/Judged.antt =====
-- A test that raises or lets a packet through, without a change of the state.
use cfdp_py.Base.{◌≡◌, refl, Bool, true, false, not, ◌&&◌}
use cfdp_py.Errors.{Error}
use cfdp_py.Proc.{Proc, Outcome, returned, raised, raise, skip, when, ◌>>=◌, ◌>>◌}

abbrev pub returns {ℓ} : {A : Type ℓ} → Outcome A → Bool
returns (returned a) = true
returns (raised e) = false

-- The procedure returns where it is to accept and raises where it is not, and the state stays.
abbrev pub Judged {ℓ κ} : {S : Type ℓ} {A : Type κ} → Bool → Proc S A → S → Type ℓ
Judged accepts m s = (returns (m s).0 ≡ accepts) × ((m s).1 ≡ s)

module _ {ℓ} {S : Type ℓ} where
  pub guard-Judged :
      (holds accepts : Bool) (e : Error) (m : Proc S (Unit {0})) (s : S)
      → Judged accepts m s
      → Judged (holds && accepts) (when (not holds) (raise e) >> m) s
  unfolding ◌>>=◌ raise skip
  guard-Judged true accepts e m s j = j
  guard-Judged false accepts e m s j = (refl, refl)
