-- ===== src/Base/Dict.antt =====
-- Python dictionaries with integer keys, as the list of their items in order of insertion.
use Prim.Native.Nat.{ℕ}
use mathlib.Core.Path.{◌≡◌, refl}
use mathlib.Core.Option.{Option, none, some}
use mathlib.Core.List.{List, [], ◌∷◌}
use native.Mathlib.Omega.{arith}
use cfdp_py.Base.Tests.{◌==◌, if◌then◌else◌}

module _ {ℓ} {V : Type ℓ} where
  unfoldable pub get : ℕ → List (ℕ × V) → Option V
  get k [] = none
  get k ((j, v) ∷ items) = if j == k then some v else get k items

  unfoldable pub update : ℕ → V → List (ℕ × V) → List (ℕ × V)
  update k v [] = (k, v) ∷ []
  update k v ((j, w) ∷ items) = if j == k then (k, v) ∷ items else (j, w) ∷ update k v items

  pub get-update :
      (j k : ℕ) (v : V) (items : List (ℕ × V))
      → get j (update k v items) ≡ (if k == j then some v else get j items)
  unfolding get update
  get-update j k v [] = refl
  get-update j k v ((i, w) ∷ items) = ground (arith, get-update j k v items)
