-- ===== src/Base/Maps.antt =====
-- Go's maps with uint64 keys as association lists: the first entry of a key counts, `store` replaces
-- it or adds one at the end, `delete` removes it.
use Prim.Native.Nat.{ℕ}
use mathlib.Core.Path.{◌≡◌, refl}
use mathlib.Core.Bool.{Bool, false, ◌||◌}
use mathlib.Core.List.{List, [], ◌∷◌}
use mathlib.Core.Option.{Option, none, some}
use native.Mathlib.Omega.{arith}
use package.helianthus_modbusreg.Base.Tests.{◌==◌, if◌then◌else◌}

abbrev pub Map {ℓ} : Type ℓ → Type ℓ
Map V = List (ℕ × V)

module _ {ℓ} {V : Type ℓ} where
  abbrev pub find : ℕ → Map V → Option V
  find k [] = none
  find k ((j, v) ∷ m) = if j == k then some v else find k m

  abbrev pub store : ℕ → V → Map V → Map V
  store k v [] = (k, v) ∷ []
  store k v ((j, w) ∷ m) = if j == k then (k, v) ∷ m else (j, w) ∷ store k v m

  abbrev pub delete : ℕ → Map V → Map V
  delete k [] = []
  delete k ((j, w) ∷ m) = if j == k then delete k m else (j, w) ∷ delete k m

  pub find-store :
      (k j : ℕ) (v : V) (m : Map V) → find j (store k v m) ≡ (if k == j then some v else find j m)
  find-store k j v [] = refl
  find-store k j v ((i, w) ∷ m) = ground (arith, find-store k j v m)

  pub find-delete :
      (k j : ℕ) (m : Map V) → find j (delete k m) ≡ (if k == j then none else find j m)
  find-delete k j [] = ground arith
  find-delete k j ((i, w) ∷ m) = ground (arith, find-delete k j m)

-- A set of numbers, as a list.
abbrev pub has : ℕ → List ℕ → Bool
has k [] = false
has k (j ∷ s) = j == k || has k s
