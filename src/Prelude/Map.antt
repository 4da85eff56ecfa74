-- ===== src/Prelude/Map.antt =====
-- Go's `map[K]V` as an association list. `retain` is the loop that deletes while it ranges. Go
-- leaves the iteration order open; here it is the order of insertion.
pub mod Laws
use Prim.Native.Nat.{ℕ}
use mathlib.Core.Bool.{Bool, true, false}
use mathlib.Core.Option.{Option, none, some}
use mathlib.Core.Path.{◌≡◌}
use mathlib.Core.List.{List, [], ◌∷◌}
use angellab.Prelude.Tests.{if◌then◌else◌, is_some}
use angellab.Prelude.Equality.{Eq, ◌==◌}

abbrev pub Map {ℓ} : Type ℓ → Type ℓ → Type ℓ
Map K V = List (K × V)

module _ {ℓ} {K V : Type ℓ} ⦃e : Eq K⦄ where
  -- v, ok := m[k]
  unfoldable pub lookup : K → Map K V → Option V
  lookup key [] = none
  lookup key ((k, v) ∷ rest) = if k == key then some v else lookup key rest

  -- _, ok := m[k]
  abbrev pub has : K → Map K V → Bool
  has k m = is_some (lookup k m)

  -- m[k] = v
  unfoldable pub insert : K → V → Map K V → Map K V
  insert key v [] = (key, v) ∷ []
  insert key v ((k, old) ∷ rest) =
      if k == key then (key, v) ∷ rest else (k, old) ∷ insert key v rest

  -- delete(m, k)
  unfoldable pub delete : K → Map K V → Map K V
  delete k [] = []
  delete k ((j, v) ∷ m) = let rest = delete k m in if j == k then rest else (j, v) ∷ rest

  -- Every key stands once, as in a Go map.
  abbrev pub IsMap : Map K V → Type ℓ
  IsMap [] = Unit
  IsMap ((k, v) ∷ m) = (lookup k m ≡ none) × IsMap m

-- for k, v := range m { if !p(k, v) { delete(m, k) } }
unfoldable pub retain {ℓ} : {K V : Type ℓ} → (K → V → Bool) → Map K V → Map K V
retain p [] = []
retain p ((k, v) ∷ m) = let rest = retain p m in if p k v then (k, v) ∷ rest else rest
