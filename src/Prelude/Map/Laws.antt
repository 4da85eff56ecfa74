-- ===== src/Prelude/Map/Laws.antt =====
-- What a map answers after each operation, its size, and that keys stay distinct.
use Prim.Native.Nat.{suc, ◌≤◌}
use mathlib.Core.Bool.{Bool}
use mathlib.Core.Option.{Option, none, some}
use mathlib.Core.Path.{◌≡◌, refl}
use mathlib.Core.Logic.{◌≢◌, inl, inr}
use mathlib.Core.List.{[], ◌∷◌}
use native.Mathlib.Omega.{arith}
use angellab.Prelude.Tests.{if◌then◌else◌, Bool-cases}
use angellab.Prelude.Lists.{length}
use angellab.Prelude.Equality.{Eq, ◌==◌}
use angellab.Prelude.Map.{Map, lookup, has, insert, delete, IsMap, retain}

module _ {ℓ} {K V : Type ℓ} ⦃e : Eq K⦄ where
  pub lookup-insert :
      (key other : K) (v : V) (m : Map K V)
      → lookup other (insert key v m) ≡ (if key == other then some v else lookup other m)
  unfolding insert lookup
  lookup-insert key other v [] = refl
  lookup-insert key other v ((k, old) ∷ rest) = ground (
    arith,
    lookup-insert key other v rest,
    e.eqb_iff k key,
    e.eqb_iff key other,
    e.eqb_iff k other,
  )

  pub lookup-delete :
      (k j : K) (m : Map K V) → lookup j (delete k m) ≡ (if k == j then none else lookup j m)
  unfolding lookup delete
  lookup-delete k j [] = ground arith
  lookup-delete k j ((i, w) ∷ m) =
      ground (arith, e.eqb_iff k j, e.eqb_iff i k, e.eqb_iff i j, lookup-delete k j m)

  pub lookup-insert_self : (k : K) (v : V) (m : Map K V) → lookup k (insert k v m) ≡ some v
  lookup-insert_self k v m = ground (arith, lookup-insert k k v m, e.eqb_iff k k)

  pub lookup-insert_ne :
      (k j : K) (v : V) (m : Map K V) → k ≢ j → lookup j (insert k v m) ≡ lookup j m
  lookup-insert_ne k j v m h = ground (arith, lookup-insert k j v m, e.eqb_iff k j)

  pub length-insert :
      (k : K) (v : V) (m : Map K V)
      → length (insert k v m) ≡ (if has k m then length m else suc (length m))
  unfolding lookup insert
  length-insert k v [] = refl
  length-insert k v ((i, w) ∷ m) = ground (arith, length-insert k v m)

  pub insert-IsMap : (k : K) (v : V) (m : Map K V) → IsMap m → IsMap (insert k v m)
  unfolding lookup insert
  insert-IsMap k v [] h = (refl, tt)
  insert-IsMap k v ((i, w) ∷ m) (h, hs) = elim (Bool-cases (i == k)) [
    | inl same ↦ rw same (ground (arith, e.eqb_iff i k), hs)
    | inr other ↦
        rw other (
          ground (arith, lookup-insert k i v m, e.eqb_iff k i, e.eqb_iff i k),
          insert-IsMap k v m hs,
        )
  ]

  pub delete-IsMap : (k : K) (m : Map K V) → IsMap m → IsMap (delete k m)
  unfolding lookup delete
  delete-IsMap k [] h = h
  delete-IsMap k ((i, w) ∷ m) (h, hs) = elim (Bool-cases (i == k)) [
    | inl same ↦ rw same (delete-IsMap k m hs)
    | inr other ↦ rw other (ground (arith, lookup-delete k i m, e.eqb_iff k i), delete-IsMap k m hs)
  ]

  lookup-retain-none :
      (p : K → V → Bool) (j : K) (m : Map K V) → lookup j m ≡ none → lookup j (retain p m) ≡ none
  unfolding lookup retain
  lookup-retain-none p j [] h = refl
  lookup-retain-none p j ((i, w) ∷ m) h = ground (arith, lookup-retain-none p j m)

  abbrev pub kept : (K → V → Bool) → K → Option V → Option V
  kept p j none = none
  kept p j (some v) = if p j v then some v else none

  pub lookup-retain :
      (p : K → V → Bool) (j : K) (m : Map K V)
      → IsMap m
      → lookup j (retain p m) ≡ kept p j (lookup j m)
  unfolding lookup retain
  lookup-retain p j [] h = refl
  lookup-retain p j ((i, w) ∷ m) (h, hs) = elim (Bool-cases (i == j)) [
    | inl same ↦ ground (arith, e.eqb_iff i j, e.eqb_iff j j, lookup-retain-none p i m h)
    | inr other ↦ ground (arith, lookup-retain p j m hs)
  ]

  pub retain-IsMap : (p : K → V → Bool) (m : Map K V) → IsMap m → IsMap (retain p m)
  unfolding lookup retain
  retain-IsMap p [] h = tt
  retain-IsMap p ((i, w) ∷ m) (h, hs) = elim (Bool-cases (p i w)) [
    | inl stays ↦ rw stays (lookup-retain-none p i m h, retain-IsMap p m hs)
    | inr goes ↦ rw goes (retain-IsMap p m hs)
  ]

pub length-retain {ℓ} :
    {K V : Type ℓ} (p : K → V → Bool) (m : Map K V) → length (retain p m) ≤ length m
unfolding retain
length-retain p [] = omega arith
length-retain p ((i, w) ∷ m) = ground (arith, length-retain p m)
