-- ===== src/Prelude/Sort.antt =====
-- Stable insertion sort by a natural key, ascending: what `ORDER BY` and `sort.Slice` come to.
use Prim.Native.Nat.{ℕ, ◌≤◌}
use mathlib.Core.Logic.{inl, inr}
use mathlib.Core.List.{List, [], ◌∷◌, Perm}
use mathlib.Core.List.Perm
use native.Mathlib.Omega.{arith}
use angellab.Prelude.Tests.{ltb, if◌then◌else◌, Bool-cases}
use angellab.Prelude.Lists.{All, All-map}

module _ {ℓ} {A : Type ℓ} (key : A → ℕ) where
  abbrev pub insert_by : A → List A → List A
  insert_by a [] = a ∷ []
  insert_by a (x ∷ xs) =
      let rest = insert_by a xs in if ltb (key x) (key a) then x ∷ rest else a ∷ x ∷ xs

  abbrev pub sort_by : List A → List A
  sort_by [] = []
  sort_by (x ∷ xs) = insert_by x (sort_by xs)

  -- Every element's key is at most those behind it.
  abbrev pub IsSorted : List A → Type 0
  IsSorted [] = Unit
  IsSorted (x ∷ xs) = All (λ y. key x ≤ key y) xs × IsSorted xs

  insert_by-All {κ} :
      (P : A → Type κ) (a : A) (xs : List A) → P a → All P xs → All P (insert_by a xs)
  insert_by-All P a [] pa h = (pa, tt)
  insert_by-All P a (x ∷ xs) pa (px, h) = ground (arith, insert_by-All P a xs pa h)

  insert_by-IsSorted : (a : A) (xs : List A) → IsSorted xs → IsSorted (insert_by a xs)
  insert_by-IsSorted a [] h = (tt, tt)
  insert_by-IsSorted a (x ∷ xs) (low, h) = elim (Bool-cases (ltb (key x) (key a))) [
    | inl less ↦ rw less (insert_by-All _ a xs (ground arith) low, insert_by-IsSorted a xs h)
    | inr more ↦ rw more ((ground arith, All-map _ _ xs (λ y le. ground arith) low), (low, h))
  ]

  pub sort_by-IsSorted : (xs : List A) → IsSorted (sort_by xs)
  sort_by-IsSorted [] = tt
  sort_by-IsSorted (x ∷ xs) = insert_by-IsSorted x (sort_by xs) (sort_by-IsSorted xs)

  insert_by-Perm : (a : A) (xs : List A) → Perm (insert_by a xs) (a ∷ xs)
  insert_by-Perm a [] = Perm.refl _
  insert_by-Perm a (x ∷ xs) = elim (Bool-cases (ltb (key x) (key a))) [
    | inl less ↦ rw less (Perm.trans (Perm.cons x (insert_by-Perm a xs)) (Perm.swap a x xs))
    | inr more ↦ rw more (Perm.refl _)
  ]

  pub sort_by-Perm : (xs : List A) → Perm (sort_by xs) xs
  sort_by-Perm [] = Perm.refl _
  sort_by-Perm (x ∷ xs) = Perm.trans (insert_by-Perm x (sort_by xs)) (Perm.cons x (sort_by-Perm xs))
