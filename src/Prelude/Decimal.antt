-- ===== src/Prelude/Decimal.antt =====
-- Decimal notation, as Go's fmt writes a number and the kernel does.
use Prim.Native.Nat.{ℕ, zero, suc, ◌+◌, ◌/◌, ◌%◌, ◌≤◌, ◌<◌}
use mathlib.Core.Logic.{inl, inr}
use mathlib.Core.List.{List, [], ◌∷◌, ◌++◌}
use native.Mathlib.Omega.{arith}
use angellab.Prelude.Tests.{ltb, if◌then◌else◌, Bool-cases}
use angellab.Prelude.Lists.{All, All-append, length, length-append}

-- the decimal digits of fmt's %d; `fuel` counts divisions by ten, and `n` of them are enough
unfoldable pub digits : ℕ → ℕ → List ℕ
digits zero n = (48 + n % 10) ∷ []
digits (suc fuel) n =
    let front = digits fuel (n / 10) in
    if ltb n 10 then (48 + n) ∷ [] else front ++ (48 + n % 10) ∷ []

abbrev pub IsDecimal : ℕ → Type 0
IsDecimal c = (48 ≤ c) × (c ≤ 57)

pub digits-All : (fuel n : ℕ) → All IsDecimal (digits fuel n)
unfolding digits
digits-All zero n = ((omega arith, omega arith), tt)
digits-All (suc fuel) n = elim (Bool-cases (ltb n 10)) [
  | inl small ↦ rw small ((omega arith, ground arith), tt)
  | inr large ↦ rw large (
      All-append IsDecimal (digits fuel (n / 10)) _ (digits-All fuel (n / 10))
        ((omega arith, omega arith), tt))
]

pub length-digits : (fuel n : ℕ) → 0 < length (digits fuel n)
unfolding digits
length-digits zero n = omega arith
length-digits (suc fuel) n =
    ground (arith, length-append (digits fuel (n / 10)) ((48 + n % 10) ∷ []))
