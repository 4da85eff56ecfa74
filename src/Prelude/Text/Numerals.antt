-- ===== src/Prelude/Text/Numerals.antt =====
-- A number that is written in decimal and read by strconv.
use Prim.Native.Nat.{ℕ, zero, suc, ◌+◌, ◌-◌, ◌*◌, ◌/◌, ◌%◌, ◌^◌, ◌≤◌, ◌<◌}
use mathlib.Core.Path.{◌≡◌, refl, ap, ◌∙◌}
use mathlib.Core.Logic.{inl, inr}
use mathlib.Core.Bool.{false}
use mathlib.Core.List.{[], ◌∷◌, ◌++◌}
use native.Mathlib.Omega.{arith}
use angellab.Prelude.Tests.{ltb, Bool-cases}
use angellab.Prelude.Lists.{All, length, All-map}
use angellab.Prelude.Int.{pos}
use angellab.Prelude.Decimal.{digits, digits-All, length-digits, IsDecimal}
use angellab.Prelude.Text.{Text, parsed, uint_loop, parse_uint, parse_int, signed}
use angellab.Prelude.Text.Fields.{IsWord}

uint_loop-append :
    (xs : Text) (acc r d : ℕ)
    → uint_loop xs acc ≡ parsed r
    → IsDecimal d
    → r * 10 + (d - 48) < 2 ^ 64
    → uint_loop (xs ++ d ∷ []) acc ≡ parsed (r * 10 + (d - 48))
unfolding uint_loop
uint_loop-append [] acc r d h dec fits = ground arith
uint_loop-append (x ∷ xs) acc r d h dec fits =
    ground (arith, uint_loop-append xs (acc * 10 + (x - 48)) r d)

uint_loop-digits : (fuel n : ℕ) → n ≤ fuel → n < 2 ^ 64 → uint_loop (digits fuel n) 0 ≡ parsed n
unfolding digits uint_loop
uint_loop-digits zero n enough fits = ground arith
uint_loop-digits (suc fuel) n enough fits = elim (Bool-cases (ltb n 10)) [
  | inl small ↦ rw small (ground arith)
  | inr large ↦ rw large (
      uint_loop-append (digits fuel (n / 10)) 0 (n / 10) (48 + n % 10)
        (uint_loop-digits fuel (n / 10) (ground arith) (omega arith)) (omega arith, omega arith)
        (omega arith)
      ∙ ap parsed (omega arith))
]

parse_uint-filled : (s : Text) → 0 < length s → parse_uint s ≡ uint_loop s 0
unfolding parse_uint
parse_uint-filled [] h = absurd (omega (arith, h))
parse_uint-filled (c ∷ cs) h = refl

pub parse_uint-digits : (n : ℕ) → n < 2 ^ 64 → parse_uint (digits n n) ≡ parsed n
parse_uint-digits n fits =
    parse_uint-filled (digits n n) (length-digits n n) ∙ uint_loop-digits n n (omega arith) fits

parse_int-unsigned :
    (s : Text) → All IsDecimal s → 0 < length s → parse_int s ≡ signed false (parse_uint s)
unfolding parse_int
parse_int-unsigned [] h filled = absurd (omega (arith, filled))
parse_int-unsigned (c ∷ cs) (dec, h) filled = ground arith

pub parse_int-digits : (n : ℕ) → n < 2 ^ 63 → parse_int (digits n n) ≡ parsed (pos n)
parse_int-digits n fits =
    parse_int-unsigned (digits n n) (digits-All n n) (length-digits n n)
    ∙ ap (signed false) (parse_uint-digits n (omega arith))
    ∙ ground arith

pub digits-IsWord : (n : ℕ) → IsWord (digits n n)
digits-IsWord n =
    (All-map _ _ (digits n n) (λ c dec. ground arith) (digits-All n n), length-digits n n)
