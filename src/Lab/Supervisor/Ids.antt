-- ===== src/Lab/Supervisor/Ids.antt =====
-- internal/lab/supervisor.go, `generateID`: the loop over A-01, A-02, … ends with a free identifier.
use angellab.Prelude.{
  ◌⊎◌, ℕ, suc, zero, ◌+◌, ◌-◌, ◌*◌, ◌/◌, ◌%◌, ◌≤◌, ◌<◌, ◌≡◌, refl, ap, sym, ◌∙◌, true, false,
  Option, none, some, List, [], ◌∷◌, ◌++◌, arith, if◌then◌else◌, ltb, bytes_eq, length, Bool-cases,
  inl, inr, drop,
}
use angellab.Prelude.Map
use angellab.Prelude.Decimal.{digits}
use angellab.Prelude.Map.{Map, has, delete}
use angellab.Prelude.Map.Laws.{lookup-delete}
use angellab.Registry.{AngelId}

-- %02d
unfoldable pub two_digits : ℕ → List ℕ
unfolding digits
two_digits n = if ltb n 10 then 48 ∷ (48 + n) ∷ [] else digits n n

-- fmt.Sprintf("A-%02d", n)
unfoldable pub format_id : ℕ → AngelId
format_id n = 65 ∷ 45 ∷ two_digits n

-- the `for`, in which `none` is that the fuel ends before it does
unfoldable pub search_id : {V : Type 0} → ℕ → ℕ → Map AngelId V → Option AngelId
search_id zero n angels = none
search_id (suc fuel) n angels =
    let later = search_id fuel (n + 1) angels in
    if has (format_id n) angels then later else some (format_id n)

unfoldable pub generate_id : {V : Type 0} → Map AngelId V → Option AngelId
generate_id angels = search_id (length angels + 1) (length angels + 1) angels

-- reading a number back
abbrev value : ℕ → List ℕ → ℕ
value acc [] = acc
value acc (d ∷ ds) = value (acc * 10 + (d - 48)) ds

value-append :
    (acc : ℕ) (xs : List ℕ) (d : ℕ) → value acc (xs ++ d ∷ []) ≡ value acc xs * 10 + (d - 48)
value-append acc [] d = refl
value-append acc (x ∷ xs) d = value-append (acc * 10 + (x - 48)) xs d

value-digits : (fuel n : ℕ) → n ≤ fuel → value 0 (digits fuel n) ≡ n
unfolding digits
value-digits zero n h = omega arith
value-digits (suc fuel) n h = elim (Bool-cases (ltb n 10)) [
  | inl small ↦ rw small (omega arith)
  | inr large ↦
      rw
        (
          large,
          value-append 0 (digits fuel (n / 10)) (48 + n % 10),
          value-digits fuel (n / 10) (ground arith),
        )
        (omega arith)
]

value-two_digits : (n : ℕ) → value 0 (two_digits n) ≡ n
unfolding two_digits
value-two_digits n = elim (Bool-cases (ltb n 10)) [
  | inl small ↦ rw small (omega arith)
  | inr large ↦ rw large (value-digits n n (omega arith))
]

format_id-injective : (m n : ℕ) → format_id m ≡ format_id n → m ≡ n
unfolding format_id
format_id-injective m n e =
    sym (value-two_digits m) ∙ ap (λ s. value 0 (drop 2 s)) e ∙ value-two_digits n

module _ {V : Type 0} where
  length-delete_le : (k : AngelId) (m : Map AngelId V) → length (delete k m) ≤ length m
  unfolding delete
  length-delete_le k [] = omega arith
  length-delete_le k ((j, v) ∷ m) = ground (arith, length-delete_le k m)

  length-delete :
      (k : AngelId) (m : Map AngelId V) → has k m ≡ true → length (delete k m) < length m
  unfolding delete Map.lookup
  length-delete k [] h = ground arith
  length-delete k ((j, v) ∷ m) h = ground (arith, length-delete k m, length-delete_le k m)

  -- the identifiers of the numbers from `n` on, `k` of them, are all in use
  abbrev AllUsed : ℕ → ℕ → Map AngelId V → Type 0
  AllUsed zero n m = Unit
  AllUsed (suc k) n m = (has (format_id n) m ≡ true) × AllUsed k (n + 1) m

  AllUsed-delete :
      (k n j : ℕ) (m : Map AngelId V) → j < n → AllUsed k n m → AllUsed k n (delete (format_id j) m)
  AllUsed-delete zero n j m less h = tt
  AllUsed-delete (suc k) n j m less (used, h) = (
    ground (
      arith,
      lookup-delete (format_id j) (format_id n) m,
      bytes_eq.eqb_iff (format_id j) (format_id n),
      format_id-injective j n,
    ),
    AllUsed-delete k (n + 1) j m (omega arith) h,
  )

  -- the pigeonhole principle
  AllUsed-le : (k n : ℕ) (m : Map AngelId V) → AllUsed k n m → k ≤ length m
  AllUsed-le zero n m h = omega arith
  AllUsed-le (suc k) n m (used, h) = omega (
    arith,
    AllUsed-le k (n + 1) (delete (format_id n) m) (AllUsed-delete k (n + 1) n m (omega arith) h),
    length-delete (format_id n) m used,
  )

  -- A search that does not end within its fuel has met only identifiers in use.
  search_id-outcome :
      (fuel n : ℕ) (m : Map AngelId V)
      → AllUsed fuel n m ⊎ ((id : AngelId) × (search_id fuel n m ≡ some id) × (has id m ≡ false))
  unfolding search_id
  search_id-outcome zero n m = inl tt
  search_id-outcome (suc fuel) n m = elim (Bool-cases (has (format_id n) m)) [
    | inl used ↦ elim (search_id-outcome fuel (n + 1) m) [
      | inl all ↦ inl (used, all)
      | inr (id, found, free) ↦ inr (id, rw used found, free)
    ]
    | inr free ↦ inr (format_id n, rw free, free)
  ]

  -- `generateID` always ends, after at most one try more than there are angels, and its answer is an
  -- identifier that no angel has.
  pub generate_id-free :
      (angels : Map AngelId V)
      → (id : AngelId) × (generate_id angels ≡ some id) × (has id angels ≡ false)
  unfolding generate_id
  generate_id-free angels =
      elim (search_id-outcome (length angels + 1) (length angels + 1) angels) [
        | inl all ↦
            absurd (omega (arith, AllUsed-le (length angels + 1) (length angels + 1) angels all))
        | inr found ↦ found
      ]
