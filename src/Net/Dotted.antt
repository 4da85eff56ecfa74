-- ===== src/Net/Dotted.antt =====
-- IPv4 addresses as texts: ip.String() of four bytes and net.ParseIP, which reads a text with a colon
-- before any dot by a parser of IPv6, a parameter.
use angellab.Prelude.{
  ℕ, ◌+◌, ◌*◌, ◌-◌, ◌/◌, ◌%◌, ◌≤◌, ◌<◌, ◌≡◌, refl, sym, ap, ◌∙◌, Bool, true, false, ◌&&◌, ◌||◌,
  Option, none, some, List, [], ◌∷◌, ◌++◌, arith, inl, inr, Bool-cases, if◌then◌else◌, length, ltb,
  leb, All, ◌==◌, nat_eq, bytes_eq,
}
use mathlib.Core.List.{append-nil}
use angellab.Prelude.Text.{Text}
use angellab.Prelude.Decimal.{digits, IsDecimal, digits-All, length-digits}
use angellab.Net.{Ip, v4_in_v6}

-- ip.String() of an address of four bytes
abbrev pub dotted : List ℕ → Text
dotted [] = []
dotted (b ∷ []) = digits 2 b
dotted (b ∷ c ∷ bs) = digits 2 b ++ 46 ∷ dotted (c ∷ bs)

abbrev pub is_digit : ℕ → Bool
is_digit c = leb 48 c && leb c 57

abbrev pub is_end : Text → Bool
is_end [] = true
is_end (c ∷ cs) = false

-- netip's parseIPv4Fields: the value of the field so far, its digits, and the fields before it
unfoldable pub parse_fields : ℕ → ℕ → List ℕ → Text → Option (List ℕ)
parse_fields val dig before [] = if length before == 3 then some (before ++ val ∷ []) else none
parse_fields val dig before (c ∷ cs) =
    let digit = parse_fields (val * 10 + (c - 48)) (dig + 1) before cs in
    let dot = parse_fields 0 0 (before ++ val ∷ []) cs in
    if is_digit c
    then (if (dig == 1) && (val == 0)
        then none
        else if ltb 255 (val * 10 + (c - 48))
        then none
        else digit)
    else if c == 46
    then (if (dig == 0) || is_end cs then none else if length before == 3 then none else dot)
    else none

-- netip.ParseAddr looks for the first of '.', ':' and '%'
unfoldable pub parse_addr : (Text → Option Ip) → Text → Text → Option Ip
parse_addr parse_v6 whole [] = none
parse_addr parse_v6 whole (c ∷ cs) =
    let rest = parse_addr parse_v6 whole cs in
    if c == 46
    then elim (parse_fields 0 0 [] whole) [ none ↦ none | some ip ↦ some (v4_in_v6 ++ ip) ]
    else if c == 58
    then parse_v6 whole
    else if c == 37
    then none
    else rest

unfoldable pub parse_ip : (Text → Option Ip) → Text → Option Ip
parse_ip parse_v6 s = parse_addr parse_v6 s s

abbrev pub IsByte : ℕ → Type 0
IsByte b = b < 256

parse_fields-digit :
    (val dig d val' : ℕ) (before : List ℕ) (rest : Text)
    → d < 10
    → ((dig == 1) && (val == 0)) ≡ false
    → val' ≡ val * 10 + d
    → val' < 256
    → parse_fields val dig before ((48 + d) ∷ rest) ≡ parse_fields val' (dig + 1) before rest
unfolding parse_fields
parse_fields-digit val dig d val' before rest small plain e fits =
    let back : (48 + d) - 48 ≡ d = omega arith in
    rw (back, plain, sym e) (ground (arith, small, fits))

digits-1 : (b : ℕ) → b < 10 → digits 2 b ≡ (48 + b) ∷ []
unfolding digits
digits-1 b small = ground (arith, small)

digits-2 : (b : ℕ) → 10 ≤ b → b < 100 → digits 2 b ≡ (48 + b / 10) ∷ (48 + b % 10) ∷ []
unfolding digits
digits-2 b large small = ground (arith, large, small)

digits-3 :
    (b : ℕ)
    → 100 ≤ b
    → b < 256
    → digits 2 b ≡ (48 + b / 100) ∷ (48 + b / 10 % 10) ∷ (48 + b % 10) ∷ []
unfolding digits
digits-3 b large small =
    let e : b / 10 / 10 % 10 ≡ b / 100 = omega (arith, small) in ground (arith, large, small, e)

-- one field, up to what follows it
parse_fields-digits :
    (b : ℕ) (before : List ℕ) (rest : Text)
    → IsByte b
    → (dig : ℕ) × (0 < dig)
      × (parse_fields 0 0 before (digits 2 b ++ rest) ≡ parse_fields b dig before rest)
parse_fields-digits b before rest byte = elim (Bool-cases (ltb b 10)) [
  | inl one ↦
      let small : b < 10 = ground (arith, one) in
      (
        1,
        omega arith,
        ap (λ t. parse_fields 0 0 before (t ++ rest)) (digits-1 b small)
            ∙ parse_fields-digit 0 0 b b before rest small refl (omega arith) byte,
      )
  | inr more ↦ elim (Bool-cases (ltb b 100)) [
    | inl two ↦
        let large : 10 ≤ b = ground (arith, more) in
        let small : b < 100 = ground (arith, two) in
        (
          2,
          omega arith,
          ap (λ t. parse_fields 0 0 before (t ++ rest)) (digits-2 b large small)
              ∙ parse_fields-digit 0 0 (b / 10) (b / 10) before ((48 + b % 10) ∷ rest)
                  (omega (arith, small)) refl (omega arith) (omega (arith, byte))
              ∙ parse_fields-digit (b / 10) 1 (b % 10) b before rest (omega arith)
                  (ground (arith, large)) (omega arith) byte,
        )
    | inr three ↦
        let large : 100 ≤ b = ground (arith, three) in
        (
          3,
          omega arith,
          ap (λ t. parse_fields 0 0 before (t ++ rest)) (digits-3 b large byte)
              ∙ parse_fields-digit 0 0 (b / 100) (b / 100) before
                  ((48 + b / 10 % 10) ∷ (48 + b % 10) ∷ rest) (omega (arith, byte)) refl
                  (omega arith) (omega (arith, byte))
              ∙ parse_fields-digit (b / 100) 1 (b / 10 % 10) (b / 10) before ((48 + b % 10) ∷ rest)
                  (omega arith) (ground (arith, large)) (omega arith) (omega (arith, byte))
              ∙ parse_fields-digit (b / 10) 2 (b % 10) b before rest (omega arith)
                  (ground (arith, large)) (omega arith) byte,
        )
  ]
]

is_end-append : (w rest : Text) → 0 < length w → is_end (w ++ rest) ≡ false
is_end-append [] rest h = absurd (omega (arith, h))
is_end-append (c ∷ w) rest h = refl

-- a field with the dot after it, and the last one
parse_fields-dot :
    (b : ℕ) (before : List ℕ) (rest : Text)
    → IsByte b
    → length before < 3
    → is_end rest ≡ false
    → parse_fields 0 0 before (digits 2 b ++ 46 ∷ rest) ≡ parse_fields 0 0 (before ++ b ∷ []) rest
unfolding parse_fields
parse_fields-dot b before rest byte short more =
    let (dig, filled, e) = parse_fields-digits b before (46 ∷ rest) byte in
    e ∙ ground (arith, filled, short, more)

parse_fields-last :
    (b : ℕ) (before : List ℕ)
    → IsByte b
    → length before ≡ 3
    → parse_fields 0 0 before (digits 2 b) ≡ some (before ++ b ∷ [])
unfolding parse_fields
parse_fields-last b before byte three =
    let (dig, filled, e) = parse_fields-digits b before [] byte in
    ap (λ t. parse_fields 0 0 before t) (sym (append-nil (digits 2 b))) ∙ e ∙ ground (arith, three)

-- the first mark in the text is the dot
parse_addr-dot :
    (parse_v6 : Text → Option Ip) (whole w rest : Text) (ip : Ip)
    → All IsDecimal w
    → parse_fields 0 0 [] whole ≡ some ip
    → parse_addr parse_v6 whole (w ++ 46 ∷ rest) ≡ some (v4_in_v6 ++ ip)
unfolding parse_addr
parse_addr-dot parse_v6 whole [] rest ip h e = rw e refl
parse_addr-dot parse_v6 whole (c ∷ w) rest ip ((low, high), h) e =
    ground (arith, low, high, parse_addr-dot parse_v6 whole w rest ip h e)

-- The text of an address of four bytes is read back, in the form of sixteen bytes.
pub parse_ip-dotted :
    (parse_v6 : Text → Option Ip) (a b c d : ℕ)
    → IsByte a
    → IsByte b
    → IsByte c
    → IsByte d
    → parse_ip parse_v6 (dotted (a ∷ b ∷ c ∷ d ∷ [])) ≡ some (v4_in_v6 ++ (a ∷ b ∷ c ∷ d ∷ []))
unfolding parse_ip
parse_ip-dotted parse_v6 a b c d ha hb hc hd =
    parse_addr-dot parse_v6 _ (digits 2 a) _ (a ∷ b ∷ c ∷ d ∷ []) (digits-All 2 a) (
      parse_fields-dot a [] _ ha (omega arith) (is_end-append (digits 2 b) _ (length-digits 2 b))
      ∙ parse_fields-dot b (a ∷ []) _ hb (omega arith)
          (is_end-append (digits 2 c) _ (length-digits 2 c))
      ∙ parse_fields-dot c (a ∷ b ∷ []) (digits 2 d) hc (omega arith) (
          ap is_end (sym (append-nil (digits 2 d)))
          ∙ is_end-append (digits 2 d) [] (length-digits 2 d))
      ∙ parse_fields-last d (a ∷ b ∷ c ∷ []) hd refl)
