-- ===== src/Sentinel/Scorer/Private.antt =====
-- isRFC1918 of internal/angels/sentinel/scorer.go against the ranges it lists.
use angellab.Prelude.{ℕ, ◌<◌, ◌≡◌, ◌&&◌, ◌||◌, [], ◌∷◌, arith, leb, nat_beq}
use angellab.Net.{cidr_contains, to4}
use angellab.Sentinel.Scorer.{is_rfc1918}

module _ (a b c d : ℕ) (hb : b < 256) (hc : c < 256) (hd : d < 256) where
  in_10 : cidr_contains 8 (10 ∷ 0 ∷ 0 ∷ 0 ∷ []) (a ∷ b ∷ c ∷ d ∷ []) ≡ nat_beq a 10
  unfolding cidr_contains to4
  in_10 = ground arith

  in_172 :
      cidr_contains 12 (172 ∷ 16 ∷ 0 ∷ 0 ∷ []) (a ∷ b ∷ c ∷ d ∷ [])
      ≡ (nat_beq a 172 && (leb 16 b && leb b 31))
  unfolding cidr_contains to4
  in_172 = ground arith

  in_192 :
      cidr_contains 16 (192 ∷ 168 ∷ 0 ∷ 0 ∷ []) (a ∷ b ∷ c ∷ d ∷ [])
      ≡ (nat_beq a 192 && nat_beq b 168)
  unfolding cidr_contains to4
  in_192 = ground arith

  in_169 :
      cidr_contains 16 (169 ∷ 254 ∷ 0 ∷ 0 ∷ []) (a ∷ b ∷ c ∷ d ∷ [])
      ≡ (nat_beq a 169 && nat_beq b 254)
  unfolding cidr_contains to4
  in_169 = ground arith

  in_100 :
      cidr_contains 10 (100 ∷ 64 ∷ 0 ∷ 0 ∷ []) (a ∷ b ∷ c ∷ d ∷ [])
      ≡ (nat_beq a 100 && (leb 64 b && leb b 127))
  unfolding cidr_contains to4
  in_100 = ground arith

-- The private ranges are 10/8, 172.16/12, 192.168/16, 169.254/16 and 100.64/10, to the byte.
is_rfc1918_ranges :
    (a b c d : ℕ)
    → b < 256
    → c < 256
    → d < 256
    → is_rfc1918 (a ∷ b ∷ c ∷ d ∷ []) ≡ (
        nat_beq a 10
        || (nat_beq a 172 && (leb 16 b && leb b 31))
        || (nat_beq a 192 && nat_beq b 168)
        || (nat_beq a 169 && nat_beq b 254)
        || (nat_beq a 100 && (leb 64 b && leb b 127)))
unfolding is_rfc1918
is_rfc1918_ranges a b c d hb hc hd = rw (
  in_10 a b c d hb hc hd,
  in_172 a b c d hb hc hd,
  in_192 a b c d hb hc hd,
  in_169 a b c d hb hc hd,
  in_100 a b c d hb hc hd,
)
