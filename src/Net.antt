-- ===== src/Net.antt =====
-- Go's net.IP as the program uses it: a slice of bytes, mostly 4 or 16 long. The functions follow
-- the documentation of the standard library's package net.
pub mod Dotted
use angellab.Prelude.{
  ℕ, ◌+◌, ◌*◌, ◌-◌, ◌/◌, ◌^◌, Bool, false, ◌&&◌, Option, none, some, List, [], ◌∷◌, ◌++◌, ◌==◌,
  length, take, drop, replicate, if◌then◌else◌, nat_beq, bytes_eq, nat_eq,
}

abbrev pub Ip : Type 0
Ip = List ℕ

-- the first twelve bytes of an IPv4 address in IPv6 form
abbrev pub v4_in_v6 : List ℕ
v4_in_v6 = replicate 10 0 ++ (255 ∷ 255 ∷ [])

-- ip.To4(): `none` is nil
unfoldable pub to4 : Ip → Option Ip
to4 ip =
    if length ip == 4
    then some ip
    else if (length ip == 16) && (take 12 ip == v4_in_v6)
    then some (drop 12 ip)
    else none

-- a.Equal(b)
unfoldable pub equal : Ip → Ip → Bool
equal a b =
    if length a == length b
    then a == b
    else if (length a == 4) && (length b == 16)
    then (take 12 b == v4_in_v6) && (drop 12 b == a)
    else if (length a == 16) && (length b == 4)
    then (take 12 a == v4_in_v6) && (drop 12 a == b)
    else false

abbrev pub ipv4_zero : Ip
ipv4_zero = v4_in_v6 ++ (0 ∷ 0 ∷ 0 ∷ 0 ∷ [])

abbrev pub ipv6_loopback : Ip
ipv6_loopback = replicate 15 0 ++ (1 ∷ [])

abbrev pub first_is : ℕ → List ℕ → Bool
first_is b [] = false
first_is b (x ∷ xs) = nat_beq x b

-- ip.IsLoopback()
unfoldable pub is_loopback : Ip → Bool
is_loopback ip = elim (to4 ip) [ some ip4 ↦ first_is 127 ip4 | none ↦ equal ip ipv6_loopback ]

-- the bytes of an address as one big-endian number
abbrev pub value_from : ℕ → List ℕ → ℕ
value_from acc [] = acc
value_from acc (b ∷ bs) = value_from (acc * 256 + b) bs

-- n.Contains(ip) for the network of the first `bits` bits of `net`: the bits under the mask agree
unfoldable pub cidr_contains : ℕ → Ip → Ip → Bool
cidr_contains bits net ip = elim (to4 ip) [
  | some ip4 ↦ nat_beq (value_from 0 ip4 / 2 ^ (32 - bits)) (value_from 0 net / 2 ^ (32 - bits))
  | none ↦ false
]
