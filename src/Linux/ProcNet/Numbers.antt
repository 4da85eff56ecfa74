-- ===== src/Linux/ProcNet/Numbers.antt =====
-- The numbers of a row, written as the kernel writes them and read back.
use angellab.Prelude.{
  ℕ, suc, zero, ◌+◌, ◌-◌, ◌*◌, ◌/◌, ◌%◌, ◌^◌, ◌≤◌, ◌<◌, ◌≡◌, ◌≢◌, refl, ap, ◌∙◌, some, List, [],
  ◌∷◌, ◌++◌, arith, Bool-cases, inl, inr, ltb, if◌then◌else◌, All,
}
use angellab.Prelude.Decimal.{digits, length-digits, IsDecimal}
use angellab.Net.{Ip}
use angellab.Linux.ProcNet.{
  hex_digit, ◌>>=◌, hex_loop, parse_hex_uint16, parse_hex_uint8, dec_loop, parse_dec_uint64,
  hex_decode, reversed, parse_ipv4_addr, cut, parse_endpoint,
}

-- %X of one digit
abbrev pub hex_char : ℕ → ℕ
hex_char d = if ltb d 10 then 48 + d else 55 + d

-- %02X
abbrev pub hex2 : ℕ → List ℕ
hex2 b = hex_char (b / 16) ∷ hex_char (b % 16) ∷ []

-- %04X
abbrev pub hex4 : ℕ → List ℕ
hex4 p =
    hex_char (p / 4096) ∷ hex_char (p / 256 % 16) ∷ hex_char (p / 16 % 16) ∷ hex_char (p % 16) ∷ []

hex_digit-hex_char : (d : ℕ) → d < 16 → hex_digit (hex_char d) ≡ some d
hex_digit-hex_char d small = ground arith

pub parse-hex2 : (b : ℕ) → b < 256 → parse_hex_uint8 (hex2 b) ≡ some b
unfolding parse_hex_uint8 hex_loop
parse-hex2 b small =
    rw (hex_digit-hex_char (b / 16) (omega arith), hex_digit-hex_char (b % 16) (omega arith))
      (ap some (omega arith))

pub parse-hex4 : (p : ℕ) → p < 65536 → parse_hex_uint16 (hex4 p) ≡ some p
unfolding parse_hex_uint16 hex_loop
parse-hex4 p small =
    rw
      (
        hex_digit-hex_char (p / 4096) (omega arith),
        hex_digit-hex_char (p / 256 % 16) (omega arith),
        hex_digit-hex_char (p / 16 % 16) (omega arith),
        hex_digit-hex_char (p % 16) (omega arith),
      )
      (ap some (omega arith))

decode-hex2 :
    (b : ℕ) (rest bytes : List ℕ)
    → b < 256
    → hex_decode rest ≡ some bytes
    → hex_decode (hex2 b ++ rest) ≡ some (b ∷ bytes)
unfolding hex_decode
decode-hex2 b rest bytes small h =
    rw (hex_digit-hex_char (b / 16) (omega arith), hex_digit-hex_char (b % 16) (omega arith), h)
      (ap (λ n. some (n ∷ bytes)) (omega arith))

dec_loop-append :
    (xs : List ℕ) (acc r d : ℕ)
    → dec_loop xs acc ≡ some r
    → IsDecimal d
    → dec_loop (xs ++ d ∷ []) acc ≡ some ((r * 10 + (d - 48)) % 2 ^ 64)
unfolding dec_loop
dec_loop-append [] acc r d h dec = ground arith
dec_loop-append (x ∷ xs) acc r d h dec =
    ground (arith, dec_loop-append xs ((acc * 10 + (x - 48)) % 2 ^ 64) r d)

dec_loop-digits : (fuel n : ℕ) → n ≤ fuel → n < 2 ^ 64 → dec_loop (digits fuel n) 0 ≡ some n
unfolding digits dec_loop
dec_loop-digits zero n enough fits = ground arith
dec_loop-digits (suc fuel) n enough fits = elim (Bool-cases (ltb n 10)) [
  | inl small ↦ rw small (ground arith)
  | inr large ↦ rw large (
      dec_loop-append (digits fuel (n / 10)) 0 (n / 10) (48 + n % 10)
        (dec_loop-digits fuel (n / 10) (ground arith) (omega arith)) (omega arith, omega arith)
      ∙ ap some (omega arith))
]

pub parse-digits : (n : ℕ) → n < 2 ^ 64 → parse_dec_uint64 (digits n n) ≡ some n
unfolding parse_dec_uint64
parse-digits n fits = ground (arith, length-digits n n, dec_loop-digits n n (omega arith) fits)

-- An IPv4 address and a port, as bytes and numbers in range.
pub record Endpoint : Type 0 where
  pub a : ℕ
  pub b : ℕ
  pub c : ℕ
  pub d : ℕ
  pub port : ℕ
  pub a_is_byte : a < 256
  pub b_is_byte : b < 256
  pub c_is_byte : c < 256
  pub d_is_byte : d < 256
  pub port_fits : port < 65536

abbrev pub ip_of : Endpoint → Ip
ip_of e = e.a ∷ e.b ∷ e.c ∷ e.d ∷ []

-- the address as the kernel writes it on a little-endian machine
abbrev pub hex_ip : Endpoint → List ℕ
hex_ip e = hex2 e.d ++ hex2 e.c ++ hex2 e.b ++ hex2 e.a

abbrev pub endpoint : Endpoint → List ℕ
endpoint e = hex_ip e ++ 58 ∷ hex4 e.port

parse-hex_ip : (e : Endpoint) → parse_ipv4_addr (hex_ip e) ≡ some (ip_of e)
unfolding parse_ipv4_addr
parse-hex_ip e = ap (λ o. o >>= reversed) decoded
  where
    decoded : hex_decode (hex_ip e) ≡ some (e.d ∷ e.c ∷ e.b ∷ e.a ∷ [])
    decoded = decode-hex2 e.d _ _ e.d_is_byte (
        decode-hex2 e.c _ _ e.c_is_byte (
          decode-hex2 e.b _ _ e.b_is_byte
            (decode-hex2 e.a [] [] e.a_is_byte (unfold hex_decode in refl))))

pub cut-append :
    (b : ℕ) (xs rest : List ℕ) → All (λ c. c ≢ b) xs → cut b (xs ++ b ∷ rest) ≡ some (xs, rest)
unfolding cut
cut-append b [] rest h = ground arith
cut-append b (x ∷ xs) rest (other, h) = ground (arith, cut-append b xs rest h)

hex_char-ne : (d : ℕ) → d < 16 → (48 ≤ hex_char d) × (hex_char d ≤ 70) × (hex_char d ≢ 58)
hex_char-ne d small = ground arith

-- An endpoint is read back from what the kernel writes.
pub parse-endpoint : (e : Endpoint) → parse_endpoint (endpoint e) ≡ some (ip_of e, e.port)
unfolding parse_endpoint
parse-endpoint e =
    rw (cut-append 58 (hex_ip e) (hex4 e.port) plain, parse-hex_ip e, parse-hex4 e.port e.port_fits)
      refl
  where
    plain : All (λ c. c ≢ 58) (hex_ip e)
    plain = ground (arith, e.a_is_byte, e.b_is_byte, e.c_is_byte, e.d_is_byte)
