-- ===== src/Linux/ProcNet/Tests.antt =====
-- A table of two sockets, as the kernel prints it and as it is read.
use angellab.Prelude.{
  ℕ, ◌≡◌, refl, Bool, true, not, ◌&&◌, if◌then◌else◌, nat_beq, ltb, length, List, [], ◌∷◌, ◌++◌,
  map, arith, All, some, none,
}
use angellab.Prelude.Text.{codes}
use angellab.Prelude.Decimal.{digits}
use angellab.Linux.ProcNet.{is_blank, parse_tcp_file, parse_dec_uint64, dec_loop, parse_hex_uint16}
use angellab.Linux.ProcNet.Numbers.{Endpoint}
use angellab.Linux.ProcNet.Columns.{IsText, IsWord}
use angellab.Linux.ProcNet.RoundTrip.{Row, line_of, table, conn_of, parse-printed_file}

abbrev home : Endpoint
home = record {
  a = 127;
  b = 0;
  c = 0;
  d = 1;
  port = 8080;
  a_is_byte = omega arith;
  b_is_byte = omega arith;
  c_is_byte = omega arith;
  d_is_byte = omega arith;
  port_fits = omega arith;
}

abbrev dns_server : Endpoint
dns_server = record home {
  a = 8;
  b = 8;
  c = 8;
  d = 8;
  port = 443;
  a_is_byte = omega arith;
  b_is_byte = omega arith;
  c_is_byte = omega arith;
  d_is_byte = omega arith;
  port_fits = omega arith;
}

abbrev is_text : ℕ → Bool
is_text c = not (is_blank c) && not (nat_beq c 10)

abbrev all_text : List ℕ → Bool
all_text [] = true
all_text (c ∷ w) = is_text c && all_text w

abbrev all_words : List (List ℕ) → Bool
all_words [] = true
all_words (w ∷ ws) = (ltb 0 (length w) && all_text w) && all_words ws

all_text-IsText : (w : List ℕ) → all_text w ≡ true → All IsText w
all_text-IsText [] h = tt
all_text-IsText (c ∷ w) h = (ground (arith, h), all_text-IsText w (ground (arith, h)))

all_words-IsWord : (ws : List (List ℕ)) → all_words ws ≡ true → All IsWord ws
all_words-IsWord [] h = tt
all_words-IsWord (w ∷ ws) h = (
  (all_text-IsText w (ground (arith, h)), ground (arith, h)),
  all_words-IsWord ws (ground (arith, h)),
)

-- one blank more behind retrnsmt and seven more behind uid
abbrev sample_gaps : ℕ → ℕ
sample_gaps k = if nat_beq k 6 then 1 else if nat_beq k 7 then 7 else 0

abbrev skipped : List (List ℕ)
skipped =
    codes "1:"
    ∷ codes "00000000:00000000"
    ∷ codes "00:00000000"
    ∷ codes "00000000"
    ∷ codes "1000"
    ∷ codes "0"
    ∷ codes "1"
    ∷ codes "0000000000000000"
    ∷ codes "20"
    ∷ codes "-1"
    ∷ []

abbrev row : Row
row = record {
  indent = 3;
  gaps = sample_gaps;
  trailing = 0;
  slot = codes "1:";
  local = home;
  remote = dns_server;
  state = 1;
  queues = codes "00000000:00000000";
  timer = codes "00:00000000";
  retransmits = codes "00000000";
  uid = codes "1000";
  timeout = codes "0";
  inode = 22222;
  rest = codes "1" ∷ codes "0000000000000000" ∷ codes "20" ∷ codes "-1" ∷ [];
  skipped_are_words = all_words-IsWord skipped refl;
  state_is_byte = omega arith;
  inode_fits = omega arith;
}

-- a line with the columns of the sample in procnet_test.go
sample_line :
    line_of row
    ≡ codes
        "   1: 0100007F:1F90 08080808:01BB 01 00000000:00000000 00:00000000 00000000  1000        0 22222 1 0000000000000000 20 -1"
unfolding digits
sample_line = refl

-- the same line, filled up with blanks as the kernel does
abbrev padded : Row
padded = record row { trailing = 40 }

parse-printed_file_example :
    parse_tcp_file (codes "sl" ++ 10 ∷ table (row ∷ padded ∷ [])) ≡ map conn_of (row ∷ padded ∷ [])
parse-printed_file_example =
    parse-printed_file (codes "sl") (row ∷ padded ∷ []) ((λ q. cc), ((λ q. cc), tt))

-- 2^64 is read as 0, and a port of five digits is refused
wraps :
    parse_dec_uint64 (
      49 ∷ 56 ∷ 52 ∷ 52 ∷ 54 ∷ 55 ∷ 52 ∷ 52 ∷ 48 ∷ 55 ∷ 51 ∷ 55 ∷ 48 ∷ 57 ∷ 53 ∷ 53 ∷ 49 ∷ 54 ∷ 49
      ∷ 54 ∷ [])
    ≡ some 0
unfolding parse_dec_uint64 dec_loop
wraps = refl

refuses : parse_hex_uint16 (48 ∷ 48 ∷ 48 ∷ 48 ∷ 48 ∷ []) ≡ none
unfolding parse_hex_uint16
refuses = refl
