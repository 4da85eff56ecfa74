-- ===== src/Linux/ProcNet.antt =====
-- pkg/linux/procnet.go: the parser of /proc/net/tcp, on bytes. The slab only says where an address is
-- stored, and a place of it is handed out once: addresses are values here. The text is cut at its
-- newlines first; the loop passes over empty lines, so the cuts that are empty do not matter.
pub mod Numbers
pub mod Columns
pub mod RoundTrip
mod Tests
use angellab.Prelude.{
  ℕ, suc, zero, ◌+◌, ◌-◌, ◌*◌, ◌/◌, ◌%◌, ◌^◌, Bool, true, false, not, ◌&&◌, ◌||◌, Option, none,
  some, List, [], ◌∷◌, ◌++◌, String, if◌then◌else◌, ltb, leb, nat_beq, length, take, get_elem?,
}
use angellab.Net.{Ip}
use angellab.Linux.NetConn.{NetConn}

-- '0' to '9', 'A' to 'F' and 'a' to 'f'
abbrev pub hex_digit : ℕ → Option ℕ
hex_digit c =
    if leb 48 c && leb c 57
    then some (c - 48)
    else if leb 65 c && leb c 70
    then some (c - 65 + 10)
    else if leb 97 c && leb c 102
    then some (c - 97 + 10)
    else none

infixl 5 ◌>>=◌
abbrev pub ◌>>=◌ {ℓ κ} : {A : Type ℓ} {B : Type κ} → Option A → (A → Option B) → Option B
none >>= f = none
some a >>= f = f a

-- the loop of `parseHexUint16` and `parseHexUint8`, in uint32
unfoldable pub hex_loop : List ℕ → ℕ → Option ℕ
hex_loop [] res = some res
hex_loop (c ∷ cs) res = do d ← hex_digit c; hex_loop cs ((res * 16 + d) % 2 ^ 32)

unfoldable pub parse_hex_uint16 : List ℕ → Option ℕ
parse_hex_uint16 b =
    if nat_beq (length b) 0 || ltb 4 (length b)
    then none
    else hex_loop b 0 >>= λ res. some (res % 2 ^ 16)

unfoldable pub parse_hex_uint8 : List ℕ → Option ℕ
parse_hex_uint8 b =
    if nat_beq (length b) 0 || ltb 2 (length b)
    then none
    else hex_loop b 0 >>= λ res. some (res % 2 ^ 8)

-- the loop of `parseDecUint64`
unfoldable pub dec_loop : List ℕ → ℕ → Option ℕ
dec_loop [] res = some res
dec_loop (c ∷ cs) res =
    let rest = dec_loop cs ((res * 10 + (c - 48)) % 2 ^ 64) in
    if ltb c 48 || ltb 57 c then none else rest

unfoldable pub parse_dec_uint64 : List ℕ → Option ℕ
parse_dec_uint64 b = if nat_beq (length b) 0 then none else dec_loop b 0

-- hex.Decode
unfoldable pub hex_decode : List ℕ → Option (List ℕ)
hex_decode [] = some []
hex_decode (a ∷ []) = none
hex_decode (a ∷ b ∷ rest) = do
  high ← hex_digit a
  low ← hex_digit b
  more ← hex_decode rest
  some ((high * 16 + low) ∷ more)

abbrev pub reversed : List ℕ → Option Ip
reversed (a ∷ b ∷ c ∷ d ∷ []) = some (d ∷ c ∷ b ∷ a ∷ [])
reversed _ = none

-- `parseIPv4AddrInto`; what it writes is the answer
unfoldable pub parse_ipv4_addr : List ℕ → Option Ip
parse_ipv4_addr hexip =
    if not (nat_beq (length hexip) 8) then none else hex_decode hexip >>= reversed

-- bytes.IndexByte, with what stands before and behind the byte
unfoldable pub cut : ℕ → List ℕ → Option (List ℕ × List ℕ)
cut b [] = none
cut b (c ∷ cs) =
    let later = cut b cs in
    if nat_beq c b then some ([], cs) else later >>= λ r. some (c ∷ r.0, r.1)

abbrev pub is_blank : ℕ → Bool
is_blank c = nat_beq c 32 || nat_beq c 9

abbrev pub cons_if_some : List ℕ → List (List ℕ) → List (List ℕ)
cons_if_some [] fields = fields
cons_if_some (c ∷ cs) fields = (c ∷ cs) ∷ fields

-- the words of a line; `word` is the one at hand, the loop stops after eleven
unfoldable pub words : List ℕ → List ℕ → List (List ℕ)
words word [] = cons_if_some word []
words word (c ∷ cs) =
    if is_blank c then cons_if_some word (words [] cs) else words (word ++ c ∷ []) cs

unfoldable pub fields : List ℕ → List (List ℕ)
fields line = take 11 (words [] line)

unfoldable pub parse_endpoint : List ℕ → Option (Ip × ℕ)
parse_endpoint field = do
  (hexip, hexport) ← cut 58 field
  ip ← parse_ipv4_addr hexip
  port ← parse_hex_uint16 hexport
  some (ip, port)

-- the body of the loop; fewer than ten fields have no field 9
unfoldable pub parse_fields : List (List ℕ) → Option NetConn
parse_fields fs = do
  local_field ← get_elem? fs 1
  remote_field ← get_elem? fs 2
  state_field ← get_elem? fs 3
  inode_field ← get_elem? fs 9
  (local_ip, local_port) ← parse_endpoint local_field
  (remote_ip, remote_port) ← parse_endpoint remote_field
  state ← parse_hex_uint8 state_field
  inode ← parse_dec_uint64 inode_field
  some (record {
    local_ip = local_ip;
    local_port = local_port;
    remote_ip = remote_ip;
    remote_port = remote_port;
    state = state;
    inode = inode;
    proto = "tcp";
  })

unfoldable pub parse_line : List ℕ → Option NetConn
unfolding parse_fields
parse_line line = parse_fields (fields line)

unfoldable pub cut_lines : List ℕ → List ℕ → List (List ℕ)
cut_lines line [] = line ∷ []
cut_lines line (c ∷ cs) =
    if nat_beq c 10 then line ∷ cut_lines [] cs else cut_lines (line ++ c ∷ []) cs

abbrev pub cons_found : Option NetConn → List NetConn → List NetConn
cons_found none conns = conns
cons_found (some c) conns = c ∷ conns

unfoldable pub parse_lines : List (List ℕ) → List NetConn
parse_lines [] = []
parse_lines (line ∷ rest) = cons_found (parse_line line) (parse_lines rest)

abbrev pub behind : Option (List ℕ × List ℕ) → List NetConn
behind none = []
behind (some (header, rows)) = parse_lines (cut_lines [] rows)

unfoldable pub parse_tcp_file : List ℕ → List NetConn
unfolding parse_lines
parse_tcp_file file = behind (cut 10 file)
