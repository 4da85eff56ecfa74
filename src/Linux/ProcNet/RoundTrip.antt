-- ===== src/Linux/ProcNet/RoundTrip.antt =====
-- A table as the kernel prints it, and what `ParseTCPFile` reads from it.
use angellab.Prelude.{
  ℕ, ◌<◌, ◌≡◌, ◌≢◌, refl, sym, ap, ◌∙◌, false, some, List, [], ◌∷◌, ◌++◌, map, arith, nat_beq, All,
  All-append, All-map, replicate, ◌^◌, take,
}
use mathlib.Core.List.{append-nil}
use angellab.Prelude.Decimal.{digits, digits-All, length-digits, IsDecimal}
use angellab.Net.{Ip}
use angellab.Linux.NetConn.{NetConn}
use angellab.Linux.ProcNet.{
  words, fields, parse_line, parse_fields, parse_endpoint, parse_hex_uint8, parse_dec_uint64,
  cut_lines, parse_lines, cons_found, behind, parse_tcp_file,
}
use angellab.Linux.ProcNet.Columns.{
  IsText, IsWord, unwords, append_assoc, words-indent, words-unwords, IsInLine, blanks-All,
  unwords-All,
}
use angellab.Linux.ProcNet.Numbers.{
  Endpoint, endpoint, ip_of, hex2, hex_char, parse-endpoint, parse-hex2, parse-digits, cut-append,
}

-- One row: what the parser reads, words that it passes over, and the blanks of the columns.
pub record Row : Type 0 where
  pub indent : ℕ
  pub gaps : ℕ → ℕ
  pub trailing : ℕ
  pub slot : List ℕ
  pub local : Endpoint
  pub remote : Endpoint
  pub state : ℕ
  pub queues : List ℕ
  pub timer : List ℕ
  pub retransmits : List ℕ
  pub uid : List ℕ
  pub timeout : List ℕ
  pub inode : ℕ
  pub rest : List (List ℕ)
  pub skipped_are_words : All IsWord (slot ∷ queues ∷ timer ∷ retransmits ∷ uid ∷ timeout ∷ rest)
  pub state_is_byte : state < 256
  pub inode_fits : inode < 2 ^ 64

abbrev pub row_words : Row → List (List ℕ)
row_words r =
    r.slot
    ∷ endpoint r.local
    ∷ endpoint r.remote
    ∷ hex2 r.state
    ∷ r.queues
    ∷ r.timer
    ∷ r.retransmits
    ∷ r.uid
    ∷ r.timeout
    ∷ digits r.inode r.inode
    ∷ r.rest

abbrev pub line_of : Row → List ℕ
line_of r = replicate r.indent 32 ++ unwords r.trailing r.gaps (row_words r)

abbrev pub conn_of : Row → NetConn
conn_of r = record {
  local_ip = ip_of r.local;
  local_port = r.local.port;
  remote_ip = ip_of r.remote;
  remote_port = r.remote.port;
  state = r.state;
  inode = r.inode;
  proto = "tcp";
}

hex_char-IsText : (d : ℕ) → IsText (hex_char d)
hex_char-IsText d = ground arith

endpoint-IsWord : (e : Endpoint) → IsWord (endpoint e)
endpoint-IsWord e = (
  (
    hex_char-IsText _,
    (
      hex_char-IsText _,
      (
        hex_char-IsText _,
        (
          hex_char-IsText _,
          (
            hex_char-IsText _,
            (
              hex_char-IsText _,
              (
                hex_char-IsText _,
                (
                  hex_char-IsText _,
                  (
                    (refl, λ q. cc),
                    (
                      hex_char-IsText _,
                      (hex_char-IsText _, (hex_char-IsText _, (hex_char-IsText _, tt))),
                    ),
                  ),
                ),
              ),
            ),
          ),
        ),
      ),
    ),
  ),
  omega arith,
)

digits-IsWord : (n : ℕ) → IsWord (digits n n)
digits-IsWord n = (
  All-map IsDecimal IsText (digits n n) (λ c h. ground arith) (digits-All n n),
  length-digits n n,
)

row-All : (r : Row) → All IsWord (row_words r)
row-All r =
    let (s, (q, (t, (m, (u, (o, rest)))))) = r.skipped_are_words in
    (
      s,
      (
        endpoint-IsWord r.local,
        (
          endpoint-IsWord r.remote,
          (
            ((hex_char-IsText _, (hex_char-IsText _, tt)), omega arith),
            (q, (t, (m, (u, (o, (digits-IsWord r.inode, rest)))))),
          ),
        ),
      ),
    )

parse_fields_known :
    (slot l m s q t n u o i : List ℕ) (rest : List (List ℕ)) (local remote : Ip × ℕ)
    (state inode : ℕ)
    → parse_endpoint l ≡ some local
    → parse_endpoint m ≡ some remote
    → parse_hex_uint8 s ≡ some state
    → parse_dec_uint64 i ≡ some inode
    → parse_fields (take 11 (slot ∷ l ∷ m ∷ s ∷ q ∷ t ∷ n ∷ u ∷ o ∷ i ∷ rest))
      ≡ some (record {
        local_ip = local.0;
        local_port = local.1;
        remote_ip = remote.0;
        remote_port = remote.1;
        state = state;
        inode = inode;
        proto = "tcp";
      })
unfolding parse_fields
parse_fields_known slot l m s q t n u o i rest local remote state inode el em es ei =
    rw (el, em, es, ei) refl

-- A row is read as the connection that it describes.
parse-line_of : (r : Row) → parse_line (line_of r) ≡ some (conn_of r)
unfolding parse_line fields
parse-line_of r =
    ap (λ ws. parse_fields (take 11 ws))
      (words-indent r.indent (unwords r.trailing r.gaps (row_words r))
        ∙ words-unwords r.trailing r.gaps (row_words r) (row-All r))
    ∙ parse_fields_known r.slot (endpoint r.local) (endpoint r.remote) (hex2 r.state) r.queues
        r.timer r.retransmits r.uid r.timeout (digits r.inode r.inode) r.rest
        (ip_of r.local, r.local.port) (ip_of r.remote, r.remote.port) r.state r.inode
        (parse-endpoint r.local) (parse-endpoint r.remote) (parse-hex2 r.state r.state_is_byte)
        (parse-digits r.inode r.inode_fits)

line-All : (r : Row) → All IsInLine (line_of r)
line-All r =
    All-append IsInLine (replicate r.indent 32) _ (blanks-All r.indent)
      (unwords-All r.trailing r.gaps (row_words r) (row-All r))

cut_lines-line :
    (acc w rest : List ℕ)
    → All IsInLine w
    → cut_lines acc (w ++ 10 ∷ rest) ≡ (acc ++ w) ∷ cut_lines [] rest
unfolding cut_lines
cut_lines-line acc [] rest h = ap (λ l. l ∷ cut_lines [] rest) (sym (append-nil acc))
cut_lines-line acc (c ∷ w) rest (other, h) =
    let passes : nat_beq c 10 ≡ false = ground arith in
    rw passes (cut_lines-line (acc ++ c ∷ []) w rest h)
    ∙ ap (λ l. l ∷ cut_lines [] rest) (append_assoc acc (c ∷ []) w)

-- the rows, each with its newline
abbrev pub table : List Row → List ℕ
table [] = []
table (r ∷ rs) = line_of r ++ 10 ∷ table rs

parse-table : (rows : List Row) → parse_lines (cut_lines [] (table rows)) ≡ map conn_of rows
unfolding parse_lines
parse-table [] = unfold cut_lines parse_line fields words parse_fields in refl
parse-table (r ∷ rs) =
    ap parse_lines (cut_lines-line [] (line_of r) (table rs) (line-All r))
    ∙ ap (λ o. cons_found o (parse_lines (cut_lines [] (table rs)))) (parse-line_of r)
    ∙ ap (λ l. conn_of r ∷ l) (parse-table rs)

-- A file in the form that the kernel writes, with any header line, any number of blanks before, between
-- and behind the words of a line and any words in the columns that are not read, is read as exactly the
-- connections of its rows, in order: addresses
-- of four bytes, ports of 16 bits, states of 8 bits and inodes of 64 bits.
pub parse-printed_file :
    (header : List ℕ) (rows : List Row)
    → All (λ c. c ≢ 10) header
    → parse_tcp_file (header ++ 10 ∷ table rows) ≡ map conn_of rows
unfolding parse_tcp_file
parse-printed_file header rows plain =
    ap behind (cut-append 10 header (table rows) plain) ∙ parse-table rows
