-- ===== src/Prelude/Text.antt =====
-- Go's strings and strconv on bytes. White space is that of ASCII; a text with other spaces of Unicode
-- at its ends is not trimmed of them here.
pub mod Numerals
pub mod Fields
use Prim.Native.Nat.{ℕ, ◌+◌, ◌-◌, ◌*◌, ◌^◌}
use Prim.Native.Char.{code}
use Prim.Native.String.{String}
use mathlib.Core.Bool.{Bool, true, false, not, ◌&&◌, ◌||◌}
use mathlib.Core.Option.{Option, none, some}
use mathlib.Core.List.{List, [], ◌∷◌, ◌++◌}
use angellab.Prelude.Tests.{ltb, leb, nat_beq, if◌then◌else◌}
use angellab.Prelude.Equality.{◌==◌, bytes_eq}
use angellab.Prelude.Int.{ℤ, pos, negate}

abbrev pub Text : Type 0
Text = List ℕ

-- the bytes of an ASCII text
abbrev pub codes : String → Text
codes String.[] = []
codes (String.◌∷◌ c s) = code c ∷ codes s

-- unicode.IsSpace on ASCII
abbrev pub is_space : ℕ → Bool
is_space c = (leb 9 c && leb c 13) || nat_beq c 32

abbrev pub has_prefix : Text → Text → Bool
has_prefix [] s = true
has_prefix (p ∷ ps) [] = false
has_prefix (p ∷ ps) (c ∷ cs) = nat_beq p c && has_prefix ps cs

-- strings.Contains and bytes.Contains
abbrev pub contains : Text → Text → Bool
contains sub [] = has_prefix sub []
contains sub (c ∷ cs) = has_prefix sub (c ∷ cs) || contains sub cs

unfoldable pub trim_left : Text → Text
trim_left [] = []
trim_left (c ∷ cs) = let rest = trim_left cs in if is_space c then rest else c ∷ cs

abbrev pub cons_trimmed : ℕ → Text → Text
cons_trimmed c [] = if is_space c then [] else c ∷ []
cons_trimmed c (d ∷ ds) = c ∷ d ∷ ds

unfoldable pub trim_right : Text → Text
trim_right [] = []
trim_right (c ∷ cs) = cons_trimmed c (trim_right cs)

unfoldable pub trim_space : Text → Text
unfolding trim_left trim_right
trim_space s = trim_left (trim_right s)

-- strings.TrimSuffix, from the left: the first rest that is the suffix is the whole end
unfoldable pub trim_suffix : Text → Text → Text
trim_suffix suffix [] = []
trim_suffix suffix (c ∷ cs) =
    let rest = trim_suffix suffix cs in if (c ∷ cs) == suffix then [] else c ∷ rest

abbrev pub cons_word : Text → List Text → List Text
cons_word [] words = words
cons_word (c ∷ cs) words = (c ∷ cs) ∷ words

-- strings.Fields; `word` is the one at hand
unfoldable pub fields_from : Text → Text → List Text
fields_from word [] = cons_word word []
fields_from word (c ∷ cs) =
    if is_space c then cons_word word (fields_from [] cs) else fields_from (word ++ c ∷ []) cs

unfoldable pub fields : Text → List Text
unfolding fields_from
fields s = fields_from [] s

-- single blanks between the words
abbrev pub unwords : List Text → Text
unwords [] = []
unwords (w ∷ []) = w
unwords (w ∷ v ∷ ws) = w ++ 32 ∷ unwords (v ∷ ws)

-- strings.ReplaceAll for one byte
abbrev pub replace_byte : ℕ → ℕ → Text → Text
replace_byte old new [] = []
replace_byte old new (c ∷ cs) = (if nat_beq c old then new else c) ∷ replace_byte old new cs

-- the bounds of the two types
abbrev pub max_uint64 : ℕ
max_uint64 = 2 ^ 64 - 1

abbrev pub max_int64 : ℕ
max_int64 = 2 ^ 63 - 1

-- What strconv answers: the value, which it gives with an error too.
pub data Parsed (A : Type 0) : Type 0 where
  parsed : A → Parsed A
  bad_syntax : Parsed A
  out_of_range : A → Parsed A

-- the loop of strconv.ParseUint, base 10
unfoldable pub uint_loop : Text → ℕ → Parsed ℕ
uint_loop [] n = parsed n
uint_loop (c ∷ cs) n =
    let rest = uint_loop cs (n * 10 + (c - 48)) in
    if ltb c 48 || ltb 57 c
    then bad_syntax
    else if ltb max_uint64 (n * 10 + (c - 48))
    then out_of_range max_uint64
    else rest

unfoldable pub parse_uint : Text → Parsed ℕ
unfolding uint_loop
parse_uint [] = bad_syntax
parse_uint (c ∷ cs) = uint_loop (c ∷ cs) 0

abbrev pub signed : Bool → Parsed ℕ → Parsed ℤ
signed negative bad_syntax = bad_syntax
signed false (parsed n) = if ltb max_int64 n then out_of_range (pos max_int64) else parsed (pos n)
signed false (out_of_range n) = out_of_range (pos max_int64)
signed true (parsed n) =
    if ltb (max_int64 + 1) n then out_of_range (negate (max_int64 + 1)) else parsed (negate n)
signed true (out_of_range n) = out_of_range (negate (max_int64 + 1))

-- strconv.ParseInt, base 10, and strconv.Atoi
unfoldable pub parse_int : Text → Parsed ℤ
unfolding parse_uint
parse_int [] = bad_syntax
parse_int (c ∷ cs) =
    if nat_beq c 45
    then signed true (parse_uint cs)
    else if nat_beq c 43
    then signed false (parse_uint cs)
    else signed false (parse_uint (c ∷ cs))

-- v, _ := strconv.ParseUint(…): zero on a syntax error
abbrev pub uint_or : Parsed ℕ → ℕ
uint_or (parsed n) = n
uint_or bad_syntax = 0
uint_or (out_of_range n) = n

abbrev pub int_or : Parsed ℤ → ℤ
int_or (parsed n) = n
int_or bad_syntax = pos 0
int_or (out_of_range n) = n

-- `<` on texts, by bytes
unfoldable pub text_lt : Text → Text → Bool
text_lt s [] = false
text_lt [] (d ∷ ds) = true
text_lt (c ∷ cs) (d ∷ ds) = ltb c d || (nat_beq c d && text_lt cs ds)
