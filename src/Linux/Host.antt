-- ===== src/Linux/Host.antt =====
-- pkg/linux/proc.go: a control group's memory, the clock ticks of the auxiliary vector and the open
-- descriptors, from what the kernel's files hold; `none` is a file that cannot be read.
use angellab.Prelude.{
  ℕ, suc, zero, ◌+◌, ◌-◌, ◌*◌, ◌/◌, ◌^◌, ◌&&◌, Option, none, some, List, [], ◌∷◌, if◌then◌else◌,
  nat_beq, bytes_eq, ◌==◌, length,
}
use angellab.Prelude.Int.{ℤ, pos, negsuc}
use angellab.Prelude.Text.{Text, Parsed, parsed, trim_space, fields, parse_uint, uint_or}
use angellab.Linux.Proc.{field, scan_lines}

-- `High` is never set
pub record CgroupMemory : Type 0 where
  pub current : ℕ
  pub oom_kills : ℕ

abbrev pub strictly : Parsed ℕ → Option ℕ
strictly (parsed n) = some n
strictly _ = none

unfoldable pub read_single_uint64 : Option Text → Option ℕ
read_single_uint64 none = none
read_single_uint64 (some file) = strictly (parse_uint (trim_space file))

-- "oom_kill"
abbrev pub oom_kill_key : Text
oom_kill_key = 111 ∷ 111 ∷ 109 ∷ 95 ∷ 107 ∷ 105 ∷ 108 ∷ 108 ∷ []

-- the loop over memory.events
unfoldable pub oom_kills_in : List Text → ℕ → ℕ
oom_kills_in [] kills = kills
oom_kills_in (line ∷ rest) kills = oom_kills_in rest (
    if nat_beq (length (fields line)) 2 && field (fields line) 0 == oom_kill_key
    then uint_or (parse_uint (field (fields line) 1))
    else kills)

abbrev pub kills_of : Option Text → ℕ
kills_of none = 0
kills_of (some file) = oom_kills_in (scan_lines file).0 0

unfoldable pub read_cgroup_memory : Option Text → Option Text → Option CgroupMemory
read_cgroup_memory current events = elim (read_single_uint64 current) [
  | none ↦ none
  | some cur ↦ some (record { current = cur; oom_kills = kills_of events })
]

-- `readUint64LE` on the first eight bytes
unfoldable pub read_uint64_le : List ℕ → ℕ
read_uint64_le (a ∷ b ∷ c ∷ d ∷ e ∷ f ∷ g ∷ h ∷ rest) =
    a + b * 2 ^ 8 + c * 2 ^ 16 + d * 2 ^ 24 + e * 2 ^ 32 + f * 2 ^ 40 + g * 2 ^ 48 + h * 2 ^ 56
read_uint64_le _ = 0

abbrev pub drop_entry : List ℕ → List ℕ
drop_entry (_ ∷ _ ∷ _ ∷ _ ∷ _ ∷ _ ∷ _ ∷ _ ∷ rest) = rest
drop_entry _ = []

-- the loop over the pairs of the vector, which is cut into its words; a rest that is short ends it
unfoldable pub find_clk_tck : List ℕ → Option ℕ
find_clk_tck (kind ∷ value ∷ rest) =
    let later = find_clk_tck rest in
    if nat_beq kind 17 then some value else if nat_beq kind 0 then none else later
find_clk_tck _ = none

abbrev pub words_from : ℕ → List ℕ → List ℕ
words_from zero bytes = []
words_from (suc n) bytes = read_uint64_le bytes ∷ words_from n (drop_entry bytes)

-- `sysconf_CLK_TCK` with the fallback of its caller
unfoldable pub clk_tck : Option (List ℕ) → ℕ
clk_tck none = 100
clk_tck (some auxv) = elim (find_clk_tck (words_from (2 * (length auxv / 16)) auxv)) [
  | none ↦ 100
  | some value ↦ value
]

-- `CountFDs`, on how many entries the directory has
unfoldable pub count_fds : Option ℕ → ℤ
count_fds none = negsuc 0
count_fds (some n) = pos (n - 1)
