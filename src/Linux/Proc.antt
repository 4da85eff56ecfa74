-- ===== src/Linux/Proc.antt =====
-- pkg/linux/proc.go: the parsers of /proc/<pid>/stat and status, of a control group's files and of the
-- auxiliary vector, on the bytes of the files; `none` is a file that cannot be read.
pub mod Stat
mod Tests
use angellab.Prelude.{
  ℕ, suc, ◌+◌, ◌-◌, ◌*◌, ◌/◌, ◌%◌, ◌^◌, Bool, true, false, not, ◌&&◌, ◌||◌, Option, none, some,
  List, [], ◌∷◌, ◌++◌, if◌then◌else◌, ltb, leb, nat_beq, bytes_eq, ◌==◌, length, drop, get_or,
}
use angellab.Prelude.Int.{ℤ, pos, negsuc}
use angellab.Prelude.Text.{
  Text, Parsed, parsed, bad_syntax, out_of_range, trim_space, fields, parse_uint, parse_int,
  uint_or, int_or,
}
use angellab.Linux.ProcNet.{cut, cut_lines}

pub record ProcStat : Type 0 where
  pub pid : ℤ
  pub comm : Text
  pub state : ℕ  -- a byte
  pub user_time : ℕ  -- uint64, as those below
  pub system_time : ℕ
  pub start_time : ℕ
  pub vsize : ℕ
  pub rss : ℤ  -- pages

-- the product of two uint64
unfoldable pub rss_bytes : ℕ → ProcStat → ℕ
rss_bytes page_size s = elim s.rss [ pos n ↦ n * page_size % 2 ^ 64 | negsuc n ↦ 0 ]

-- a slice whose bounds are in the wrong order panics
pub data Outcome (A : Type 0) : Type 0 where
  ok : A → Outcome A
  error : Outcome A
  panic : Outcome A

-- strings.LastIndex, with what stands before and behind the byte
unfoldable pub cut_last : ℕ → Text → Option (Text × Text)
cut_last b [] = none
cut_last b (c ∷ cs) = elim (cut_last b cs) [
  | none ↦ if nat_beq c b then some ([], cs) else none
  | some (before, behind) ↦ some (c ∷ before, behind)
]

abbrev pub first_byte : Text → ℕ
first_byte [] = 0
first_byte (c ∷ cs) = c

abbrev pub field : List Text → ℕ → Text
field fs i = get_or fs i []

-- from the number of the process on
abbrev pub stat_of : Parsed ℤ → Text → List Text → Outcome ProcStat
stat_of (parsed pid) comm rest = ok (record {
  pid = pid;
  comm = comm;
  state = first_byte (field rest 0);
  user_time = uint_or (parse_uint (field rest 11));
  system_time = uint_or (parse_uint (field rest 12));
  start_time = uint_or (parse_uint (field rest 19));
  vsize = uint_or (parse_uint (field rest 20));
  rss = int_or (parse_int (field rest 21));
})
stat_of _ comm rest = error

-- from the two cuts on; `before` is what stands before the last ')'
abbrev pub parse_cut : Option (Text × Text) → Option (Text × Text) → Outcome ProcStat
parse_cut (some (pid, _)) (some (before, behind)) =
    if ltb (length before) (length pid + 1)
    then panic
    else if ltb (length (fields behind)) 22
    then error
    else stat_of (parse_int (trim_space pid)) (drop (length pid + 1) before) (fields behind)
parse_cut _ _ = error

unfoldable pub parse_proc_stat : Text → Outcome ProcStat
parse_proc_stat raw = parse_cut (cut 40 raw) (cut_last 41 raw)

pub record CpuSampler : Type 0 where
  pub prev_cpu_ticks : ℕ
  pub prev_time : ℕ
  pub clk_tck : ℕ

-- a percentage as a fraction
pub record Fraction : Type 0 where
  pub numerator : ℕ
  pub denominator : ℕ

-- `Sample` at the time `now`, in nanoseconds, which Go's clock does not turn back; uint64 ticks
unfoldable pub sample : ℕ → Outcome ProcStat → CpuSampler → CpuSampler × Outcome Fraction
sample now (ok stat) s =
    let ticks = (stat.user_time + stat.system_time) % 2 ^ 64 in
    let delta = (ticks + 2 ^ 64 - s.prev_cpu_ticks) % 2 ^ 64 in
    if ltb (now - s.prev_time) 10_000_000
    then (s, ok (record { numerator = 0; denominator = 1 }))
    else (
      record s { prev_cpu_ticks = ticks; prev_time = now },
      ok (record {
        numerator = delta * 100 * 1_000_000_000;
        denominator = s.clk_tck * (now - s.prev_time);
      }),
    )
sample now error s = (s, error)
sample now panic s = (s, panic)

pub record ProcStatus : Type 0 where
  pub name : Text
  pub vm_rss : ℕ
  pub vm_swap : ℕ
  pub threads : ℤ
  pub ppid : ℤ
  pub uid : ℤ
  pub euid : ℤ
  pub gid : ℤ

abbrev pub empty_status : ProcStatus
empty_status = record {
  name = [];
  vm_rss = 0;
  vm_swap = 0;
  threads = pos 0;
  ppid = pos 0;
  uid = pos 0;
  euid = pos 0;
  gid = pos 0;
}

unfoldable pub parse_kb : Text → ℕ
unfolding parse_uint fields
parse_kb s = uint_or (parse_uint (field (fields s) 0))

abbrev pub to_int : Text → ℤ
to_int s = int_or (parse_int s)

-- "Name"
abbrev pub name_key : Text
name_key = 78 ∷ 97 ∷ 109 ∷ 101 ∷ []

-- "VmRSS"
abbrev pub vm_rss_key : Text
vm_rss_key = 86 ∷ 109 ∷ 82 ∷ 83 ∷ 83 ∷ []

-- "VmSwap"
abbrev pub vm_swap_key : Text
vm_swap_key = 86 ∷ 109 ∷ 83 ∷ 119 ∷ 97 ∷ 112 ∷ []

-- "Threads"
abbrev pub threads_key : Text
threads_key = 84 ∷ 104 ∷ 114 ∷ 101 ∷ 97 ∷ 100 ∷ 115 ∷ []

-- "PPid"
abbrev pub ppid_key : Text
ppid_key = 80 ∷ 80 ∷ 105 ∷ 100 ∷ []

-- "Uid"
abbrev pub uid_key : Text
uid_key = 85 ∷ 105 ∷ 100 ∷ []

-- "Gid"
abbrev pub gid_key : Text
gid_key = 71 ∷ 105 ∷ 100 ∷ []

-- the switch on the key
unfoldable pub set_field : Text → Text → ProcStatus → ProcStatus
unfolding parse_kb
set_field k v ps =
    if k == name_key
    then record ps { name = v }
    else if k == vm_rss_key
    then record ps { vm_rss = parse_kb v }
    else if k == vm_swap_key
    then record ps { vm_swap = parse_kb v }
    else if k == threads_key
    then record ps { threads = to_int (trim_space v) }
    else if k == ppid_key
    then record ps { ppid = to_int (trim_space v) }
    else if k == uid_key
    then if leb 2 (length (fields v))
      then record ps { uid = to_int (field (fields v) 0); euid = to_int (field (fields v) 1) }
      else ps
    else if k == gid_key
    then if leb 1 (length (fields v)) then record ps { gid = to_int (field (fields v) 0) } else ps
    else ps

abbrev pub set_cut : Option (Text × Text) → ProcStatus → ProcStatus
set_cut none ps = ps
set_cut (some (k, v)) ps = set_field (trim_space k) (trim_space v) ps

-- the body of the loop
unfoldable pub status_line : Text → ProcStatus → ProcStatus
status_line line ps = set_cut (cut 58 line) ps

-- bufio.ScanLines: no empty line at the end, no carriage return at the end of a line
abbrev pub drop_cr : Text → Text
drop_cr [] = []
drop_cr (c ∷ []) = if nat_beq c 13 then [] else c ∷ []
drop_cr (c ∷ d ∷ ds) = c ∷ drop_cr (d ∷ ds)

abbrev pub last_line : Text → List Text
last_line [] = []
last_line (c ∷ cs) = (c ∷ cs) ∷ []

abbrev pub without_last : List Text → List Text
without_last [] = []
without_last (l ∷ []) = last_line l
without_last (l ∷ m ∷ rest) = l ∷ without_last (m ∷ rest)

-- bufio.MaxScanTokenSize
abbrev pub max_token : ℕ
max_token = 64 * 1024

-- the scanner up to the first line that is too long; the flag is scanner.Err() == nil
unfoldable pub scan_from : List Text → List Text × Bool
scan_from [] = ([], true)
scan_from (l ∷ rest) =
    let (more, fine) = scan_from rest in
    if leb max_token (length l) then ([], false) else (drop_cr l ∷ more, fine)

unfoldable pub scan_lines : Text → List Text × Bool
scan_lines file = scan_from (without_last (cut_lines [] file))

unfoldable pub status_lines : List Text → ProcStatus → ProcStatus
status_lines [] ps = ps
status_lines (l ∷ rest) ps = status_lines rest (status_line l ps)

-- `ReadProcStatus`; `none` is an error
unfoldable pub read_proc_status : Option Text → Option ProcStatus
read_proc_status none = none
read_proc_status (some file) =
    let (lines, fine) = scan_lines file in
    if fine then some (status_lines lines empty_status) else none
