-- ===== src/Process.antt =====
-- internal/angels/process: the table of processes from one poll to the next, what is learned of it in
-- training, and the score of a new process. Go ranges over a map in any order, here in the order in
-- which the processes were read. The texts of events are the data they are made of. `ProcFs` is what
-- /proc answers in one poll.
pub mod Scores
pub mod Whitelist
pub mod Loops
pub mod Polls
pub mod Learning
pub mod Startup
mod Tests
use angellab.Prelude.{
  ℕ, ◌+◌, ◌-◌, Bool, true, false, not, ◌&&◌, ◌||◌, Option, none, some, List, [], ◌∷◌, ◌++◌,
  if◌then◌else◌, ltb, leb, nat_beq, bytes_eq, ◌==◌, length, take, is_some,
}
use angellab.Prelude.Map.{Map, lookup, insert, has}
use angellab.Prelude.Int.{ℤ, pos, negsuc, leb_ℤ, sub_ℕ, eqb_ℤ, int_eq}
use angellab.Prelude.Text.{
  Text, Parsed, parsed, has_prefix, trim_suffix, trim_space, replace_byte, parse_int,
}
use angellab.Linux.Proc.{ProcStatus, read_proc_status}

-- `Cmdline` has 256 bytes at most, `ExePath` is empty where the link cannot be read
pub record ProcSnapshot : Type 0 where
  pub pid : ℤ
  pub ppid : ℤ
  pub comm : Text
  pub exe_path : Text
  pub cmdline : Text
  pub uid : ℤ
  pub is_set_uid : Bool
  pub seen_at : ℕ

-- the durations are in nanoseconds
pub record Config : Type 0 where
  pub poll_interval : ℤ
  pub baseline_duration : ℤ
  pub whitelist_exes : List Text
  pub whitelist_comms : List Text
  pub suspicious_exe_dirs : List Text
  pub alert_on_exit : Bool
  pub state_dir : Text

-- whether one of them is a prefix, and whether the text is one of them
abbrev pub any_prefix : List Text → Text → Bool
any_prefix [] s = false
any_prefix (dir ∷ dirs) s = has_prefix dir s || any_prefix dirs s

abbrev pub any_equal : List Text → Text → Bool
any_equal [] s = false
any_equal (t ∷ ts) s = s == t || any_equal ts s

-- both of the ends of the function after the loop say no
unfoldable pub suspicious_exe_dir : List Text → ProcSnapshot → Bool
suspicious_exe_dir dirs snap = any_prefix dirs snap.exe_path

-- "(deleted)"
abbrev pub deleted : Text
deleted = 40 ∷ 100 ∷ 101 ∷ 108 ∷ 101 ∷ 116 ∷ 101 ∷ 100 ∷ 41 ∷ []

unfoldable pub missing_exe : ProcSnapshot → Bool
missing_exe snap = snap.exe_path == [] || snap.exe_path == deleted

pub record ProcBaseline : Type 0 where
  pub exes : Map Text (Unit {0})
  pub comms : Map Text (Unit {0})
  pub ppids : Map ℤ (Unit {0})
  pub frozen : Bool

abbrev pub new_proc_baseline : ProcBaseline
new_proc_baseline = record { exes = []; comms = []; ppids = []; frozen = false }

unfoldable pub observe : ProcSnapshot → ProcBaseline → ProcBaseline
observe snap b = if b.frozen then b else record b {
  exes = if snap.exe_path == [] then b.exes else insert snap.exe_path tt b.exes;
  comms = insert snap.comm tt b.comms;
  ppids = insert snap.pid tt b.ppids;
}

unfoldable pub freeze : ProcBaseline → ProcBaseline
freeze b = record b { frozen = true }

abbrev pub knows_exe : ProcBaseline → Text → Bool
knows_exe b exe = has exe b.exes

abbrev pub knows_comm : ProcBaseline → Text → Bool
knows_comm b comm = has comm b.comms

abbrev pub knows_ppid : ProcBaseline → ℤ → Bool
knows_ppid b ppid = has ppid b.ppids

abbrev pub proc_warn_threshold : ℕ
proc_warn_threshold = 3

abbrev pub proc_crit_threshold : ℕ
proc_crit_threshold = 6

pub data Reason : Type 0 where
  in_suspicious_dir no_exe_link unknown_exe unknown_comm unknown_parent setuid : Reason

-- the total can be negative
pub record ProcScore : Type 0 where
  pub total : ℤ
  pub reasons : List Reason

unfoldable pub level : ProcScore → ℕ
level s =
    if leb_ℤ (pos proc_crit_threshold) s.total
    then 2
    else if leb_ℤ (pos proc_warn_threshold) s.total
    then 1
    else 0

-- the points and reasons of one rule, in front of those of the rules behind it
abbrev pub rule : Bool → ℕ → Reason → ℕ × List Reason → ℕ × List Reason
rule true n reason (points, reasons) = (n + points, reason ∷ reasons)
rule false n reason rest = rest

-- rules 1 to 6
unfoldable pub rules : Config → ProcBaseline → ProcSnapshot → ℕ × List Reason
rules cfg b snap = rule (suspicious_exe_dir cfg.suspicious_exe_dirs snap) 5 in_suspicious_dir (
    rule (missing_exe snap) 3 no_exe_link (
      rule (not (snap.exe_path == []) && not (knows_exe b snap.exe_path)) 3 unknown_exe (
        rule (not (knows_comm b snap.comm)) 2 unknown_comm (
          rule (not (leb_ℤ snap.ppid (pos 1)) && not (knows_ppid b snap.ppid)) 2 unknown_parent
            (rule snap.is_set_uid 2 setuid (0, []))))))

unfoldable pub is_whitelisted : Config → ProcSnapshot → Bool
is_whitelisted cfg snap =
    any_equal cfg.whitelist_exes snap.exe_path || any_prefix cfg.whitelist_comms snap.comm

-- `scoreProcess`
unfoldable pub score_process : Config → ProcBaseline → ProcSnapshot → ProcScore
unfolding rules is_whitelisted
score_process cfg b snap =
    let (points, reasons) = rules cfg b snap in
    record {
      total = if is_whitelisted cfg snap then sub_ℕ points 10 else pos points;
      reasons = reasons;
    }

pub data Phase : Type 0 where
  training active : Phase

pub data Event : Type 0 where
  new_process : ℕ → ProcSnapshot → ProcScore → Event  -- with the level, 1 or 2
  exited : ProcSnapshot → Event
  baseline_complete : ℕ → ℕ → Event

pub record ProcessAngel : Type 0 where
  pub phase : Phase
  pub baseline : ProcBaseline
  pub prev : Map ℤ ProcSnapshot
  pub total_new : ℕ
  pub total_exited : ℕ
  pub total_alerts : ℕ
  pub sent : List Event

pub record ProcFs : Type 0 where
  pub entries : Option (List (Text × Bool))  -- os.ReadDir: the names, and whether they are directories
  pub status : ℤ → Option Text
  pub exe : ℤ → Option Text
  pub cmdline : ℤ → Option Text

-- " (deleted)"
abbrev pub deleted_suffix : Text
deleted_suffix = 32 ∷ deleted

abbrev pub exe_of : Option Text → Text
exe_of none = []
exe_of (some exe) = trim_suffix deleted_suffix exe

abbrev pub cmdline_of : Option Text → Text
cmdline_of none = []
cmdline_of (some bytes) = trim_space (take 256 (replace_byte 0 32 bytes))

abbrev pub snapshot_of : ProcFs → ℕ → ℤ → Option ProcStatus → Option ProcSnapshot
snapshot_of fs now pid none = none
snapshot_of fs now pid (some status) = some (record {
  pid = pid;
  ppid = status.ppid;
  comm = status.name;
  exe_path = exe_of (fs.exe pid);
  cmdline = cmdline_of (fs.cmdline pid);
  uid = status.uid;
  is_set_uid = not (eqb_ℤ status.euid status.uid);
  seen_at = now;
})

unfoldable pub read_proc_info : ProcFs → ℕ → ℤ → Option ProcSnapshot
read_proc_info fs now pid = snapshot_of fs now pid (read_proc_status (fs.status pid))

abbrev pub add_read : ℤ → Option ProcSnapshot → Map ℤ ProcSnapshot → Map ℤ ProcSnapshot
add_read pid none table = table
add_read pid (some snap) table = insert pid snap table

abbrev pub add_entry : ProcFs → ℕ → Parsed ℤ → Map ℤ ProcSnapshot → Map ℤ ProcSnapshot
add_entry fs now (parsed pid) table = add_read pid (read_proc_info fs now pid) table
add_entry fs now _ table = table

unfoldable pub read_entries :
    ProcFs → ℕ → List (Text × Bool) → Map ℤ ProcSnapshot → Map ℤ ProcSnapshot
read_entries fs now [] table = table
read_entries fs now ((name, is_dir) ∷ rest) table =
    read_entries fs now rest (if is_dir then add_entry fs now (parse_int name) table else table)

-- a failure is logged, and gives the nil map
abbrev pub table_of : ProcFs → ℕ → Option (List (Text × Bool)) → Map ℤ ProcSnapshot
table_of fs now none = []
table_of fs now (some entries) = read_entries fs now entries []

unfoldable pub snapshot : ProcFs → ℕ → Map ℤ ProcSnapshot
snapshot fs now = table_of fs now fs.entries

abbrev pub judge : ProcSnapshot → ProcScore → ProcessAngel → ProcessAngel
judge snap score p = if nat_beq (level score) 0 then p else record p {
  total_alerts = p.total_alerts + 1;
  sent = p.sent ++ new_process (level score) snap score ∷ [];
}

abbrev pub handle_counted : Config → Phase → ProcSnapshot → ProcessAngel → ProcessAngel
handle_counted cfg training snap p = record p { baseline = observe snap p.baseline }
handle_counted cfg active snap p = judge snap (score_process cfg p.baseline snap) p

unfoldable pub handle_new : Config → ProcSnapshot → ProcessAngel → ProcessAngel
handle_new cfg snap p = handle_counted cfg p.phase snap (record p { total_new = p.total_new + 1 })

unfoldable pub handle_exit : ProcSnapshot → ProcessAngel → ProcessAngel
handle_exit snap p =
    let p' : ProcessAngel = record p { total_exited = p.total_exited + 1 } in
    if not (knows_exe p.baseline snap.exe_path) && not (knows_comm p.baseline snap.comm)
    then p'
    else record p' { sent = p.sent ++ exited snap ∷ [] }

-- the two loops of `poll`, over the rest of a map
unfoldable pub handle_arrivals :
    Config → Map ℤ ProcSnapshot → Map ℤ ProcSnapshot → ProcessAngel → ProcessAngel
handle_arrivals cfg prev [] p = p
handle_arrivals cfg prev ((pid, snap) ∷ rest) p =
    handle_arrivals cfg prev rest (if has pid prev then p else handle_new cfg snap p)

unfoldable pub handle_exits : Map ℤ ProcSnapshot → Map ℤ ProcSnapshot → ProcessAngel → ProcessAngel
handle_exits curr [] p = p
handle_exits curr ((pid, snap) ∷ rest) p =
    handle_exits curr rest (if has pid curr then p else handle_exit snap p)

abbrev pub is_active : Phase → Bool
is_active training = false
is_active active = true

-- from the new table on
unfoldable pub poll_table : Config → Map ℤ ProcSnapshot → ProcessAngel → ProcessAngel
poll_table cfg curr p =
    let p' = handle_arrivals cfg p.prev curr p in
    let p'' = if cfg.alert_on_exit && is_active p'.phase then handle_exits curr p.prev p' else p' in
    record p'' { prev = curr }

unfoldable pub poll : Config → ProcFs → ℕ → ProcessAngel → ProcessAngel
unfolding poll_table
poll cfg fs now p = poll_table cfg (snapshot fs now) p

unfoldable pub finalise_baseline : ProcessAngel → ProcessAngel
finalise_baseline p = record p {
  baseline = freeze p.baseline;
  phase = active;
  sent = p.sent ++ baseline_complete (length p.baseline.exes) (length p.baseline.comms) ∷ [];
}

abbrev pub seed : List Text → Map Text (Unit {0}) → Map Text (Unit {0})
seed [] known = known
seed (t ∷ ts) known = seed ts (insert t tt known)

-- `run` up to the loop: the whitelist is known, and the processes that are there are not new
unfoldable pub start : Config → ProcFs → ℕ → ProcessAngel
start cfg fs now = record {
  phase = training;
  baseline = record new_proc_baseline {
    exes = seed cfg.whitelist_exes [];
    comms = seed cfg.whitelist_comms [];
  };
  prev = snapshot fs now;
  total_new = 0;
  total_exited = 0;
  total_alerts = 0;
  sent = [];
}

-- what the loop of `run` does for the angel; a heartbeat changes nothing here
pub data Tick : Type 0 where
  baseline_over : Tick
  polled : ProcFs → ℕ → Tick

unfoldable pub tick : Config → Tick → ProcessAngel → ProcessAngel
tick cfg baseline_over p = if is_active p.phase then p else finalise_baseline p
tick cfg (polled fs now) p = poll cfg fs now p

unfoldable pub run : Config → List Tick → ProcessAngel → ProcessAngel
run cfg [] p = p
run cfg (t ∷ ts) p = run cfg ts (tick cfg t p)

-- 2 * time.Second and 30 * time.Second
abbrev pub default_config : Config
default_config = record {
  poll_interval = pos 2_000_000_000;
  baseline_duration = pos 30_000_000_000;
  whitelist_exes = [];
  whitelist_comms = [];
  suspicious_exe_dirs =
      (47 ∷ 116 ∷ 109 ∷ 112 ∷ [])
      ∷ (47 ∷ 100 ∷ 101 ∷ 118 ∷ 47 ∷ 115 ∷ 104 ∷ 109 ∷ [])
      ∷ (47 ∷ 118 ∷ 97 ∷ 114 ∷ 47 ∷ 116 ∷ 109 ∷ 112 ∷ [])
      ∷ (47 ∷ 114 ∷ 117 ∷ 110 ∷ 47 ∷ 117 ∷ 115 ∷ 101 ∷ 114 ∷ [])
      ∷ [];
  alert_on_exit = true;
  state_dir =
      47 ∷ 118 ∷ 97 ∷ 114 ∷ 47 ∷ 108 ∷ 105 ∷ 98 ∷ 47 ∷ 97 ∷ 110 ∷ 103 ∷ 101 ∷ 108 ∷ 108 ∷ 97 ∷ 98
      ∷ [];
}

abbrev pub checked : Config → Config
checked c = record c {
  poll_interval = if leb_ℤ c.poll_interval (pos 0) then pos 2_000_000_000 else c.poll_interval;
  baseline_duration =
      if leb_ℤ c.baseline_duration (pos 0) then pos 30_000_000_000 else c.baseline_duration;
  state_dir = if c.state_dir == [] then default_config.state_dir else c.state_dir;
}

abbrev pub checked_config : Option Config → Option Config
checked_config none = none
checked_config (some c) = some (checked c)

-- `readConfig` on what stdin gives, `none` if it fails; `unmarshal` is json.Unmarshal onto a value
unfoldable pub read_config : (Text → Config → Option Config) → Option Text → Option Config
read_config unmarshal none = none
read_config unmarshal (some []) = some default_config
read_config unmarshal (some (c ∷ cs)) = checked_config (unmarshal (c ∷ cs) default_config)
