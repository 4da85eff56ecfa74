-- ===== src/Process/Startup.antt =====
-- A training in which the table of processes stays as it is, and what alerts after it.
use angellab.Prelude.{
  ℕ, ◌≡◌, ◌≢◌, refl, sym, ap, ◌∙◌, Bool, true, false, ◌||◌, Option, none, some, List, [], ◌∷◌,
  arith, bytes_eq, beq_refl, beq_ne, ◌==◌,
}
use angellab.Prelude.Map.{Map, lookup, has, insert}
use angellab.Prelude.Map.Laws.{lookup-insert}
use angellab.Prelude.Int.{ℤ, int_eq}
use angellab.Prelude.Text.{Text, Parsed, parsed, bad_syntax, out_of_range, parse_int}
use angellab.Linux.Proc.{ProcStatus, read_proc_status}
use angellab.Process.{
  table_of, ProcSnapshot, Config, ProcFs, ProcessAngel, training, any_equal, is_whitelisted,
  knows_exe, level, score_process, poll, snapshot, read_entries, add_entry, add_read,
  read_proc_info, snapshot_of, finalise_baseline, freeze, start, Tick, polled, tick, run,
}
use angellab.Process.Learning.{any_exe, poll-IsLearned}
use angellab.Process.Scores.{unknown_alerts}
use angellab.Process.Loops.{missing_from}
use angellab.Process.Whitelist.{has-seed}

-- two tables of the same processes
SamePids : Map ℤ ProcSnapshot → Map ℤ ProcSnapshot → Type 0
SamePids m n = (j : ℤ) → has j m ≡ has j n

has-add :
    (k j : ℤ) (v : ProcSnapshot) (m : Map ℤ ProcSnapshot)
    → has j (insert k v m) ≡ (k == j || has j m)
has-add k j v m = ground (arith, lookup-insert k j v m)

add_read-SamePids :
    (fs : ProcFs) (t1 t2 : ℕ) (pid j : ℤ) (status : Option ProcStatus) (m n : Map ℤ ProcSnapshot)
    → has j m ≡ has j n
    → has j (add_read pid (snapshot_of fs t1 pid status) m)
      ≡ has j (add_read pid (snapshot_of fs t2 pid status) n)
add_read-SamePids fs t1 t2 pid j none m n same = same
add_read-SamePids fs t1 t2 pid j (some status) m n same =
    has-add pid j _ m ∙ ap (λ b. pid == j || b) same ∙ sym (has-add pid j _ n)

add_entry-SamePids :
    (fs : ProcFs) (t1 t2 : ℕ) (pid : Parsed ℤ) (m n : Map ℤ ProcSnapshot)
    → SamePids m n
    → SamePids (add_entry fs t1 pid m) (add_entry fs t2 pid n)
unfolding SamePids read_proc_info
add_entry-SamePids fs t1 t2 (parsed pid) m n same j =
    add_read-SamePids fs t1 t2 pid j (read_proc_status (fs.status pid)) m n (same j)
add_entry-SamePids fs t1 t2 bad_syntax m n same j = same j
add_entry-SamePids fs t1 t2 (out_of_range v) m n same j = same j

read_entries-SamePids :
    (fs : ProcFs) (t1 t2 : ℕ) (es : List (Text × Bool)) (m n : Map ℤ ProcSnapshot)
    → SamePids m n
    → SamePids (read_entries fs t1 es m) (read_entries fs t2 es n)
unfolding read_entries
read_entries-SamePids fs t1 t2 [] m n same = same
read_entries-SamePids fs t1 t2 ((name, true) ∷ rest) m n same =
    read_entries-SamePids fs t1 t2 rest (add_entry fs t1 (parse_int name) m)
      (add_entry fs t2 (parse_int name) n) (add_entry-SamePids fs t1 t2 (parse_int name) m n same)
read_entries-SamePids fs t1 t2 ((name, false) ∷ rest) m n same =
    read_entries-SamePids fs t1 t2 rest m n same

table_of-SamePids :
    (fs : ProcFs) (t1 t2 : ℕ) (es : Option (List (Text × Bool)))
    → SamePids (table_of fs t1 es) (table_of fs t2 es)
unfolding SamePids
table_of-SamePids fs t1 t2 none j = refl
table_of-SamePids fs t1 t2 (some es) j = read_entries-SamePids fs t1 t2 es [] [] (λ i. refl) j

snapshot-SamePids : (fs : ProcFs) (t1 t2 : ℕ) → SamePids (snapshot fs t1) (snapshot fs t2)
unfolding snapshot
snapshot-SamePids fs t1 t2 = table_of-SamePids fs t1 t2 fs.entries

-- if all processes of the new table were in the old one, none has arrived
none_arrived :
    (prev curr : Map ℤ ProcSnapshot)
    → ((j : ℤ) → has j curr ≡ true → has j prev ≡ true)
    → missing_from prev curr ≡ []
unfolding lookup
none_arrived prev [] within = refl
none_arrived prev ((pid, snap) ∷ rest) within =
    let here : has pid prev ≡ true = within pid (ground (arith, beq_refl pid)) in
    let there = none_arrived prev rest (λ j h. within j (ground (arith, h))) in rw here there

-- the polls of a training in which the kernel answers the same
abbrev pub quiet_polls : ProcFs → List ℕ → List Tick
quiet_polls fs [] = []
quiet_polls fs (now ∷ times) = polled fs now ∷ quiet_polls fs times

record Untaught (cfg : Config) (fs : ProcFs) (p : ProcessAngel) : Type 0 where
  phase_is : p.phase ≡ training
  still_open : p.baseline.frozen ≡ false
  same : SamePids p.prev (snapshot fs 0)
  exes_are : (e : Text) → e ≢ [] → knows_exe p.baseline e ≡ any_equal cfg.whitelist_exes e

poll-Untaught :
    (cfg : Config) (fs : ProcFs) (now : ℕ) (p : ProcessAngel)
    → Untaught cfg fs p
    → Untaught cfg fs (poll cfg fs now p)
unfolding SamePids
poll-Untaught cfg fs now p u =
    let l = poll-IsLearned cfg fs now p u.phase_is u.still_open in
    let old =
      none_arrived p.prev (snapshot fs now) (λ j h. u.same j ∙ snapshot-SamePids fs 0 now j ∙ h) in
    record {
      phase_is = l.phase_kept;
      still_open = l.still_open;
      same = λ j. ap (has j) l.table_kept ∙ snapshot-SamePids fs now 0 j;
      exes_are = λ e filled.
          l.exes_learned e filled
          ∙ ap (λ s. knows_exe p.baseline e || any_exe e s) old
          ∙ ground (arith, u.exes_are e filled);
    }

quiet_polls-Untaught :
    (cfg : Config) (fs : ProcFs) (times : List ℕ) (p : ProcessAngel)
    → Untaught cfg fs p
    → Untaught cfg fs (run cfg (quiet_polls fs times) p)
unfolding run tick
quiet_polls-Untaught cfg fs [] p u = u
quiet_polls-Untaught cfg fs (now ∷ times) p u =
    quiet_polls-Untaught cfg fs times (poll cfg fs now p) (poll-Untaught cfg fs now p u)

start-Untaught : (cfg : Config) (fs : ProcFs) (now : ℕ) → Untaught cfg fs (start cfg fs now)
unfolding start lookup
start-Untaught cfg fs now = record {
  phase_is = refl;
  still_open = refl;
  same = snapshot-SamePids fs now 0;
  exes_are = λ e filled. ground (arith, has-seed cfg.whitelist_exes [] e);
}

-- The training teaches nothing of the processes that run when it begins: if the table of processes
-- stays as it is until the end of the training, then a process of any executable that is not
-- whitelisted alerts afterwards, also if it was in that table and is only started again.
pub startup_processes_alert :
    (cfg : Config) (fs : ProcFs) (t0 : ℕ) (times : List ℕ) (snap : ProcSnapshot)
    → snap.exe_path ≢ []
    → is_whitelisted cfg snap ≡ false
    → let p : ProcessAngel = run cfg (quiet_polls fs times) (start cfg fs t0) in
      level (score_process cfg (finalise_baseline p).baseline snap) ≢ 0
unfolding finalise_baseline freeze is_whitelisted
startup_processes_alert cfg fs t0 times snap filled listed =
    let p = run cfg (quiet_polls fs times) (start cfg fs t0) in
    let u = quiet_polls-Untaught cfg fs times (start cfg fs t0) (start-Untaught cfg fs t0) in
    unknown_alerts cfg (freeze p.baseline) snap listed (beq_ne snap.exe_path [] filled)
      (u.exes_are snap.exe_path filled ∙ ground (arith, listed))
