-- ===== src/Process/Scores.antt =====
-- What a whitelist and a replaced binary do to the score of a process.
use angellab.Prelude.{
  ℕ, ◌<◌, ◌≡◌, ◌≢◌, refl, ap, ◌∙◌, true, false, ◌||◌, Option, none, some, [], ◌∷◌, ◌++◌, arith,
  bytes_eq, ◌==◌, beq_ne, beq_refl, length, length-append,
}
use angellab.Prelude.Int.{ℤ, pos, leb_ℤ, int_eq}
use angellab.Prelude.Text.{Text, trim_suffix}
use angellab.Linux.Proc.{ProcStatus, read_proc_status}
use angellab.Process.{
  ProcSnapshot, Config, ProcBaseline, ProcFs, any_equal, any_prefix, missing_exe,
  suspicious_exe_dir, knows_exe, knows_comm, knows_ppid, level, score_process, is_whitelisted,
  deleted, deleted_suffix, exe_of, snapshot_of, read_proc_info,
}

-- A process of a whitelisted executable that the baseline knows never alerts, whatever else is wrong
-- with it, if its executable can be read.
pub whitelisted_exe_silent :
    (cfg : Config) (b : ProcBaseline) (snap : ProcSnapshot)
    → any_equal cfg.whitelist_exes snap.exe_path ≡ true
    → knows_exe b snap.exe_path ≡ true
    → missing_exe snap ≡ false
    → level (score_process cfg b snap) ≡ 0
unfolding level score_process suspicious_exe_dir
whitelisted_exe_silent cfg b snap listed known there = ground arith

-- A whitelist of names guarantees nothing: a process whose name begins with a whitelisted one still
-- alerts if all of the other rules but the missing link hold of it.
whitelisted_comm_alerts :
    (cfg : Config) (b : ProcBaseline) (snap : ProcSnapshot)
    → any_equal cfg.whitelist_exes snap.exe_path ≡ false
    → any_prefix cfg.whitelist_comms snap.comm ≡ true
    → any_prefix cfg.suspicious_exe_dirs snap.exe_path ≡ true
    → (snap.exe_path == []) ≡ false
    → knows_exe b snap.exe_path ≡ false
    → knows_comm b snap.comm ≡ false
    → leb_ℤ snap.ppid (pos 1) ≡ false
    → knows_ppid b snap.ppid ≡ false
    → snap.is_set_uid ≡ true
    → level (score_process cfg b snap) ≢ 0
unfolding level score_process suspicious_exe_dir
whitelisted_comm_alerts cfg b snap exe comm dir there new_exe new_comm ppid new_ppid setuid =
    ground arith

-- A process of an executable and a name that are neither known nor whitelisted alerts.
pub unknown_alerts :
    (cfg : Config) (b : ProcBaseline) (snap : ProcSnapshot)
    → is_whitelisted cfg snap ≡ false
    → (snap.exe_path == []) ≡ false
    → knows_exe b snap.exe_path ≡ false
    → level (score_process cfg b snap) ≢ 0
unfolding level score_process
unknown_alerts cfg b snap listed there new_exe = ground arith

length-ne : (xs ys : Text) → length xs ≢ length ys → (xs == ys) ≡ false
length-ne xs ys h = beq_ne xs ys (λ e. h (ap (λ (t : Text). length t) e))

trim_self : (suffix : Text) → 0 < length suffix → trim_suffix suffix suffix ≡ []
unfolding trim_suffix
trim_self [] h = refl
trim_self (c ∷ cs) h = ground (arith, beq_refl (c ∷ cs))

-- the link of a file that was deleted
trim_suffix-append :
    (suffix path : Text) → 0 < length suffix → trim_suffix suffix (path ++ suffix) ≡ path
unfolding trim_suffix
trim_suffix-append suffix [] h = trim_self suffix h
trim_suffix-append suffix (c ∷ path) h =
    rw (length-ne (c ∷ (path ++ suffix)) suffix (ground (arith, length-append path suffix)))
      (ap (◌∷◌ c) (trim_suffix-append suffix path h))

exe_of_snapshot :
    (fs : ProcFs) (now : ℕ) (pid : ℤ) (status : Option ProcStatus) (snap : ProcSnapshot)
    → snapshot_of fs now pid status ≡ some snap
    → snap.exe_path ≡ exe_of (fs.exe pid)
exe_of_snapshot fs now pid none snap h = ground arith
exe_of_snapshot fs now pid (some status) snap h = ground arith

-- A process whose binary was deleted, or replaced on disk, counts as one of the old binary: the end
-- of its link is cut off, and the rule of the missing link does not hold of it.
replaced_binary_unseen :
    (fs : ProcFs) (now : ℕ) (pid : ℤ) (path : Text) (snap : ProcSnapshot)
    → fs.exe pid ≡ some (path ++ deleted_suffix)
    → path ≢ []
    → path ≢ deleted
    → read_proc_info fs now pid ≡ some snap
    → (snap.exe_path ≡ path) × (missing_exe snap ≡ false)
unfolding read_proc_info missing_exe
replaced_binary_unseen fs now pid path snap link filled named read =
    let same : snap.exe_path ≡ path =
      exe_of_snapshot fs now pid (read_proc_status (fs.status pid)) snap read
      ∙ ap exe_of link
      ∙ trim_suffix-append deleted_suffix path (omega arith) in
    let there : (path == [] || path == deleted) ≡ false =
      ground (arith, beq_ne path [] filled, beq_ne path deleted named) in
    (same, ap (λ (t : Text). t == [] || t == deleted) same ∙ there)
