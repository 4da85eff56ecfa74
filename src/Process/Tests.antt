-- ===== src/Process/Tests.antt =====
-- Two processes of an executable in /tmp, as new ones, as whitelisted ones, and from the start.
use angellab.Prelude.{◌≢◌, refl, true, none, some, [], ◌∷◌, ◌++◌, arith, All}
use angellab.Prelude.Int.{pos}
use angellab.Prelude.Text.{Text}
use angellab.Process.{
  ProcSnapshot, Config, ProcFs, ProcessAngel, active, training, default_config, new_proc_baseline,
  deleted_suffix, level, score_process, is_whitelisted, snapshot, poll, finalise_baseline, start,
  baseline_over, polled, run,
}
use angellab.Process.Whitelist.{IsAllowed, whitelist_never_alerts}
use angellab.Process.Polls.{IsReported, poll-IsReported}
use angellab.Process.Startup.{quiet_polls, startup_processes_alert}

-- "Name:\tsh", "PPid:\t7" and "Uid:\t0\t5"
abbrev sh_status : Text
sh_status =
    78 ∷ 97 ∷ 109 ∷ 101 ∷ 58 ∷ 9 ∷ 115 ∷ 104 ∷ 10 ∷ 80 ∷ 80 ∷ 105 ∷ 100 ∷ 58 ∷ 9 ∷ 55 ∷ 10 ∷ 85
    ∷ 105 ∷ 100 ∷ 58 ∷ 9 ∷ 48 ∷ 9 ∷ 53 ∷ 10 ∷ []

abbrev tmp_x : Text
tmp_x = 47 ∷ 116 ∷ 109 ∷ 112 ∷ 47 ∷ 120 ∷ []

-- the processes 7 and 8
abbrev two : ProcFs
two = record {
  entries = some ((55 ∷ [], true) ∷ (56 ∷ [], true) ∷ (115 ∷ 101 ∷ 108 ∷ 102 ∷ [], true) ∷ []);
  status = λ pid. some sh_status;
  exe = λ pid. some tmp_x;
  cmdline = λ pid. none;
}

-- /proc cannot be listed
abbrev unlisted : ProcFs
unlisted = record two { entries = none }

abbrev watching : ProcessAngel
watching = record {
  phase = active;
  baseline = record new_proc_baseline { frozen = true };
  prev = [];
  total_new = 0;
  total_exited = 0;
  total_alerts = 0;
  sent = [];
}

abbrev learning : ProcessAngel
learning = record watching { phase = training; baseline = new_proc_baseline }

abbrev trusting : Config
trusting = record default_config { whitelist_exes = tmp_x ∷ [] }

whitelist_never_alerts_example :
    All
      (IsAllowed trusting)
      (run trusting (baseline_over ∷ polled two 5 ∷ []) (start trusting unlisted 0)).sent
whitelist_never_alerts_example =
    whitelist_never_alerts trusting unlisted 0 (baseline_over ∷ polled two 5 ∷ [])

poll-IsReported_example :
    IsReported default_config (snapshot two 5) watching (poll default_config two 5 watching)
poll-IsReported_example = poll-IsReported default_config two 5 watching refl

abbrev intruder : ProcSnapshot
intruder = record {
  pid = pos 9;
  ppid = pos 7;
  comm = 115 ∷ 121 ∷ 115 ∷ 116 ∷ 101 ∷ 109 ∷ 100 ∷ 45 ∷ 120 ∷ [];
  exe_path = tmp_x;
  cmdline = [];
  uid = pos 0;
  is_set_uid = true;
  seen_at = 5;
}

startup_processes_alert_example :
    let p : ProcessAngel =
      run default_config (quiet_polls two (2 ∷ 4 ∷ [])) (start default_config two 0) in
    level (score_process default_config (finalise_baseline p).baseline intruder) ≢ 0
unfolding is_whitelisted
startup_processes_alert_example =
    startup_processes_alert default_config two 0 (2 ∷ 4 ∷ []) intruder (λ e. ground (arith, e)) refl

-- the binary of process 7 was replaced
abbrev replaced : ProcFs
replaced = record two { exe = λ pid. some (tmp_x ++ deleted_suffix) }

abbrev shell : ProcSnapshot
shell = record {
  pid = pos 7;
  ppid = pos 7;
  comm = 115 ∷ 104 ∷ [];
  exe_path = tmp_x;
  cmdline = [];
  uid = pos 0;
  is_set_uid = true;
  seen_at = 5;
}
