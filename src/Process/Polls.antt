-- ===== src/Process/Polls.antt =====
-- What one poll reports and counts, against the two tables as lists.
use angellab.Prelude.{
  ℕ, suc, ◌+◌, ◌≡◌, refl, ap, ◌∙◌, true, none, [], ◌∷◌, ◌++◌, arith, inl, inr, Bool-cases, bytes_eq,
  if◌then◌else◌, length,
}
use mathlib.Core.List.{append-nil}
use angellab.Prelude.Map.{Map, lookup}
use angellab.Prelude.Int.{ℤ, int_eq}
use angellab.Process.{
  ProcSnapshot, Config, ProcFs, ProcessAngel, active, handle_arrivals, poll_table, poll, snapshot,
  is_active,
}
use angellab.Process.Loops.{missing_from, alerts, exits, handle_arrivals-Arrived, handle_exits-Left}

-- what a poll of an active angel does: `curr` is the new table
pub record IsReported (cfg : Config) (curr : Map ℤ ProcSnapshot) (p p' : ProcessAngel)
    : Type 0 where
  pub phase_kept : p'.phase ≡ p.phase
  pub baseline_kept : p'.baseline ≡ p.baseline
  pub table_kept : p'.prev ≡ curr
  pub counted : p'.total_new ≡ p.total_new + length (missing_from p.prev curr)
  pub alerts_counted :
      p'.total_alerts ≡ p.total_alerts + length (alerts cfg p.baseline (missing_from p.prev curr))
  pub exits_counted :
      p'.total_exited
      ≡ p.total_exited + (if cfg.alert_on_exit then length (missing_from curr p.prev) else 0)
  pub reported :
      p'.sent
      ≡ (p.sent ++ alerts cfg p.baseline (missing_from p.prev curr))
        ++ (if cfg.alert_on_exit then exits p.baseline (missing_from curr p.prev) else [])

poll_table-IsReported :
    (cfg : Config) (curr : Map ℤ ProcSnapshot) (p : ProcessAngel)
    → p.phase ≡ active
    → IsReported cfg curr p (poll_table cfg curr p)
unfolding poll_table
poll_table-IsReported cfg curr p act =
    let p' = handle_arrivals cfg p.prev curr p in
    let a = handle_arrivals-Arrived cfg p.prev curr p act in
    let l = handle_exits-Left curr p.prev p' in
    let on : is_active p'.phase ≡ true = ap is_active (a.phase_kept ∙ act) in
    elim (Bool-cases cfg.alert_on_exit) [
      | inl watched ↦ record {
        phase_kept = ground (arith, watched, on, a.phase_kept, l.phase_kept);
        baseline_kept = ground (arith, watched, on, a.baseline_kept, l.baseline_kept);
        table_kept = refl;
        counted = ground (arith, watched, on, a.counted, l.new_kept);
        alerts_counted = ground (arith, watched, on, a.alerts_counted, l.alerts_kept);
        exits_counted = ground (arith, watched, on, a.exits_kept, l.counted);
        reported = ground (arith, watched, on, a.reported, l.reported, a.baseline_kept);
      }
      | inr ignored ↦ record {
        phase_kept = ground (arith, ignored, a.phase_kept);
        baseline_kept = ground (arith, ignored, a.baseline_kept);
        table_kept = refl;
        counted = ground (arith, ignored, a.counted);
        alerts_counted = ground (arith, ignored, a.alerts_counted);
        exits_counted = ground (arith, ignored, a.exits_kept);
        reported = ground (
          arith,
          ignored,
          a.reported,
          append-nil (p.sent ++ alerts cfg p.baseline (missing_from p.prev curr)),
        );
      }
    ]

-- A poll of an active angel sends one alert for each new process whose score is not below the warning,
-- in order, and then, if alert_on_exit is set, one event for each known process that is gone; the
-- counters agree, phase and baseline stay, and the table is the new one.
pub poll-IsReported :
    (cfg : Config) (fs : ProcFs) (now : ℕ) (p : ProcessAngel)
    → p.phase ≡ active
    → IsReported cfg (snapshot fs now) p (poll cfg fs now p)
unfolding poll
poll-IsReported cfg fs now p act = poll_table-IsReported cfg (snapshot fs now) p act

all_missing : (curr : Map ℤ ProcSnapshot) → length (missing_from [] curr) ≡ length curr
unfolding lookup
all_missing [] = refl
all_missing ((pid, snap) ∷ rest) = ap suc (all_missing rest)

snapshot-none : (fs : ProcFs) (now : ℕ) → fs.entries ≡ none → snapshot fs now ≡ []
unfolding snapshot
snapshot-none fs now fails = ground (arith, fails)

-- A failure to read /proc makes every process a new one: after it, the next poll of an active angel
-- counts all processes of the table as new, those that were there before too.
failed_read_floods :
    (cfg : Config) (failed fs : ProcFs) (t1 t2 : ℕ) (p : ProcessAngel)
    → p.phase ≡ active
    → failed.entries ≡ none
    → let p' : ProcessAngel = poll cfg failed t1 p in
      (p'.total_new ≡ p.total_new)
      × ((poll cfg fs t2 p').total_new ≡ p.total_new + length (snapshot fs t2))
failed_read_floods cfg failed fs t1 t2 p act fails =
    let p' = poll cfg failed t1 p in
    let r1 = poll-IsReported cfg failed t1 p act in
    let r2 = poll-IsReported cfg fs t2 p' (r1.phase_kept ∙ act) in
    let empty = snapshot-none failed t1 fails in
    let first : p'.total_new ≡ p.total_new =
      r1.counted ∙ ap (λ m. p.total_new + length (missing_from p.prev m)) empty ∙ omega arith in
    let all : length (missing_from p'.prev (snapshot fs t2)) ≡ length (snapshot fs t2) =
      ap (λ m. length (missing_from m (snapshot fs t2))) (r1.table_kept ∙ empty)
      ∙ all_missing (snapshot fs t2) in
    (first, omega (arith, r2.counted, first, all))
