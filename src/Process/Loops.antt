-- ===== src/Process/Loops.antt =====
-- The two loops of a poll against the tables as lists: who has arrived, and who has left.
use angellab.Prelude.{
  ◌+◌, ◌≡◌, refl, sym, ap, ◌∙◌, ◌||◌, List, [], ◌∷◌, ◌++◌, arith, inl, inr, Bool-cases, bytes_eq,
  if◌then◌else◌, length, nat_beq,
}
use mathlib.Core.List.{append-nil, append_assoc}
use angellab.Prelude.Map.{Map, has}
use angellab.Prelude.Int.{ℤ, int_eq}
use angellab.Process.{
  ProcSnapshot, Config, ProcBaseline, ProcScore, ProcessAngel, active, Event, new_process, exited,
  knows_exe, knows_comm, level, score_process, judge, handle_counted, handle_new, handle_exit,
  handle_arrivals, handle_exits,
}

-- the processes of a table that another one does not have
abbrev pub missing_from : Map ℤ ProcSnapshot → Map ℤ ProcSnapshot → List ProcSnapshot
missing_from other [] = []
missing_from other ((pid, snap) ∷ rest) =
    let more = missing_from other rest in if has pid other then more else snap ∷ more

-- one alert for each of the processes whose score is not below the warning
abbrev pub alerts : Config → ProcBaseline → List ProcSnapshot → List Event
alerts cfg b [] = []
alerts cfg b (snap ∷ rest) =
    let score = score_process cfg b snap in
    let more = alerts cfg b rest in
    if nat_beq (level score) 0 then more else new_process (level score) snap score ∷ more

-- one event for each of the processes that the baseline knows
abbrev pub exits : ProcBaseline → List ProcSnapshot → List Event
exits b [] = []
exits b (snap ∷ rest) =
    let more = exits b rest in
    if knows_exe b snap.exe_path || knows_comm b snap.comm then exited snap ∷ more else more

pub record Arrived (cfg : Config) (snaps : List ProcSnapshot) (p p' : ProcessAngel) : Type 0 where
  pub phase_kept : p'.phase ≡ p.phase
  pub baseline_kept : p'.baseline ≡ p.baseline
  pub prev_kept : p'.prev ≡ p.prev
  pub counted : p'.total_new ≡ p.total_new + length snaps
  pub exits_kept : p'.total_exited ≡ p.total_exited
  pub alerts_counted : p'.total_alerts ≡ p.total_alerts + length (alerts cfg p.baseline snaps)
  pub reported : p'.sent ≡ p.sent ++ alerts cfg p.baseline snaps

counted_new : ProcessAngel → ProcessAngel
counted_new p = record p { total_new = p.total_new + 1 }

handle_new-active :
    (cfg : Config) (snap : ProcSnapshot) (p : ProcessAngel)
    → p.phase ≡ active
    → handle_new cfg snap p ≡ judge snap (score_process cfg p.baseline snap) (counted_new p)
unfolding handle_new counted_new
handle_new-active cfg snap p act = ap (λ ph. handle_counted cfg ph snap (counted_new p)) act

judge-Arrived :
    (cfg : Config) (snap : ProcSnapshot) (rest : List ProcSnapshot) (p p' : ProcessAngel)
    → Arrived cfg rest (judge snap (score_process cfg p.baseline snap) (counted_new p)) p'
    → Arrived cfg (snap ∷ rest) p p'
unfolding counted_new
judge-Arrived cfg snap rest p p' a =
    elim (Bool-cases (nat_beq (level (score_process cfg p.baseline snap)) 0)) [
      | inl quiet ↦ record {
        phase_kept = ground (arith, quiet, a.phase_kept);
        baseline_kept = ground (arith, quiet, a.baseline_kept);
        prev_kept = ground (arith, quiet, a.prev_kept);
        counted = ground (arith, quiet, a.counted);
        exits_kept = ground (arith, quiet, a.exits_kept);
        alerts_counted = ground (arith, quiet, a.alerts_counted);
        reported = ground (arith, quiet, a.reported);
      }
      | inr loud ↦
          let score = score_process cfg p.baseline snap in
          record {
            phase_kept = ground (arith, loud, a.phase_kept);
            baseline_kept = ground (arith, loud, a.baseline_kept);
            prev_kept = ground (arith, loud, a.prev_kept);
            counted = ground (arith, loud, a.counted);
            exits_kept = ground (arith, loud, a.exits_kept);
            alerts_counted = ground (arith, loud, a.alerts_counted);
            reported = ground (
              arith,
              loud,
              a.reported,
              append_assoc p.sent (new_process (level score) snap score ∷ [])
                  (alerts cfg p.baseline rest),
            );
          }
    ]

phase-judge :
    (snap : ProcSnapshot) (score : ProcScore) (p : ProcessAngel)
    → (judge snap score p).phase ≡ p.phase
phase-judge snap score p = ground arith

pub handle_arrivals-Arrived :
    (cfg : Config) (prev curr : Map ℤ ProcSnapshot) (p : ProcessAngel)
    → p.phase ≡ active
    → Arrived cfg (missing_from prev curr) p (handle_arrivals cfg prev curr p)
unfolding handle_arrivals counted_new
handle_arrivals-Arrived cfg prev [] p act = record {
  phase_kept = refl;
  baseline_kept = refl;
  prev_kept = refl;
  counted = omega arith;
  exits_kept = refl;
  alerts_counted = omega arith;
  reported = sym (append-nil p.sent);
}
handle_arrivals-Arrived cfg prev ((pid, snap) ∷ rest) p act = elim (Bool-cases (has pid prev)) [
  | inl seen ↦ rw seen (handle_arrivals-Arrived cfg prev rest p act)
  | inr fresh ↦
      let first = handle_new-active cfg snap p act in
      let judged = judge snap (score_process cfg p.baseline snap) (counted_new p) in
      let still = phase-judge snap (score_process cfg p.baseline snap) (counted_new p) ∙ act in
      rw (fresh, first)
        (judge-Arrived cfg snap (missing_from prev rest) p (handle_arrivals cfg prev rest judged)
          (handle_arrivals-Arrived cfg prev rest judged still))
]

pub record Left (snaps : List ProcSnapshot) (p p' : ProcessAngel) : Type 0 where
  pub phase_kept : p'.phase ≡ p.phase
  pub baseline_kept : p'.baseline ≡ p.baseline
  pub new_kept : p'.total_new ≡ p.total_new
  pub alerts_kept : p'.total_alerts ≡ p.total_alerts
  pub counted : p'.total_exited ≡ p.total_exited + length snaps
  pub reported : p'.sent ≡ p.sent ++ exits p.baseline snaps

handle_exit-Left :
    (snap : ProcSnapshot) (rest : List ProcSnapshot) (p p' : ProcessAngel)
    → Left rest (handle_exit snap p) p'
    → Left (snap ∷ rest) p p'
unfolding handle_exit
handle_exit-Left snap rest p p' a =
    elim (Bool-cases (knows_exe p.baseline snap.exe_path || knows_comm p.baseline snap.comm)) [
      | inl known ↦ record {
        phase_kept = ground (arith, known, a.phase_kept);
        baseline_kept = ground (arith, known, a.baseline_kept);
        new_kept = ground (arith, known, a.new_kept);
        alerts_kept = ground (arith, known, a.alerts_kept);
        counted = ground (arith, known, a.counted);
        reported = ground (
          arith,
          known,
          a.reported,
          append_assoc p.sent (exited snap ∷ []) (exits p.baseline rest),
        );
      }
      | inr strange ↦ record {
        phase_kept = ground (arith, strange, a.phase_kept);
        baseline_kept = ground (arith, strange, a.baseline_kept);
        new_kept = ground (arith, strange, a.new_kept);
        alerts_kept = ground (arith, strange, a.alerts_kept);
        counted = ground (arith, strange, a.counted);
        reported = ground (arith, strange, a.reported);
      }
    ]

pub handle_exits-Left :
    (curr prev : Map ℤ ProcSnapshot) (p : ProcessAngel)
    → Left (missing_from curr prev) p (handle_exits curr prev p)
unfolding handle_exits
handle_exits-Left curr [] p = record {
  phase_kept = refl;
  baseline_kept = refl;
  new_kept = refl;
  alerts_kept = refl;
  counted = omega arith;
  reported = sym (append-nil p.sent);
}
handle_exits-Left curr ((pid, snap) ∷ rest) p = elim (Bool-cases (has pid curr)) [
  | inl alive ↦ rw alive (handle_exits-Left curr rest p)
  | inr gone ↦ rw gone (
      handle_exit-Left snap (missing_from curr rest) p (handle_exits curr rest (handle_exit snap p))
        (handle_exits-Left curr rest (handle_exit snap p)))
]
