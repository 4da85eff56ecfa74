-- ===== src/Process/Whitelist.antt =====
-- A whitelisted executable never alerts, in a whole run of the angel.
use angellab.Prelude.{
  ℕ, ◌≡◌, refl, Bool, true, false, not, ◌&&◌, ◌||◌, List, [], ◌∷◌, arith, inl, inr, Bool-cases,
  bytes_eq, ◌==◌, All, All-append, nat_beq,
}
use angellab.Prelude.Map.{Map, has, insert}
use angellab.Prelude.Map.Laws.{lookup-insert}
use angellab.Prelude.Int.{ℤ, int_eq}
use angellab.Prelude.Text.{Text}
use angellab.Process.{
  ProcSnapshot, Config, ProcBaseline, ProcFs, ProcessAngel, Phase, training, active, Event,
  new_process, exited, baseline_complete, any_equal, missing_exe, knows_exe, observe, freeze, level,
  score_process, judge, handle_counted, handle_new, handle_exit, handle_arrivals, handle_exits,
  poll_table, poll, snapshot, finalise_baseline, seed, start, Tick, baseline_over, polled, tick,
  run, is_active,
}
use angellab.Process.Scores.{whitelisted_exe_silent}

pub has-insert :
    (k j : Text) (m : Map Text (Unit {0})) → has j (insert k tt m) ≡ (k == j || has j m)
has-insert k j m = ground (arith, lookup-insert k j tt m)

pub has-seed :
    (ts : List Text) (m : Map Text (Unit {0})) (t : Text)
    → has t (seed ts m) ≡ (any_equal ts t || has t m)
has-seed [] m t = refl
has-seed (u ∷ ts) m t = ground (
  arith,
  has-seed ts (insert u tt m) t,
  has-insert u t m,
  bytes_eq.eqb_iff u t,
  bytes_eq.eqb_iff t u,
)

-- a process that is whitelisted by its executable, which can be read
abbrev pub is_exempt : Config → ProcSnapshot → Bool
is_exempt cfg snap = any_equal cfg.whitelist_exes snap.exe_path && not (missing_exe snap)

abbrev pub IsAllowed : Config → Event → Type 0
IsAllowed cfg (new_process lvl snap score) = is_exempt cfg snap ≡ false
IsAllowed cfg (exited snap) = Unit
IsAllowed cfg (baseline_complete exes comms) = Unit

record IsSound (cfg : Config) (p : ProcessAngel) : Type 0 where
  seeded : (t : Text) → any_equal cfg.whitelist_exes t ≡ true → knows_exe p.baseline t ≡ true
  allowed : All (IsAllowed cfg) p.sent

knows_exe-observe :
    (snap : ProcSnapshot) (b : ProcBaseline) (t : Text)
    → knows_exe b t ≡ true
    → knows_exe (observe snap b) t ≡ true
unfolding observe
knows_exe-observe snap b t known = ground (arith, known, has-insert snap.exe_path t b.exes)

judge-IsSound :
    (cfg : Config) (snap : ProcSnapshot) (p : ProcessAngel)
    → IsSound cfg p
    → IsSound cfg (judge snap (score_process cfg p.baseline snap) p)
judge-IsSound cfg snap p sound =
    let score = score_process cfg p.baseline snap in
    elim (Bool-cases (nat_beq (level score) 0)) [
      | inl quiet ↦ rw quiet sound
      | inr loud ↦
          let mine : is_exempt cfg snap ≡ false =
            ground (
              arith,
              loud,
              whitelisted_exe_silent cfg p.baseline snap,
              sound.seeded snap.exe_path,
            ) in
          rw loud (record {
            seeded = sound.seeded;
            allowed = All-append (IsAllowed cfg) p.sent _ sound.allowed (mine, tt);
          })
    ]

handle_counted-IsSound :
    (cfg : Config) (phase : Phase) (snap : ProcSnapshot) (p : ProcessAngel)
    → IsSound cfg p
    → IsSound cfg (handle_counted cfg phase snap p)
handle_counted-IsSound cfg training snap p sound = record {
  seeded = λ t listed. knows_exe-observe snap p.baseline t (sound.seeded t listed);
  allowed = sound.allowed;
}
handle_counted-IsSound cfg active snap p sound = judge-IsSound cfg snap p sound

handle_new-IsSound :
    (cfg : Config) (snap : ProcSnapshot) (p : ProcessAngel)
    → IsSound cfg p
    → IsSound cfg (handle_new cfg snap p)
unfolding handle_new
handle_new-IsSound cfg snap p sound =
    handle_counted-IsSound cfg p.phase snap _
      (record { seeded = sound.seeded; allowed = sound.allowed })

handle_exit-IsSound :
    (cfg : Config) (snap : ProcSnapshot) (p : ProcessAngel)
    → IsSound cfg p
    → IsSound cfg (handle_exit snap p)
unfolding handle_exit
handle_exit-IsSound cfg snap p sound =
    elim (Bool-cases
      (not (knows_exe p.baseline snap.exe_path) && not (has snap.comm p.baseline.comms))) [
        | inl strange ↦ rw strange (record { seeded = sound.seeded; allowed = sound.allowed })
        | inr known ↦ rw known (record {
          seeded = sound.seeded;
          allowed = All-append (IsAllowed cfg) p.sent _ sound.allowed (tt, tt);
        })
      ]

handle_arrivals-IsSound :
    (cfg : Config) (prev curr : Map ℤ ProcSnapshot) (p : ProcessAngel)
    → IsSound cfg p
    → IsSound cfg (handle_arrivals cfg prev curr p)
unfolding handle_arrivals
handle_arrivals-IsSound cfg prev [] p sound = sound
handle_arrivals-IsSound cfg prev ((pid, snap) ∷ rest) p sound = elim (Bool-cases (has pid prev)) [
  | inl seen ↦ rw seen (handle_arrivals-IsSound cfg prev rest p sound)
  | inr fresh ↦ rw fresh (
      handle_arrivals-IsSound cfg prev rest (handle_new cfg snap p)
        (handle_new-IsSound cfg snap p sound))
]

handle_exits-IsSound :
    (cfg : Config) (curr prev : Map ℤ ProcSnapshot) (p : ProcessAngel)
    → IsSound cfg p
    → IsSound cfg (handle_exits curr prev p)
unfolding handle_exits
handle_exits-IsSound cfg curr [] p sound = sound
handle_exits-IsSound cfg curr ((pid, snap) ∷ rest) p sound = elim (Bool-cases (has pid curr)) [
  | inl alive ↦ rw alive (handle_exits-IsSound cfg curr rest p sound)
  | inr gone ↦ rw gone (
      handle_exits-IsSound cfg curr rest (handle_exit snap p)
        (handle_exit-IsSound cfg snap p sound))
]

poll_table-IsSound :
    (cfg : Config) (curr : Map ℤ ProcSnapshot) (p : ProcessAngel)
    → IsSound cfg p
    → IsSound cfg (poll_table cfg curr p)
unfolding poll_table
poll_table-IsSound cfg curr p sound =
    let p' = handle_arrivals cfg p.prev curr p in
    let sound' = handle_arrivals-IsSound cfg p.prev curr p sound in
    elim (Bool-cases (cfg.alert_on_exit && is_active p'.phase)) [
      | inl watched ↦
          let done = handle_exits-IsSound cfg curr p.prev p' sound' in
          rw watched (record { seeded = done.seeded; allowed = done.allowed })
      | inr ignored ↦ rw ignored (record { seeded = sound'.seeded; allowed = sound'.allowed })
    ]

finalise_baseline-IsSound :
    (cfg : Config) (p : ProcessAngel) → IsSound cfg p → IsSound cfg (finalise_baseline p)
unfolding finalise_baseline freeze
finalise_baseline-IsSound cfg p sound = record {
  seeded = sound.seeded;
  allowed = All-append (IsAllowed cfg) p.sent _ sound.allowed (tt, tt);
}

tick-IsSound :
    (cfg : Config) (t : Tick) (p : ProcessAngel) → IsSound cfg p → IsSound cfg (tick cfg t p)
unfolding tick poll
tick-IsSound cfg baseline_over p sound = elim (Bool-cases (is_active p.phase)) [
  | inl late ↦ rw late sound
  | inr first ↦ rw first (finalise_baseline-IsSound cfg p sound)
]
tick-IsSound cfg (polled fs now) p sound = poll_table-IsSound cfg (snapshot fs now) p sound

run-IsSound :
    (cfg : Config) (ts : List Tick) (p : ProcessAngel) → IsSound cfg p → IsSound cfg (run cfg ts p)
unfolding run
run-IsSound cfg [] p sound = sound
run-IsSound cfg (t ∷ ts) p sound = run-IsSound cfg ts (tick cfg t p) (tick-IsSound cfg t p sound)

start-IsSound : (cfg : Config) (fs : ProcFs) (now : ℕ) → IsSound cfg (start cfg fs now)
unfolding start
start-IsSound cfg fs now = record {
  seeded = λ t listed. ground (arith, listed, has-seed cfg.whitelist_exes [] t);
  allowed = tt;
}

-- In no run of the angel, whatever is polled and whenever the training ends, is there an alert for a
-- process of a whitelisted executable that can be read.
pub whitelist_never_alerts :
    (cfg : Config) (fs : ProcFs) (now : ℕ) (ts : List Tick)
    → All (IsAllowed cfg) (run cfg ts (start cfg fs now)).sent
whitelist_never_alerts cfg fs now ts =
    (run-IsSound cfg ts (start cfg fs now) (start-IsSound cfg fs now)).allowed
