-- ===== src/Process/Learning.antt =====
-- What the angel learns in training: the arrivals, and nothing of the processes that are there already.
use angellab.Prelude.{
  ℕ, ◌+◌, ◌≡◌, ◌≢◌, refl, ap, ◌∙◌, Bool, false, ◌&&◌, ◌||◌, List, [], ◌∷◌, arith, inl, inr,
  Bool-cases, bytes_eq, ◌==◌,
}
use angellab.Prelude.Map.{Map, has}
use angellab.Prelude.Int.{ℤ, int_eq}
use angellab.Prelude.Text.{Text}
use angellab.Process.{
  ProcSnapshot, Config, ProcBaseline, ProcFs, ProcessAngel, training, knows_exe, knows_comm,
  observe, handle_counted, handle_new, handle_arrivals, poll, snapshot, is_active,
}
use angellab.Process.Loops.{missing_from}
use angellab.Process.Whitelist.{has-insert}

-- whether one of the processes has the executable, and the name
abbrev pub any_exe : Text → List ProcSnapshot → Bool
any_exe e [] = false
any_exe e (snap ∷ rest) = snap.exe_path == e || any_exe e rest

abbrev pub any_comm : Text → List ProcSnapshot → Bool
any_comm c [] = false
any_comm c (snap ∷ rest) = snap.comm == c || any_comm c rest

record Learned (snaps : List ProcSnapshot) (p p' : ProcessAngel) : Type 0 where
  pub phase_kept : p'.phase ≡ training
  pub still_open : p'.baseline.frozen ≡ false
  pub silent : p'.sent ≡ p.sent
  pub exes_learned :
      (e : Text) → e ≢ [] → knows_exe p'.baseline e ≡ (knows_exe p.baseline e || any_exe e snaps)
  pub comms_learned :
      (c : Text) → knows_comm p'.baseline c ≡ (knows_comm p.baseline c || any_comm c snaps)

observe-Learned :
    (cfg : Config) (snap : ProcSnapshot) (rest : List ProcSnapshot) (p p' : ProcessAngel)
    → p.baseline.frozen ≡ false
    → Learned rest (handle_counted cfg training snap p) p'
    → Learned (snap ∷ rest) p p'
unfolding observe
observe-Learned cfg snap rest p p' on l = record {
  phase_kept = l.phase_kept;
  still_open = l.still_open;
  silent = l.silent;
  exes_learned = λ e filled. ground (
    arith,
    on,
    filled,
    l.exes_learned e filled,
    has-insert snap.exe_path e p.baseline.exes,
    bytes_eq.eqb_iff snap.exe_path [],
    bytes_eq.eqb_iff snap.exe_path e,
  );
  comms_learned = λ c. ground (
    arith,
    on,
    l.comms_learned c,
    has-insert snap.comm c p.baseline.comms,
    bytes_eq.eqb_iff snap.comm c,
  );
}

handle_new-training :
    (cfg : Config) (snap : ProcSnapshot) (p : ProcessAngel)
    → p.phase ≡ training
    → handle_new cfg snap p
      ≡ handle_counted cfg training snap (record p { total_new = p.total_new + 1 })
unfolding handle_new
handle_new-training cfg snap p train =
    ap (λ ph. handle_counted cfg ph snap (record p { total_new = p.total_new + 1 })) train

open_after : (snap : ProcSnapshot) (b : ProcBaseline) → (observe snap b).frozen ≡ b.frozen
unfolding observe
open_after snap b = ground arith

handle_arrivals-Learned :
    (cfg : Config) (prev curr : Map ℤ ProcSnapshot) (p : ProcessAngel)
    → p.phase ≡ training
    → p.baseline.frozen ≡ false
    → Learned (missing_from prev curr) p (handle_arrivals cfg prev curr p)
unfolding handle_arrivals
handle_arrivals-Learned cfg prev [] p train on = record {
  phase_kept = train;
  still_open = on;
  silent = refl;
  exes_learned = λ e filled. ground arith;
  comms_learned = λ c. ground arith;
}
handle_arrivals-Learned cfg prev ((pid, snap) ∷ rest) p train on =
    elim (Bool-cases (has pid prev)) [
      | inl seen ↦ rw seen (handle_arrivals-Learned cfg prev rest p train on)
      | inr fresh ↦
          let counted : ProcessAngel = record p { total_new = p.total_new + 1 } in
          let next = handle_counted cfg training snap counted in
          let l =
            observe-Learned cfg snap (missing_from prev rest) counted
              (handle_arrivals cfg prev rest next) on
              (handle_arrivals-Learned cfg prev rest next train
                (open_after snap p.baseline ∙ on)) in
          rw (fresh, handle_new-training cfg snap p train)
            (record {
              phase_kept = l.phase_kept;
              still_open = l.still_open;
              silent = l.silent;
              exes_learned = l.exes_learned;
              comms_learned = l.comms_learned;
            })
    ]

pub record IsLearned (curr : Map ℤ ProcSnapshot) (p p' : ProcessAngel) : Type 0 where
  pub phase_kept : p'.phase ≡ training
  pub still_open : p'.baseline.frozen ≡ false
  pub silent : p'.sent ≡ p.sent
  pub table_kept : p'.prev ≡ curr
  pub exes_learned :
      (e : Text)
      → e ≢ []
      → knows_exe p'.baseline e ≡ (knows_exe p.baseline e || any_exe e (missing_from p.prev curr))
  pub comms_learned :
      (c : Text)
      → knows_comm p'.baseline c
        ≡ (knows_comm p.baseline c || any_comm c (missing_from p.prev curr))

-- A poll in training sends nothing, and afterwards the baseline knows an executable or a name exactly
-- if it knew it before or a process that has appeared since the last poll has it.
pub poll-IsLearned :
    (cfg : Config) (fs : ProcFs) (now : ℕ) (p : ProcessAngel)
    → p.phase ≡ training
    → p.baseline.frozen ≡ false
    → IsLearned (snapshot fs now) p (poll cfg fs now p)
unfolding poll
poll-IsLearned cfg fs now p train on =
    let l = handle_arrivals-Learned cfg p.prev (snapshot fs now) p train on in
    let p' = handle_arrivals cfg p.prev (snapshot fs now) p in
    let off : (cfg.alert_on_exit && is_active p'.phase) ≡ false =
      ground (arith, ap is_active l.phase_kept) in
    rw off (record {
      phase_kept = l.phase_kept;
      still_open = l.still_open;
      silent = l.silent;
      table_kept = refl;
      exes_learned = l.exes_learned;
      comms_learned = l.comms_learned;
    })
