-- ===== src/Lab/Supervisor/Policy.antt =====
-- The restart policy of `runAngel`: both of its branches, and a whole round of it.
use angellab.Prelude.{
  ℕ, ◌+◌, ◌<◌, ◌≡◌, refl, true, false, none, some, List, [], ◌∷◌, arith, if◌then◌else◌, bytes_eq,
  leb, ap, ◌∙◌, Bool-cases, inl, inr,
}
use angellab.Lab.Conn
use angellab.Lab.Conn.{state_beq, recovering, connecting}
use angellab.Registry.{
  AngelId, Angel, Registry, get_angel, update_state, update_pid, state_training, state_unstable,
  state_contained, state_terminated,
}
use angellab.Registry.Recovery.{find-update, increment_restarts_counts}
use angellab.Lab.Supervisor.{Env, Effect, terminate_angel, reset_conn}
use angellab.Lab.Supervisor.Health.{get_angel-update_state}
use angellab.Lab.Supervisor.Restarts.{starts}
use angellab.Lab.Supervisor.Worker.{
  World, running, exited, settling, deciding, backing_off, stopped, Op, Limits, decide, worker,
  step, run, start_succeeds, exits, inspects, waited, decides, backoff_over, terminates,
}

get_angel-update_pid :
    (now : ℕ) (id : AngelId) (pid : ℕ) (r : Registry) (a : Angel)
    → get_angel id r ≡ some a
    → get_angel id (update_pid true now id pid r) ≡ some (record a { pid = pid; updated_at = now })
unfolding get_angel update_pid
get_angel-update_pid now id pid r a h = ground (
  arith,
  bytes_eq.eqb_iff id id,
  find-update (λ a. record a { pid = pid; updated_at = now }) id id r.angels (λ a. refl),
)

-- The policy counts one restart, in the row and in the entry. Below the limit the goroutine waits
-- for the backoff and the row keeps its state; at the limit the goroutine ends and the row is
-- CONTAINED. The state of the entry does not change in either case.
decide_outcome :
    (limits : Limits) (env : Env) (w : World) (a : Angel)
    → ((k : ℕ) → env.db k ≡ true)
    → get_angel w.entry.id w.reg ≡ some a
    → let w' = decide limits env w in
      let over = leb limits.max_restarts (a.restart_count + 1) in
      (w'.entry.restart_count ≡ a.restart_count + 1)
      × (w'.entry.state ≡ w.entry.state)
      × (w'.stage ≡ (if over then stopped else backing_off))
      × (get_angel w.entry.id w'.reg
          ≡ some (record a {
            state = if over then state_contained else a.state;
            restart_count = a.restart_count + 1;
            updated_at = w.now;
          }))
unfolding decide
decide_outcome limits env w a ok row =
    let (answer, stored) = increment_restarts_counts w.now w.entry.id w.reg a row in
    elim (Bool-cases (leb limits.max_restarts (a.restart_count + 1))) [
      | inl reached ↦
          rw (ok 0, ok 1, ok 2, answer, reached)
            (refl, refl, refl, get_angel-update_state w.now w.entry.id state_contained _ _ stored)
      | inr below ↦ rw (ok 0, ok 1, answer, below) (refl, refl, refl, stored)
    ]

-- an environment in which every SQL statement succeeds
abbrev pub calm : Env
calm = record { db = λ k. true; cmdline = λ pid. none }

-- one round: the process ends, the policy is applied, and the next process starts
abbrev pub round : ℕ → List (Op × Env)
round pid =
    (exits, calm)
    ∷ (inspects, calm)
    ∷ (waited, calm)
    ∷ (decides, calm)
    ∷ (backoff_over, calm)
    ∷ (start_succeeds pid, calm)
    ∷ []

-- An angel that has been started again.
pub record IsRestarted (pid count : ℕ) (w : World) (effects : List Effect) : Type 0 where
  pub waits : w.stage ≡ running
  pub new_pid : w.entry.pid ≡ pid
  pub counted : w.entry.restart_count ≡ count
  pub unconnected : w.entry.conn ≡ none
  pub unheard : w.entry.last_heartbeat ≡ none
  pub link_fresh : w.entry.link.tracker.state ≡ connecting
  pub row : Angel
  pub stored : get_angel w.entry.id w.reg ≡ some row
  pub row_training : row.state ≡ state_training
  pub row_pid : row.pid ≡ pid
  pub row_count : row.restart_count ≡ count
  pub spawned : starts effects ≡ 1

-- the world after `exits`, `inspects` and `waited`
abbrev ended : World → World
ended w = record w {
  stage = deciding;
  entry = record w.entry { state = state_unstable; conn = none };
}

module _ (limits : Limits) where
  silent :
      (op : Op) (env : Env) (rest : List (Op × Env)) (w w' : World)
      → step limits env op w ≡ (w', [])
      → run limits ((op, env) ∷ rest) w ≡ run limits rest w'
  unfolding run
  silent op env rest w w' e = rw e

  run-ended :
      (rest : List (Op × Env)) (w : World)
      → w.stage ≡ running
      → run limits ((exits, calm) ∷ (inspects, calm) ∷ (waited, calm) ∷ rest) w
        ≡ run limits rest (ended w)
  unfolding step worker
  run-ended rest w up =
      let w1 : World = record w {
        stage = exited;
        entry = record w.entry { state = state_unstable; conn = none };
      } in
      silent exits calm ((inspects, calm) ∷ (waited, calm) ∷ rest) w w1
        (ap (λ s. worker limits calm exits s w) up)
      ∙ elim (Bool-cases (state_beq w.entry.link.tracker.state recovering)) [
        | inl window ↦
            silent inspects calm ((waited, calm) ∷ rest) w1 (record w1 { stage = settling })
              (rw window)
            ∙ silent waited calm rest (record w1 { stage = settling }) (ended w) refl
        | inr no_window ↦
            silent inspects calm ((waited, calm) ∷ rest) w1 (ended w) (rw no_window)
            ∙ silent waited calm rest (ended w) (ended w) refl
      ]

  -- the rest of the round
  start_again :
      (w : World) (a : Angel) (pid : ℕ)
      → w.entry.conn ≡ none
      → get_angel w.entry.id w.reg ≡ some a
      → a.restart_count + 1 < limits.max_restarts
      → let (w', effects) =
          run limits
            ((decides, calm) ∷ (backoff_over, calm) ∷ (start_succeeds pid, calm) ∷ [])
            (record w { stage = deciding }) in
        IsRestarted pid (a.restart_count + 1) w' effects
  unfolding run step worker decide reset_conn Conn.reset
  start_again w a pid gone row room =
      let (answer, stored) = increment_restarts_counts w.now w.entry.id w.reg a row in
      let below : leb limits.max_restarts (a.restart_count + 1) ≡ false = ground arith in
      rw (answer, below)
        (record {
          waits = refl;
          new_pid = refl;
          counted = refl;
          unconnected = refl;
          unheard = refl;
          link_fresh = refl;
          row = record a {
            state = state_training;
            pid = pid;
            restart_count = a.restart_count + 1;
            updated_at = w.now;
          };
          stored =
              get_angel-update_pid w.now w.entry.id pid _ _
                (get_angel-update_state w.now w.entry.id state_training _ _ stored);
          row_training = refl;
          row_pid = refl;
          row_count = refl;
          spawned = refl;
        })

-- One uninterrupted round, in which every SQL statement succeeds and the next process can be started: a
-- process that ends while restarts are left is followed by another, with a link in CONNECTING and one
-- restart more on the count, in the entry and in the row.
pub crash_restarts :
    (limits : Limits) (w : World) (a : Angel) (pid : ℕ)
    → w.stage ≡ running
    → get_angel w.entry.id w.reg ≡ some a
    → a.restart_count + 1 < limits.max_restarts
    → let (w', effects) = run limits (round pid) w in
      IsRestarted pid (a.restart_count + 1) w' effects
crash_restarts limits w a pid up row room =
    rw
      (run-ended limits ((decides, calm) ∷ (backoff_over, calm) ∷ (start_succeeds pid, calm) ∷ []) w
        up)
      (start_again limits (ended w) a pid refl row room)

-- Termination does not end the goroutine. While restarts are left, when every SQL statement succeeds, no
-- other operation comes between and the next process can be started, an angel that `TerminateAngel` has
-- stopped is started again when its process ends, and its row goes from TERMINATED back to TRAINING.
pub terminated_angel_restarts :
    (limits : Limits) (w : World) (a : Angel) (pid : ℕ)
    → w.stage ≡ running
    → get_angel w.entry.id w.reg ≡ some a
    → a.restart_count + 1 < limits.max_restarts
    → let (w1, _) = step limits calm terminates w in
      let (w2, effects) = run limits (round pid) w1 in
      ((b : Angel) × (get_angel w.entry.id w1.reg ≡ some b) × (b.state ≡ state_terminated))
      × IsRestarted pid (a.restart_count + 1) w2 effects
unfolding step terminate_angel
terminated_angel_restarts limits w a pid up row room =
    let stored = get_angel-update_state w.now w.entry.id state_terminated w.reg a row in
    (
      (record a { state = state_terminated; updated_at = w.now }, stored, refl),
      crash_restarts limits
          (record w { reg = update_state true w.now w.entry.id state_terminated w.reg })
          (record a { state = state_terminated; updated_at = w.now }) pid up stored room,
    )
