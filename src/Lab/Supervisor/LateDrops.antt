-- ===== src/Lab/Supervisor/LateDrops.antt =====
-- A drop that the handler of an old connection reports after the angel has come back.
use angellab.Prelude.{
  ℕ, ◌+◌, ◌≤◌, ◌≡◌, refl, ap, ◌∙◌, true, false, List, [], ◌∷◌, ◌++◌, arith, All, leb,
}
use angellab.Lab.Conn.{
  Timer, already_lost, recovering, recovery_window, transition, valid_transition, mark_lost,
  mark_recovered, fire, run_callback,
}
use angellab.Lab.Supervisor.{
  Env, sigterm, verify_angel_pid, register_conn, handle_heartbeat, mark_conn_lost, check_heartbeat,
  on_expired,
}
use angellab.Lab.Supervisor.Worker.{
  World, Op, Limits, registers, heartbeat, drops, checks, tick, due, callback, step, run, expire,
}

-- a heartbeat of the angel, a round of `checkHeartbeats` or the clock
abbrev pub IsSign : Op × Env → Type 0
IsSign (heartbeat hb, env) = Unit
IsSign (checks, env) = Unit
IsSign (tick d, env) = Unit
IsSign _ = ⊥

-- a process with a link that a drop would move
record IsLive (pid : ℕ) (w : World) : Type 0 where
  same_pid : w.entry.pid ≡ pid
  live : already_lost w.entry.link.tracker.state ≡ false

-- a process whose recovery window is open
record IsDoomed (pid : ℕ) (w : World) : Type 0 where
  same_pid : w.entry.pid ≡ pid
  window : w.entry.link.tracker.state ≡ recovering
  timer : Timer
  others : List Timer
  armed : w.entry.link.timers.armed ≡ timer ∷ others
  calls : timer.callback ≡ true
  soon : timer.deadline ≤ w.now + recovery_window

module _ (limits : Limits) (pid : ℕ) where
  sign-IsLive :
      (op : Op) (env : Env) (w : World)
      → IsSign (op, env)
      → IsLive pid w
      → IsLive pid (step limits env op w).0 × ((step limits env op w).1 ≡ [])
  unfolding step handle_heartbeat check_heartbeat transition valid_transition
  sign-IsLive (heartbeat hb) env w s h =
      (record { same_pid = ground (arith, h.same_pid); live = ground (arith, h.live) }, refl)
  sign-IsLive checks env w s h =
      (record { same_pid = ground (arith, h.same_pid); live = ground (arith, h.live) }, refl)
  sign-IsLive (tick d) env w s h = (record { same_pid = h.same_pid; live = h.live }, refl)
  sign-IsLive op env w s h = absurd s

  sign-IsDoomed :
      (op : Op) (env : Env) (w : World)
      → IsSign (op, env)
      → IsDoomed pid w
      → IsDoomed pid (step limits env op w).0 × ((step limits env op w).1 ≡ [])
  unfolding step handle_heartbeat check_heartbeat transition valid_transition
  sign-IsDoomed (heartbeat hb) env w s h = (
    record {
      same_pid = ground (arith, h.same_pid);
      window = ground (arith, h.window);
      timer = h.timer;
      others = h.others;
      armed = ground (arith, h.armed);
      calls = h.calls;
      soon = ground (arith, h.soon);
    },
    refl,
  )
  sign-IsDoomed checks env w s h = (
    record {
      same_pid = ground (arith, h.same_pid);
      window = ground (arith, h.window);
      timer = h.timer;
      others = h.others;
      armed = ground (arith, h.armed);
      calls = h.calls;
      soon = ground (arith, h.soon);
    },
    refl,
  )
  sign-IsDoomed (tick d) env w s h = (
    record {
      same_pid = h.same_pid;
      window = h.window;
      timer = h.timer;
      others = h.others;
      armed = h.armed;
      calls = h.calls;
      soon = omega (arith, h.soon);
    },
    refl,
  )
  sign-IsDoomed op env w s h = absurd s

  -- signs of life keep `P` and send nothing
  run-signs :
      (P : World → Type 0)
      → ((op : Op) (env : Env) (w : World)
          → IsSign (op, env)
          → P w
          → P (step limits env op w).0 × ((step limits env op w).1 ≡ []))
      → (ops rest : List (Op × Env)) (w : World) → All IsSign ops
      → P w
      → (w' : World) × P w' × ((run limits (ops ++ rest) w).1 ≡ (run limits rest w').1)
  unfolding run
  run-signs P keeps [] rest w signs h = (w, h, refl)
  run-signs P keeps ((op, env) ∷ ops) rest w (sign, signs) h =
      let (h', silent) = keeps op env w sign h in
      let (w', end, same) = run-signs P keeps ops rest (step limits env op w).0 signs h' in
      (
        w',
        end,
        ap (λ es. es ++ (run limits (ops ++ rest) (step limits env op w).0).1) silent ∙ same,
      )

  -- the window runs out
  doomed_ends :
      (env : Env) (w : World)
      → verify_angel_pid env.cmdline pid ≡ true
      → IsDoomed pid w
      → (run limits ((tick recovery_window, env) ∷ (due 0, env) ∷ (callback 0, env) ∷ []) w).1
        ≡ sigterm pid ∷ []
  unfolding run step expire fire run_callback on_expired
  doomed_ends env w verified h =
      let due_now : leb h.timer.deadline (w.now + recovery_window) ≡ true =
        ground (arith, h.soon) in
      rw (h.armed, due_now, h.window, h.calls, h.same_pid, verified) refl

  registers-IsLive :
      (env : Env) (conn : ℕ) (w : World)
      → w.entry.pid ≡ pid
      → IsLive pid (step limits env (registers conn) w).0
  unfolding step register_conn mark_recovered transition valid_transition
  registers-IsLive env conn w same = record { same_pid = same; live = refl }

  drops-IsDoomed : (env : Env) (w : World) → IsLive pid w → IsDoomed pid (step limits env drops w).0
  unfolding step mark_conn_lost mark_lost
  drops-IsDoomed env w h = rw (h.live) (record {
    same_pid = h.same_pid;
    window = refl;
    timer = record {
      handle = w.entry.link.timers.next_handle;
      deadline = w.now + recovery_window;
      callback = true;
    };
    others = _;
    armed = refl;
    calls = refl;
    soon = omega arith;
  })

-- An angel registers on a new connection, and then the handler of an old one reports its end, which
-- `MarkConnLost` cannot tell from the end of the new one. However many heartbeats arrive on the new
-- connection before and after, nothing closes the recovery window: when it ends and its timer's callback
-- runs at once, the process is sent SIGTERM if /proc shows it to be an angel, and nothing else is sent.
pub late_drop_kills :
    (limits : Limits) (env : Env) (w : World) (new : ℕ) (before after : List (Op × Env))
    → All IsSign before
    → All IsSign after
    → verify_angel_pid env.cmdline w.entry.pid ≡ true
    → let ends : List (Op × Env) =
        (tick recovery_window, env) ∷ (due 0, env) ∷ (callback 0, env) ∷ [] in
      let ops : List (Op × Env) =
        (registers new, env) ∷ (before ++ (drops, env) ∷ (after ++ ends)) in
      (run limits ops w).1 ≡ sigterm w.entry.pid ∷ []
unfolding run
late_drop_kills limits env w new before after signs signs' verified =
    let pid = w.entry.pid in
    let ends : List (Op × Env) =
      (tick recovery_window, env) ∷ (due 0, env) ∷ (callback 0, env) ∷ [] in
    let rest : List (Op × Env) = (drops, env) ∷ (after ++ ends) in
    let (w1, live, first) =
      run-signs limits pid (IsLive pid) (sign-IsLive limits pid) before rest
        (step limits env (registers new) w).0 signs (registers-IsLive limits pid env new w refl) in
    let (w2, doomed, second) =
      run-signs limits pid (IsDoomed pid) (sign-IsDoomed limits pid) after ends
        (step limits env drops w1).0 signs' (drops-IsDoomed limits pid env w1 live) in
    first ∙ second ∙ doomed_ends limits pid env w2 verified doomed
