-- ===== src/Lab/Supervisor/Worker.antt =====
-- internal/lab/supervisor.go, `runAngel`: the goroutine of one angel as a state machine. A `Stage` is
-- a place where it waits or where another goroutine can come between; a step that the stage does not
-- allow changes nothing.
use angellab.Prelude.{ℕ, ◌+◌, Option, none, some, List, [], ◌∷◌, ◌++◌, if◌then◌else◌, leb}
use angellab.Lab.Conn
use angellab.Lab.Conn.{state_beq, recovering, fire, run_callback}
use angellab.Registry.{
  Registry, state_training, state_unstable, state_contained, state_terminated, update_state,
  update_pid, increment_restarts,
}
use angellab.Lab.Supervisor.{
  AngelEntry, Env, Effect, started, HeartbeatPayload, register_conn, handle_heartbeat,
  mark_conn_lost, on_expired, check_heartbeat, terminate_angel, reset_conn,
}

pub data Stage : Type 0 where
  starting running exited settling deciding backing_off stopped : Stage

pub record World : Type 0 where
  pub now : ℕ
  pub stage : Stage
  pub entry : AngelEntry
  pub reg : Registry

-- [supervisor] of the configuration, as far as it is read here
pub record Limits : Type 0 where
  pub max_restarts : ℕ
  pub heartbeat_timeout : ℕ

-- The steps of the goroutine itself, then those of the others.
pub data Op : Type 0 where
  start_succeeds : ℕ → Op  -- cmd.Start() answers with this pid
  start_fails : Op
  exits : Op  -- cmd.Wait() returns
  inspects : Op  -- ConnTrack.State() is read
  waited : Op  -- half a second has passed
  decides : Op
  backoff_over : Op
  cancelled : Op  -- ctx.Done()
  registers : ℕ → Op
  heartbeat : HeartbeatPayload → Op
  drops checks terminates : Op
  tick due callback : ℕ → Op

abbrev pub count_or_zero : Option ℕ → ℕ
count_or_zero none = 0
count_or_zero (some n) = n

-- the restart policy: on an error of `IncrementRestarts` the count is 0
unfoldable pub decide : Limits → Env → World → World
decide limits env w =
    let (reg, answer) = increment_restarts (env.db 0) (env.db 1) w.now w.entry.id w.reg in
    let count = count_or_zero answer in
    let w' : World = record w { entry = record w.entry { restart_count = count }; reg = reg } in
    if leb limits.max_restarts count
    then record w' {
      stage = stopped;
      reg = update_state (env.db 2) w.now w.entry.id state_contained reg;
    }
    else record w' { stage = backing_off }

abbrev pub give_up : Env → World → World
give_up env w = record w {
  stage = stopped;
  reg = update_state (env.db 0) w.now w.entry.id state_terminated w.reg;
}

unfoldable pub worker : Limits → Env → Op → Stage → World → World × List Effect
worker limits env (start_succeeds pid) starting w = (
  record w {
    stage = running;
    entry = record w.entry { pid = pid; started_at = w.now };
    reg =
        update_pid (env.db 1) w.now w.entry.id pid
          (update_state (env.db 0) w.now w.entry.id state_training w.reg);
  },
  started pid ∷ [],
)
worker limits env start_fails starting w = (
  record w { stage = stopped; reg = update_state (env.db 0) w.now w.entry.id state_unstable w.reg },
  [],
)
worker limits env exits running w = (
  record w { stage = exited; entry = record w.entry { state = state_unstable; conn = none } },
  [],
)
worker limits env inspects exited w = (
  record w {
    stage = if state_beq w.entry.link.tracker.state recovering then settling else deciding;
  },
  [],
)
worker limits env waited settling w = (record w { stage = deciding }, [])
worker limits env cancelled settling w = (give_up env w, [])
worker limits env decides deciding w = (decide limits env w, [])
worker limits env backoff_over backing_off w =
    (record w { stage = starting; entry = reset_conn w.entry }, [])
worker limits env cancelled backing_off w = (give_up env w, [])
worker limits env op stage w = (w, [])

-- the two results of a handler
abbrev pub with_parts : World → AngelEntry × Registry → World
with_parts w (e, r) = record w { entry = e; reg = r }

abbrev pub set_link : AngelEntry → Conn.Link → AngelEntry
set_link e link = record e { link = link }

-- a callback of the recovery timer
unfoldable pub expire : Env → ℕ → World → World × List Effect
expire env k w =
    let (link, fired) = run_callback k w.entry.link in
    (record w { entry = set_link w.entry link }, if fired then on_expired env w.entry else [])

unfoldable pub step : Limits → Env → Op → World → World × List Effect
step limits env (registers conn) w = (with_parts w (register_conn env w.now conn w.entry w.reg), [])
step limits env (heartbeat hb) w = (with_parts w (handle_heartbeat env w.now hb w.entry w.reg), [])
step limits env drops w = (record w { entry = mark_conn_lost w.now w.entry }, [])
step limits env checks w =
    (with_parts w (check_heartbeat env limits.heartbeat_timeout w.now w.entry w.reg), [])
step limits env terminates w =
    let (reg, effects) = terminate_angel env w.now w.entry w.reg in
    (record w { reg = reg }, effects)
step limits env (tick d) w = (record w { now = w.now + d }, [])
step limits env (due k) w = (
  record w {
    entry = set_link w.entry (record w.entry.link { timers = fire w.now k w.entry.link.timers });
  },
  [],
)
step limits env (callback k) w = expire env k w
step limits env op w = worker limits env op w.stage w

unfoldable pub run : Limits → List (Op × Env) → World → World × List Effect
unfolding step
run limits [] w = (w, [])
run limits ((op, env) ∷ rest) w =
    let (w', effects) = step limits env op w in
    let (w'', more) = run limits rest w' in (w'', effects ++ more)
