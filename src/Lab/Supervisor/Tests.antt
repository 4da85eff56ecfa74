-- ===== src/Lab/Supervisor/Tests.antt =====
-- One angel from its start to its containment, and the table around it.
use angellab.Prelude.{
  ◌++◌, ◌-◌, ◌≤◌, ◌≡◌, refl, max, none, some, List, [], ◌∷◌, true, bytes_eq, All, arith,
}
use angellab.Lab.Conn.{recovery_window}
use angellab.Registry.{
  AngelId, Angel, Registry, new_registry, get_angel, state_training, state_active, state_terminated,
  list_recoverable,
}
use angellab.Lab.Supervisor.{
  sigterm, verify_angel_pid, AngelConfig, AngelEntry, Env, Effect, HeartbeatPayload,
}
use angellab.Lab.Supervisor.Worker.{
  due, callback, heartbeat, drops, tick, due, tick, Op, World, starting, running, Limits, step, run,
  registers, terminates, exits, inspects, decides, start_succeeds,
}
use angellab.Lab.Supervisor.Restarts.{starts, starts_bounded}
use angellab.Lab.Supervisor.Policy.{
  calm, round, IsRestarted, crash_restarts, terminated_angel_restarts,
}
use angellab.Lab.Supervisor.LateDrops.{late_drop_kills}
use angellab.Lab.Supervisor.Table.{Codec, Supervisor, new_entry, boot_recovery}
use angellab.Lab.Supervisor.Boot.{IsSpawned, IsVerified, boot_recovery_respawns}

-- "A-01"
abbrev first_id : AngelId
first_id = 65 ∷ 45 ∷ 48 ∷ 49 ∷ []

abbrev row : Angel
row = record {
  id = first_id;
  angel_type = "memory";
  state = state_training;
  pid = 41;
  created_at = 5;
  updated_at = 9;
  restart_count = 2;
  last_seen = none;
  config_json = "cfg";
}

abbrev reg : Registry
reg = record new_registry { angels = row ∷ [] }

abbrev entry : AngelEntry
entry = record (new_entry first_id "memory" "cfg") { pid = 41 }

abbrev limits : Limits
limits = record { max_restarts = 5; heartbeat_timeout = 30 }

abbrev started_world : World
started_world = record { now = 100; stage = running; entry = entry; reg = reg }

abbrev hb : HeartbeatPayload
hb = record {
  angel_id = first_id;
  state = "ACTIVE";
  uptime = 1;
  rss_bytes = 4096;
  goroutines = 8;
  fd_count = 5;
}

starts_bounded_example :
    starts
      (run limits
        ((start_succeeds 42, calm)
          ∷ (registers 1, calm)
          ∷ (exits, calm)
          ∷ (inspects, calm)
          ∷ (decides, calm)
          ∷ [])
        (record started_world { stage = starting })).1
    ≤ max 1 (5 - 2)
unfolding get_angel
starts_bounded_example =
    starts_bounded limits
      ((start_succeeds 42, calm)
        ∷ (registers 1, calm)
        ∷ (exits, calm)
        ∷ (inspects, calm)
        ∷ (decides, calm)
        ∷ [])
      (record started_world { stage = starting }) row
      (λ k. refl, (λ k. refl, (λ k. refl, (λ k. refl, (λ k. refl, tt))))) refl refl

crash_restarts_example :
    let (w', effects) = run limits (round 43) started_world in IsRestarted 43 3 w' effects
unfolding get_angel
crash_restarts_example = crash_restarts limits started_world row 43 refl refl (omega arith)

terminated_angel_restarts_example :
    let (w1, _) = step limits calm terminates started_world in
    let (w2, effects) = run limits (round 43) w1 in
    ((b : Angel) × (get_angel first_id w1.reg ≡ some b) × (b.state ≡ state_terminated))
    × IsRestarted 43 3 w2 effects
unfolding get_angel
terminated_angel_restarts_example =
    terminated_angel_restarts limits started_world row 43 refl refl (omega arith)

abbrev silent_entry : AngelEntry
silent_entry = record entry { state = state_active; last_heartbeat = some 50 }

abbrev one_angel : Supervisor
one_angel = record {
  angels = (first_id, record { stage = running; entry = entry }) ∷ [];
  reg = reg;
}

-- a codec for configurations of which only the kind and the id matter
abbrev codec : Codec
codec = record { marshal = λ cfg. some "cfg"; unmarshal = λ text cfg. cfg }

abbrev unnamed : AngelConfig
unnamed = record {
  kind = "memory";
  id = [];
  paths = [];
  snapshot_dir = "";
  baseline_duration = 0;
  extra = [];
}

-- "angel\0memory"
abbrev alive : Env
alive = record { db = λ k. true; cmdline = λ pid. some (97 ∷ 110 ∷ 103 ∷ 101 ∷ 108 ∷ 0 ∷ 109 ∷ []) }

late_drop_kills_example :
    let ends : List (Op × Env) =
      (tick recovery_window, alive) ∷ (due 0, alive) ∷ (callback 0, alive) ∷ [] in
    let ops : List (Op × Env) =
      (registers 8, alive)
      ∷ (((heartbeat hb, alive) ∷ [])
          ++ (drops, alive) ∷ (((tick 5, alive) ∷ (heartbeat hb, alive) ∷ []) ++ ends)) in
    (run limits ops started_world).1 ≡ sigterm 41 ∷ []
unfolding verify_angel_pid
late_drop_kills_example =
    late_drop_kills limits alive started_world 8 ((heartbeat hb, alive) ∷ [])
      ((tick 5, alive) ∷ (heartbeat hb, alive) ∷ []) (tt, tt) (tt, (tt, tt)) refl

boot_recovery_respawns_example :
    (r : Supervisor) × (effects : List Effect) × (boot_recovery codec alive alive 200 one_angel
      ≡ some (r, effects))
    × All (λ a. IsSpawned a.id a.angel_type a.config_json r.angels) (list_recoverable reg)
    × All (IsVerified alive) effects
unfolding list_recoverable
boot_recovery_respawns_example =
    boot_recovery_respawns codec alive alive 200 one_angel refl refl
      ((refl, refl, (λ e. absurd (cc)), refl), tt) (tt, tt)
