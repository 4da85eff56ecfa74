-- ===== src/Lab/Supervisor/Table.antt =====
-- internal/lab/supervisor.go: the process table. A `Lane` is an entry with the place of its
-- goroutine; where `SpawnAngel` replaces the entry of an id that is in use, the goroutine of the old
-- entry is not followed further. Go ranges over the map in any order, here in that of insertion.
-- `Codec` stands for encoding/json on `AngelConfig`: `unmarshal` writes into a value.
use angellab.Prelude.{
  ℕ, Bool, true, false, not, ◌||◌, Option, none, some, List, [], ◌∷◌, ◌++◌, String, if◌then◌else◌,
  bytes_eq, string_eq, ◌==◌,
}
use angellab.Prelude.Map.{Map, lookup, insert}
use angellab.Lab.Conn.{new_link, transition, connecting}
use angellab.Registry.{
  AngelId, Angel, AngelState, Registry, insert_angel, update_state, state_created, state_terminated,
  state_contained, list_recoverable, mark_stale,
}
use angellab.Lab.Supervisor.{
  AngelEntry, AngelConfig, Env, Effect, sigkill, HeartbeatPayload, register_conn, handle_heartbeat,
  mark_conn_lost, check_heartbeat, terminate_angel, verify_angel_pid,
}
use angellab.Lab.Supervisor.Worker.{Stage, starting}
use angellab.Lab.Supervisor.Ids.{generate_id}

pub record Codec : Type 0 where
  pub marshal : AngelConfig → Option String
  pub unmarshal : String → AngelConfig → AngelConfig

pub record Lane : Type 0 where
  pub stage : Stage
  pub entry : AngelEntry

pub record Supervisor : Type 0 where
  pub angels : Map AngelId Lane
  pub reg : Registry

abbrev pub new_entry : AngelId → String → String → AngelEntry
new_entry id kind config = record {
  id = id;
  angel_type = kind;
  state = state_created;
  restart_count = 0;
  pid = 0;
  started_at = 0;
  config_json = config;
  config = none;
  conn = none;
  last_heartbeat = none;
  telemetry = none;
  link = record new_link { tracker = (transition connecting new_link.tracker).0 };
}

abbrev pub or_generated : AngelId → Map AngelId Lane → Option AngelId
or_generated [] angels = generate_id angels
or_generated (c ∷ cs) angels = some (c ∷ cs)

-- the registry and the table for a configuration with its id and its text
unfoldable pub enter : Env → ℕ → AngelConfig → String → Supervisor → Supervisor
enter env now cfg config s =
    let (reg, _) = insert_angel (env.db 0) now cfg.id cfg.kind config s.reg in
    let lane : Lane = record { stage = starting; entry = new_entry cfg.id cfg.kind config } in
    record s {
      reg = update_state (env.db 1) now cfg.id state_created reg;
      angels = insert cfg.id lane s.angels;
    }

abbrev pub entered :
    Env → ℕ → AngelConfig → Supervisor → Option String → Supervisor × Option AngelConfig
entered env now cfg s none = (s, none)
entered env now cfg s (some config) = (enter env now cfg config s, some cfg)

abbrev pub spawn_as :
    Codec → Env → ℕ → AngelConfig → Supervisor → Option AngelId → Supervisor × Option AngelConfig
spawn_as codec env now cfg s none = (s, none)
spawn_as codec env now cfg s (some id) =
    let cfg' : AngelConfig = record cfg { id = id } in entered env now cfg' s (codec.marshal cfg')

-- `none` is the error of json.Marshal; otherwise the configuration comes back with its id. The table
-- and the registry come back in both cases.
unfoldable pub spawn_angel :
    Codec → Env → ℕ → AngelConfig → Supervisor → Supervisor × Option AngelConfig
spawn_angel codec env now cfg s = spawn_as codec env now cfg s (or_generated cfg.id s.angels)

-- The flag is whether the id is known, and with it the error.
unfoldable pub register_conn_of : Env → ℕ → AngelId → ℕ → Supervisor → Supervisor × Bool
register_conn_of env now id conn s = elim (lookup id s.angels) [
  | none ↦ (s, false)
  | some lane ↦
      let (e, r) = register_conn env now conn lane.entry s.reg in
      (record s { angels = insert id (record lane { entry = e }) s.angels; reg = r }, true)
]

unfoldable pub handle_heartbeat_of : Env → ℕ → HeartbeatPayload → Supervisor → Supervisor
handle_heartbeat_of env now hb s = elim (lookup hb.angel_id s.angels) [
  | none ↦ s
  | some lane ↦
      let (e, r) = handle_heartbeat env now hb lane.entry s.reg in
      record s { angels = insert hb.angel_id (record lane { entry = e }) s.angels; reg = r }
]

unfoldable pub mark_conn_lost_of : ℕ → AngelId → Supervisor → Supervisor
mark_conn_lost_of now id s = elim (lookup id s.angels) [
  | none ↦ s
  | some lane ↦ record s {
    angels = insert id (record lane { entry = mark_conn_lost now lane.entry }) s.angels;
  }
]

-- the loop of `checkHeartbeats`, over the rest of the map
unfoldable pub check_heartbeats :
    Env → ℕ → ℕ → Map AngelId Lane → Registry → Map AngelId Lane × Registry
check_heartbeats env timeout now [] r = ([], r)
check_heartbeats env timeout now ((id, lane) ∷ rest) r =
    let (e, r') = check_heartbeat env timeout now lane.entry r in
    let (rest', r'') = check_heartbeats env timeout now rest r' in
    ((id, record lane { entry = e }) ∷ rest', r'')

unfoldable pub terminate_angel_of : Env → ℕ → AngelId → Supervisor → Supervisor × List Effect × Bool
terminate_angel_of env now id s = elim (lookup id s.angels) [
  | none ↦ (s, [], false)
  | some lane ↦
      let (r, effects) = terminate_angel env now lane.entry s.reg in
      (record s { reg = r }, effects, true)
]

abbrev pub is_over : AngelState → Bool
is_over state_terminated = true
is_over state_contained = true
is_over _ = false

abbrev pub live_ids : Map AngelId Lane → List AngelId
live_ids [] = []
live_ids ((id, lane) ∷ rest) =
    let ids = live_ids rest in if is_over lane.entry.state then ids else id ∷ ids

unfoldable pub terminate_each : Env → ℕ → List AngelId → Supervisor → Supervisor × List Effect
terminate_each env now [] s = (s, [])
terminate_each env now (id ∷ ids) s =
    let (s', effects, _) = terminate_angel_of env now id s in
    let (s'', more) = terminate_each env now ids s' in (s'', effects ++ more)

unfoldable pub terminate_all : Env → ℕ → Supervisor → Supervisor × List Effect
terminate_all env now s = terminate_each env now (live_ids s.angels) s

-- Boot recovery: the processes of the last run that are still there, and the configuration.
unfoldable pub kill_stale : Env → Angel → List Effect
kill_stale env a = if verify_angel_pid env.cmdline a.pid then sigkill a.pid ∷ [] else []

abbrev pub stored_config : Codec → Angel → AngelConfig
stored_config codec a =
    let cfg : AngelConfig = record {
      kind = a.angel_type;
      id = a.id;
      paths = [];
      snapshot_dir = "";
      baseline_duration = 0;
      extra = [];
    } in
    if a.config_json == "" then cfg else codec.unmarshal a.config_json cfg

unfoldable pub recover_each : Codec → Env → ℕ → List Angel → Supervisor → Supervisor × List Effect
recover_each codec env now [] s = (s, [])
recover_each codec env now (a ∷ rest) s =
    let s' = (spawn_angel codec env now (stored_config codec a) s).0 in
    let (s'', more) = recover_each codec env now rest s' in (s'', kill_stale env a ++ more)

-- The two queries at the start; `none` is their error.
unfoldable pub boot_recovery :
    Codec → Env → Env → ℕ → Supervisor → Option (Supervisor × List Effect)
boot_recovery codec queries env now s =
    if not (queries.db 0) || not (queries.db 1)
    then none
    else some (
        recover_each codec env now (list_recoverable s.reg)
          (record s { reg = mark_stale now s.reg }))
