-- ===== src/Lab/Supervisor.antt =====
-- internal/lab/supervisor.go: one angel of the process table, and what is called for it from
-- outside its goroutine. An `AngelEntry` goes with the registry, which the same handler writes.
-- Every lock of `e.mu` in a handler covers one part of it; a handler is one function. `Env` is what
-- the outside answers in one call: whether each SQL statement succeeds, in order, and what
-- /proc/<pid>/cmdline holds. `LastHeartbeat` is `none` for the zero time.
pub mod Worker
pub mod Table
pub mod Restarts
pub mod Health
pub mod LateDrops
pub mod Policy
pub mod Ids
pub mod Boot
mod Tests
use angellab.Prelude.{
  ℕ, ◌+◌, ◌*◌, Bool, true, false, not, ◌&&◌, ◌||◌, Option, none, some, List, [], ◌∷◌, ◌++◌, String,
  if◌then◌else◌, ltb, nat_beq, bytes_eq,
}
use angellab.Prelude.Map.{Map}
use angellab.Prelude.Text.{contains}
use angellab.Lab.Conn
use angellab.Lab.Conn.{
  Link, new_link, transition, mark_lost, mark_recovered, recovering, connecting, registered,
}
use angellab.Registry.{
  AngelId, Registry, AngelState, state_created, state_training, state_active, state_unstable,
  state_contained, state_terminated, update_state, touch_last_seen,
}

-- the telemetry; its float CPUPercent is left out
pub record HeartbeatPayload : Type 0 where
  pub angel_id : AngelId
  pub state : String
  pub uptime : ℕ
  pub rss_bytes : ℕ
  pub goroutines : ℕ
  pub fd_count : ℕ

pub record AngelConfig : Type 0 where
  pub kind : String  -- Type
  pub id : AngelId
  pub paths : List (List ℕ)
  pub snapshot_dir : String
  pub baseline_duration : ℕ
  pub extra : Map String String

pub record AngelEntry : Type 0 where
  pub id : AngelId
  pub angel_type : String
  pub state : AngelState
  pub restart_count : ℕ
  pub pid : ℕ
  pub started_at : ℕ
  pub config_json : String
  pub config : Option AngelConfig  -- `none` is nil
  pub conn : Option ℕ  -- which connection it is; `none` is nil
  pub last_heartbeat : Option ℕ
  pub telemetry : Option HeartbeatPayload
  pub link : Link

pub record Env : Type 0 where
  pub db : ℕ → Bool
  pub cmdline : ℕ → Option (List ℕ)

-- what leaves the Lab for the angels
pub data Effect : Type 0 where
  started : ℕ → Effect
  sigterm sigkill : ℕ → Effect
  asked_to_stop : ℕ → Effect

-- "angel"
abbrev pub angel_word : List ℕ
angel_word = 97 ∷ 110 ∷ 103 ∷ 101 ∷ 108 ∷ []

unfoldable pub verify_angel_pid : (ℕ → Option (List ℕ)) → ℕ → Bool
verify_angel_pid cmdline pid =
    if nat_beq pid 0
    then false
    else elim (cmdline pid) [ none ↦ false | some line ↦ contains angel_word line ]

abbrev pub is_training : AngelState → Bool
is_training state_training = true
is_training _ = false

abbrev pub is_active : AngelState → Bool
is_active state_active = true
is_active _ = false

-- `RegisterConn` for an angel of the table
unfoldable pub register_conn : Env → ℕ → ℕ → AngelEntry → Registry → AngelEntry × Registry
register_conn env now conn e r =
    let (link, _) = mark_recovered e.link in
    let (tracker, _) = transition registered link.tracker in
    (
      record e {
        link = record link { tracker = tracker };
        conn = some conn;
        state = state_training;
      },
      update_state (env.db 0) now e.id state_training r,
    )

unfoldable pub handle_heartbeat :
    Env → ℕ → HeartbeatPayload → AngelEntry → Registry → AngelEntry × Registry
handle_heartbeat env now hb e r =
    let e' : AngelEntry = record e {
      last_heartbeat = some now;
      telemetry = some hb;
      state = state_active;
    } in
    let r' = touch_last_seen (env.db 0) now e.id r in
    let (tracker, _) = transition Conn.active e.link.tracker in
    if is_training e.state
    then (
      record e' { link = record e.link { tracker = tracker } },
      update_state (env.db 1) now e.id state_active r',
    )
    else (e', r')

-- the flag of `Conn.mark_lost` is that the callback is not nil
unfoldable pub mark_conn_lost : ℕ → AngelEntry → AngelEntry
mark_conn_lost now e = record e { conn = none; link = mark_lost now true e.link }

-- the function that `MarkConnLost` hands to `MarkLost`
unfoldable pub on_expired : Env → AngelEntry → List Effect
on_expired env e = if verify_angel_pid env.cmdline e.pid then sigterm e.pid ∷ [] else []

abbrev pub is_late : ℕ → ℕ → Option ℕ → Bool
is_late timeout now none = false
is_late timeout now (some last) = ltb (last + timeout) now

-- the body of the loop of `checkHeartbeats`
unfoldable pub check_heartbeat : Env → ℕ → ℕ → AngelEntry → Registry → AngelEntry × Registry
check_heartbeat env timeout now e r =
    if is_active e.state && is_late timeout now e.last_heartbeat
    then (record e { state = state_unstable }, update_state (env.db 0) now e.id state_unstable r)
    else (e, r)

abbrev pub ask : Option ℕ → List Effect
ask none = []
ask (some conn) = asked_to_stop conn ∷ []

-- `TerminateAngel` for an angel of the table. The entry stays as it is.
unfoldable pub terminate_angel : Env → ℕ → AngelEntry → Registry → Registry × List Effect
terminate_angel env now e r = (
  update_state (env.db 0) now e.id state_terminated r,
  ask e.conn ++ (if verify_angel_pid env.cmdline e.pid then sigterm e.pid ∷ [] else []),
)

-- `entry_resetConn`
unfoldable pub reset_conn : AngelEntry → AngelEntry
reset_conn e = record e {
  conn = none;
  last_heartbeat = none;
  telemetry = none;
  link = Conn.reset e.link;
}
