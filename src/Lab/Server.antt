-- ===== src/Lab/Server.antt =====
-- internal/lab/server.go: the connections of the angels. A handler has the connection's bytes, as Ipc
-- models them, and the daemon's state; `Payloads` stands for msgpack on the payloads and json.Marshal on
-- the meta data. `Outside` says, for each round of the loop, what the outside answers and whether the
-- context is cancelled. What the log is told is left out.
pub mod Frames
pub mod Events
pub mod Loop
pub mod Cli
mod Tests
use angellab.Prelude.{
  ℕ, suc, zero, ◌+◌, ◌*◌, Bool, true, false, not, Option, none, some, List, [], ◌∷◌, ◌++◌, String,
  if◌then◌else◌, nat_beq, length, string_eq, ◌==◌,
}
use angellab.Prelude.Map.{Map}
use angellab.Registry.{AngelId, insert_event}
use angellab.Ipc.{
  Message, MessageKind, kind_register, kind_heartbeat, kind_event, kind_cmd_ping, kind_cmd_pong,
  Role, role_angel, role_cli, role_lab, HelloPayload, Msgpack, Conn, Result, ok, error, IpcError,
  protocol_version, set_deadline, send, recv, accept_hello,
}
use angellab.Lab.Broadcast.{EventPayload, Broadcaster, publish}
use angellab.Lab.Supervisor.{Env, HeartbeatPayload}
use angellab.Lab.Supervisor.Table.{
  Supervisor, register_conn_of, handle_heartbeat_of, mark_conn_lost_of,
}

pub record Payloads : Type 0 where
  pub decode_register : List ℕ → Option AngelId
  pub decode_heartbeat : List ℕ → Option HeartbeatPayload
  pub decode_event : List ℕ → Option EventPayload
  pub marshal_meta : Map String String → String

pub record Server : Type 0 where
  pub sup : Supervisor
  pub bcast : Broadcaster

pub record Outside : Type 0 where
  pub env : ℕ → Env
  pub cancelled : ℕ → Bool

-- how a handler ends; `out_of_fuel` does not happen
pub data Ending : Type 0 where
  returned : Server → Conn → Ending
  panicked : Ending
  out_of_fuel : Ending

-- `Severity.String`
unfoldable pub severity_string : ℕ → String
severity_string severity =
    if nat_beq severity 1
    then "INFO"
    else if nat_beq severity 2
    then "WARN"
    else if nat_beq severity 3
    then "CRIT"
    else "UNKN"

unfoldable pub parse_severity : String → ℕ
parse_severity s = if s == "WARN" then 2 else if s == "CRIT" then 3 else 1

abbrev pub with_bcast : Server → Option Broadcaster → Option Server
with_bcast s none = none
with_bcast s (some bcast) = some (record s { bcast = bcast })

abbrev pub on_heartbeat : Env → ℕ → Option HeartbeatPayload → Server → Server
on_heartbeat env now none s = s
on_heartbeat env now (some hb) s = record s { sup = handle_heartbeat_of env now hb s.sup }

abbrev pub with_conn : Conn → Option Server → Option (Server × Conn)
with_conn c none = none
with_conn c (some s) = some (s, c)

abbrev pub pong_to : Msgpack → Message → Conn → Conn
pong_to codec msg c =
    (send codec
      (record {
        version = protocol_version;
        kind = kind_cmd_pong;
        correlation_id = msg.correlation_id;
        payload = [];
      })
      c).0

abbrev pub lost : ℕ → AngelId → Server → Server
lost now id s = record s { sup = mark_conn_lost_of now id s.sup }

-- what follows a frame; `again` is the rest of the loop
abbrev pub then_again : Option (Server × Conn) → (Server → Conn → Ending) → Ending
then_again none again = panicked
then_again (some (s, c)) again = again s c

abbrev pub is_register : MessageKind → Bool
is_register kind_register = true
is_register _ = false

module _ (codec : Msgpack) (ps : Payloads) where
  -- `none` is a panic of `Publish`
  unfoldable pub handle_event : Env → AngelId → EventPayload → Server → Option Server
  handle_event env id ev s =
      let (reg, _) =
        insert_event (env.db 0) id (severity_string ev.severity) ev.message
          (ps.marshal_meta ev.meta) ev.timestamp s.sup.reg in
      with_bcast (record s { sup = record s.sup { reg = reg } }) (publish ev s.bcast)

  abbrev pub on_event : Env → AngelId → Option EventPayload → Server → Option Server
  on_event env id none s = some s
  on_event env id (some ev) s = handle_event env id ev s

  -- the switch of the loop, on the kind of the frame
  unfoldable pub on_frame :
      MessageKind → Env → AngelId → Message → Server → Conn → Option (Server × Conn)
  on_frame kind_heartbeat env id msg s c =
      some (on_heartbeat env c.now (ps.decode_heartbeat msg.payload) s, c)
  on_frame kind_event env id msg s c = with_conn c (on_event env id (ps.decode_event msg.payload) s)
  on_frame kind_cmd_ping env id msg s c = some (s, pong_to codec msg c)
  on_frame _ env id msg s c = some (s, c)

  -- from what `Recv` gives on
  abbrev pub on_received :
      Env → AngelId → Result Message → Server → Conn → (Server → Conn → Ending) → Ending
  on_received env id (error e) s c again = returned (lost c.now id s) c
  on_received env id (ok msg) s c again = then_again (on_frame msg.kind env id msg s c) again

  -- the receive loop of `handleAngelConn`, from its round `n` on
  unfoldable pub angel_loop : Outside → ℕ → AngelId → ℕ → ℕ → Server → Conn → Ending
  angel_loop out timeout id zero n s c = out_of_fuel
  angel_loop out timeout id (suc fuel) n s c =
      let again : Server → Conn → Ending = λ s' c'. angel_loop out timeout id fuel (n + 1) s' c' in
      let (c', msg) = recv codec (set_deadline (some (c.now + timeout * 2)) c) in
      if out.cancelled n then returned s c else on_received (out.env n) id msg s c' again

  abbrev pub registered_as : Outside → ℕ → ℕ → Server → Conn → Option AngelId → Ending
  registered_as out timeout number s c none = returned s c
  registered_as out timeout number s c (some id) =
      let (sup, known) = register_conn_of (out.env 0) c.now id number s.sup in
      if known
      then angel_loop out timeout id (suc (length c.incoming)) 1 (record s { sup = sup })
          (set_deadline none c)
      else returned s c

  abbrev pub on_first : Outside → ℕ → ℕ → Server → Conn → Result Message → Ending
  on_first out timeout number s c (error e) = returned s c
  on_first out timeout number s c (ok msg) =
      if is_register msg.kind
      then registered_as out timeout number s c (ps.decode_register msg.payload)
      else returned s c

  -- `number` says which connection it is
  unfoldable pub handle_angel_conn : Outside → ℕ → ℕ → Server → Conn → Ending
  handle_angel_conn out timeout number s c =
      let (c', msg) = recv codec c in on_first out timeout number s c' msg
