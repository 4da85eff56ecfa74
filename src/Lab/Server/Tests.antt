-- ===== src/Lab/Server/Tests.antt =====
-- An angel that registers, sends nothing more and hangs up; and one of its events.
use angellab.Prelude.{refl, true, false, none, some, [], ◌∷◌, bytes_eq, string_eq}
use angellab.Prelude.Map.{lookup}
use angellab.Ipc.{Msgpack, Message, Conn, ok, kind_register, send, recv}
use angellab.Ipc.Frames.{arrived}
use angellab.Registry.{AngelId, Angel, new_registry, state_training}
use angellab.Lab.Broadcast.{EventPayload, new_broadcaster, subscribe}
use angellab.Lab.Broadcast.Delivery.{Reachable, fresh, after, subscribes}
use angellab.Lab.Supervisor.{Env}
use angellab.Lab.Supervisor.Worker.{running}
use angellab.Lab.Supervisor.Table.{Supervisor, new_entry}
use angellab.Lab.Server.{Payloads, Server, Outside, handle_angel_conn}
use angellab.Lab.Server.Loop.{EndsLost, angel_conn-EndsLost}

-- "A-01"
abbrev first_id : AngelId
first_id = 65 ∷ 45 ∷ 48 ∷ 49 ∷ []

abbrev register : Message
register = record { version = 1; kind = kind_register; correlation_id = ""; payload = first_id }

-- msgpack of one message
abbrev codec : Msgpack
codec = record {
  marshal = λ m. some (130 ∷ []);
  unmarshal = λ b. some register;
  encode_hello = λ h. none;
  decode_hello = λ b. none;
}

abbrev payloads : Payloads
payloads = record {
  decode_register = λ b. some b;
  decode_heartbeat = λ b. none;
  decode_event = λ b. none;
  marshal_meta = λ m. "{}";
}

abbrev calm : Env
calm = record { db = λ k. true; cmdline = λ pid. none }

abbrev outside : Outside
outside = record { env = λ n. calm; cancelled = λ n. false }

abbrev row : Angel
row = record {
  id = first_id;
  angel_type = "memory";
  state = state_training;
  pid = 41;
  created_at = 5;
  updated_at = 9;
  restart_count = 2;
  last_seen = none;
  config_json = "cfg";
}

abbrev sup : Supervisor
sup = record {
  angels = (first_id, record { stage = running; entry = new_entry first_id "memory" "cfg" }) ∷ [];
  reg = record new_registry { angels = row ∷ [] };
}

abbrev watched : Server
unfolding subscribe
watched = record { sup = sup; bcast = (subscribe 1 new_broadcaster).0 }

watched-Reachable : Reachable watched.bcast
unfolding subscribe
watched-Reachable = after fresh (subscribes 1)

abbrev event : EventPayload
event = record { angel_id = first_id; severity = 3; message = "m"; timestamp = 3; meta = [] }

abbrev silent : Conn
silent = record {
  now = 50;
  incoming = [];
  written = [];
  writable = true;
  read_deadline = none;
  write_deadline = none;
  closed = false;
}

abbrev registering : Conn
unfolding send
registering = record silent { incoming = arrived 40 (send codec register silent).0.written }

angel_conn-EndsLost_example :
    EndsLost codec payloads first_id
      (handle_angel_conn codec payloads outside 90 7 watched registering)
unfolding recv angellab.Ipc.read_full registering angellab.Ipc.send_bytes angellab.Ipc.recv_body
    lookup watched
angel_conn-EndsLost_example =
    angel_conn-EndsLost codec payloads outside 90 7 watched registering register first_id
      (λ i. refl) watched-Reachable refl refl refl refl
