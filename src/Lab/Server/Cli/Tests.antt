-- ===== src/Lab/Server/Cli/Tests.antt =====
-- The requests of a command line to a daemon with two angels.
use angellab.Prelude.{
  arith, suc, length, map, ◌==◌, if◌then◌else◌, ◌≡◌, refl, true, false, Option, none, some, List,
  [], ◌∷◌, ◌++◌, ℕ, All, bytes_eq, string_eq, String,
}
use angellab.Prelude.Map.{Map, lookup}
use angellab.Prelude.Text.{codes}
use angellab.Ipc.{Msgpack, Message, Conn, kind_cli_request, kind_cli_response, send}
use angellab.Ipc.Frames.{arrived}
use angellab.Registry.{new_registry}
use angellab.Guardian.Diff.Report.{full_access}
use angellab.Lab.Broadcast.{new_broadcaster}
use angellab.Lab.Supervisor.{Env, AngelConfig}
use angellab.Lab.Supervisor.Table.{terminate_angel_of, Codec, Supervisor, spawn_angel}
use angellab.Lab.Server.{Server, returned}
use angellab.Lab.Server.Cli.{
  terminate_failed, CliRequest, AngelSummary, LabStatus, CliPayloads, Differ, Daemon, Refusal,
  Reply, accepted, refused, listed, status, unknown_command, no_snapshot_dir,
}
use angellab.Lab.Server.Cli.Commands.{
  cli_angel_terminate, split_comma, cli_angel_list, cli_lab_status, summaries, cli_command,
  cli_angel_diff,
}
use angellab.Lab.Server.Cli.Responses.{response, Streaming, handle_cli_conn}
use angellab.Lab.Server.Cli.Replies.{refused_command-Kept}
use angellab.Ipc.{MessageKind}
use angellab.Ipc.Client.{answered, request, events_from}
use angellab.Lab.Broadcast.{EventPayload}
use angellab.Lab.Server.Cli.Responses.{stream}
use angellab.Lab.Server.Cli.Exchange.{command_exchanged}
use angellab.Lab.Server.Cli.Streams.{event_frame, IsSendable, streamed_events}
use angellab.Lab.Server.Cli.Diffs.{TableReachable, fresh, next, spawns, angel_diff_refused}

abbrev texts : Codec
texts = record { marshal = λ cfg. some "{}"; unmarshal = λ s cfg. cfg }

abbrev calm : Env
calm = record { db = λ k. true; cmdline = λ pid. none }

abbrev guardian : String → AngelConfig
guardian name = record {
  kind = "guardian";
  id = codes name;
  paths = codes "/etc" ∷ [];
  snapshot_dir = "/var/snapshots";
  baseline_duration = 0;
  extra = [];
}

abbrev empty_table : Supervisor
empty_table = record { angels = []; reg = new_registry }

abbrev one_angel : Supervisor
unfolding spawn_angel
one_angel = (spawn_angel texts calm 5 (guardian "G-02") empty_table).0

abbrev two_angels : Supervisor
unfolding spawn_angel
two_angels = (spawn_angel texts calm 6 (guardian "G-01") one_angel).0

two_angels-Reachable : TableReachable two_angels
unfolding spawn_angel
two_angels-Reachable =
    next (next (fresh new_registry) (spawns texts calm 5 (guardian "G-02")))
      (spawns texts calm 6 (guardian "G-01"))

abbrev server : Server
server = record { sup = two_angels; bcast = new_broadcaster }

abbrev nothing_there : Differ
nothing_there = record {
  sha256 = λ b. [];
  json_path = λ b. none;
  access = full_access;
  storage = λ dir. record { dir = []; files = [] };
}

abbrev list_frame : Message
list_frame = record { version = 1; kind = kind_cli_request; correlation_id = "c-1"; payload = [] }

abbrev list_request : CliRequest
list_request = record { command = "angel.list"; args = [] }

abbrev terminates_unknown : CliRequest
terminates_unknown = record { command = "angel.terminate"; args = ("id", "G-09") ∷ [] }

abbrev payloads : CliPayloads
payloads = record {
  decode_request = λ b. some list_request;
  encode_answer = λ a. some (1 ∷ []);
  encode_ok = λ b. b;
  encode_error = λ e. 0 ∷ [];
  encode_event = λ e. none;
}

-- msgpack of one message
abbrev codec : Msgpack
codec = record {
  marshal = λ m. some (130 ∷ []);
  unmarshal = λ b. some list_frame;
  encode_hello = λ h. none;
  decode_hello = λ b. none;
}

abbrev silent : Conn
silent = record {
  now = 50;
  incoming = [];
  written = [];
  writable = true;
  read_deadline = none;
  write_deadline = none;
  closed = false;
}

abbrev asking : Conn
unfolding send
asking = record silent { incoming = arrived 40 (send codec list_frame silent).0.written }

abbrev quiet : Streaming
quiet = record { events = []; meanwhile = λ s. s }

abbrev daemon : Daemon
daemon = record {
  codec = texts;
  env = calm;
  now = 3_000_000_000;
  started_at = 0;
  pid = 1;
  differ = nothing_there;
}

refused_command-Kept_example :
    let r = cli_command daemon terminates_unknown server in (r.0 ≡ server) × (r.1 ≡ [])
unfolding cli_command cli_angel_terminate terminate_angel_of angellab.Lab.Server.Cli.Commands.arg
    lookup two_angels angellab.Lab.Supervisor.Table.enter angellab.Prelude.Map.insert
refused_command-Kept_example =
    refused_command-Kept daemon terminates_unknown server terminate_failed refl

angel_diff_refused_example :
    (e : Refusal) × (cli_angel_diff daemon (("id", "G-01") ∷ []) server ≡ refused e)
angel_diff_refused_example =
    angel_diff_refused daemon (("id", "G-01") ∷ []) server two_angels-Reachable

diff_of_a_guardian : cli_angel_diff daemon (("id", "G-01") ∷ []) server ≡ refused no_snapshot_dir
unfolding cli_angel_diff angellab.Lab.Server.Cli.Commands.arg lookup two_angels
    angellab.Lab.Supervisor.Table.enter angellab.Prelude.Map.insert
diff_of_a_guardian = refl

-- msgpack of a request, its response and an event
abbrev byte_of : MessageKind → ℕ
byte_of kind_cli_request = 1
byte_of kind_cli_response = 2
byte_of _ = 3

abbrev event_payload : Message
event_payload = event_frame (9 ∷ [])

abbrev from_byte : List ℕ → Option Message
from_byte bs =
    if bs == (1 ∷ [])
    then some list_frame
    else if bs == (2 ∷ [])
    then some (response "c-1" (1 ∷ []))
    else if bs == (3 ∷ [])
    then some event_payload
    else none

abbrev three_messages : Msgpack
three_messages = record codec { marshal = λ m. some (byte_of m.kind ∷ []); unmarshal = from_byte }

abbrev daemon_side : Conn
unfolding send
daemon_side = record silent {
  incoming = arrived 40 (send three_messages list_frame silent).0.written;
}

command_exchanged_example :
    (daemon' : Conn) × (handle_cli_conn three_messages payloads daemon quiet server daemon_side ≡ (
      returned (cli_command daemon list_request server).0 daemon',
      (cli_command daemon list_request server).1,
    ))
    × ((request three_messages
          (λ b. some b)
          "c-1"
          (some [])
          (record silent { incoming = arrived 45 daemon'.written })).1
        ≡ answered (1 ∷ []))
unfolding cli_command cli_angel_list daemon_side
command_exchanged_example =
    command_exchanged three_messages payloads (λ b. some b) daemon quiet server list_request "c-1"
      [] silent daemon_side 40 45 (1 ∷ []) (1 ∷ [], refl, refl, omega arith, omega arith)
      (2 ∷ [], refl, refl, omega arith, omega arith) refl refl refl refl (omega arith) (omega arith)
      refl refl refl refl

abbrev one_event : EventPayload
one_event = record {
  angel_id = codes "G-01";
  severity = 3;
  message = "m";
  timestamp = 3;
  meta = [];
}

abbrev with_events : CliPayloads
with_events = record payloads { encode_event = λ ev. some (9 ∷ []) }

abbrev streaming_client : Conn
streaming_client = record silent {
  incoming =
      arrived 40 (stream three_messages with_events (one_event ∷ one_event ∷ []) silent).written;
}

one_event-IsSendable : IsSendable three_messages with_events (λ b. some b) (λ ev. 9 ∷ []) one_event
one_event-IsSendable = (9 ∷ [], refl, refl, (3 ∷ [], refl, refl, omega arith, omega arith))

streamed_events_example :
    events_from three_messages
      (λ b. some b)
      (suc (length streaming_client.incoming))
      streaming_client
    ≡ map (λ ev. 9 ∷ []) (one_event ∷ one_event ∷ [])
streamed_events_example =
    streamed_events three_messages with_events (λ b. some b) (λ ev. 9 ∷ [])
      (one_event ∷ one_event ∷ []) silent streaming_client 40
      (one_event-IsSendable, (one_event-IsSendable, tt)) refl refl (omega arith) refl
