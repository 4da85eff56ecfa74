-- ===== src/Lab/Server/Cli.antt =====
-- internal/lab/server.go and pkg/ipc/message.go: the requests of the command line and their answers.
-- `CliPayloads` stands for msgpack on requests and answers, `Differ` for what `guardian.DiffSnapshot`
-- reads. The texts of errors are data; the version and the age of a snapshot are left out.
pub mod Commands
pub mod Responses
pub mod Answers
pub mod Replies
pub mod Diffs
pub mod Exchange
pub mod Streams
mod Tests
use angellab.Prelude.{ℕ, Bool, Option, List, String}
use angellab.Prelude.Map.{Map}
use angellab.Prelude.Int.{ℤ}
use angellab.Prelude.Text.{Text}
use angellab.Registry.{AngelId, AngelState}
use angellab.Guardian.Diff.{Access, Storage}
use angellab.Lab.Conn.{ConnState}
use angellab.Lab.Broadcast.{EventPayload}
use angellab.Lab.Supervisor.{Env, HeartbeatPayload}
use angellab.Lab.Supervisor.Table.{Codec}

pub record CliRequest : Type 0 where
  pub command : String
  pub args : Map String String

-- the zero value of a text or a time is `none`
pub record AngelSummary : Type 0 where
  pub id : AngelId
  pub angel_type : String
  pub state : AngelState
  pub conn_state : Option ConnState
  pub pid : ℕ
  pub restart_count : ℕ
  pub last_seen : Option ℕ

-- an event of the registry has no meta data in an answer
pub record RecentEvent : Type 0 where
  pub angel_id : AngelId
  pub severity : ℕ
  pub message : String
  pub timestamp : ℕ

pub record AngelDetail : Type 0 where
  pub summary : AngelSummary
  pub created_at : ℕ
  pub config_json : String
  pub telemetry : Option HeartbeatPayload
  pub recent_events : List RecentEvent

pub record WireDiff : Type 0 where
  pub path : Text
  pub snapshot_hash : List ℕ
  pub current_hash : List ℕ
  pub missing : Bool
  pub size_delta : ℤ

pub record LabStatus : Type 0 where
  pub pid : ℕ
  pub uptime : ℕ
  pub started_at : ℕ
  pub angels : List AngelSummary

pub data Answer : Type 0 where
  created : AngelSummary → Answer
  listed : List AngelSummary → Answer
  inspected : AngelDetail → Answer
  terminated : AngelId → Answer
  diffed : AngelId → List WireDiff → Answer
  status : LabStatus → Answer
  streaming : Answer

pub data Refusal : Type 0 where
  decode_failed encode_failed unknown_command missing_type missing_id spawn_failed : Refusal
  not_found terminate_failed not_in_registry not_a_guardian no_snapshot_dir : Refusal

pub data Reply : Type 0 where
  accepted : Answer → Reply
  refused : Refusal → Reply

pub record CliPayloads : Type 0 where
  pub decode_request : List ℕ → Option CliRequest
  pub encode_answer : Answer → Option (List ℕ)
  pub encode_ok : List ℕ → List ℕ
  pub encode_error : Refusal → List ℕ
  pub encode_event : EventPayload → Option (List ℕ)

pub record Differ : Type 0 where
  pub sha256 : List ℕ → List ℕ
  pub json_path : List ℕ → Option Text
  pub access : Access
  pub storage : String → Storage

-- the daemon for one request: the time, its start and its process id
pub record Daemon : Type 0 where
  pub codec : Codec
  pub env : Env
  pub now : ℕ
  pub started_at : ℕ
  pub pid : ℕ
  pub differ : Differ
