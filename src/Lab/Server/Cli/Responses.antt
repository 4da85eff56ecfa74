-- ===== src/Lab/Server/Cli/Responses.antt =====
-- The frames of the command line's connection, and of the answers to it.
use angellab.Prelude.{
  ℕ, Bool, true, false, Option, none, some, List, [], ◌∷◌, String, if◌then◌else◌, string_eq,
  bytes_eq, ◌==◌,
}
use angellab.Ipc.{
  Message, MessageKind, kind_cli_request, kind_cli_response, kind_event_stream, Msgpack, Conn,
  Result, ok, error, protocol_version, set_deadline, send, recv, accept_hello, HelloPayload,
  role_angel, role_cli, role_lab, IpcError,
}
use angellab.Lab.Broadcast.{EventPayload, Broadcaster, subscribe, leave, close}
use angellab.Lab.Supervisor.{Effect}
use angellab.Lab.Server.{
  Server, Payloads, Outside, Ending, returned, panicked, out_of_fuel, handle_angel_conn,
}
use angellab.Lab.Server.Cli.{
  CliRequest, Answer, Refusal, Reply, CliPayloads, Daemon, streaming, decode_failed, encode_failed,
  accepted, refused,
}
use angellab.Lab.Server.Cli.Commands.{cli_command}

-- the frame of a response
abbrev pub response : String → List ℕ → Message
response cid payload = record {
  version = protocol_version;
  kind = kind_cli_response;
  correlation_id = cid;
  payload = payload;
}

abbrev pub is_cli_request : MessageKind → Bool
is_cli_request kind_cli_request = true
is_cli_request _ = false

-- a stream: what its channel gives until it ends, and what the rest of the daemon does meanwhile
pub record Streaming : Type 0 where
  pub events : List EventPayload
  pub meanwhile : Server → Server

module _ (codec : Msgpack) (cp : CliPayloads) where
  unfoldable pub send_error : String → Refusal → Conn → Conn
  send_error cid refusal c = (send codec (response cid (cp.encode_error refusal)) c).0

  unfoldable pub send_ok : String → Answer → Conn → Conn
  send_ok cid answer c = elim (cp.encode_answer answer) [
    | none ↦ send_error cid encode_failed c
    | some payload ↦ (send codec (response cid (cp.encode_ok payload)) c).0
  ]

  unfoldable pub send_reply : String → Reply → Conn → Conn
  send_reply cid (accepted answer) c = send_ok cid answer c
  send_reply cid (refused refusal) c = send_error cid refusal c

  abbrev pub sent_on : Conn × Option IpcError → (Conn → Conn) → Conn
  sent_on (c, none) again = again c
  sent_on (c, some e) again = c

  -- the loop of `cliEventStream` over the events that the channel gives until it ends
  unfoldable pub stream : List EventPayload → Conn → Conn
  stream [] c = c
  stream (ev ∷ rest) c = elim (cp.encode_event ev) [
    | none ↦ stream rest c
    | some payload ↦
        sent_on
          (send codec
            (record {
              version = protocol_version;
              kind = kind_event_stream;
              correlation_id = "";
              payload = payload;
            })
            c)
          (λ c'. stream rest c')
  ]

  abbrev pub cancelled : ℕ → Server → Conn → Option Broadcaster → Ending
  cancelled id s c none = panicked
  cancelled id s c (some bcast) = returned (record s { bcast = bcast }) c

  -- `cliEventStream`, to the deferred `cancel`
  unfoldable pub cli_event_stream : Streaming → String → Server → Conn → Ending
  cli_event_stream on cid s c =
      let c' = set_deadline none (send_ok cid streaming c) in
      let (bcast, id) = subscribe 128 s.bcast in
      let s' = on.meanwhile (record s { bcast = bcast }) in
      cancelled id s' (stream on.events c') (close id (leave id s'.bcast))

  abbrev pub on_request :
      Daemon → Streaming → String → Server → Conn → Option CliRequest → Ending × List Effect
  on_request d on cid s c none = (returned s (send_error cid decode_failed c), [])
  on_request d on cid s c (some req) =
      let (s', effects, reply) = cli_command d req s in
      if req.command == "event.subscribe"
      then (cli_event_stream on cid s c, [])
      else (returned s' (send_reply cid reply c), effects)

  abbrev pub on_cli_frame :
      Daemon → Streaming → Server → Conn → Result Message → Ending × List Effect
  on_cli_frame d on s c (error e) = (returned s c, [])
  on_cli_frame d on s c (ok msg) =
      if is_cli_request msg.kind
      then on_request d on msg.correlation_id s c (cp.decode_request msg.payload)
      else (returned s c, [])

  unfoldable pub handle_cli_conn : Daemon → Streaming → Server → Conn → Ending × List Effect
  handle_cli_conn d on s c = let (c', msg) = recv codec c in on_cli_frame d on s c' msg

  abbrev pub hung_up : Ending → Ending
  hung_up (returned s c) = returned s (record c { closed = true })
  hung_up panicked = panicked
  hung_up out_of_fuel = out_of_fuel

  -- the switch on the role; the connection is closed however it ends
  abbrev pub on_role :
      Payloads
      → Outside
      → ℕ
      → ℕ
      → Daemon
      → Streaming
      → Server
      → Conn
      → Result HelloPayload
      → Ending × List Effect
  on_role ps out timeout number d on s c (error e) = (returned s c, [])
  on_role ps out timeout number d on s c (ok hello) = elim hello.role [
    | role_angel ↦ (handle_angel_conn codec ps out timeout number s c, [])
    | role_cli ↦ handle_cli_conn d on s c
    | role_lab ↦ (returned s c, [])
  ]

  unfoldable pub handle_conn :
      Payloads → Outside → ℕ → ℕ → Daemon → Streaming → Server → Conn → Ending × List Effect
  handle_conn ps out timeout number d on s c =
      let (c', hello) = accept_hello codec c in
      let (ending, effects) = on_role ps out timeout number d on s c' hello in
      (hung_up ending, effects)
