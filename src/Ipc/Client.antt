-- ===== src/Ipc/Client.antt =====
-- pkg/ipc/client.go: the client of the command line. `decode` stands for msgpack on the payload of a
-- response or an event; the correlation id is an argument, since `shortID` draws it. `incoming` holds
-- what will arrive, so that a wait is a part of `recv`.
pub mod Exchange
use angellab.Prelude.{
  ℕ, zero, suc, ◌+◌, ◌*◌, Bool, true, false, not, Option, none, some, List, [], ◌∷◌, String,
  if◌then◌else◌, length, string_eq, ◌==◌,
}
use angellab.Ipc.{
  Message, MessageKind, kind_cli_request, kind_cli_response, kind_event_stream, Msgpack, Conn,
  Result, ok, error, IpcError, protocol_version, set_deadline, send, recv,
}

pub data ClientError : Type 0 where
  not_encoded not_a_response other_correlation not_decoded : ClientError
  not_sent not_received : IpcError → ClientError

pub data Outcome (R : Type 0) : Type 0 where
  answered : R → Outcome R
  failed : ClientError → Outcome R

abbrev pub response_timeout : ℕ
response_timeout = 15_000_000_000

abbrev pub ack_timeout : ℕ
ack_timeout = 5_000_000_000

abbrev pub is_response : MessageKind → Bool
is_response kind_cli_response = true
is_response _ = false

abbrev pub is_event : MessageKind → Bool
is_event kind_event_stream = true
is_event _ = false

-- the frame of a request
abbrev pub request_frame : String → List ℕ → Message
request_frame cid payload = record {
  version = protocol_version;
  kind = kind_cli_request;
  correlation_id = cid;
  payload = payload;
}

module _ {R : Type 0} (codec : Msgpack) (decode : List ℕ → Option R) where
  abbrev pub response_of : Option R → Outcome R
  response_of none = failed not_decoded
  response_of (some r) = answered r

  unfoldable pub check_response : String → Message → Outcome R
  check_response cid msg =
      if not (is_response msg.kind)
      then failed not_a_response
      else if not (msg.correlation_id == cid)
      then failed other_correlation
      else response_of (decode msg.payload)

  abbrev pub on_response : String → Conn × Result Message → Conn × Outcome R
  on_response cid (c, error e) = (c, failed (not_received e))
  on_response cid (c, ok msg) = (set_deadline none c, check_response cid msg)

  abbrev pub on_sent : String → Conn × Option IpcError → Conn × Outcome R
  on_sent cid (c, some e) = (c, failed (not_sent e))
  on_sent cid (c, none) =
      on_response cid (recv codec (set_deadline (some (c.now + response_timeout)) c))

  -- `Request`; `none` is a payload that cannot be encoded
  unfoldable pub request : String → Option (List ℕ) → Conn → Conn × Outcome R
  request cid none c = (c, failed not_encoded)
  request cid (some payload) c = on_sent cid (send codec (request_frame cid payload) c)

  abbrev pub next_events : Option R → List R → List R
  next_events none rest = rest
  next_events (some ev) rest = ev ∷ rest

  abbrev pub on_event : Result Message → List R → List R
  on_event (error e) rest = []
  on_event (ok msg) rest = if is_event msg.kind then next_events (decode msg.payload) rest else rest

  -- the goroutine of `EventStream`: the events that it gives until a frame cannot be read; a frame takes
  -- bytes off what is there, so that its length is fuel enough
  unfoldable pub events_from : ℕ → Conn → List R
  events_from zero c = []
  events_from (suc fuel) c =
      let (c', msg) = recv codec c in let rest = events_from fuel c' in on_event msg rest

  abbrev pub on_ack : Conn × Result Message → Outcome (List R)
  on_ack (c, error e) = failed (not_received e)
  on_ack (c, ok msg) =
      if not (is_response msg.kind)
      then failed not_a_response
      else answered (events_from (suc (length c.incoming)) (set_deadline none c))

  abbrev pub on_subscribed : Conn × Option IpcError → Outcome (List R)
  on_subscribed (c, some e) = failed (not_sent e)
  on_subscribed (c, none) = on_ack (recv codec (set_deadline (some (c.now + ack_timeout)) c))

  -- `EventStream` without a cancelled context
  unfoldable pub event_stream : String → Option (List ℕ) → Conn → Outcome (List R)
  event_stream cid none c = failed not_encoded
  event_stream cid (some payload) c = on_subscribed (send codec (request_frame cid payload) c)
