-- ===== src/Ipc.antt =====
-- pkg/ipc/transport.go: framed messages on a connection, and the handshake. msgpack is a parameter. A
-- connection holds what the peer will have sent, each byte with the time at which it arrives, and
-- what this side has written. The peer closes it behind its last byte; for a silent peer the next
-- byte arrives late. A read fails at its deadline. Times are nanoseconds.
pub mod Frames
pub mod Deadlines
pub mod Client
mod Tests
use angellab.Prelude.{
  ℕ, suc, zero, ◌+◌, ◌-◌, ◌*◌, ◌/◌, ◌%◌, ◌^◌, Bool, true, false, not, ◌&&◌, ◌||◌, Option, none,
  some, List, [], ◌∷◌, ◌++◌, String, if◌then◌else◌, ltb, leb, nat_beq, max, length,
}

abbrev pub protocol_version : ℕ
protocol_version = 1

-- 16 << 20
abbrev pub max_frame_size : ℕ
max_frame_size = 16 * 2 ^ 20

abbrev pub frame_header_size : ℕ
frame_header_size = 4

-- 10 * time.Second
abbrev pub default_rw_timeout : ℕ
default_rw_timeout = 10 * 1_000_000_000

-- 3 * time.Second
abbrev pub hello_timeout : ℕ
hello_timeout = 3 * 1_000_000_000

pub data MessageKind : Type 0 where
  kind_hello kind_register kind_heartbeat kind_event : MessageKind
  kind_cmd_ping kind_cmd_pong kind_cmd_status kind_cmd_terminate : MessageKind
  kind_cli_request kind_cli_response kind_event_stream : MessageKind

pub data Role : Type 0 where
  role_angel role_cli role_lab : Role

pub record Message : Type 0 where
  pub version : ℕ
  pub kind : MessageKind
  pub correlation_id : String
  pub payload : List ℕ

-- `Binary` is informational and left out
pub record HelloPayload : Type 0 where
  pub version : ℕ
  pub role : Role

-- msgpack.Marshal and msgpack.Unmarshal for the two types; `none` is an error
pub record Msgpack : Type 0 where
  pub marshal : Message → Option (List ℕ)
  pub unmarshal : List ℕ → Option Message
  pub encode_hello : HelloPayload → Option (List ℕ)
  pub decode_hello : List ℕ → Option HelloPayload

pub record Conn : Type 0 where
  pub now : ℕ
  pub incoming : List (ℕ × ℕ)  -- when a byte arrives, and the byte
  pub written : List ℕ
  pub writable : Bool  -- whether writes succeed
  pub read_deadline : Option ℕ
  pub write_deadline : Option ℕ
  pub closed : Bool

pub data IpcError : Type 0 where
  marshal_failed unmarshal_failed write_failed : IpcError
  read_header read_payload zero_length_frame : IpcError
  frame_too_large : ℕ → IpcError
  unexpected_kind : IpcError
  version_mismatch : ℕ → IpcError

pub data Result (A : Type 0) : Type 0 where
  ok : A → Result A
  error : IpcError → Result A

-- `none` is the zero time: no deadline
unfoldable pub set_deadline : Option ℕ → Conn → Conn
set_deadline d c = record c { read_deadline = d; write_deadline = d }

abbrev pub in_time : ℕ → Option ℕ → Bool
in_time t none = true
in_time t (some d) = leb t d

-- the time at which a read past its deadline fails
abbrev pub timed_out : ℕ → Option ℕ → ℕ
timed_out now none = now
timed_out now (some d) = max now d

-- what io.ReadFull leaves: the time, the bytes that are left, and the bytes that were asked for
unfoldable pub read_full : ℕ → Option ℕ → ℕ → List (ℕ × ℕ) → ℕ × List (ℕ × ℕ) × Option (List ℕ)
read_full zero deadline now incoming = (now, incoming, some [])
read_full (suc n) deadline now [] = (now, [], none)
read_full (suc n) deadline now ((t, b) ∷ rest) =
    let (now', left, bytes) = read_full n deadline (max now t) rest in
    if in_time (max now t) deadline
    then (now', left, elim bytes [ none ↦ none | some bs ↦ some (b ∷ bs) ])
    else (timed_out now deadline, (t, b) ∷ rest, none)

-- binary.BigEndian.PutUint32 and Uint32
abbrev pub put_uint32 : ℕ → List ℕ
put_uint32 n = n / 2 ^ 24 % 256 ∷ n / 2 ^ 16 % 256 ∷ n / 2 ^ 8 % 256 ∷ n % 256 ∷ []

abbrev pub uint32 : List ℕ → ℕ
uint32 (a ∷ b ∷ c ∷ d ∷ []) = a * 2 ^ 24 + b * 2 ^ 16 + c * 2 ^ 8 + d
uint32 _ = 0

-- from the encoded message on
unfoldable pub send_bytes : Option (List ℕ) → Conn → Conn × Option IpcError
send_bytes none c = (c, some marshal_failed)
send_bytes (some payload) c =
    let c' : Conn = record c { write_deadline = some (c.now + default_rw_timeout) } in
    if ltb max_frame_size (length payload)
    then (c, some (frame_too_large (length payload)))
    else if not c.writable
    then (c', some write_failed)
    else (record c' { written = c.written ++ (put_uint32 (length payload) ++ payload) }, none)

unfoldable pub send : Msgpack → Message → Conn → Conn × Option IpcError
send codec msg c = send_bytes (codec.marshal msg) c

abbrev pub decoded : Option Message → Result Message
decoded none = error unmarshal_failed
decoded (some msg) = ok msg

-- from the body of the frame on
unfoldable pub recv_body : Msgpack → Option (List ℕ) → Result Message
recv_body codec none = error read_payload
recv_body codec (some buf) = decoded (codec.unmarshal buf)

-- from the size on; `read` is what `read_full` finds for it
abbrev pub recv_sized :
    Msgpack → ℕ → ℕ × List (ℕ × ℕ) × Option (List ℕ) → Conn → Conn × Result Message
recv_sized codec size read c =
    if nat_beq size 0
    then (c, error zero_length_frame)
    else if ltb max_frame_size size
    then (c, error (frame_too_large size))
    else (
      record c {
        now = read.0;
        incoming = read.1;
        read_deadline = some (c.now + default_rw_timeout);
      },
      recv_body codec read.2,
    )

-- from the header on
unfoldable pub recv_frame : Msgpack → Option (List ℕ) → Conn → Conn × Result Message
recv_frame codec none c = (c, error read_header)
recv_frame codec (some header) c =
    let size = uint32 header in
    recv_sized codec size (read_full size (some (c.now + default_rw_timeout)) c.now c.incoming) c

-- from what `read_full` finds for the header on
abbrev pub recv_header : Msgpack → ℕ × List (ℕ × ℕ) × Option (List ℕ) → Conn → Conn × Result Message
recv_header codec read c = recv_frame codec read.2 (record c {
  now = read.0;
  incoming = read.1;
  read_deadline = some (c.now + default_rw_timeout);
})

unfoldable pub recv : Msgpack → Conn → Conn × Result Message
unfolding recv_frame
recv codec c =
    recv_header codec
      (read_full frame_header_size (some (c.now + default_rw_timeout)) c.now c.incoming) c

abbrev pub is_hello : MessageKind → Bool
is_hello kind_hello = true
is_hello _ = false

abbrev pub is_pong : MessageKind → Bool
is_pong kind_cmd_pong = true
is_pong _ = false

unfoldable pub send_hello : Msgpack → Role → Conn → Conn × Option IpcError
send_hello codec role c =
    elim (codec.encode_hello (record { version = protocol_version; role = role })) [
      | none ↦ (c, some marshal_failed)
      | some payload ↦
          send codec
            (record {
              version = protocol_version;
              kind = kind_hello;
              correlation_id = "";
              payload = payload;
            })
            (set_deadline (some (c.now + hello_timeout)) c)
    ]

-- the tests that both sides make of the peer's frame
unfoldable pub check_hello : Msgpack → Result Message → Result HelloPayload
check_hello codec (error e) = error e
check_hello codec (ok msg) =
    if not (is_hello msg.kind)
    then error unexpected_kind
    else elim (codec.decode_hello msg.payload) [
      | none ↦ error unmarshal_failed
      | some hello ↦
          if nat_beq hello.version protocol_version
          then ok hello
          else error (version_mismatch hello.version)
    ]

abbrev pub cleared : Result HelloPayload → Conn → Conn
cleared (error e) c = c
cleared (ok hello) c = set_deadline none c

unfoldable pub recv_hello_ack : Msgpack → Conn → Conn × Result HelloPayload
recv_hello_ack codec c =
    let (c', msg) = recv codec (set_deadline (some (c.now + hello_timeout)) c) in
    let hello = check_hello codec msg in (cleared hello c', hello)

abbrev pub ack : Conn × Option IpcError → HelloPayload → Conn × Result HelloPayload
ack (c, none) hello = (set_deadline none c, ok hello)
ack (c, some e) hello = (c, error e)

abbrev pub answer : Msgpack → Conn → Result HelloPayload → Conn × Result HelloPayload
answer codec c (error (version_mismatch v)) =
    (record c { closed = true }, error (version_mismatch v))
answer codec c (error e) = (c, error e)
answer codec c (ok hello) = ack (send_hello codec role_lab c) hello

-- `AcceptHello`
unfoldable pub accept_hello : Msgpack → Conn → Conn × Result HelloPayload
accept_hello codec c =
    let (c', msg) = recv codec (set_deadline (some (c.now + hello_timeout)) c) in
    answer codec c' (check_hello codec msg)

abbrev pub pong : Result Message → Option IpcError
pong (error e) = some e
pong (ok msg) = if is_pong msg.kind then none else some unexpected_kind

abbrev pub await_pong : Msgpack → Conn × Option IpcError → Conn × Option IpcError
await_pong codec (c, some e) = (set_deadline none c, some e)
await_pong codec (c, none) = let (c', msg) = recv codec c in (set_deadline none c', pong msg)

unfoldable pub ping : Msgpack → ℕ → Conn → Conn × Option IpcError
ping codec timeout c = await_pong codec (
    send codec
      (record {
        version = protocol_version;
        kind = kind_cmd_ping;
        correlation_id = "";
        payload = [];
      })
      (set_deadline (some (c.now + timeout)) c))
