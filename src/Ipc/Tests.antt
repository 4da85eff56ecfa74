-- ===== src/Ipc/Tests.antt =====
-- A heartbeat sent twice, and a peer that is silent for eleven seconds.
use angellab.Prelude.{◌+◌, ◌≡◌, refl, none, some, [], ◌∷◌, arith, true, false}
use angellab.Ipc.{
  default_rw_timeout, Msgpack, Message, Conn, ok, error, read_header, kind_heartbeat, recv,
  set_deadline,
}
use angellab.Ipc.Frames.{IsEncodable, arrived, send_all, recv_some, recv-send_all}
use angellab.Ipc.Deadlines.{recv_own_deadline}

abbrev beat : Message
beat = record { version = 1; kind = kind_heartbeat; correlation_id = ""; payload = 7 ∷ [] }

-- msgpack of one message
abbrev codec : Msgpack
codec = record {
  marshal = λ m. some (130 ∷ 7 ∷ []);
  unmarshal = λ b. some beat;
  encode_hello = λ h. none;
  decode_hello = λ b. none;
}

abbrev fresh : Conn
fresh = record {
  now = 50;
  incoming = [];
  written = [];
  writable = true;
  read_deadline = none;
  write_deadline = none;
  closed = false;
}

beat-IsEncodable : IsEncodable codec beat
beat-IsEncodable = (130 ∷ 7 ∷ [], refl, refl, omega arith, omega arith)

recv-send_all_example :
    (recv_some codec 2
      (record fresh { incoming = arrived 40 (send_all codec (beat ∷ beat ∷ []) fresh).written })).1
    ≡ ok beat ∷ ok beat ∷ []
recv-send_all_example =
    recv-send_all codec (beat ∷ beat ∷ []) fresh
      (record fresh { incoming = arrived 40 (send_all codec (beat ∷ beat ∷ []) fresh).written }) 40
      (beat-IsEncodable, (beat-IsEncodable, tt)) refl refl (omega arith) refl

recv_own_deadline_example :
    let c = record fresh { incoming = (50 + 11_000_000_000, 0) ∷ [] } in
    ((recv codec (set_deadline none c)).1 ≡ error read_header)
    × ((recv codec (set_deadline none c)).0.now ≡ 50 + default_rw_timeout)
recv_own_deadline_example =
    recv_own_deadline codec none (record fresh { incoming = (50 + 11_000_000_000, 0) ∷ [] })
      (50 + 11_000_000_000) 0 [] refl (omega arith)
