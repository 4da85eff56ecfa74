-- ===== src/Lab/Server/Cli/Streams.antt =====
-- The stream of events, from the daemon to the command line.
use angellab.Prelude.{
  ℕ, zero, suc, ◌≤◌, ◌<◌, ◌≡◌, refl, sym, ap, ◌∙◌, true, Option, some, List, [], ◌∷◌, ◌++◌, arith,
  length, All, map, length-append,
}
use mathlib.Core.List.{append-nil}
use angellab.Ipc.{
  Message, Msgpack, Conn, error, read_header, send, recv, recv_frame, read_full, protocol_version,
  kind_event_stream,
}
use angellab.Ipc.Frames.{
  IsEncodable, frame, arrived, arrived-append, bytes_append_assoc, taken, recv-frame, written-send,
}
use angellab.Ipc.Client.{events_from, on_event}
use angellab.Ipc.Client.Exchange.{sent-send}
use angellab.Lab.Broadcast.{EventPayload}
use angellab.Lab.Server.Cli.{CliPayloads}
use angellab.Lab.Server.Cli.Responses.{stream, sent_on}

abbrev pub event_frame : List ℕ → Message
event_frame payload = record {
  version = protocol_version;
  kind = kind_event_stream;
  correlation_id = "";
  payload = payload;
}

recv-empty : (codec : Msgpack) (c : Conn) → c.incoming ≡ [] → (recv codec c).1 ≡ error read_header
unfolding recv recv_frame read_full
recv-empty codec c e = rw e refl

length-arrived : (t : ℕ) (bs : List ℕ) → length (arrived t bs) ≡ length bs
length-arrived t [] = refl
length-arrived t (b ∷ bs) = omega (arith, length-arrived t bs)

module _ {R : Type 0} (codec : Msgpack) (cp : CliPayloads) (decode : List ℕ → Option R)
    (seen : EventPayload → R) where
  -- an event that is encoded within the limit, and read as `seen`
  abbrev pub IsSendable : EventPayload → Type 0
  IsSendable ev =
      (payload : List ℕ) × (cp.encode_event ev ≡ some payload)
      × (decode payload ≡ some (seen ev))
      × IsEncodable codec (event_frame payload)

  -- the bytes of their frames
  abbrev bytes : (events : List EventPayload) → All IsSendable events → List ℕ
  bytes [] h = []
  bytes (ev ∷ rest) ((payload, encoded, reads, (b, writes, back, filled, fits)), h) =
      frame b ++ bytes rest h

  bytes-long :
      (events : List EventPayload) (h : All IsSendable events)
      → length events ≤ length (bytes events h)
  bytes-long [] h = omega arith
  bytes-long (ev ∷ rest) ((payload, encoded, reads, (b, writes, back, filled, fits)), h) =
      omega (arith, length-append b (bytes rest h), bytes-long rest h)

  written-stream :
      (events : List EventPayload) (h : All IsSendable events) (c : Conn)
      → c.writable ≡ true
      → (stream codec cp events c).written ≡ c.written ++ bytes events h
  unfolding stream
  written-stream [] h c up = sym (append-nil c.written)
  written-stream (ev ∷ rest) ((payload, encoded, reads, (b, writes, back, filled, fits)), h) c up =
      let (fine, _, _) =
        sent-send codec (event_frame payload) c (b, writes, back, filled, fits) up in
      let (grown, up') = written-send codec (event_frame payload) b c writes fits up in
      let c' = (send codec (event_frame payload) c).0 in
      rw (stream, encoded)
        (ap (λ e. (sent_on codec cp (c', e) (λ k. stream codec cp rest k)).written) fine
          ∙ written-stream rest h c' up'
          ∙ ap (λ w. w ++ bytes rest h) grown
          ∙ bytes_append_assoc c.written (frame b) (bytes rest h))

  events-arrived :
      (fuel t : ℕ) (events : List EventPayload) (h : All IsSendable events) (c : Conn)
      → length events < fuel
      → t ≤ c.now
      → c.incoming ≡ arrived t (bytes events h)
      → events_from codec decode fuel c ≡ map seen events
  unfolding events_from
  events-arrived zero t events h c enough here there = absurd (omega (arith, enough))
  events-arrived (suc fuel) t [] h c enough here there =
      ap (λ r. on_event codec decode r (events_from codec decode fuel (recv codec c).0))
        (recv-empty codec c there)
  events-arrived (suc fuel) t (ev ∷ rest)
        ((payload, encoded, reads, (b, writes, back, filled, fits)), h) c enough here there =
      let left = arrived t (bytes rest h) in
      let got =
        ap (λ i. recv codec (record c { incoming = i }))
          (there ∙ arrived-append t (frame b) (bytes rest h))
        ∙ recv-frame codec t b (event_frame payload) left c here back filled fits in
      ap (λ r. on_event codec decode r.1 (events_from codec decode fuel r.0)) got
      ∙ rw reads (
          ap (◌∷◌ (seen ev))
            (events-arrived fuel t rest h (taken c left) (omega (arith, enough)) here refl))

  -- The events that the daemon streams are read by the command line in the same order, each once: when
  -- the bytes that `cliEventStream` has written are there, the channel of `EventStream` gives the events
  -- and ends with the connection.
  pub streamed_events :
      (events : List EventPayload) (daemon client : Conn) (t : ℕ)
      → All IsSendable events
      → daemon.writable ≡ true
      → daemon.written ≡ []
      → t ≤ client.now
      → client.incoming ≡ arrived t (stream codec cp events daemon).written
      → events_from codec decode (suc (length client.incoming)) client ≡ map seen events
  streamed_events events daemon client t h up start here there =
      let arrives =
        there
        ∙ ap (arrived t)
            (written-stream events h daemon up ∙ ap (λ w. w ++ bytes events h) start) in
      events-arrived (suc (length client.incoming)) t events h client
        (omega (
          arith,
          ap (λ (l : List (ℕ × ℕ)). length l) arrives,
          length-arrived t (bytes events h),
          bytes-long events h,
        ))
        here arrives
