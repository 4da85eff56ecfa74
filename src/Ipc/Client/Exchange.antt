-- ===== src/Ipc/Client/Exchange.antt =====
-- A request and its response, on the bytes of the connection.
use angellab.Prelude.{
  ℕ, ◌+◌, ◌≤◌, ◌≡◌, refl, ap, ◌∙◌, true, false, Option, none, some, List, [], String, arith,
  string_eq, ◌==◌, ltb, length,
}
use angellab.Ipc.{
  Message, Msgpack, Conn, set_deadline, send, send_bytes, max_frame_size, kind_cli_response,
  protocol_version,
}
use angellab.Ipc.Frames.{IsEncodable, arrived, recv-send}
use angellab.Ipc.Client.{
  answered, request_frame, response_timeout, check_response, on_response, on_sent, request,
}

pub sent-send :
    (codec : Msgpack) (m : Message) (c : Conn)
    → IsEncodable codec m
    → c.writable ≡ true
    → ((send codec m c).1 ≡ none)
      × ((send codec m c).0.incoming ≡ c.incoming)
      × ((send codec m c).0.now ≡ c.now)
unfolding send send_bytes
sent-send codec m c (b, writes, reads, filled, fits) up =
    let small : ltb max_frame_size (length b) ≡ false = ground (arith, fits) in
    rw (writes, small, up) (refl, refl, refl)

self-eqb : (cid : String) → (cid == cid) ≡ true
self-eqb cid = ground (arith, string_eq.eqb_iff cid cid)

module _ {R : Type 0} (codec : Msgpack) (decode : List ℕ → Option R) where
  -- the response of the peer, when its frame is there
  pub request-answered :
      (cid : String) (payload body : List ℕ) (c peer : Conn) (t : ℕ) (r : R)
      → let reply : Message = record {
        version = protocol_version;
        kind = kind_cli_response;
        correlation_id = cid;
        payload = body;
      } in
        IsEncodable codec (request_frame cid payload)
        → IsEncodable codec reply
        → c.writable ≡ true
        → peer.writable ≡ true
        → peer.written ≡ []
        → t ≤ c.now
        → c.incoming ≡ arrived t (send codec reply peer).0.written
        → decode body ≡ some r
        → (request codec decode cid (some payload) c).1 ≡ answered r
  unfolding request check_response set_deadline
  request-answered cid payload body c peer t r ask tell up peer_up empty here there decodes =
      let (fine, rest, same) = sent-send codec (request_frame cid payload) c ask up in
      let p = send codec (request_frame cid payload) c in
      let c1 = set_deadline (some (p.0.now + response_timeout)) p.0 in
      let got =
        recv-send codec _ peer c1 t tell peer_up empty (omega (arith, here, same)) (rest ∙ there) in
      ap (λ e. (on_sent codec decode cid (p.0, e)).1) fine
      ∙ ap (λ x. (on_response codec decode cid x).1) got
      ∙ rw (self-eqb cid, decodes) refl
