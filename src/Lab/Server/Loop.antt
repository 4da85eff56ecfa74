-- ===== src/Lab/Server/Loop.antt =====
-- The receive loop of an angel: every frame is handled, and the loop ends with the connection.
use angellab.Prelude.{
  ℕ, suc, zero, ◌+◌, ◌*◌, ◌<◌, ◌≡◌, refl, sym, ap, true, false, Option, none, some, List, arith,
  inl, inr, Option-cases, length, is_some, nat_eq, string_eq, bytes_eq,
}
use mathlib.Core.Path.{subst}
use angellab.Prelude.Map.{lookup}
use angellab.Registry.{AngelId}
use angellab.Ipc.{
  Message, MessageKind, Msgpack, Conn, Result, ok, error, set_deadline, recv, kind_hello,
  kind_register, kind_heartbeat, kind_event, kind_cmd_ping, kind_cmd_pong, kind_cmd_status,
  kind_cmd_terminate, kind_cli_request, kind_cli_response, kind_event_stream,
}
use angellab.Lab.Broadcast.{EventPayload}
use angellab.Lab.Broadcast.Delivery.{Reachable}
use angellab.Lab.Supervisor.{Env, HeartbeatPayload}
use angellab.Lab.Supervisor.Table.{Supervisor, register_conn_of}
use angellab.Lab.Server.{
  Payloads, Server, Outside, Ending, returned, on_heartbeat, on_event, with_conn, pong_to, on_frame,
  lost, then_again, on_received, angel_loop, is_register, handle_angel_conn,
}
use angellab.Lab.Server.Frames.{recv-shorter, incoming-send}
use angellab.Lab.Server.Events.{handle_event-IsHandled}

length-set_deadline :
    (d : Option ℕ) (c : Conn) → length (set_deadline d c).incoming ≡ length c.incoming
unfolding set_deadline
length-set_deadline d c = refl

known-register_conn_of :
    (env : Env) (now : ℕ) (id : AngelId) (number : ℕ) (s : Supervisor)
    → is_some (lookup id s.angels) ≡ true
    → (register_conn_of env now id number s).1 ≡ true
unfolding register_conn_of
known-register_conn_of env now id number s known = elim (Option-cases (lookup id s.angels)) [
  | inl missing ↦ ground (arith, known, missing)
  | inr (lane, found) ↦ ground (arith, found)
]

module _ (codec : Msgpack) (ps : Payloads) where
  -- a frame that is handled
  record IsTaken (s : Server) (c : Conn) (o : Option (Server × Conn)) : Type 0 where
    s' : Server
    c' : Conn
    handled : o ≡ some (s', c')
    still : Reachable s'.bcast
    rest_kept : c'.incoming ≡ c.incoming

  untouched : (s : Server) (c : Conn) → Reachable s.bcast → IsTaken s c (some (s, c))
  untouched s c r = record { s' = s; c' = c; handled = refl; still = r; rest_kept = refl }

  on_event-IsTaken :
      (env : Env) (id : AngelId) (o : Option EventPayload) (s : Server) (c : Conn)
      → Reachable s.bcast
      → IsTaken s c (with_conn c (on_event codec ps env id o s))
  on_event-IsTaken env id none s c r = untouched s c r
  on_event-IsTaken env id (some ev) s c r =
      let (s', done, h) = handle_event-IsHandled codec ps env id ev s r in
      record {
        s' = s';
        c' = c;
        handled = ap (with_conn c) done;
        still = h.reachable;
        rest_kept = refl;
      }

  bcast-on_heartbeat :
      (env : Env) (now : ℕ) (o : Option HeartbeatPayload) (s : Server)
      → (on_heartbeat env now o s).bcast ≡ s.bcast
  bcast-on_heartbeat env now none s = refl
  bcast-on_heartbeat env now (some hb) s = refl

  on_frame-IsTaken :
      (kind : MessageKind) (env : Env) (id : AngelId) (msg : Message) (s : Server) (c : Conn)
      → Reachable s.bcast
      → IsTaken s c (on_frame codec ps kind env id msg s c)
  unfolding on_frame
  on_frame-IsTaken kind_event env id msg s c r =
      on_event-IsTaken env id (ps.decode_event msg.payload) s c r
  on_frame-IsTaken kind_heartbeat env id msg s c r = record {
    s' = on_heartbeat env c.now (ps.decode_heartbeat msg.payload) s;
    c' = c;
    handled = refl;
    still =
        subst Reachable (sym (bcast-on_heartbeat env c.now (ps.decode_heartbeat msg.payload) s)) r;
    rest_kept = refl;
  }
  on_frame-IsTaken kind_cmd_ping env id msg s c r = record {
    s' = s;
    c' = pong_to codec msg c;
    handled = refl;
    still = r;
    rest_kept = incoming-send codec _ c;
  }
  on_frame-IsTaken kind_hello env id msg s c r = untouched s c r
  on_frame-IsTaken kind_register env id msg s c r = untouched s c r
  on_frame-IsTaken kind_cmd_pong env id msg s c r = untouched s c r
  on_frame-IsTaken kind_cmd_status env id msg s c r = untouched s c r
  on_frame-IsTaken kind_cmd_terminate env id msg s c r = untouched s c r
  on_frame-IsTaken kind_cli_request env id msg s c r = untouched s c r
  on_frame-IsTaken kind_cli_response env id msg s c r = untouched s c r
  on_frame-IsTaken kind_event_stream env id msg s c r = untouched s c r

  -- the loop ended because the connection did, and said so to the supervisor
  pub record EndsLost (id : AngelId) (e : Ending) : Type 0 where
    pub now : ℕ
    pub s : Server
    pub c : Conn
    pub ended : e ≡ returned (lost now id s) c

  on_received-EndsLost :
      (env : Env) (id : AngelId) (msg : Result Message) (s : Server) (c : Conn)
      (again : Server → Conn → Ending)
      → Reachable s.bcast
      → ((m : Message) (s' : Server) (c' : Conn)
          → msg ≡ ok m
          → Reachable s'.bcast
          → c'.incoming ≡ c.incoming
          → EndsLost id (again s' c'))
      → EndsLost id (on_received codec ps env id msg s c again)
  on_received-EndsLost env id (error e) s c again r next = record {
    now = c.now;
    s = s;
    c = c;
    ended = refl;
  }
  on_received-EndsLost env id (ok m) s c again r next =
      let t = on_frame-IsTaken m.kind env id m s c r in
      subst (λ o. EndsLost id (then_again o again)) (sym t.handled)
        (next m t.s' t.c' refl t.still t.rest_kept)

  angel_loop-EndsLost :
      (out : Outside) (timeout : ℕ) (id : AngelId) (fuel n : ℕ) (s : Server) (c : Conn)
      → ((i : ℕ) → out.cancelled i ≡ false)
      → Reachable s.bcast
      → length c.incoming < fuel
      → EndsLost id (angel_loop codec ps out timeout id fuel n s c)
  unfolding angel_loop
  angel_loop-EndsLost out timeout id zero n s c runs r enough = absurd (omega (arith, enough))
  angel_loop-EndsLost out timeout id (suc fuel) n s c runs r enough =
      let c1 = set_deadline (some (c.now + timeout * 2)) c in
      let done : EndsLost id (
          on_received codec ps (out.env n) id (recv codec c1).1 s (recv codec c1).0
            (λ s' c'. angel_loop codec ps out timeout id fuel (n + 1) s' c')) =
        on_received-EndsLost (out.env n) id (recv codec c1).1 s (recv codec c1).0 _ r
          (λ m s' c' got still rest.
            angel_loop-EndsLost out timeout id fuel (n + 1) s' c' runs still (
              omega (
                arith,
                enough,
                ap (λ (l : List (ℕ × ℕ)). length l) rest,
                recv-shorter codec c1 m got,
                length-set_deadline (some (c.now + timeout * 2)) c,
              ))) in
      rw (runs n) done

  -- The handler of an angel that the table knows ends, whatever the angel sends and however the
  -- frames end, if the context is not cancelled: its last act is to tell the supervisor that the
  -- connection is lost.
  pub angel_conn-EndsLost :
      (out : Outside) (timeout number : ℕ) (s : Server) (c : Conn) (msg : Message) (id : AngelId)
      → ((i : ℕ) → out.cancelled i ≡ false)
      → Reachable s.bcast
      → (recv codec c).1 ≡ ok msg
      → is_register msg.kind ≡ true
      → ps.decode_register msg.payload ≡ some id
      → is_some (lookup id s.sup.angels) ≡ true
      → EndsLost id (handle_angel_conn codec ps out timeout number s c)
  unfolding handle_angel_conn
  angel_conn-EndsLost out timeout number s c msg id runs r got first decoded known =
      let c' = (recv codec c).0 in
      let entered = known-register_conn_of (out.env 0) c'.now id number s.sup known in
      rw (got, first, decoded, entered)
        (angel_loop-EndsLost out timeout id (suc (length c'.incoming)) 1
          (record s { sup = (register_conn_of (out.env 0) c'.now id number s.sup).0 })
          (set_deadline none c') runs r (omega (arith, length-set_deadline none c')))
