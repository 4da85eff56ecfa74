-- ===== src/Lab/Supervisor/Health.antt =====
-- The entry, the link and the row of an angel through registration, heartbeats and their absence.
use angellab.Prelude.{
  ℕ, ◌≡◌, refl, true, none, some, arith, if◌then◌else◌, bytes_eq, Bool-cases, inl, inr,
}
use angellab.Lab.Conn
use angellab.Lab.Conn.{
  ConnState, Link, mark_recovered, mark_lost, transition, registered, recovering, valid_transition,
  recovery_window,
}
use angellab.Registry.{
  AngelId, Angel, Registry, AngelState, get_angel, update_state, touch_last_seen, state_training,
  state_active, state_unstable,
}
use angellab.Registry.Recovery.{find-update}
use angellab.Lab.Supervisor.{
  AngelEntry, Env, HeartbeatPayload, register_conn, handle_heartbeat, check_heartbeat, is_late,
}

pub get_angel-update_state :
    (now : ℕ) (id : AngelId) (s : AngelState) (r : Registry) (a : Angel)
    → get_angel id r ≡ some a
    → get_angel id (update_state true now id s r) ≡ some (record a { state = s; updated_at = now })
unfolding get_angel update_state
get_angel-update_state now id s r a h = ground (
  arith,
  bytes_eq.eqb_iff id id,
  find-update (λ a. record a { state = s; updated_at = now }) id id r.angels (λ a. refl),
)

get_angel-touch_last_seen :
    (now : ℕ) (id : AngelId) (r : Registry) (a : Angel)
    → get_angel id r ≡ some a
    → get_angel id (touch_last_seen true now id r)
      ≡ some (record a { last_seen = some now; updated_at = now })
unfolding get_angel touch_last_seen
get_angel-touch_last_seen now id r a h = ground (
  arith,
  bytes_eq.eqb_iff id id,
  find-update (λ a. record a { last_seen = some now; updated_at = now }) id id r.angels (λ a. refl),
)

-- An angel that everyone takes for alive.
pub record IsUp (conn now : ℕ) (e : AngelEntry) (r : Registry) : Type 0 where
  pub entry_active : e.state ≡ state_active
  pub connected : e.conn ≡ some conn
  pub link_active : e.link.tracker.state ≡ Conn.active
  pub no_window : e.link.tracker.recovery_timer ≡ none
  pub heard : e.last_heartbeat ≡ some now
  pub row : Angel
  pub stored : get_angel e.id r ≡ some row
  pub row_active : row.state ≡ state_active
  pub row_seen : row.last_seen ≡ some now

registered_link :
    (env : Env) (t conn : ℕ) (e : AngelEntry) (r : Registry)
    → let e' = (register_conn env t conn e r).0 in
      (e'.link.tracker.state ≡ registered)
      × (e'.link.tracker.recovery_timer ≡ none)
      × (e'.state ≡ state_training)
      × (e'.conn ≡ some conn)
      × (e'.id ≡ e.id)
unfolding register_conn mark_recovered transition valid_transition
registered_link env t conn e r = (refl, refl, refl, refl, refl)

-- Whatever the state of the link and of the entry, a registration and the first heartbeat after it
-- make the entry, the link and the row of the registry ACTIVE, with the new connection and without
-- a recovery window, when the row exists and the SQL statements succeed.
first_heartbeat-IsUp :
    (env env' : Env) (t t' conn : ℕ) (hb : HeartbeatPayload) (e : AngelEntry) (r : Registry)
    (a : Angel)
    → ((k : ℕ) → env.db k ≡ true)
    → ((k : ℕ) → env'.db k ≡ true)
    → get_angel e.id r ≡ some a
    → let (e1, r1) = register_conn env t conn e r in
      let (e2, r2) = handle_heartbeat env' t' hb e1 r1 in IsUp conn t' e2 r2
unfolding register_conn mark_recovered transition valid_transition handle_heartbeat
first_heartbeat-IsUp env env' t t' conn hb e r a ok ok' row = record {
  entry_active = refl;
  connected = refl;
  link_active = refl;
  no_window = refl;
  heard = refl;
  row = record a { state = state_active; last_seen = some t'; updated_at = t' };
  stored =
      rw (ok 0, ok' 0, ok' 1)
        (get_angel-update_state t' e.id state_active _ _ (
          get_angel-touch_last_seen t' e.id _ _
            (get_angel-update_state t e.id state_training r a row)));
  row_active = refl;
  row_seen = refl;
}

-- `checkHeartbeats` leaves an entry ACTIVE exactly when it was and its last heartbeat, if any, is at
-- most the timeout ago; the others that were ACTIVE become UNSTABLE, in the registry too.
check_heartbeat_late :
    (env : Env) (timeout now : ℕ) (e : AngelEntry) (r : Registry) (a : Angel)
    → env.db 0 ≡ true
    → e.state ≡ state_active
    → get_angel e.id r ≡ some a
    → let (e', r') = check_heartbeat env timeout now e r in
      let s = if is_late timeout now e.last_heartbeat then state_unstable else state_active in
      (e'.state ≡ s)
      × (get_angel e.id r'
          ≡ some (
              if is_late timeout now e.last_heartbeat
              then record a { state = s; updated_at = now }
              else a))
unfolding check_heartbeat
check_heartbeat_late env timeout now e r a ok up row =
    elim (Bool-cases (is_late timeout now e.last_heartbeat)) [
      | inl late ↦ rw (up, late, ok) (refl, get_angel-update_state now e.id state_unstable r a row)
      | inr fresh ↦ rw (up, fresh) (refl, row)
    ]
