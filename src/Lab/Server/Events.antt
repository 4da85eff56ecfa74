-- ===== src/Lab/Server/Events.antt =====
-- What becomes of an angel's events.
use angellab.Prelude.{
  ℕ, ◌≡◌, refl, sym, ap, ◌∙◌, ◌&&◌, some, [], ◌∷◌, ◌++◌, arith, inl, inr, Bool-cases, if◌then◌else◌,
  is_some, nat_eq, string_eq, bytes_eq, ◌==◌,
}
use angellab.Prelude.Map.{lookup}
use angellab.Registry.{AngelId, Event, Registry, insert_event, get_angel}
use angellab.Ipc.{Msgpack}
use angellab.Lab.Broadcast.{EventPayload, Broadcaster}
use angellab.Lab.Broadcast.Delivery.{
  Reachable, after, publishes, given, map_channel, publish_delivers,
}
use angellab.Lab.Supervisor.{Env}
use angellab.Lab.Server.{
  Payloads, Server, severity_string, parse_severity, with_bcast, handle_event,
}

-- The text of a severity is read back, and what is no severity becomes INFO.
parse-severity_string :
    (severity : ℕ)
    → parse_severity (severity_string severity)
      ≡ (if severity == 2 then 2 else if severity == 3 then 3 else 1)
unfolding parse_severity severity_string
parse-severity_string severity = elim (Bool-cases (severity == 1)) [
  | inl info ↦ let e : severity ≡ 1 = ground (arith, info) in rw e refl
  | inr other ↦ elim (Bool-cases (severity == 2)) [
    | inl warn ↦ let e : severity ≡ 2 = ground (arith, warn) in rw e refl
    | inr not_warn ↦ elim (Bool-cases (severity == 3)) [
      | inl crit ↦ let e : severity ≡ 3 = ground (arith, crit) in rw e refl
      | inr unknown ↦ rw (other, not_warn, unknown) refl
    ]
  ]
]

module _ (codec : Msgpack) (ps : Payloads) where
  abbrev event_row : Registry → AngelId → EventPayload → Event
  event_row r id ev = record {
    row = r.next_row;
    angel_id = id;
    severity = severity_string ev.severity;
    message = ev.message;
    meta_json = ps.marshal_meta ev.meta;
    occurred_at = ev.timestamp;
  }

  -- the state after an event of an angel
  pub record IsHandled (env : Env) (id : AngelId) (ev : EventPayload) (s s' : Server) : Type 0 where
    pub stored : s'.sup.reg.events ≡ (
        if env.db 0 && is_some (get_angel id s.sup.reg)
        then s.sup.reg.events ++ event_row s.sup.reg id ev ∷ []
        else s.sup.reg.events)
    pub rows_kept : s'.sup.reg.angels ≡ s.sup.reg.angels
    pub table_kept : s'.sup.angels ≡ s.sup.angels
    pub delivered :
        (sub : ℕ) → lookup sub s'.bcast.subs ≡ map_channel (given ev) (lookup sub s.bcast.subs)
    pub reachable : Reachable s'.bcast

  pub handle_event-IsHandled :
      (env : Env) (id : AngelId) (ev : EventPayload) (s : Server)
      → Reachable s.bcast
      → (s' : Server) × (handle_event codec ps env id ev s ≡ some s') × IsHandled env id ev s s'
  unfolding handle_event insert_event get_angel
  handle_event-IsHandled env id ev s r =
      let (b, sent, first) = publish_delivers s.bcast ev 0 r in
      let (reg, _) =
        insert_event (env.db 0) id (severity_string ev.severity) ev.message
          (ps.marshal_meta ev.meta) ev.timestamp s.sup.reg in
      (
        record s { sup = record s.sup { reg = reg }; bcast = b },
        ap (with_bcast (record s { sup = record s.sup { reg = reg } })) sent,
        record {
          stored = ground arith;
          rows_kept = ground arith;
          table_kept = refl;
          delivered = λ sub.
              let (b2, sent2, there) = publish_delivers s.bcast ev sub r in
              let same : b2 ≡ b = ground (arith, sent, sent2) in
              ap (λ (m : Broadcaster). lookup sub m.subs) (sym same) ∙ there;
          reachable = after r (publishes ev sent);
        },
      )
