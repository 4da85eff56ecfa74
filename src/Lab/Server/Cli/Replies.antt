-- ===== src/Lab/Server/Cli/Replies.antt =====
-- What the command line gets for a request, and what a refused request leaves alone.
use angellab.Prelude.{
  ℕ, ◌≡◌, refl, sym, ap, ◌∙◌, Bool, true, false, Option, none, some, List, [], String, arith, inl,
  inr, Bool-cases, Option-cases, if◌then◌else◌, string_eq, bytes_eq, ◌==◌,
}
use angellab.Prelude.Map.{lookup, Map}
use angellab.Prelude.Text.{codes}
use angellab.Ipc.{Message, Msgpack, Conn, ok, send, recv}
use angellab.Lab.Supervisor.{AngelConfig, Effect}
use angellab.Lab.Supervisor.Table.{or_generated, Supervisor, spawn_angel, terminate_angel_of}
use angellab.Lab.Server.{AngelId, Env, Server, returned}
use angellab.Lab.Server.Cli.{
  Codec, CliRequest, Daemon, Refusal, Reply, accepted, refused, CliPayloads, encode_failed,
}
use angellab.Lab.Server.Cli.Commands.{
  arg, on_spawned, requested, cli_angel_create, cli_angel_terminate, cli_command,
}
use angellab.Lab.Server.Cli.Responses.{
  response, is_cli_request, Streaming, send_ok, send_error, send_reply, handle_cli_conn,
}

-- `SpawnAngel` fails before it touches the table or the registry.
spawn_failed_keeps :
    (codec : Codec) (env : Env) (now : ℕ) (cfg : AngelConfig) (s : Supervisor)
    → (spawn_angel codec env now cfg s).1 ≡ none
    → (spawn_angel codec env now cfg s).0 ≡ s
unfolding spawn_angel
spawn_failed_keeps codec env now cfg s h = elim (Option-cases (or_generated cfg.id s.angels)) [
  | inl none_free ↦ rw none_free refl
  | inr (id, chosen) ↦ elim (Option-cases (codec.marshal (record cfg { id = id }))) [
    | inl failed ↦ rw (chosen, failed) refl
    | inr (text, fine) ↦ ground (arith, h, chosen, fine)
  ]
]

-- `TerminateAngel` touches nothing when it does not know the id.
terminate_unknown_keeps :
    (env : Env) (now : ℕ) (id : AngelId) (s : Supervisor)
    → (terminate_angel_of env now id s).2 ≡ false
    → ((terminate_angel_of env now id s).0 ≡ s) × ((terminate_angel_of env now id s).1 ≡ [])
unfolding terminate_angel_of
terminate_unknown_keeps env now id s h = elim (Option-cases (lookup id s.angels)) [
  | inl missing ↦ rw (terminate_angel_of, missing) (refl, refl)
  | inr (lane, found) ↦ ground (arith, h, found)
]

on_spawned-Kept :
    (s : Server) (r : Supervisor × Option AngelConfig) (e : Refusal)
    → (r.1 ≡ none → r.0 ≡ s.sup)
    → (on_spawned s r).1 ≡ refused e
    → (on_spawned s r).0 ≡ s
on_spawned-Kept s (sup, none) e keeps h = ap (λ q. record s { sup = q }) (keeps refl)
on_spawned-Kept s (sup, some cfg) e keeps h = ground (arith, h)

create-Kept :
    (d : Daemon) (args : Map String String) (s : Server) (e : Refusal)
    → (cli_angel_create d args s).1 ≡ refused e
    → (cli_angel_create d args s).0 ≡ s
unfolding cli_angel_create
create-Kept d args s e h = elim (Bool-cases (arg "type" args == "")) [
  | inl missing ↦ rw missing refl
  | inr given ↦ rw given (
      on_spawned-Kept s (spawn_angel d.codec d.env d.now (requested args) s.sup) e
        (spawn_failed_keeps d.codec d.env d.now (requested args) s.sup) (sym (rw given refl) ∙ h))
]

-- what a refused command leaves as it was
abbrev pub Kept : Server → Server × List Effect × Reply → Type 0
Kept s r = (e : Refusal) → r.2 ≡ refused e → (r.0 ≡ s) × (r.1 ≡ [])

if-Kept :
    (s : Server) (b : Bool) (x y : Server × List Effect × Reply)
    → Kept s x
    → Kept s y
    → Kept s (if b then x else y)
if-Kept s true x y hx hy = hx
if-Kept s false x y hx hy = hy

terminate-Kept :
    (d : Daemon) (args : Map String String) (s : Server) → Kept s (cli_angel_terminate d args s)
unfolding cli_angel_terminate
terminate-Kept d args s =
    let id = codes (arg "id" args) in
    if-Kept s (arg "id" args == "") _ _ (λ e h. (refl, refl))
      (elim (Bool-cases (terminate_angel_of d.env d.now id s.sup).2) [
        | inl known ↦ rw known (λ e h. ground (arith, h))
        | inr unknown ↦
            let (kept, quiet) = terminate_unknown_keeps d.env d.now id s.sup unknown in
            rw unknown (λ e h. (ap (λ q. record s { sup = q }) kept, quiet))
      ])

-- A command that is refused changes nothing: the registry, the table and the subscribers are what they
-- were, and no signal is sent and no process touched.
pub refused_command-Kept :
    (d : Daemon) (req : CliRequest) (s : Server) (e : Refusal)
    → (cli_command d req s).2 ≡ refused e
    → ((cli_command d req s).0 ≡ s) × ((cli_command d req s).1 ≡ [])
unfolding cli_command
refused_command-Kept d req s =
    if-Kept s (req.command == "angel.create") _ _ (λ e h. (create-Kept d req.args s e h, refl))
      (if-Kept s (req.command == "angel.list") _ _ (λ e h. (refl, refl))
        (if-Kept s (req.command == "angel.inspect") _ _ (λ e h. (refl, refl))
          (if-Kept s (req.command == "angel.terminate") _ _ (terminate-Kept d req.args s) (
            if-Kept s (req.command == "angel.diff") _ _ (λ e h. (refl, refl))
              (if-Kept s (req.command == "lab.status") _ _ (λ e h. (refl, refl))
                (λ e h. (refl, refl)))))))

-- the payload of the frame that answers
abbrev pub payload_of : CliPayloads → Reply → List ℕ
payload_of cp (refused e) = cp.encode_error e
payload_of cp (accepted answer) = elim (cp.encode_answer answer) [
  | none ↦ cp.encode_error encode_failed
  | some payload ↦ cp.encode_ok payload
]

module _ (codec : Msgpack) (cp : CliPayloads) where
  send_reply-once :
      (cid : String) (reply : Reply) (c : Conn)
      → send_reply codec cp cid reply c ≡ (send codec (response cid (payload_of cp reply)) c).0
  unfolding send_reply send_ok send_error
  send_reply-once cid (refused e) c = refl
  send_reply-once cid (accepted answer) c = elim (Option-cases (cp.encode_answer answer)) [
    | inl failed ↦ rw (payload_of, send_ok, failed) refl
    | inr (payload, fine) ↦ rw (payload_of, send_ok, fine) refl
  ]

  -- A request that is read and is not for the stream of events gets one frame: it has the request's
  -- correlation id and the reply of the command, which has been carried out. An answer that cannot be
  -- encoded becomes an error.
  pub request_answered :
      (d : Daemon) (on : Streaming) (s : Server) (c : Conn) (msg : Message) (req : CliRequest)
      → (recv codec c).1 ≡ ok msg
      → is_cli_request msg.kind ≡ true
      → cp.decode_request msg.payload ≡ some req
      → (req.command == "event.subscribe") ≡ false
      → let (s', effects, reply) = cli_command d req s in
        let frame = response msg.correlation_id (payload_of cp reply) in
        handle_cli_conn codec cp d on s c
        ≡ (returned s' (send codec frame (recv codec c).0).0, effects)
  unfolding handle_cli_conn
  request_answered d on s c msg req got kind decoded plain =
      rw (got, kind, decoded, plain)
        (ap (λ (c' : Conn). (returned (cli_command d req s).0 c', (cli_command d req s).1))
          (send_reply-once msg.correlation_id (cli_command d req s).2 (recv codec c).0))
