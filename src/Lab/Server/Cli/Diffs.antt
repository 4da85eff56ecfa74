-- ===== src/Lab/Server/Cli/Diffs.antt =====
-- What `angel.diff` finds in the table: the configuration of an entry is never set.
use angellab.Prelude.{
  ℕ, ◌≡◌, refl, ◌∙◌, none, some, [], String, arith, inl, inr, Bool-cases, Option-cases, string_eq,
  bytes_eq, ◌==◌,
}
use angellab.Prelude.Map.{Map, lookup, insert}
use angellab.Prelude.Map.Laws.{lookup-insert}
use angellab.Prelude.Text.{codes}
use angellab.Registry.{AngelId, Registry}
use angellab.Lab.Supervisor.{
  AngelConfig, Env, HeartbeatPayload, register_conn, handle_heartbeat, mark_conn_lost,
  check_heartbeat, reset_conn,
}
use angellab.Lab.Supervisor.Worker.{World, Stage, Op, Limits, decide, worker, step, expire}
use angellab.Lab.Supervisor.Table.{
  spawn_as, Codec, Lane, Supervisor, or_generated, enter, spawn_angel, register_conn_of,
  handle_heartbeat_of, mark_conn_lost_of,
}
use angellab.Lab.Server.{Server}
use angellab.Lab.Server.Cli.{
  Daemon, Refusal, refused, missing_id, not_found, not_a_guardian, no_snapshot_dir,
}
use angellab.Lab.Server.Cli.Commands.{arg, cli_angel_diff}

config-decide :
    (limits : Limits) (env : Env) (w : World) → (decide limits env w).entry.config ≡ w.entry.config
unfolding decide
config-decide limits env w = ground arith

config-worker :
    (limits : Limits) (env : Env) (op : Op) (stage : Stage) (w : World)
    → (worker limits env op stage w).0.entry.config ≡ w.entry.config
unfolding worker reset_conn
config-worker limits env op stage w = ground (arith, config-decide limits env w)

config-step :
    (limits : Limits) (env : Env) (op : Op) (w : World)
    → (step limits env op w).0.entry.config ≡ w.entry.config
unfolding step register_conn handle_heartbeat mark_conn_lost check_heartbeat expire
config-step limits env op w = ground (arith, config-worker limits env op w.stage w)

abbrev pub worlds : ℕ → Registry → Lane → World
worlds now r lane = record { now = now; stage = lane.stage; entry = lane.entry; reg = r }

abbrev pub put_back : AngelId → World → Supervisor → Supervisor
put_back id w s = record s {
  angels = insert id (record { stage = w.stage; entry = w.entry }) s.angels;
  reg = w.reg;
}

-- What the daemon does to the table: it spawns, the handlers of the connections, and a step of the
-- goroutine of one angel.
pub data TableStep : Supervisor → Supervisor → Type 0 where
  spawns :
      (codec : Codec) (env : Env) (now : ℕ) (cfg : AngelConfig) {s : Supervisor}
      → TableStep s (spawn_angel codec env now cfg s).0
  takes_conn :
      (env : Env) (now : ℕ) (id : AngelId) (conn : ℕ) {s : Supervisor}
      → TableStep s (register_conn_of env now id conn s).0
  hears :
      (env : Env) (now : ℕ) (hb : HeartbeatPayload) {s : Supervisor}
      → TableStep s (handle_heartbeat_of env now hb s)
  loses : (now : ℕ) (id : AngelId) {s : Supervisor} → TableStep s (mark_conn_lost_of now id s)
  works :
      (limits : Limits) (env : Env) (op : Op) (now : ℕ) (id : AngelId) (lane : Lane)
      {s : Supervisor}
      → lookup id s.angels ≡ some lane
      → TableStep s (put_back id (step limits env op (worlds now s.reg lane)).0 s)

-- the tables of a daemon that started with an empty one
pub data TableReachable : Supervisor → Type 0 where
  fresh : (r : Registry) → TableReachable (record { angels = []; reg = r })
  next : {s s' : Supervisor} → TableReachable s → TableStep s s' → TableReachable s'

abbrev pub HasNoConfig : Map AngelId Lane → Type 0
HasNoConfig angels =
    (id : AngelId) (lane : Lane) → lookup id angels ≡ some lane → lane.entry.config ≡ none

insert-HasNoConfig :
    (id : AngelId) (lane : Lane) (angels : Map AngelId Lane)
    → HasNoConfig angels
    → lane.entry.config ≡ none
    → HasNoConfig (insert id lane angels)
insert-HasNoConfig id lane angels h bare other l found =
    ground (arith, lookup-insert id other lane angels, h other l, bare, found)

spawn-HasNoConfig :
    (codec : Codec) (env : Env) (now : ℕ) (cfg : AngelConfig) (s : Supervisor)
    → HasNoConfig s.angels
    → HasNoConfig (spawn_angel codec env now cfg s).0.angels
unfolding spawn_angel enter
spawn-HasNoConfig codec env now cfg s h = elim (Option-cases (or_generated cfg.id s.angels)) [
  | inl none_free ↦ rw (spawn_as, none_free) h
  | inr (id, chosen) ↦ elim (Option-cases (codec.marshal (record cfg { id = id }))) [
    | inl failed ↦ rw (chosen, failed) h
    | inr (text, fine) ↦ rw (chosen, fine) (insert-HasNoConfig id _ s.angels h refl)
  ]
]

step-HasNoConfig :
    {s s' : Supervisor} → TableStep s s' → HasNoConfig s.angels → HasNoConfig s'.angels
unfolding register_conn_of handle_heartbeat_of mark_conn_lost_of register_conn handle_heartbeat
    mark_conn_lost
step-HasNoConfig {s} (spawns codec env now cfg) h = spawn-HasNoConfig codec env now cfg s h
step-HasNoConfig {s} (takes_conn env now id conn) h = elim (Option-cases (lookup id s.angels)) [
  | inl missing ↦ rw (register_conn_of, missing) h
  | inr (lane, found) ↦
      rw (register_conn_of, found) (insert-HasNoConfig id _ s.angels h (h id lane found))
]
step-HasNoConfig {s} (hears env now hb) h = elim (Option-cases (lookup hb.angel_id s.angels)) [
  | inl missing ↦ rw (handle_heartbeat_of, missing) h
  | inr (lane, found) ↦
      rw (handle_heartbeat_of, found)
        (insert-HasNoConfig hb.angel_id _ s.angels h (ground (arith, h hb.angel_id lane found)))
]
step-HasNoConfig {s} (loses now id) h = elim (Option-cases (lookup id s.angels)) [
  | inl missing ↦ rw (mark_conn_lost_of, missing) h
  | inr (lane, found) ↦
      rw (mark_conn_lost_of, found) (insert-HasNoConfig id _ s.angels h (h id lane found))
]
step-HasNoConfig {s} (works limits env op now id lane found) h =
    insert-HasNoConfig id _ s.angels h
      (config-step limits env op (worlds now s.reg lane) ∙ h id lane found)

reachable-HasNoConfig : {s : Supervisor} → TableReachable s → HasNoConfig s.angels
unfolding lookup
reachable-HasNoConfig (fresh r) = λ id lane found. ground (arith, found)
reachable-HasNoConfig (next r move) = step-HasNoConfig move (reachable-HasNoConfig r)

-- The configuration of an entry is never set, so in every table that the daemon can reach `angel.diff`
-- is refused, for a guardian too.
pub angel_diff_refused :
    (d : Daemon) (args : Map String String) (s : Server)
    → TableReachable s.sup
    → (e : Refusal) × (cli_angel_diff d args s ≡ refused e)
unfolding cli_angel_diff
angel_diff_refused d args s r = elim (Bool-cases (arg "id" args == "")) [
  | inl missing ↦ (missing_id, rw missing refl)
  | inr given ↦
      let id = codes (arg "id" args) in
      elim (Option-cases (lookup id s.sup.angels)) [
        | inl unknown ↦ (not_found, rw (given, unknown) refl)
        | inr (lane, found) ↦ elim (Bool-cases (lane.entry.angel_type == "guardian")) [
          | inl guardian ↦ (
            no_snapshot_dir,
            rw (given, found, guardian, reachable-HasNoConfig r id lane found) refl,
          )
          | inr other ↦ (not_a_guardian, rw (given, found, other) refl)
        ]
      ]
]
