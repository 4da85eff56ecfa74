-- ===== src/Lab/Server/Cli/Commands.antt =====
-- The commands of the command line, and their replies.
use angellab.Prelude.{
  ◌-◌, ◌/◌, not, Option, none, some, List, [], ◌∷◌, ◌++◌, String, if◌then◌else◌, nat_beq, string_eq,
  bytes_eq, ◌==◌,
}
use angellab.Prelude.Map.{Map, lookup}
use angellab.Prelude.Int.{sub_ℕ}
use angellab.Prelude.Text.{text_lt, Text, codes}
use angellab.Registry.{AngelId, Angel, Event, Registry, state_created, get_angel, list_events}
use angellab.Guardian.Diff.{DiffEntry, diff_snapshot}
use angellab.Lab.Supervisor.{AngelConfig, AngelEntry, Env, Effect}
use angellab.Lab.Supervisor.Table.{Lane, Supervisor, spawn_angel, terminate_angel_of}
use angellab.Lab.Server.{Server, parse_severity}
use angellab.Lab.Server.Cli.{
  CliRequest, AngelSummary, RecentEvent, WireDiff, Reply, Differ, Daemon, created, listed,
  inspected, terminated, diffed, status, unknown_command, missing_type, missing_id, spawn_failed,
  not_found, terminate_failed, not_in_registry, not_a_guardian, no_snapshot_dir, accepted, refused,
}

-- args[key]
unfoldable pub arg : String → Map String String → String
arg key args = elim (lookup key args) [ none ↦ "" | some value ↦ value ]

-- the loop of `splitComma`; `part` is s[start:i]
unfoldable pub split_from : Text → Text → List Text
split_from part [] = part ∷ []
split_from part (c ∷ cs) =
    if nat_beq c 44 then part ∷ split_from [] cs else split_from (part ++ c ∷ []) cs

unfoldable pub split_comma : Text → List Text
unfolding split_from
split_comma [] = []
split_comma (c ∷ cs) = split_from [] (c ∷ cs)

abbrev pub created_summary : AngelConfig → AngelSummary
created_summary cfg = record {
  id = cfg.id;
  angel_type = cfg.kind;
  state = state_created;
  conn_state = none;
  pid = 0;
  restart_count = 0;
  last_seen = none;
}

abbrev pub on_spawned : Server → Supervisor × Option AngelConfig → Server × Reply
on_spawned s (sup, none) = (record s { sup = sup }, refused spawn_failed)
on_spawned s (sup, some cfg) = (record s { sup = sup }, accepted (created (created_summary cfg)))

abbrev pub requested : Map String String → AngelConfig
requested args = record {
  kind = arg "type" args;
  id = codes (arg "id" args);
  paths = split_comma (codes (arg "paths" args));
  snapshot_dir = "";
  baseline_duration = 0;
  extra = [];
}

unfoldable pub cli_angel_create : Daemon → Map String String → Server → Server × Reply
cli_angel_create d args s =
    if arg "type" args == ""
    then (s, refused missing_type)
    else on_spawned s (spawn_angel d.codec d.env d.now (requested args) s.sup)

abbrev pub summary_of : AngelEntry → AngelSummary
summary_of e = record {
  id = e.id;
  angel_type = e.angel_type;
  state = e.state;
  conn_state = some e.link.tracker.state;
  pid = e.pid;
  restart_count = e.restart_count;
  last_seen = e.last_heartbeat;
}

abbrev pub summaries : Map AngelId Lane → List AngelSummary
summaries [] = []
summaries ((id, lane) ∷ rest) = summary_of lane.entry ∷ summaries rest

-- sort.Slice by the id
unfoldable pub insert_summary : AngelSummary → List AngelSummary → List AngelSummary
insert_summary a [] = a ∷ []
insert_summary a (b ∷ rest) =
    let later = insert_summary a rest in if text_lt b.id a.id then b ∷ later else a ∷ b ∷ rest

unfoldable pub sort_summaries : List AngelSummary → List AngelSummary
sort_summaries [] = []
sort_summaries (a ∷ rest) = insert_summary a (sort_summaries rest)

unfoldable pub cli_angel_list : Server → Reply
cli_angel_list s = accepted (listed (sort_summaries (summaries s.sup.angels)))

abbrev pub recent_of : List Event → List RecentEvent
recent_of [] = []
recent_of (e ∷ rest) =
    record {
      angel_id = e.angel_id;
      severity = parse_severity e.severity;
      message = e.message;
      timestamp = e.occurred_at;
    }
    ∷ recent_of rest

abbrev pub detail_of : AngelEntry → List Event → Option Angel → Reply
detail_of e events none = refused not_in_registry
detail_of e events (some a) = accepted (
    inspected (record {
      summary = summary_of e;
      created_at = a.created_at;
      config_json = a.config_json;
      telemetry = e.telemetry;
      recent_events = recent_of events;
    }))

-- the two queries can fail
abbrev pub inspect_entry : Env → AngelId → Registry → Option Lane → Reply
inspect_entry env id r none = refused not_found
inspect_entry env id r (some lane) =
    detail_of lane.entry (if env.db 1 then list_events id 10 r else [])
      (if env.db 0 then get_angel id r else none)

unfoldable pub cli_angel_inspect : Daemon → Map String String → Server → Reply
cli_angel_inspect d args s =
    let id = codes (arg "id" args) in
    if arg "id" args == ""
    then refused missing_id
    else inspect_entry d.env id s.sup.reg (lookup id s.sup.angels)

unfoldable pub cli_angel_terminate :
    Daemon → Map String String → Server → Server × List Effect × Reply
cli_angel_terminate d args s =
    let id = codes (arg "id" args) in
    let (sup, effects, known) = terminate_angel_of d.env d.now id s.sup in
    if arg "id" args == ""
    then (s, [], refused missing_id)
    else if known
    then (record s { sup = sup }, effects, accepted (terminated id))
    else (record s { sup = sup }, effects, refused terminate_failed)

abbrev pub wire : List DiffEntry → List WireDiff
wire [] = []
wire (d ∷ rest) =
    record {
      path = d.path;
      snapshot_hash = d.snapshot_hash;
      current_hash = d.current_hash;
      missing = d.missing;
      size_delta = sub_ℕ d.current_size d.snapshot_size;
    }
    ∷ wire rest

abbrev pub diff_dir : Option AngelConfig → String
diff_dir none = ""
diff_dir (some cfg) = cfg.snapshot_dir

abbrev pub diff_paths : Option AngelConfig → List Text
diff_paths none = []
diff_paths (some cfg) = cfg.paths

abbrev pub diff_entry : Differ → AngelId → Option Lane → Reply
diff_entry t id none = refused not_found
diff_entry t id (some lane) =
    if not (lane.entry.angel_type == "guardian")
    then refused not_a_guardian
    else if diff_dir lane.entry.config == ""
    then refused no_snapshot_dir
    else accepted (
        diffed id (
          wire (
            diff_snapshot t.sha256 t.json_path t.access (t.storage (diff_dir lane.entry.config))
              (diff_paths lane.entry.config))))

unfoldable pub cli_angel_diff : Daemon → Map String String → Server → Reply
cli_angel_diff d args s =
    let id = codes (arg "id" args) in
    if arg "id" args == ""
    then refused missing_id
    else diff_entry d.differ id (lookup id s.sup.angels)

unfoldable pub cli_lab_status : Daemon → Server → Reply
cli_lab_status d s = accepted (
    status (record {
      pid = d.pid;
      uptime = (d.now - d.started_at) / 1_000_000_000;
      started_at = d.started_at;
      angels = sort_summaries (summaries s.sup.angels);
    }))

abbrev pub with_no_effects : Server × Reply → Server × List Effect × Reply
with_no_effects (s, reply) = (s, [], reply)

-- the switch on the command, but for the event stream
unfoldable pub cli_command : Daemon → CliRequest → Server → Server × List Effect × Reply
cli_command d req s =
    if req.command == "angel.create"
    then with_no_effects (cli_angel_create d req.args s)
    else if req.command == "angel.list"
    then (s, [], cli_angel_list s)
    else if req.command == "angel.inspect"
    then (s, [], cli_angel_inspect d req.args s)
    else if req.command == "angel.terminate"
    then cli_angel_terminate d req.args s
    else if req.command == "angel.diff"
    then (s, [], cli_angel_diff d req.args s)
    else if req.command == "lab.status"
    then (s, [], cli_lab_status d s)
    else (s, [], refused unknown_command)
