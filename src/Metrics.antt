-- ===== src/Metrics.antt =====
-- pkg/metrics/exporter.go: the registry of the metrics and the text of GET /metrics. Texts are ASCII. The
-- two numbers with decimals come as texts: the uptime of the Lab and the CPU of an angel. The HTTP
-- server is left out.
pub mod Exposition
pub mod Counters
mod Tests
use angellab.Prelude.{
  ℕ, ◌+◌, ◌/◌, ◌%◌, Bool, true, false, not, ◌||◌, Option, none, some, List, [], ◌∷◌, ◌++◌, String,
  if◌then◌else◌, bytes_eq,
}
use angellab.Prelude.Map.{Map, lookup, insert, delete}
use angellab.Prelude.Text.{Text}

pub record AngelMetrics : Type 0 where
  pub id : Text
  pub angel_type : Text
  pub state : Text
  pub conn_state : Text
  pub restart_count : ℕ
  pub rss_bytes : ℕ
  pub cpu_percent : Text
  pub fd_count : ℕ
  pub goroutines : ℕ
  pub uptime_secs : ℕ

pub record EventCounter : Type 0 where
  pub angel_id : Text
  pub angel_type : Text
  pub severity : Text
  pub total : ℕ

pub record Registry : Type 0 where
  pub angels : Map Text AngelMetrics
  pub events : Map Text EventCounter

abbrev pub new_registry : Registry
new_registry = record { angels = []; events = [] }

unfoldable pub update_angel : AngelMetrics → Registry → Registry
update_angel m r = record r { angels = insert m.id m r.angels }

unfoldable pub remove_angel : Text → Registry → Registry
remove_angel id r = record r { angels = delete id r.angels }

-- angelID + ":" + severity
abbrev pub event_key : Text → Text → Text
event_key angel_id severity = angel_id ++ 58 ∷ severity

abbrev pub counter_or_new : Text → Text → Text → Option EventCounter → EventCounter
counter_or_new angel_id angel_type severity (some e) = e
counter_or_new angel_id angel_type severity none = record {
  angel_id = angel_id;
  angel_type = angel_type;
  severity = severity;
  total = 0;
}

unfoldable pub increment_event : Text → Text → Text → Registry → Registry
increment_event angel_id angel_type severity r =
    let key = event_key angel_id severity in
    let e = counter_or_new angel_id angel_type severity (lookup key r.events) in
    record r { events = insert key (record e { total = e.total + 1 }) r.events }
