-- ===== src/Lab/Daemon.antt =====
-- internal/lab/daemon.go and reload.go: the configuration, the start of the daemon and its reload on
-- SIGHUP. `Toml` stands for the TOML parser, which fills in a configuration that it is given, and
-- `Files` for what os.ReadFile finds; there is no file of the empty name. Sockets, the metrics server
-- and what the log is told are left out.
pub mod Reload
mod Tests
use angellab.Prelude.{
  ℕ, ◌*◌, Bool, true, false, not, Option, none, some, List, [], ◌∷◌, ◌++◌, String, if◌then◌else◌,
  bytes_eq, string_eq, ◌==◌,
}
use angellab.Prelude.Map.{Map, lookup, has}
use angellab.Registry.{AngelId, Registry}
use angellab.Lab.Supervisor.{AngelConfig, Env, Effect}
use angellab.Lab.Supervisor.Table.{Codec, Lane, Supervisor, spawn_angel, boot_recovery}

pub record LabConfig : Type 0 where
  pub socket_path : String
  pub registry_path : String
  pub log_path : String
  pub log_level : String
  pub log_format : String
  pub angel_binary : String
  pub metrics_addr : String

pub record SupervisorConfig : Type 0 where
  pub heartbeat_interval : ℕ
  pub heartbeat_timeout : ℕ
  pub max_restarts : ℕ
  pub restart_backoff : ℕ

pub record Config : Type 0 where
  pub lab : LabConfig
  pub supervisor : SupervisorConfig
  pub angels : List AngelConfig

abbrev pub second : ℕ
second = 1_000_000_000

abbrev pub default_config : Config
default_config = record {
  lab = record {
    socket_path = "/run/angellab/lab.sock";
    registry_path = "/var/lib/angellab/registry.db";
    log_path = "/var/log/angellab/lab.log";
    log_level = "info";
    log_format = "text";
    angel_binary = "/usr/local/bin/angel";
    metrics_addr = "";
  };
  supervisor = record {
    heartbeat_interval = 10 * second;
    heartbeat_timeout = 30 * second;
    max_restarts = 5;
    restart_backoff = 5 * second;
  };
  angels = [];
}

-- what os.ReadFile answers
pub data Found : Type 0 where
  missing unreadable : Found
  content : List ℕ → Found

abbrev pub Files : Type 0
Files = String → Found

abbrev pub Toml : Type 0
Toml = List ℕ → Config → Option Config

unfoldable pub read_file : Files → String → Found
read_file files path = if path == "" then missing else files path

abbrev pub parsed : Toml → Found → Option Config
parsed toml missing = some default_config
parsed toml unreadable = none
parsed toml (content bytes) = toml bytes default_config

unfoldable pub load_config : Toml → Files → String → Option Config
load_config toml files path = parsed toml (read_file files path)

pub record Daemon : Type 0 where
  pub cfg : Config
  pub config_path : String
  pub sup : Supervisor

-- `NewDaemon`, when the registry and the socket can be opened
unfoldable pub new_daemon : Config → Registry → Daemon
new_daemon cfg reg = record { cfg = cfg; config_path = ""; sup = record { angels = []; reg = reg } }

abbrev pub recovered : Daemon → Option (Supervisor × List Effect) → Daemon × List Effect
recovered d none = (d, [])
recovered d (some (sup, effects)) = (record d { sup = sup }, effects)

-- the start of `Run`: an error of the boot recovery is only logged
unfoldable pub start_up : Codec → Env → Env → ℕ → Daemon → Daemon × List Effect
start_up codec queries env now d = recovered d (boot_recovery codec queries env now d.sup)

-- the loop of `Reload`; `current` is the table before it
unfoldable pub spawn_missing :
    Codec → Env → ℕ → Map AngelId Lane → List AngelConfig → Supervisor → Supervisor
spawn_missing codec env now current [] s = s
spawn_missing codec env now current (ac ∷ rest) s =
    let skipped = spawn_missing codec env now current rest s in
    let spawned = spawn_missing codec env now current rest (spawn_angel codec env now ac s).0 in
    if ac.id == [] then skipped else if has ac.id current then skipped else spawned

abbrev pub reloaded : Codec → Env → ℕ → Daemon → Option Config → Daemon × Bool
reloaded codec env now d none = (d, false)
reloaded codec env now d (some cfg) =
    (record d { cfg = cfg; sup = spawn_missing codec env now d.sup.angels cfg.angels d.sup }, true)

-- the flag is whether there is no error
unfoldable pub reload : Toml → Files → Codec → Env → ℕ → Daemon → Daemon × Bool
reload toml files codec env now d = reloaded codec env now d (load_config toml files d.config_path)
