-- ===== src/Lab/Daemon/Tests.antt =====
-- A daemon with one angel, whose configuration file names two.
use angellab.Prelude.{◌≡◌, refl, true, none, some, [], ◌∷◌, String, bytes_eq, string_eq}
use angellab.Prelude.Text.{codes}
use angellab.Registry.{new_registry}
use angellab.Lab.Supervisor.{AngelConfig, Env}
use angellab.Lab.Supervisor.Worker.{running}
use angellab.Lab.Supervisor.Table.{Codec, Supervisor, new_entry}
use angellab.Lab.Daemon.{
  Config, default_config, content, Files, Toml, Daemon, new_daemon, reloaded, reload, load_config,
}
use angellab.Lab.Daemon.Reload.{Running, created, changed, reload_reads_nothing}

abbrev texts : Codec
texts = record { marshal = λ cfg. some "{}"; unmarshal = λ s cfg. cfg }

abbrev calm : Env
calm = record { db = λ k. true; cmdline = λ pid. none }

abbrev memory : String → AngelConfig
memory name = record {
  kind = "memory";
  id = codes name;
  paths = [];
  snapshot_dir = "";
  baseline_duration = 0;
  extra = [];
}

abbrev two_angels : Config
two_angels = record default_config { angels = memory "M-01" ∷ memory "M-02" ∷ [] }

abbrev toml : Toml
toml = λ bytes cfg. some two_angels

abbrev files : Files
files = λ path. content (1 ∷ [])

abbrev one_angel : Supervisor
one_angel = record {
  angels =
      (codes "M-01", record { stage = running; entry = new_entry (codes "M-01") "memory" "{}" })
      ∷ [];
  reg = new_registry;
}

abbrev daemon : Daemon
unfolding new_daemon
daemon = record (new_daemon two_angels new_registry) { sup = one_angel }

daemon-Running : Running daemon
unfolding new_daemon
daemon-Running = changed one_angel (created two_angels new_registry)

read_at_start : load_config toml files "/etc/angellab/angellab.toml" ≡ some two_angels
unfolding load_config angellab.Lab.Daemon.read_file
read_at_start = refl

reload_reads_nothing_example :
    reload toml files texts calm 7 daemon ≡ (record daemon { cfg = default_config }, true)
reload_reads_nothing_example = reload_reads_nothing toml files texts calm 7 daemon daemon-Running
