-- ===== src/Sentinel/Persist.antt =====
-- internal/angels/sentinel/persist.go, and the start of `run` in sentinel.go: the baseline on disk.
-- `Json` stands for encoding/json on the record, `Calls` for what each call on the disk answers. The
-- state directory is taken to be a clean path and the id to be a name. The error of `saveBaseline` is
-- dropped by its caller.
pub mod Restart
mod Tests
use angellab.Prelude.{
  ℕ, Bool, true, false, not, Option, none, some, List, [], ◌∷◌, ◌++◌, if◌then◌else◌, nat_beq,
  bytes_eq, nat_eq,
}
use angellab.Prelude.Map.{Map, lookup, insert, delete}
use angellab.Prelude.Text.{Text, codes}
use angellab.Net.{Ip}
use angellab.Net.Dotted.{dotted, parse_ip}
use angellab.Sentinel.Baseline.{Baseline, new_baseline, ip_key}
use angellab.Sentinel.Scorer.{new_scorer}
use angellab.Sentinel.Poll.{Sentinel, active, finalise_baseline}

abbrev pub baseline_schema_version : ℕ
baseline_schema_version = 1

pub record BaselineRecord : Type 0 where
  pub version : ℕ
  pub angel_id : Text
  pub created_at : ℕ
  pub ips : List Text
  pub ports : List ℕ
  pub max_concurrent : ℕ
  pub samples : ℕ

-- encoding/json, and the parser of IPv6 texts
pub record Json : Type 0 where
  pub marshal : BaselineRecord → Option (List ℕ)
  pub unmarshal : List ℕ → Option BaselineRecord
  pub parse_v6 : Text → Option Ip

-- `write_fails` says how much of the file is there when the call fails
pub record Calls : Type 0 where
  pub mkdir : Bool
  pub write_fails : Option (List ℕ)
  pub rename : Bool
  pub remove : Bool
  pub read : Bool

abbrev pub Disk : Type 0
Disk = Map Text (List ℕ)

pub data SaveError : Type 0 where
  mkdir_failed marshal_failed write_failed rename_failed : SaveError

pub data Loaded : Type 0 where
  no_file : Loaded
  read_failed unmarshal_failed incompatible : Loaded
  loaded : Baseline → Loaded

unfoldable pub baseline_path : Text → Text → Text
baseline_path angel_id state_dir =
    state_dir ++ (codes "/sentinel-" ++ (angel_id ++ codes "-baseline.json"))

abbrev pub ip_texts : Map (List ℕ) (Unit {0}) → List Text
ip_texts [] = []
ip_texts ((key, _) ∷ rest) = dotted key ∷ ip_texts rest

abbrev pub keys : Map ℕ (Unit {0}) → List ℕ
keys [] = []
keys ((port, _) ∷ rest) = port ∷ keys rest

abbrev pub record_of : Text → Baseline → BaselineRecord
record_of angel_id b = record {
  version = baseline_schema_version;
  angel_id = angel_id;
  created_at = b.frozen_at;
  ips = ip_texts b.known_ips;
  ports = keys b.known_ports;
  max_concurrent = b.max_concurrent;
  samples = b.samples;
}

abbrev pub tmp_of : Text → Text
tmp_of dest = dest ++ codes ".tmp"

-- os.Rename(tmp, dest)
abbrev pub renamed : Text → Text → List ℕ → Disk → Disk
renamed tmp dest content disk = insert dest content (delete tmp disk)

-- from os.WriteFile on
abbrev pub write_out : Calls → Text → List ℕ → Disk → Disk × Option SaveError
write_out calls dest content disk =
    let written = insert (tmp_of dest) content disk in
    elim calls.write_fails [
      | some part ↦ (insert (tmp_of dest) part disk, some write_failed)
      | none ↦ if calls.rename then (renamed (tmp_of dest) dest content written, none) else (
        (if calls.remove then delete (tmp_of dest) written else written),
        some rename_failed,
      )
    ]

unfoldable pub save_baseline :
    Json → Calls → Text → Text → Baseline → Disk → Disk × Option SaveError
save_baseline json calls angel_id state_dir b disk =
    if not calls.mkdir
    then (disk, some mkdir_failed)
    else elim (json.marshal (record_of angel_id b)) [
      | none ↦ (disk, some marshal_failed)
      | some content ↦ write_out calls (baseline_path angel_id state_dir) content disk
    ]

-- the two loops of `loadBaseline`
unfoldable pub add_ips :
    (Text → Option Ip) → List Text → Map (List ℕ) (Unit {0}) → Map (List ℕ) (Unit {0})
add_ips parse_v6 [] m = m
add_ips parse_v6 (t ∷ ts) m = elim (parse_ip parse_v6 t) [
  | none ↦ add_ips parse_v6 ts m
  | some ip ↦ add_ips parse_v6 ts (insert (ip_key ip) tt m)
]

unfoldable pub add_ports : List ℕ → Map ℕ (Unit {0}) → Map ℕ (Unit {0})
add_ports [] m = m
add_ports (port ∷ ports) m = add_ports ports (insert port tt m)

abbrev pub restored : (Text → Option Ip) → BaselineRecord → Baseline
restored parse_v6 rec = record {
  known_ips = add_ips parse_v6 rec.ips new_baseline.known_ips;
  known_ports = add_ports rec.ports new_baseline.known_ports;
  max_concurrent = rec.max_concurrent;
  samples = rec.samples;
  frozen = true;
  frozen_at = rec.created_at;
}

abbrev pub checked : (Text → Option Ip) → Option BaselineRecord → Loaded
checked parse_v6 none = unmarshal_failed
checked parse_v6 (some rec) =
    if not (nat_beq rec.version baseline_schema_version)
    then incompatible
    else loaded (restored parse_v6 rec)

unfoldable pub load_baseline : Json → Calls → Text → Text → Disk → Loaded
load_baseline json calls angel_id state_dir disk =
    elim (lookup (baseline_path angel_id state_dir) disk) [
      | none ↦ no_file
      | some content ↦
          if calls.read then checked json.parse_v6 (json.unmarshal content) else read_failed
    ]

-- the start of `run`
unfoldable pub resume : Loaded → Sentinel → Sentinel
resume (loaded b) s = record s { baseline = b; phase = active; scorer = some new_scorer }
resume no_file s = record s { baseline = new_baseline }
resume read_failed s = record s { baseline = new_baseline }
resume unmarshal_failed s = record s { baseline = new_baseline }
resume incompatible s = record s { baseline = new_baseline }

-- `finaliseBaseline`, the saving included
unfoldable pub finalise_and_save :
    Json → Calls → Text → Text → ℕ → Sentinel → Disk → Sentinel × Disk
finalise_and_save json calls angel_id state_dir now s disk =
    let s' = finalise_baseline now s in
    let (disk', _) = save_baseline json calls angel_id state_dir s'.baseline disk in (s', disk')
