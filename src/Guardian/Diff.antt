-- ===== src/Guardian/Diff.antt =====
-- internal/angels/guardian/diff.go: the watched files against the snapshot files. `Access` says which
-- calls succeed; `sha256` stands for crypto/sha256 in hexadecimal digits, and `json_path` for
-- encoding/json on a structure with a path, `none` for its error. Times are left out.
pub mod Report
mod Tests
use angellab.Prelude.{
  ℕ, Bool, true, false, not, ◌&&◌, ◌||◌, Option, none, some, List, [], ◌∷◌, ◌++◌, if◌then◌else◌,
  bytes_eq, ◌==◌, length, take,
}
use angellab.Prelude.Map.{Map, lookup}
use angellab.Guardian.{FilePath, File, base, snap_suffix}

pub record Access : Type 0 where
  pub can_stat_snapshot : FilePath → Bool
  pub can_read_snapshot : FilePath → Bool
  pub can_stat : FilePath → Bool
  pub can_read : FilePath → Bool

-- the two sides of the comparison, and the names in the snapshot directory
pub record Storage : Type 0 where
  pub dir : Map FilePath (List ℕ)
  pub files : Map FilePath File

pub record DiffEntry : Type 0 where
  pub path : FilePath
  pub changed : Bool
  pub missing : Bool
  pub no_snapshot : Bool
  pub snapshot_hash : List ℕ
  pub current_hash : List ℕ
  pub snapshot_size : ℕ
  pub current_size : ℕ

abbrev pub new_entry : FilePath → DiffEntry
new_entry path = record {
  path = path;
  changed = false;
  missing = false;
  no_snapshot = false;
  snapshot_hash = [];
  current_hash = [];
  snapshot_size = 0;
  current_size = 0;
}

-- the name of the snapshot by base name
abbrev pub candidate : FilePath → FilePath
candidate path = base path ++ snap_suffix

-- meta.Path == watchedPath || meta.Path == ""
abbrev pub matches : Option FilePath → FilePath → Bool
matches none path = true
matches (some meta) path = meta == path || meta == []

module _ (sha256 : List ℕ → List ℕ) (json_path : List ℕ → Option FilePath) where
  unfoldable pub is_snapshot_for : Access → Storage → FilePath → FilePath → Bool
  is_snapshot_for access st name path = elim (lookup name st.dir) [
    | none ↦ false
    | some saved ↦ access.can_read_snapshot name && matches (json_path saved) path
  ]

  unfoldable pub snapshot_file_path : Access → Storage → FilePath → FilePath
  snapshot_file_path access st path =
      if is_snapshot_for access st (candidate path) path
      then candidate path
      else take 16 (sha256 path) ++ snap_suffix

  -- the side of the file, from the entry with its snapshot on
  unfoldable pub diff_live : Access → Option File → DiffEntry → DiffEntry
  diff_live access none entry = record entry { missing = true }
  diff_live access (some f) entry =
      if access.can_stat entry.path
      then if access.can_read entry.path
        then record entry {
          current_size = length f.content;
          current_hash = sha256 f.content;
          changed = not (entry.snapshot_hash == sha256 f.content);
        }
        else record entry { current_size = length f.content; missing = true }
      else record entry { missing = true }

  -- from the content of the snapshot on; `none` is an error
  unfoldable pub diff_snapshot_side :
      Access → Storage → FilePath → FilePath → Option (List ℕ) → Option DiffEntry
  diff_snapshot_side access st path name none =
      some (record (new_entry path) { no_snapshot = true })
  diff_snapshot_side access st path name (some saved) =
      if access.can_stat_snapshot name && access.can_read_snapshot name
      then some (
          diff_live access (lookup path st.files) (record (new_entry path) {
            snapshot_size = length saved;
            snapshot_hash = sha256 saved;
          }))
      else none

  unfoldable pub diff_one : Access → Storage → FilePath → Option DiffEntry
  diff_one access st path =
      let name = snapshot_file_path access st path in
      diff_snapshot_side access st path name (lookup name st.dir)

  abbrev pub differs : DiffEntry → Bool
  differs entry = entry.changed || entry.missing || entry.no_snapshot

  -- the body of the loop
  abbrev pub report : FilePath → Option DiffEntry → List DiffEntry → List DiffEntry
  report path none rest = record (new_entry path) { missing = true } ∷ rest
  report path (some entry) rest = if differs entry then entry ∷ rest else rest

  unfoldable pub diff_snapshot : Access → Storage → List FilePath → List DiffEntry
  diff_snapshot access st [] = []
  diff_snapshot access st (path ∷ rest) =
      report path (diff_one access st path) (diff_snapshot access st rest)
