-- ===== src/Guardian.antt =====
-- internal/angels/guardian/guardian.go: the watched files, their snapshots, and what a file system event
-- leads to. `Disk` says which calls succeed in one step; `sha256` stands for crypto/sha256 in hexadecimal digits. A
-- restore writes a temporary file and renames it, so the file has the old content or the new one, and
-- a failure before the rename leaves it alone; temporary files are not kept. Paths are bytes. But for
-- `refreshSnapshots`, other programs do not write while an event is handled.
pub mod Restore
pub mod Refresh
pub mod Diff
mod Tests
use angellab.Prelude.{
  ℕ, suc, ◌+◌, Bool, true, false, not, ◌&&◌, ◌||◌, Option, none, some, List, [], ◌∷◌, ◌++◌, String,
  if◌then◌else◌, nat_beq, bytes_eq, string_eq, ◌==◌, length,
}
use angellab.Prelude.Map.{Map, lookup, insert}

abbrev pub FilePath : Type 0
FilePath = List ℕ

pub record File : Type 0 where
  pub content : List ℕ
  pub perm : ℕ

pub record Snapshot : Type 0 where
  pub sha256 : List ℕ
  pub content : Option (List ℕ)  -- `none` is nil
  pub taken_at : ℕ

pub record Disk : Type 0 where
  pub can_read : Bool
  pub can_create_temp : Bool
  pub can_write : Bool
  pub can_chmod : Bool
  pub can_close : Bool
  pub can_rename : Bool
  pub can_watch : Bool
  pub can_write_snapshot : Bool

pub data Action : Type 0 where
  restored restored_deleted restore_failed : Action

-- an event for the Lab; all are CRITICAL
pub record Alarm : Type 0 where
  pub path : FilePath
  pub action : Action

-- the guardian and the part of the file system that it looks at
pub record Guardian : Type 0 where
  pub files : Map FilePath File
  pub snapshots : Map FilePath Snapshot
  pub snapshot_dir : Option (Map FilePath (List ℕ))  -- `none` is no directory configured
  pub watches : Map FilePath (Unit {0})
  pub sent : List Alarm

-- the flags of the mask that are looked at, and ev.Path()
pub record InotifyEvent : Type 0 where
  pub path : FilePath
  pub delete_self : Bool
  pub move_self : Bool
  pub deletes : Bool
  pub creates : Bool
  pub modifies : Bool
  pub close_write : Bool

-- 0644
abbrev pub default_perm : ℕ
default_perm = 0o644

abbrev pub perm_of : Option File → ℕ
perm_of none = default_perm
perm_of (some f) = f.perm

-- `restoreFromSnapshot`: `none` is an error
unfoldable pub restore_from_snapshot : Disk → FilePath → Snapshot → Guardian → Option Guardian
restore_from_snapshot disk path snap g = elim snap.content [
  | none ↦ none
  | some content ↦
      if disk.can_create_temp && disk.can_write && disk.can_chmod && disk.can_close
        && disk.can_rename
      then some (record g {
        files =
            insert path (record { content = content; perm = perm_of (lookup path g.files) })
              g.files;
      })
      else none
]

-- filepath.Base without trailing slashes: what follows the last '/'
abbrev pub base_from : List ℕ → FilePath → FilePath
base_from acc [] = acc
base_from acc (c ∷ cs) = if nat_beq c 47 then base_from [] cs else base_from (acc ++ c ∷ []) cs

abbrev pub base : FilePath → FilePath
base path = base_from [] path

-- ".snap"
abbrev pub snap_suffix : List ℕ
snap_suffix = 46 ∷ 115 ∷ 110 ∷ 97 ∷ 112 ∷ []

unfoldable pub write_snapshot_file : Disk → FilePath → List ℕ → Guardian → Guardian
write_snapshot_file disk path content g = elim g.snapshot_dir [
  | none ↦ g
  | some dir ↦
      if disk.can_write_snapshot
      then record g { snapshot_dir = some (insert (base path ++ snap_suffix) content dir) }
      else g
]

-- os.ReadFile
abbrev pub read_file : Disk → FilePath → Guardian → Option (List ℕ)
read_file disk path g =
    if disk.can_read
    then elim (lookup path g.files) [ none ↦ none | some f ↦ some f.content ]
    else none

abbrev pub watch : Disk → FilePath → Guardian → Guardian
watch disk path g = if disk.can_watch then record g { watches = insert path tt g.watches } else g

abbrev pub alarm : FilePath → Action → Guardian → Guardian
alarm path action g = record g { sent = g.sent ++ record { path = path; action = action } ∷ [] }

-- the parts of `handleFSEvent`, in its order
abbrev pub after_self_delete : Disk → FilePath → Option Guardian → Guardian → Guardian
after_self_delete disk path none g = alarm path restore_failed g
after_self_delete disk path (some g') g = watch disk path (alarm path restored_deleted g')

unfoldable pub handle_self_delete : Disk → FilePath → Option Snapshot → Guardian → Guardian
handle_self_delete disk path none g = watch disk path g
handle_self_delete disk path (some snap) g =
    after_self_delete disk path (restore_from_snapshot disk path snap g) g

abbrev pub after_delete : Disk → FilePath → Option Guardian → Guardian → Guardian
after_delete disk path none g = g
after_delete disk path (some g') g = watch disk path (alarm path restored_deleted g')

unfoldable pub handle_delete : Disk → FilePath → Option Snapshot → Guardian → Guardian
handle_delete disk path none g = g
handle_delete disk path (some snap) g =
    after_delete disk path (restore_from_snapshot disk path snap g) g

abbrev pub after_modify : FilePath → Option Guardian → Guardian → Guardian
after_modify path none g = alarm path restore_failed g
after_modify path (some g') g = alarm path restored g'

abbrev pub paths_of : Map FilePath Snapshot → List FilePath
paths_of [] = []
paths_of ((path, snap) ∷ rest) = path ∷ paths_of rest

abbrev pub Writes : Type 0
Writes = Map FilePath File → Map FilePath File

module _ (sha256 : List ℕ → List ℕ) where
  -- from the content on
  abbrev pub keep_snapshot : Disk → ℕ → FilePath → Option (List ℕ) → Guardian → Guardian × Bool
  keep_snapshot disk now path none g = (g, false)
  keep_snapshot disk now path (some content) g =
      let snap : Snapshot = record {
        sha256 = sha256 content;
        content = some content;
        taken_at = now;
      } in
      (
        write_snapshot_file disk path content
            (record g { snapshots = insert path snap g.snapshots }),
        true,
      )

  -- the flag is `err == nil`
  unfoldable pub take_snapshot : Disk → ℕ → FilePath → Guardian → Guardian × Bool
  take_snapshot disk now path g = keep_snapshot disk now path (read_file disk path g) g

  unfoldable pub handle_create : Disk → ℕ → FilePath → Guardian → Guardian
  unfolding take_snapshot
  handle_create disk now path g =
      let (g', ok) = take_snapshot disk now path g in if ok then watch disk path g' else g'

  -- from the current content on
  abbrev pub compare_hash : Disk → FilePath → Snapshot → Option (List ℕ) → Guardian → Guardian
  compare_hash disk path snap none g = g
  compare_hash disk path snap (some content) g =
      if sha256 content == snap.sha256
      then g
      else after_modify path (restore_from_snapshot disk path snap g) g

  unfoldable pub handle_modify : Disk → ℕ → FilePath → Option Snapshot → Guardian → Guardian
  handle_modify disk now path none g = (take_snapshot disk now path g).0
  handle_modify disk now path (some snap) g = compare_hash disk path snap (read_file disk path g) g

  unfoldable pub handle_fs_event : Disk → ℕ → InotifyEvent → Guardian → Guardian
  handle_fs_event disk now ev g =
      let known = lookup ev.path g.snapshots in
      if ev.delete_self || ev.move_self
      then handle_self_delete disk ev.path known g
      else if ev.deletes || ev.delete_self
      then handle_delete disk ev.path known g
      else if ev.creates
      then handle_create disk now ev.path g
      else if ev.modifies || ev.close_write
      then handle_modify disk now ev.path known g
      else g

  abbrev pub is_unchanged : Option Snapshot → Option (List ℕ) → Bool
  is_unchanged (some snap) (some content) = snap.sha256 == sha256 content
  is_unchanged _ _ = false

  -- the body of the loop of `refreshSnapshots`, which reads the file twice; `writes` is what other
  -- programs do between the two
  unfoldable pub refresh_path : Disk → ℕ → Writes → FilePath → Guardian → Guardian
  unfolding take_snapshot
  refresh_path disk now writes path g =
      if is_unchanged (lookup path g.snapshots) (read_file disk path g)
      then (take_snapshot disk now path (record g { files = writes g.files })).0
      else g

  unfoldable pub refresh_paths :
      (FilePath → Disk) → ℕ → (FilePath → Writes) → List FilePath → Guardian → Guardian
  refresh_paths disks now writes [] g = g
  refresh_paths disks now writes (path ∷ rest) g =
      refresh_paths disks now writes rest (refresh_path (disks path) now (writes path) path g)

  unfoldable pub refresh_snapshots :
      (FilePath → Disk) → ℕ → (FilePath → Writes) → Guardian → Guardian
  refresh_snapshots disks now writes g = refresh_paths disks now writes (paths_of g.snapshots) g
