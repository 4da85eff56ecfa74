-- ===== src/Logging.antt =====
-- pkg/logging/logger.go: levels, and the log file that is rotated. A disk holds the files of the log's
-- directory; `Calls` is what the calls on it answer. The layout of a line, with its time, is left out.
pub mod Rotation
mod Tests
use angellab.Prelude.{
  ℕ, zero, suc, ◌+◌, ◌-◌, Bool, true, false, not, ◌&&◌, Option, none, some, List, [], ◌∷◌, ◌++◌,
  String, if◌then◌else◌, length, take, ltb, leb, bytes_eq, nat_eq, string_eq, ◌==◌,
}
use angellab.Prelude.Map.{Map, lookup, insert, delete}
use angellab.Prelude.Text.{Text, text_lt, has_prefix}

pub data Level : Type 0 where
  debug info warn crit : Level

abbrev pub rank : Level → ℕ
rank debug = 0
rank info = 1
rank warn = 2
rank crit = 3

unfoldable pub level_string : Level → String
level_string debug = "DEBUG"
level_string info = "INFO "
level_string warn = "WARN "
level_string crit = "CRIT "

unfoldable pub parse_level : String → Level
parse_level s =
    if s == "debug"
    then debug
    else if s == "info"
    then info
    else if s == "warn"
    then warn
    else if s == "crit"
    then crit
    else if s == "critical"
    then crit
    else if s == "error"
    then crit
    else info

abbrev pub Disk : Type 0
Disk = Map Text Text

-- `written` is how much of a text a write takes; `none` is all of it
pub record Calls : Type 0 where
  pub rename : Bool
  pub read_dir : Bool
  pub remove : Text → Bool
  pub opens : Bool
  pub written : Option ℕ

pub record RotatingFile : Type 0 where
  pub path : Text
  pub max_bytes : ℕ
  pub max_backups : ℕ
  pub is_open : Bool
  pub size : ℕ

-- os.Rename: a file that is not there is an error, which is ignored
unfoldable pub renamed : Calls → Text → Text → Disk → Disk
renamed calls old new disk = elim (lookup old disk) [
  | none ↦ disk
  | some text ↦ if calls.rename then insert new text (delete old disk) else disk
]

-- the loop over the entries
unfoldable pub backups_in : Text → Disk → List Text
backups_in prefix [] = []
backups_in prefix ((name, text) ∷ disk) =
    let rest = backups_in prefix disk in
    if ltb (length prefix) (length name) && has_prefix prefix name then name ∷ rest else rest

-- os.ReadDir sorts by name
unfoldable pub insert_name : Text → List Text → List Text
insert_name n [] = n ∷ []
insert_name n (m ∷ ms) =
    let later = insert_name n ms in if text_lt m n then m ∷ later else n ∷ m ∷ ms

unfoldable pub sorted : List Text → List Text
sorted [] = []
sorted (n ∷ ns) = insert_name n (sorted ns)

unfoldable pub remove_each : Calls → List Text → Disk → Disk
remove_each calls [] disk = disk
remove_each calls (n ∷ ns) disk =
    remove_each calls ns (if calls.remove n then delete n disk else disk)

unfoldable pub prune_backups : Calls → Text → ℕ → Disk → Disk
prune_backups calls base keep disk =
    let backups = sorted (backups_in (base ++ 46 ∷ []) disk) in
    if calls.read_dir then remove_each calls (take (length backups - keep) backups) disk else disk

-- O_CREATE and O_APPEND; the size is that of the file
unfoldable pub open_append : Text → Disk → Disk × ℕ
open_append path disk = elim (lookup path disk) [
  | none ↦ (insert path [] disk, 0)
  | some text ↦ (disk, length text)
]

unfoldable pub open_rotating : Calls → Text → ℕ → ℕ → Disk → Option (RotatingFile × Disk)
open_rotating calls path max_bytes max_backups disk =
    let (disk', size) = open_append path disk in
    if calls.opens
    then some (
      record {
        path = path;
        max_bytes = max_bytes;
        max_backups = max_backups;
        is_open = true;
        size = size;
      },
      disk',
    )
    else none

-- the flag is whether there is no error; `stamp` is the time, to the second
unfoldable pub rotate : Calls → Text → RotatingFile → Disk → RotatingFile × Disk × Bool
rotate calls stamp r disk =
    let moved = renamed calls r.path (r.path ++ 46 ∷ stamp) disk in
    let pruned = prune_backups calls r.path r.max_backups moved in
    if calls.opens
    then (record r { is_open = true; size = 0 }, (open_append r.path pruned).0, true)
    else (record r { is_open = false }, pruned, false)

-- how many of the bytes go to the file
abbrev pub taken : Option ℕ → Text → Text
taken none p = p
taken (some n) p = take n p

abbrev pub appended : Text → Option Text → Text → Disk → Disk
appended path none p disk = disk
appended path (some text) p disk = insert path (text ++ p) disk

-- r.file.Write: it fails on a closed file
unfoldable pub write_out : Calls → Text → RotatingFile → Disk → RotatingFile × Disk × Bool
write_out calls p r disk =
    let part = taken calls.written p in
    if r.is_open
    then (
      record r { size = r.size + length part },
      appended r.path (lookup r.path disk) part disk,
      length part == length p,
    )
    else (r, disk, false)

abbrev pub after_rotate : Calls → Text → RotatingFile × Disk × Bool → RotatingFile × Disk × Bool
after_rotate calls p (r, disk, fine) = if fine then write_out calls p r disk else (r, disk, false)

unfoldable pub write : Calls → Text → Text → RotatingFile → Disk → RotatingFile × Disk × Bool
write calls stamp p r disk =
    if ltb r.max_bytes (r.size + length p)
    then after_rotate calls p (rotate calls stamp r disk)
    else write_out calls p r disk
