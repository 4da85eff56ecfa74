-- ===== src/Logging/Tests.antt =====
-- A log of ten bytes, and two rotations within one second.
use angellab.Prelude.{
  ℕ, ◌≡◌, refl, true, false, Option, none, some, List, [], ◌∷◌, arith, bytes_eq, string_eq, nat_eq,
}
use angellab.Prelude.Map.{lookup}
use angellab.Prelude.Text.{Text, codes}
use angellab.Logging.{Disk, Calls, RotatingFile, crit, parse_level, prune_backups, write}
use angellab.Logging.Rotation.{IsBounded, write-IsBounded}

abbrev working : Calls
working = record {
  rename = true;
  read_dir = true;
  remove = λ n. true;
  opens = true;
  written = none;
}

abbrev log : RotatingFile
log = record { path = codes "lab.log"; max_bytes = 10; max_backups = 2; is_open = true; size = 6 }

abbrev disk : Disk
disk = (codes "lab.log", codes "first\n") ∷ []

log-IsBounded : IsBounded log disk
unfolding lookup
log-IsBounded = record {
  text = codes "first\n";
  there = refl;
  counted = refl;
  within = omega arith;
  open_ = refl;
}

write-IsBounded_example :
    let (r', disk', fine) = write working (codes "01") (codes "second\n") log disk in
    IsBounded r' disk' × (fine ≡ true)
write-IsBounded_example =
    write-IsBounded working (codes "01") (codes "second\n") log disk refl refl refl (omega arith)
      log-IsBounded

-- the time of a backup is to the second, so that the second backup replaces the first
same_second_loses_backup :
    let (r1, disk1, fine1) = write working (codes "01") (codes "second\n") log disk in
    let (r2, disk2, fine2) = write working (codes "01") (codes "third\n") r1 disk1 in
    disk2 ≡ (codes "lab.log.01", codes "second\n") ∷ (codes "lab.log", codes "third\n") ∷ []
unfolding write angellab.Logging.rotate angellab.Logging.write_out lookup
    angellab.Logging.open_append prune_backups angellab.Logging.remove_each angellab.Logging.sorted
    angellab.Logging.backups_in angellab.Logging.renamed angellab.Prelude.Map.insert
    angellab.Prelude.Map.delete angellab.Logging.insert_name
same_second_loses_backup = refl

oldest_pruned :
    prune_backups working
      (codes "l")
      1
      ((codes "l.2", []) ∷ (codes "l.1", []) ∷ (codes "l", []) ∷ [])
    ≡ (codes "l.2", []) ∷ (codes "l", []) ∷ []
unfolding prune_backups angellab.Logging.remove_each angellab.Logging.sorted
    angellab.Logging.backups_in angellab.Logging.insert_name angellab.Prelude.Text.text_lt
    angellab.Prelude.Map.delete
oldest_pruned = refl

error_is_crit : parse_level "error" ≡ crit
unfolding parse_level
error_is_crit = refl
