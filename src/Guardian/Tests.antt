-- ===== src/Guardian/Tests.antt =====
-- /etc/a, whose trusted content is one byte, written to, deleted and looked at again.
use angellab.Prelude.{
  ℕ, ◌≡◌, refl, true, false, some, List, [], ◌∷◌, arith, bytes_eq, string_eq, ◌==◌, if◌then◌else◌,
  Bool-cases, inl, inr,
}
use angellab.Prelude.Map.{lookup}
use angellab.Guardian.{
  Writes, FilePath, File, Snapshot, Disk, Guardian, InotifyEvent, restored, alarm, handle_fs_event,
  refresh_snapshots, base,
}
use angellab.Guardian.Restore.{all_work, write_undone}
use angellab.Guardian.Refresh.{idle, IsTrusty, trusted, refresh_keeps_trust}

-- tells the contents below apart
abbrev tag : List ℕ → List ℕ
tag content = if content == (1 ∷ []) then 11 ∷ [] else 22 ∷ []

abbrev etc_a : FilePath
etc_a = 47 ∷ 101 ∷ 116 ∷ 99 ∷ 47 ∷ 97 ∷ []

abbrev good : Snapshot
good = record { sha256 = 11 ∷ []; content = some (1 ∷ []); taken_at = 0 }

abbrev guarding : List (FilePath × File) → Guardian
guarding files = record {
  files = files;
  snapshots = (etc_a, good) ∷ [];
  snapshot_dir = some [];
  watches = [];
  sent = [];
}

abbrev tampered : Guardian
tampered = guarding ((etc_a, record { content = 2 ∷ []; perm = 0o600 }) ∷ [])

abbrev untouched : Guardian
untouched = guarding ((etc_a, record { content = 1 ∷ []; perm = 0o600 }) ∷ [])

abbrev silence : InotifyEvent
silence = record {
  path = etc_a;
  delete_self = false;
  move_self = false;
  deletes = false;
  creates = false;
  modifies = false;
  close_write = false;
}

abbrev written : InotifyEvent
written = record silence { close_write = true }

abbrev removed : InotifyEvent
removed = record silence { deletes = true }

base_of : base etc_a ≡ 97 ∷ []
base_of = refl

write_undone_example :
    let g' : Guardian = handle_fs_event tag all_work 5 written tampered in
    (lookup etc_a g'.files ≡ some (record { content = 1 ∷ []; perm = 0o600 }))
    × (g'.sent ≡ (alarm etc_a restored tampered).sent)
unfolding lookup
write_undone_example =
    write_undone tag 5 written tampered good (record { content = 2 ∷ []; perm = 0o600 }) (1 ∷ [])
      (refl, refl, refl) refl refl (refl, refl) (λ same. ground (arith, same))

abbrev full_disk : Disk
full_disk = record all_work { can_write = false }

untouched-IsTrusty : IsTrusty tag untouched
unfolding lookup
untouched-IsTrusty = record {
  has_content = λ path snap found. elim (Bool-cases (etc_a == path)) [
    | inl same ↦ (1 ∷ [], ground (arith, same, found), ground (arith, same, found))
    | inr other ↦ absurd (ground (arith, other, found))
  ];
  apart = λ path content f kept there same. elim (Bool-cases (etc_a == path)) [
    | inl here ↦ ground (arith, here, kept, there)
    | inr other ↦ absurd (ground (arith, other, there))
  ];
}

refresh_keeps_trust_example :
    trusted etc_a (refresh_snapshots tag (λ path. all_work) 5 (λ path. idle) untouched)
    ≡ some (1 ∷ [])
unfolding lookup
refresh_keeps_trust_example =
    refresh_keeps_trust tag (λ path. all_work) 5 etc_a untouched untouched-IsTrusty

abbrev evil : File
evil = record { content = 2 ∷ []; perm = 0o600 }

abbrev plant : Writes
plant files = (etc_a, evil) ∷ []
