-- ===== src/Guardian/Restore.antt =====
-- What handleFSEvent of internal/angels/guardian/guardian.go does to a file that has a snapshot.
use angellab.Prelude.{
  ℕ, ◌≡◌, Bool, true, false, ◌||◌, none, some, List, arith, ◌==◌, if◌then◌else◌, bytes_eq,
  string_eq,
}
use angellab.Prelude.Map.{lookup}
use angellab.Prelude.Map.Laws.{lookup-insert_self}
use angellab.Guardian.{
  File, Snapshot, Disk, Guardian, InotifyEvent, perm_of, restored, restored_deleted, restore_failed,
  alarm, restore_from_snapshot, handle_self_delete, handle_delete, handle_modify, handle_fs_event,
}

-- every call succeeds
abbrev pub all_work : Disk
all_work = record {
  can_read = true;
  can_create_temp = true;
  can_write = true;
  can_chmod = true;
  can_close = true;
  can_rename = true;
  can_watch = true;
  can_write_snapshot = true;
}

-- the mask says that the file is gone
abbrev pub is_gone : InotifyEvent → Bool
is_gone ev = (ev.delete_self || ev.move_self) || ev.deletes

-- the mask says that the file was written, and nothing that is looked at before
abbrev pub IsWrite : InotifyEvent → Type 0
IsWrite ev = (is_gone ev ≡ false) × (ev.creates ≡ false) × ((ev.modifies || ev.close_write) ≡ true)

-- the snapshot is one that was taken of this content
abbrev pub IsOf : (List ℕ → List ℕ) → List ℕ → Snapshot → Type 0
IsOf sha256 content snap = (snap.content ≡ some content) × (snap.sha256 ≡ sha256 content)

module _ (sha256 : List ℕ → List ℕ) where
  -- After a write to a known file on a disk that works, the file holds the trusted content with its
  -- permissions kept, and an alarm is raised exactly if the content was another, provided that the
  -- two contents do not collide under SHA-256.
  pub write_undone :
      (now : ℕ) (ev : InotifyEvent) (g : Guardian) (snap : Snapshot) (f : File) (content : List ℕ)
      → IsWrite ev
      → lookup ev.path g.snapshots ≡ some snap
      → lookup ev.path g.files ≡ some f
      → IsOf sha256 content snap
      → (sha256 f.content ≡ sha256 content → f.content ≡ content)
      → let g' : Guardian = handle_fs_event sha256 all_work now ev g in
        (lookup ev.path g'.files ≡ some (record { content = content; perm = f.perm }))
        × (g'.sent ≡ (if f.content == content then g.sent else (alarm ev.path restored g).sent))
  unfolding handle_fs_event handle_modify restore_from_snapshot
  write_undone now ev g snap f content (here, not_new, written) known there (is_some, hashed)
        apart =
      ground (
        arith,
        apart,
        lookup-insert_self ev.path (record { content = content; perm = f.perm }) g.files,
        bytes_eq.eqb_iff f.content content,
        bytes_eq.eqb_iff (sha256 f.content) snap.sha256,
      )

  -- After the deletion of a known file on a disk that works, whichever of the three flags says it, the
  -- file is back with the trusted content, it is watched, and an alarm is raised.
  deletion_undone :
      (now : ℕ) (ev : InotifyEvent) (g : Guardian) (snap : Snapshot) (content : List ℕ)
      → is_gone ev ≡ true
      → lookup ev.path g.snapshots ≡ some snap
      → snap.content ≡ some content
      → let g' : Guardian = handle_fs_event sha256 all_work now ev g in
        (lookup ev.path g'.files
          ≡ some (record { content = content; perm = perm_of (lookup ev.path g.files) }))
        × (lookup ev.path g'.watches ≡ some tt)
        × (g'.sent ≡ (alarm ev.path restored_deleted g).sent)
  unfolding handle_fs_event handle_delete handle_self_delete restore_from_snapshot
  deletion_undone now ev g snap content gone known is_some = ground (
    arith,
    lookup-insert_self ev.path tt g.watches,
    lookup-insert_self ev.path
        (record { content = content; perm = perm_of (lookup ev.path g.files) }) g.files,
  )

  -- Only a creation changes what is trusted of a known file: after any other event, on any disk, all
  -- snapshots are as they were.
  trust_is_kept :
      (disk : Disk) (now : ℕ) (ev : InotifyEvent) (g : Guardian) (snap : Snapshot)
      → lookup ev.path g.snapshots ≡ some snap
      → ev.creates ≡ false
      → (handle_fs_event sha256 disk now ev g).snapshots ≡ g.snapshots
  unfolding handle_fs_event handle_modify handle_delete handle_self_delete restore_from_snapshot
  trust_is_kept disk now ev g snap known not_new = ground arith

  -- If the restore of a deleted file fails, nothing changes but that an alarm is raised for a file that
  -- is itself watched; for one that was removed from a watched directory none is.
  failed_restore :
      (disk : Disk) (now : ℕ) (ev : InotifyEvent) (g : Guardian) (snap : Snapshot)
      → lookup ev.path g.snapshots ≡ some snap
      → restore_from_snapshot disk ev.path snap g ≡ none
      → is_gone ev ≡ true
      → handle_fs_event sha256 disk now ev g
        ≡ (if ev.delete_self || ev.move_self then alarm ev.path restore_failed g else g)
  unfolding handle_fs_event handle_delete handle_self_delete
  failed_restore disk now ev g snap known fails gone = ground arith
