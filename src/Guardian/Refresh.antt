-- ===== src/Guardian/Refresh.antt =====
-- What refreshSnapshots of internal/angels/guardian/guardian.go does to the trusted contents.
use angellab.Prelude.{
  ℕ, ◌≡◌, refl, sym, Option, none, some, List, [], ◌∷◌, arith, ◌⊎◌, ◌&&◌, ap, ◌∙◌, Bool-cases, inl,
  inr, ◌==◌, bytes_eq, string_eq, Option-cases,
}
use angellab.Prelude.Map.{lookup, insert}
use angellab.Prelude.Map.Laws.{lookup-insert_self, lookup-insert}
use angellab.Guardian.Restore.{all_work}
use angellab.Guardian.{
  FilePath, Writes, File, Snapshot, Disk, Guardian, take_snapshot, write_snapshot_file,
  refresh_path, refresh_paths, refresh_snapshots, paths_of,
}

-- the trusted content
abbrev pub content_of : Option Snapshot → Option (List ℕ)
content_of none = none
content_of (some snap) = snap.content

abbrev pub trusted : FilePath → Guardian → Option (List ℕ)
trusted path g = content_of (lookup path g.snapshots)

snapshots-write_snapshot_file :
    (disk : Disk) (path : FilePath) (content : List ℕ) (g : Guardian)
    → (write_snapshot_file disk path content g).snapshots ≡ g.snapshots
unfolding write_snapshot_file
snapshots-write_snapshot_file disk path content g = elim (Option-cases g.snapshot_dir) [
  | inl absent ↦ ground (arith, absent)
  | inr (dir, present) ↦ ground (arith, present)
]

files-write_snapshot_file :
    (disk : Disk) (path : FilePath) (content : List ℕ) (g : Guardian)
    → (write_snapshot_file disk path content g).files ≡ g.files
unfolding write_snapshot_file
files-write_snapshot_file disk path content g = elim (Option-cases g.snapshot_dir) [
  | inl absent ↦ ground (arith, absent)
  | inr (dir, present) ↦ ground (arith, present)
]

-- no other program writes
abbrev pub idle : Writes
idle files = files

module _ (sha256 : List ℕ → List ℕ) where
  -- the snapshot has a content and its hash
  abbrev pub HasContent : Snapshot → Type 0
  HasContent snap =
      (content : List ℕ) × (snap.content ≡ some content) × (snap.sha256 ≡ sha256 content)

  -- Every snapshot has a content and its hash, and no file collides with it under SHA-256.
  pub record IsTrusty (g : Guardian) : Type 0 where
    pub has_content :
        (path : FilePath) (snap : Snapshot) → lookup path g.snapshots ≡ some snap → HasContent snap
    pub apart :
        (path : FilePath) (content : List ℕ) (f : File)
        → trusted path g ≡ some content
        → lookup path g.files ≡ some f
        → sha256 f.content ≡ sha256 content
        → f.content ≡ content

  abbrev again : ℕ → FilePath → List ℕ → Guardian → Guardian
  again now path content g = record g {
    snapshots =
        insert path (record { sha256 = sha256 content; content = some content; taken_at = now })
          g.snapshots;
  }

  -- the pass that takes the snapshot again
  record Again (disk : Disk) (now : ℕ) (path : FilePath) (g : Guardian) : Type 0 where
    snap : Snapshot
    f : File
    known : lookup path g.snapshots ≡ some snap
    there : lookup path g.files ≡ some f
    unchanged : snap.sha256 ≡ sha256 f.content
    result :
        refresh_path sha256 disk now idle path g
        ≡ write_snapshot_file disk path f.content (again now path f.content g)

  refresh_path-cases :
      (disk : Disk) (now : ℕ) (path : FilePath) (g : Guardian)
      → (refresh_path sha256 disk now idle path g ≡ g) ⊎ Again disk now path g
  unfolding refresh_path take_snapshot
  refresh_path-cases disk now path g = elim (Option-cases (lookup path g.snapshots)) [
    | inl unknown ↦ inl (ground (arith, unknown))
    | inr (snap, known) ↦ elim (Option-cases (lookup path g.files)) [
      | inl gone ↦ inl (ground (arith, known, gone))
      | inr (f, there) ↦ elim (Bool-cases (disk.can_read && snap.sha256 == sha256 f.content)) [
        | inl same ↦ inr (record {
          snap = snap;
          f = f;
          known = known;
          there = there;
          unchanged = ground (arith, same, bytes_eq.eqb_iff snap.sha256 (sha256 f.content));
          result = ground (arith, known, there, same);
        })
        | inr differs ↦ inl (ground (arith, known, there, differs))
      ]
    ]
  ]

  snapshots-Again :
      (disk : Disk) (now : ℕ) (path : FilePath) (g : Guardian) (a : Again disk now path g)
      → (refresh_path sha256 disk now idle path g).snapshots
        ≡ (again now path a.f.content g).snapshots
  snapshots-Again disk now path g a =
      ap (λ h. h.snapshots) a.result
      ∙ snapshots-write_snapshot_file disk path a.f.content (again now path a.f.content g)

  files-refresh_path :
      (disk : Disk) (now : ℕ) (path : FilePath) (g : Guardian)
      → (refresh_path sha256 disk now idle path g).files ≡ g.files
  files-refresh_path disk now path g = elim (refresh_path-cases disk now path g) [
    | inl same ↦ ap (λ h. h.files) same
    | inr a ↦
        ap (λ h. h.files) a.result
        ∙ files-write_snapshot_file disk path a.f.content (again now path a.f.content g)
  ]

  trusted-again :
      (now : ℕ) (path other : FilePath) (content : List ℕ) (g : Guardian)
      → trusted path g ≡ some content
      → trusted other (again now path content g) ≡ trusted other g
  trusted-again now path other content g known = elim (Bool-cases (path == other)) [
    | inl same ↦ ground (
      arith,
      known,
      same,
      lookup-insert path other
          (record { sha256 = sha256 content; content = some content; taken_at = now }) g.snapshots,
      bytes_eq.eqb_iff path other,
    )
    | inr differs ↦ ground (
      arith,
      differs,
      lookup-insert path other
          (record { sha256 = sha256 content; content = some content; taken_at = now }) g.snapshots,
    )
  ]

  trusted-refresh_path :
      (disk : Disk) (now : ℕ) (path other : FilePath) (g : Guardian)
      → IsTrusty g
      → trusted other (refresh_path sha256 disk now idle path g) ≡ trusted other g
  trusted-refresh_path disk now path other g ok = elim (refresh_path-cases disk now path g) [
    | inl same ↦ ap (trusted other) same
    | inr a ↦
        let (content, full, hashed) = ok.has_content path a.snap a.known in
        let here : trusted path g ≡ some content = ap content_of a.known ∙ full in
        let equal : a.f.content ≡ content =
          ok.apart path content a.f here a.there (sym a.unchanged ∙ hashed) in
        ap (λ m. content_of (lookup other m)) (snapshots-Again disk now path g a)
        ∙ trusted-again now path other a.f.content g (here ∙ ap some (sym equal))
  ]

  again-HasContent :
      (now : ℕ) (path p : FilePath) (content : List ℕ) (g : Guardian) (snap : Snapshot)
      → (lookup p g.snapshots ≡ some snap → HasContent snap)
      → lookup p (again now path content g).snapshots ≡ some snap
      → HasContent snap
  again-HasContent now path p content g snap old found = elim (Bool-cases (path == p)) [
    | inl same ↦
        let law =
          lookup-insert path p
            (record { sha256 = sha256 content; content = some content; taken_at = now })
            g.snapshots in
        (content, ground (arith, law, same, found), ground (arith, law, same, found))
    | inr differs ↦
        let law =
          lookup-insert path p
            (record { sha256 = sha256 content; content = some content; taken_at = now })
            g.snapshots in
        old (ground (arith, law, differs, found))
  ]

  refresh_path-IsTrusty :
      (disk : Disk) (now : ℕ) (path : FilePath) (g : Guardian)
      → IsTrusty g
      → IsTrusty (refresh_path sha256 disk now idle path g)
  refresh_path-IsTrusty disk now path g ok = record {
    has_content = λ p snap found. elim (refresh_path-cases disk now path g) [
      | inl same ↦ ok.has_content p snap (sym (ap (λ h. lookup p h.snapshots) same) ∙ found)
      | inr a ↦
          again-HasContent now path p a.f.content g snap (ok.has_content p snap)
            (sym (ap (lookup p) (snapshots-Again disk now path g a)) ∙ found)
    ];
    apart = λ p content f kept there.
        ok.apart p content f (sym (trusted-refresh_path disk now path p g ok) ∙ kept)
          (sym (ap (lookup p) (files-refresh_path disk now path g)) ∙ there);
  }

  trusted-refresh_paths :
      (disks : FilePath → Disk) (now : ℕ) (paths : List FilePath) (other : FilePath) (g : Guardian)
      → IsTrusty g
      → trusted other (refresh_paths sha256 disks now (λ path. idle) paths g) ≡ trusted other g
  unfolding refresh_paths
  trusted-refresh_paths disks now [] other g ok = refl
  trusted-refresh_paths disks now (path ∷ rest) other g ok =
      trusted-refresh_paths disks now rest other (refresh_path sha256 (disks path) now idle path g)
        (refresh_path-IsTrusty (disks path) now path g ok)
      ∙ trusted-refresh_path (disks path) now path other g ok

  -- Taking the snapshots again, with whatever calls fail, changes no trusted content, provided that
  -- every snapshot has a content and its hash, that no file collides with it under SHA-256, and that
  -- no other program writes to a file between the two times that it is read.
  pub refresh_keeps_trust :
      (disks : FilePath → Disk) (now : ℕ) (path : FilePath) (g : Guardian)
      → IsTrusty g
      → trusted path (refresh_snapshots sha256 disks now (λ p. idle) g) ≡ trusted path g
  unfolding refresh_snapshots
  refresh_keeps_trust disks now path g ok =
      trusted-refresh_paths disks now (paths_of g.snapshots) path g ok

  -- A write between the two reads of a known file is trusted: if the file has the hash of its snapshot
  -- at the first read, and another program replaces it before the second one, then the content of that
  -- program is the trusted one.
  refresh_trusts_race :
      (now : ℕ) (path : FilePath) (snap : Snapshot) (f bad : File) (writes : Writes) (g : Guardian)
      → lookup path g.snapshots ≡ some snap
      → lookup path g.files ≡ some f
      → snap.sha256 ≡ sha256 f.content
      → lookup path (writes g.files) ≡ some bad
      → trusted path (refresh_path sha256 all_work now writes path g) ≡ some bad.content
  unfolding refresh_path take_snapshot
  refresh_trusts_race now path snap f bad writes g known there hashed replaced =
      let g' : Guardian = record g { files = writes g.files } in
      let step : refresh_path sha256 all_work now writes path g
          ≡ write_snapshot_file all_work path bad.content (again now path bad.content g') =
        ground (arith, known, there, replaced, bytes_eq.eqb_iff snap.sha256 (sha256 f.content)) in
      ap (trusted path) step
      ∙ ap (λ m. content_of (lookup path m))
          (snapshots-write_snapshot_file all_work path bad.content (again now path bad.content g'))
      ∙ ap content_of (
          lookup-insert_self path
            (record { sha256 = sha256 bad.content; content = some bad.content; taken_at = now })
            g.snapshots)
