-- ===== src/Guardian/Diff/Report.antt =====
-- What DiffSnapshot of internal/angels/guardian/diff.go reports, on its own and of the snapshot files
-- that the guardian writes.
use angellab.Prelude.{
  ℕ, ◌≡◌, ◌≢◌, ◌↔◌, refl, ap, ◌∙◌, true, Option, none, some, List, [], ◌∷◌, ◌++◌, arith, bytes_eq,
  ◌==◌, Option-cases, Bool-cases, inl, inr, take, length, All,
}
use angellab.Prelude.Map.{Map, lookup, insert}
use angellab.Prelude.Map.Laws.{lookup-insert_self}
use angellab.Guardian.{
  FilePath, File, Guardian, base, snap_suffix, take_snapshot, write_snapshot_file,
}
use angellab.Guardian.Restore.{all_work}
use angellab.Guardian.Diff.{
  Access, Storage, new_entry, candidate, is_snapshot_for, snapshot_file_path, diff_live,
  diff_snapshot_side, diff_one, diff_snapshot,
}

-- every call succeeds
abbrev pub full_access : Access
full_access = record {
  can_stat_snapshot = λ name. true;
  can_read_snapshot = λ name. true;
  can_stat = λ path. true;
  can_read = λ path. true;
}

-- what the diff sees of a guardian
abbrev pub dir_of : Option (Map FilePath (List ℕ)) → Map FilePath (List ℕ)
dir_of none = []
dir_of (some dir) = dir

abbrev pub storage_of : Guardian → Storage
storage_of g = record { dir = dir_of g.snapshot_dir; files = g.files }

module _ (sha256 : List ℕ → List ℕ) (json_path : List ℕ → Option FilePath) where
  -- the path has a snapshot file by its base name, which is not a JSON text
  abbrev pub IsSaved : Storage → FilePath → Type 0
  IsSaved st path =
      (saved : List ℕ) × (lookup (candidate path) st.dir ≡ some saved) × (json_path saved ≡ none)

  abbrev pub hash_of : Option (List ℕ) → Option (List ℕ)
  hash_of none = none
  hash_of (some content) = some (sha256 content)

  -- the file is there, with the hash of its snapshot
  abbrev pub IsClear : Storage → FilePath → Type 0
  IsClear st path =
      (f : File) × (lookup path st.files ≡ some f)
      × (hash_of (lookup (candidate path) st.dir) ≡ some (sha256 f.content))

  name_of_saved :
      (st : Storage) (path : FilePath)
      → IsSaved st path
      → snapshot_file_path sha256 json_path full_access st path ≡ candidate path
  unfolding snapshot_file_path is_snapshot_for
  name_of_saved st path (saved, kept, raw) = ground (arith, kept, raw)

  diff_one-saved :
      (st : Storage) (path : FilePath) (saved : List ℕ)
      → lookup (candidate path) st.dir ≡ some saved
      → json_path saved ≡ none
      → diff_one sha256 json_path full_access st path
        ≡ some (
            diff_live sha256 json_path full_access (lookup path st.files) (record (new_entry path) {
              snapshot_size = length saved;
              snapshot_hash = sha256 saved;
            }))
  unfolding diff_one diff_snapshot_side
  diff_one-saved st path saved kept raw =
      let name = name_of_saved st path (saved, kept, raw) in rw name (rw kept refl)

  diff_snapshot_saved :
      (st : Storage) (path : FilePath) (rest : List FilePath)
      → IsSaved st path
      → (diff_snapshot sha256 json_path full_access st (path ∷ rest) ≡ [])
        ↔ (IsClear st path × (diff_snapshot sha256 json_path full_access st rest ≡ []))
  unfolding diff_snapshot diff_live
  diff_snapshot_saved st path rest (saved, kept, raw) =
      let one = diff_one-saved st path saved kept raw in
      elim (Option-cases (lookup path st.files)) [
        | inl gone ↦ (
          λ nil. absurd (ground (arith, one, gone, nil)),
          λ ((f, there, same), nil). absurd (ground (arith, gone, there)),
        )
        | inr (f, there) ↦ elim (Bool-cases (sha256 saved == sha256 f.content)) [
          | inl equal ↦
              let law = (bytes_eq.eqb_iff (sha256 saved) (sha256 f.content)).0 equal in
              (
                λ nil.
                    ((f, there, ground (arith, kept, law)), ground (arith, one, there, equal, nil)),
                λ (clear, nil). ground (arith, one, there, equal, nil),
              )
          | inr other ↦ (
            λ nil. absurd (ground (arith, one, there, other, nil)),
            λ ((h, here, same), nil). absurd (
                ground (
                  arith,
                  kept,
                  same,
                  here,
                  there,
                  other,
                  bytes_eq.eqb_iff (sha256 saved) (sha256 f.content),
                )),
          )
        ]
      ]

  -- If every watched path has a snapshot file by its base name that is not a JSON text, and all reads
  -- succeed, then the report is empty exactly if every file is there with the hash of its snapshot.
  pub empty_report_iff :
      (st : Storage) (paths : List FilePath)
      → All (IsSaved st) paths
      → (diff_snapshot sha256 json_path full_access st paths ≡ []) ↔ All (IsClear st) paths
  unfolding diff_snapshot
  empty_report_iff st [] saved = (λ h. tt, λ h. refl)
  empty_report_iff st (path ∷ rest) (here, there) =
      let one = diff_snapshot_saved st path rest here in
      let all = empty_report_iff st rest there in
      (λ nil. ((one.0 nil).0, all.0 (one.0 nil).1), λ (clear, clears). one.1 (clear, all.1 clears))

  -- the file of the last snapshot of this base name
  dir-take_snapshot :
      (now : ℕ) (path : FilePath) (f : File) (dir : Map FilePath (List ℕ)) (g : Guardian)
      → lookup path g.files ≡ some f
      → g.snapshot_dir ≡ some dir
      → let g' : Guardian = (take_snapshot sha256 all_work now path g).0 in
        (g'.snapshot_dir ≡ some (insert (candidate path) f.content dir)) × (g'.files ≡ g.files)
  unfolding take_snapshot write_snapshot_file
  dir-take_snapshot now path f dir g there on =
      (ground (arith, there, on), ground (arith, there, on))

  -- Two watched files whose paths have the same last element share a snapshot file: after the
  -- snapshots of both were taken, the first is reported as changed although it was not touched, provided
  -- that the contents differ in their hash and the second is not a JSON text.
  same_base_reported :
      (t1 t2 : ℕ) (a b : FilePath) (fa fb : File) (dir : Map FilePath (List ℕ)) (g : Guardian)
      → base a ≡ base b
      → lookup a g.files ≡ some fa
      → lookup b g.files ≡ some fb
      → g.snapshot_dir ≡ some dir
      → sha256 fb.content ≢ sha256 fa.content
      → json_path fb.content ≡ none
      → let g1 : Guardian = (take_snapshot sha256 all_work t1 a g).0 in
        let g2 : Guardian = (take_snapshot sha256 all_work t2 b g1).0 in
        (lookup a g2.files ≡ some fa)
        × (diff_one sha256 json_path full_access (storage_of g2) a
            ≡ some (record (new_entry a) {
              snapshot_size = length fb.content;
              snapshot_hash = sha256 fb.content;
              current_size = length fa.content;
              current_hash = sha256 fa.content;
              changed = true;
            }))
  unfolding diff_live
  same_base_reported t1 t2 a b fa fb dir g same in_a in_b on apart raw =
      let g1 : Guardian = (take_snapshot sha256 all_work t1 a g).0 in
      let g2 : Guardian = (take_snapshot sha256 all_work t2 b g1).0 in
      let (dir1, files1) = dir-take_snapshot t1 a fa dir g in_a on in
      let (dir2, files2) =
        dir-take_snapshot t2 b fb (insert (candidate a) fa.content dir) g1
          (ap (lookup b) files1 ∙ in_b) dir1 in
      let kept : lookup (candidate a) (storage_of g2).dir ≡ some fb.content =
        ap (λ d. lookup (candidate a) (dir_of d)) dir2
        ∙ ap
            (λ n.
              lookup (n ++ snap_suffix)
                (insert (candidate b) fb.content (insert (candidate a) fa.content dir)))
            same
        ∙ lookup-insert_self (candidate b) fb.content (insert (candidate a) fa.content dir) in
      let still : lookup a g2.files ≡ some fa = ap (lookup a) (files2 ∙ files1) ∙ in_a in
      (
        still,
        diff_one-saved (storage_of g2) a fb.content kept raw
            ∙ ground
                (arith, still, apart, bytes_eq.eqb_iff (sha256 fb.content) (sha256 fa.content)),
      )

  -- A watched file that is a JSON text with another path is reported as one without a snapshot,
  -- although its snapshot file is there, unless there is a file by the name of the hash of its path.
  json_snapshot_not_found :
      (access : Access) (st : Storage) (path other : FilePath) (saved : List ℕ)
      → lookup (candidate path) st.dir ≡ some saved
      → json_path saved ≡ some other
      → other ≢ path
      → other ≢ []
      → lookup (take 16 (sha256 path) ++ snap_suffix) st.dir ≡ none
      → diff_snapshot sha256 json_path access st (path ∷ [])
        ≡ record (new_entry path) { no_snapshot = true } ∷ []
  unfolding diff_snapshot diff_one diff_snapshot_side snapshot_file_path is_snapshot_for
  json_snapshot_not_found access st path other saved kept parsed foreign named no_hashed =
      ground
        (arith, kept, parsed, no_hashed, bytes_eq.eqb_iff other path, bytes_eq.eqb_iff other [])
