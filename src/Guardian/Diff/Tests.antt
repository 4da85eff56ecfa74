-- ===== src/Guardian/Diff/Tests.antt =====
-- A clean file, two files of the same base name, and a JSON text that has a path.
use angellab.Prelude.{
  ℕ, ◌≡◌, ◌↔◌, refl, Option, none, some, List, [], ◌∷◌, All, bytes_eq, ◌==◌, if◌then◌else◌,
}
use angellab.Prelude.Map.{lookup}
use angellab.Guardian.{FilePath, File, Guardian}
use angellab.Guardian.Diff.{Storage, diff_snapshot}
use angellab.Guardian.Diff.Report.{full_access, IsClear, empty_report_iff}

-- tells the contents below apart
abbrev tag : List ℕ → List ℕ
tag content = if content == (1 ∷ []) then 11 ∷ [] else 22 ∷ []

-- one content is a JSON text, with the path "b"
abbrev parse : List ℕ → Option FilePath
parse content = if content == (7 ∷ []) then some (98 ∷ []) else none

abbrev etc_a : FilePath
etc_a = 47 ∷ 101 ∷ 116 ∷ 99 ∷ 47 ∷ 97 ∷ []

abbrev opt_a : FilePath
opt_a = 47 ∷ 111 ∷ 112 ∷ 116 ∷ 47 ∷ 97 ∷ []

abbrev a_snap : FilePath
a_snap = 97 ∷ 46 ∷ 115 ∷ 110 ∷ 97 ∷ 112 ∷ []

abbrev with_content : List ℕ → File
with_content content = record { content = content; perm = 0o644 }

abbrev clean : Storage
clean = record { dir = (a_snap, 1 ∷ []) ∷ []; files = (etc_a, with_content (1 ∷ [])) ∷ [] }

empty_report_iff_example :
    (diff_snapshot tag parse full_access clean (etc_a ∷ []) ≡ [])
    ↔ All (IsClear tag parse clean) (etc_a ∷ [])
unfolding lookup
empty_report_iff_example = empty_report_iff tag parse clean (etc_a ∷ []) ((1 ∷ [], refl, refl), tt)

abbrev two_files : Guardian
two_files = record {
  files = (etc_a, with_content (1 ∷ [])) ∷ (opt_a, with_content (2 ∷ [])) ∷ [];
  snapshots = [];
  snapshot_dir = some [];
  watches = [];
  sent = [];
}

abbrev settings : Storage
settings = record { dir = (a_snap, 7 ∷ []) ∷ []; files = (etc_a, with_content (7 ∷ [])) ∷ [] }
