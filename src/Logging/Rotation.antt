-- ===== src/Logging/Rotation.antt =====
-- The file of the log stays below its limit.
use angellab.Prelude.{
  ℕ, zero, suc, ◌+◌, ◌-◌, ◌≤◌, ◌<◌, ◌≡◌, ◌≢◌, refl, sym, ap, ◌∙◌, Bool, true, false, ◌&&◌, none,
  some, List, [], ◌∷◌, ◌++◌, arith, inl, inr, Bool-cases, if◌then◌else◌, length, length-append,
  take, ltb, All, bytes_eq, nat_eq,
}
use mathlib.Core.Path.{subst}
use angellab.Prelude.Map.{lookup, insert, delete}
use angellab.Prelude.Map.Laws.{lookup-delete, lookup-insert_self, lookup-insert_ne}
use angellab.Prelude.Text.{Text, text_lt, has_prefix}
use angellab.Logging.{
  Disk, Calls, RotatingFile, renamed, backups_in, insert_name, sorted, remove_each, prune_backups,
  open_append, rotate, write_out, after_rotate, write,
}

abbrev IsLonger : Text → Text → Type 0
IsLonger path name = length path < length name

backups-IsLonger :
    (path : Text) (disk : Disk) → All (IsLonger path) (backups_in (path ++ 46 ∷ []) disk)
unfolding backups_in
backups-IsLonger path [] = tt
backups-IsLonger path ((name, text) ∷ disk) =
    elim (Bool-cases
      (ltb (length (path ++ 46 ∷ [])) (length name) && has_prefix (path ++ 46 ∷ []) name)) [
        | inl backup ↦
            rw backup
              (ground (arith, backup, length-append path (46 ∷ [])), backups-IsLonger path disk)
        | inr other ↦ rw other (backups-IsLonger path disk)
      ]

insert_name-IsLonger :
    (path n : Text) (ms : List Text)
    → IsLonger path n
    → All (IsLonger path) ms
    → All (IsLonger path) (insert_name n ms)
unfolding insert_name
insert_name-IsLonger path n [] long h = (long, tt)
insert_name-IsLonger path n (m ∷ ms) long (first, h) = elim (Bool-cases (text_lt m n)) [
  | inl later ↦ rw later (first, insert_name-IsLonger path n ms long h)
  | inr here ↦ rw here (long, (first, h))
]

sorted-IsLonger :
    (path : Text) (ns : List Text) → All (IsLonger path) ns → All (IsLonger path) (sorted ns)
unfolding sorted
sorted-IsLonger path [] h = tt
sorted-IsLonger path (n ∷ ns) (long, h) =
    insert_name-IsLonger path n (sorted ns) long (sorted-IsLonger path ns h)

lookup-remove_each :
    (calls : Calls) (path : Text) (k : ℕ) (ns : List Text) (disk : Disk)
    → All (IsLonger path) ns
    → lookup path (remove_each calls (take k ns) disk) ≡ lookup path disk
unfolding remove_each
lookup-remove_each calls path zero ns disk h = refl
lookup-remove_each calls path (suc k) [] disk h = refl
lookup-remove_each calls path (suc k) (n ∷ ns) disk (long, h) =
    let other : n ≢ path = λ e. omega (arith, long, ap (λ (t : Text). length t) e) in
    elim (Bool-cases (calls.remove n)) [
      | inl removed ↦
          ap (λ b. lookup path (remove_each calls (take k ns) (if b then delete n disk else disk)))
            removed
          ∙ lookup-remove_each calls path k ns (delete n disk) h
          ∙ ground (arith, lookup-delete n path disk, bytes_eq.eqb_iff n path, other)
      | inr kept ↦
          ap (λ b. lookup path (remove_each calls (take k ns) (if b then delete n disk else disk)))
            kept
          ∙ lookup-remove_each calls path k ns disk h
    ]

lookup-prune_backups :
    (calls : Calls) (path : Text) (keep : ℕ) (disk : Disk)
    → lookup path (prune_backups calls path keep disk) ≡ lookup path disk
unfolding prune_backups
lookup-prune_backups calls path keep disk =
    let backups = sorted (backups_in (path ++ 46 ∷ []) disk) in
    let left = remove_each calls (take (length backups - keep) backups) disk in
    elim (Bool-cases calls.read_dir) [
      | inl listed ↦
          ap (λ b. lookup path (if b then left else disk)) listed
          ∙ lookup-remove_each calls path (length backups - keep) backups disk (
              sorted-IsLonger path (backups_in (path ++ 46 ∷ []) disk) (backups-IsLonger path disk))
      | inr failed ↦ ap (λ b. lookup path (if b then left else disk)) failed
    ]

-- an open log whose size is that of its file, and not over the limit
pub record IsBounded (r : RotatingFile) (disk : Disk) : Type 0 where
  pub text : Text
  pub there : lookup r.path disk ≡ some text
  pub counted : r.size ≡ length text
  pub within : r.size ≤ r.max_bytes
  pub open_ : r.is_open ≡ true

write_out-IsBounded :
    (calls : Calls) (p : Text) (r : RotatingFile) (disk : Disk)
    → calls.written ≡ none
    → r.size + length p ≤ r.max_bytes
    → IsBounded r disk
    → let (r', disk', fine) = write_out calls p r disk in IsBounded r' disk' × (fine ≡ true)
unfolding write_out
write_out-IsBounded calls p r disk all fits h =
    let e : write_out calls p r disk
        ≡ (record r { size = r.size + length p }, insert r.path (h.text ++ p) disk, true) =
      ground (arith, h.open_, all, h.there, nat_eq.eqb_iff (length p) (length p)) in
    subst (λ (q : RotatingFile × Disk × Bool). IsBounded q.0 q.1 × (q.2 ≡ true)) (sym e)
      (
        record {
          text = h.text ++ p;
          there = lookup-insert_self r.path (h.text ++ p) disk;
          counted = omega (arith, h.counted, length-append h.text p);
          within = fits;
          open_ = h.open_;
        },
        refl,
      )

lookup-renamed :
    (calls : Calls) (path stamp text : Text) (disk : Disk)
    → calls.rename ≡ true
    → lookup path disk ≡ some text
    → lookup path (renamed calls path (path ++ 46 ∷ stamp) disk) ≡ none
unfolding renamed
lookup-renamed calls path stamp text disk works there =
    let backup = path ++ 46 ∷ stamp in
    let other : backup ≢ path =
      λ e. omega (arith, length-append path (46 ∷ stamp), ap (λ (t : Text). length t) e) in
    let e : renamed calls path backup disk ≡ insert backup text (delete path disk) =
      ground (arith, there, works) in
    ap (λ (m : Disk). lookup path m) e
    ∙ lookup-insert_ne backup path text (delete path disk) other
    ∙ ground (arith, lookup-delete path path disk, bytes_eq.eqb_iff path path)

rotate-IsBounded :
    (calls : Calls) (stamp : Text) (r : RotatingFile) (disk : Disk)
    → calls.rename ≡ true
    → calls.opens ≡ true
    → IsBounded r disk
    → let (r', disk', fine) = rotate calls stamp r disk in
      IsBounded r' disk' × (fine ≡ true) × (r'.size ≡ 0) × (r'.max_bytes ≡ r.max_bytes)
unfolding rotate open_append
rotate-IsBounded calls stamp r disk moves opens h =
    let pruned =
      prune_backups calls r.path r.max_backups (renamed calls r.path (r.path ++ 46 ∷ stamp) disk) in
    let gone : lookup r.path pruned ≡ none =
      lookup-prune_backups calls r.path r.max_backups _
      ∙ lookup-renamed calls r.path stamp h.text disk moves h.there in
    let e : rotate calls stamp r disk
        ≡ (record r { is_open = true; size = 0 }, insert r.path [] pruned, true) =
      ground (arith, opens, gone) in
    subst
      (λ (q : RotatingFile × Disk × Bool).
        IsBounded q.0 q.1 × (q.2 ≡ true) × (q.0.size ≡ 0) × (q.0.max_bytes ≡ r.max_bytes))
      (sym e)
      (
        record {
          text = [];
          there = lookup-insert_self r.path [] pruned;
          counted = refl;
          within = omega arith;
          open_ = refl;
        },
        refl,
        refl,
        refl,
      )

-- An open log whose file has the size that is counted for it, within the limit, stays one: when the calls
-- on the disk succeed, every write of a text that is not over the limit is taken as a whole and leaves
-- the file of the log within its limit, with the size that is counted for it.
pub write-IsBounded :
    (calls : Calls) (stamp p : Text) (r : RotatingFile) (disk : Disk)
    → calls.rename ≡ true
    → calls.opens ≡ true
    → calls.written ≡ none
    → length p ≤ r.max_bytes
    → IsBounded r disk
    → let (r', disk', fine) = write calls stamp p r disk in IsBounded r' disk' × (fine ≡ true)
unfolding write
write-IsBounded calls stamp p r disk moves opens all fits h =
    let q = rotate calls stamp r disk in
    let Fine : RotatingFile × Disk × Bool → Type 0 = λ o. IsBounded o.0 o.1 × (o.2 ≡ true) in
    elim (Bool-cases (ltb r.max_bytes (r.size + length p))) [
      | inr room ↦
          subst Fine
            (sym (ap (λ b. if b then after_rotate calls p q else write_out calls p r disk) room))
            (write_out-IsBounded calls p r disk all (ground (arith, room)) h)
      | inl full ↦
          let (bounded, fine, empty, same) = rotate-IsBounded calls stamp r disk moves opens h in
          subst Fine
            (sym (
              ap (λ b. if b then after_rotate calls p q else write_out calls p r disk) full
              ∙ ap (λ b. if b then write_out calls p q.0 q.1 else (q.0, q.1, false)) fine))
            (write_out-IsBounded calls p q.0 q.1 all (omega (arith, empty, same, fits)) bounded)
    ]
