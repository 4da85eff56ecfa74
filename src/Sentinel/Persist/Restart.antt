-- ===== src/Sentinel/Persist/Restart.antt =====
-- What a save leaves on the disk, and what the next run of the angel knows.
use angellab.Prelude.{
  ℕ, ◌≡◌, ◌≢◌, refl, sym, ap, ◌∙◌, true, ◌||◌, Option, none, some, List, [], ◌∷◌, ◌++◌, arith, inl,
  inr, Bool-cases, Option-cases, if◌then◌else◌, length, length-append, All, bytes_eq, nat_eq,
  is_some,
}
use angellab.Prelude.Map.{Map, lookup, insert, delete, has}
use angellab.Prelude.Map.Laws.{lookup-insert, lookup-delete, lookup-insert_ne, lookup-insert_self}
use angellab.Prelude.Text.{Text, codes}
use angellab.Net.{Ip, v4_in_v6, to4}
use angellab.Net.Dotted.{dotted, parse_ip, IsByte, parse_ip-dotted}
use angellab.Sentinel.Baseline.{Baseline, ip_key, freeze, knows_ip, knows_port}
use angellab.Sentinel.Scorer.{new_scorer}
use angellab.Sentinel.Poll.{Sentinel, active, finalise_baseline}
use angellab.Sentinel.Persist.{
  Json, Calls, Disk, loaded, baseline_path, ip_texts, keys, record_of, tmp_of, renamed, write_out,
  save_baseline, add_ips, add_ports, restored, load_baseline, resume, finalise_and_save,
}

tmp-Differs : (dest : Text) → tmp_of dest ≢ dest
tmp-Differs dest e = omega (arith, ap (λ (t : Text). length t) e, length-append dest (codes ".tmp"))

lookup-delete_ne : (k j : Text) (m : Disk) → k ≢ j → lookup j (delete k m) ≡ lookup j m
lookup-delete_ne k j m h = ground (arith, lookup-delete k j m, bytes_eq.eqb_iff k j)

-- a file that is written and renamed, at a place that is neither
elsewhere :
    (dest other : Text) (content : List ℕ) (disk : Disk)
    → other ≢ dest
    → other ≢ tmp_of dest
    → lookup other (renamed (tmp_of dest) dest content (insert (tmp_of dest) content disk))
      ≡ lookup other disk
elsewhere dest other content disk not_dest not_tmp =
    lookup-insert_ne dest other content _ (λ e. not_dest (sym e))
    ∙ lookup-delete_ne (tmp_of dest) other _ (λ e. not_tmp (sym e))
    ∙ lookup-insert_ne (tmp_of dest) other content disk (λ e. not_tmp (sym e))

write_out-Atomic :
    (calls : Calls) (dest other : Text) (content : List ℕ) (disk : Disk)
    → other ≢ dest
    → other ≢ tmp_of dest
    → (lookup dest (write_out calls dest content disk).0 ≡ (
        if is_some (write_out calls dest content disk).1 then lookup dest disk else some content))
      × (lookup other (write_out calls dest content disk).0 ≡ lookup other disk)
write_out-Atomic calls dest other content disk not_dest not_tmp =
    let tmp = tmp_of dest in
    let kept : (c : List ℕ) → lookup dest (insert tmp c disk) ≡ lookup dest disk =
      λ c. lookup-insert_ne tmp dest c disk (tmp-Differs dest) in
    let aside : (c : List ℕ) → lookup other (insert tmp c disk) ≡ lookup other disk =
      λ c. lookup-insert_ne tmp other c disk (λ e. not_tmp (sym e)) in
    elim (Option-cases calls.write_fails) [
      | inr (part, fails) ↦ rw fails (kept part, aside part)
      | inl written ↦ elim (Bool-cases calls.rename) [
        | inl moved ↦
            rw (written, moved)
              (
                lookup-insert_self dest content _,
                elsewhere dest other content disk not_dest not_tmp,
              )
        | inr stuck ↦ elim (Bool-cases calls.remove) [
          | inl removed ↦
              rw (written, stuck, removed)
                (
                  lookup-delete_ne tmp dest _ (tmp-Differs dest) ∙ kept content,
                  lookup-delete_ne tmp other _ (λ e. not_tmp (sym e)) ∙ aside content,
                )
          | inr left ↦ rw (written, stuck, left) (kept content, aside content)
        ]
      ]
    ]

-- Whatever the calls answer, after `saveBaseline` the file of the baseline is the whole new one if
-- there is no error and what it was if there is one, and no file but it and its temporary one has
-- changed.
pub save_baseline_atomic :
    (json : Json) (calls : Calls) (id dir other : Text) (b : Baseline) (disk : Disk)
    → other ≢ baseline_path id dir
    → other ≢ tmp_of (baseline_path id dir)
    → let (disk', e) = save_baseline json calls id dir b disk in
      let dest = baseline_path id dir in
      (lookup dest disk' ≡ (if is_some e then lookup dest disk else json.marshal (record_of id b)))
      × (lookup other disk' ≡ lookup other disk)
unfolding save_baseline
save_baseline_atomic json calls id dir other b disk not_dest not_tmp =
    elim (Bool-cases calls.mkdir) [
      | inr refused ↦ rw refused (refl, refl)
      | inl made ↦ elim (Option-cases (json.marshal (record_of id b))) [
        | inl failed ↦ rw (made, failed) (refl, refl)
        | inr (content, fine) ↦
            rw (made, fine)
              (write_out-Atomic calls (baseline_path id dir) other content disk not_dest not_tmp)
      ]
    ]

-- four bytes, as the keys of the set of addresses are
abbrev pub IsKey : List ℕ → Type 0
IsKey key = (a b c d : ℕ) × (key ≡ a ∷ b ∷ c ∷ d ∷ []) × IsByte a × IsByte b × IsByte c × IsByte d

ip_key-v4 : (a b c d : ℕ) → ip_key (v4_in_v6 ++ (a ∷ b ∷ c ∷ d ∷ [])) ≡ a ∷ b ∷ c ∷ d ∷ []
unfolding ip_key to4
ip_key-v4 a b c d = refl

-- the address that is read back has the same key
key_read :
    (parse_v6 : Text → Option Ip) (key : List ℕ)
    → IsKey key
    → (ip : Ip) × (parse_ip parse_v6 (dotted key) ≡ some ip) × (ip_key ip ≡ key)
key_read parse_v6 key (a, b, c, d, e, ha, hb, hc, hd) = (
  v4_in_v6 ++ (a ∷ b ∷ c ∷ d ∷ []),
  ap (λ k. parse_ip parse_v6 (dotted k)) e ∙ parse_ip-dotted parse_v6 a b c d ha hb hc hd,
  ip_key-v4 a b c d ∙ sym e,
)

add_ips-read :
    (parse_v6 : Text → Option Ip) (t : Text) (ts : List Text) (m : Map (List ℕ) (Unit {0}))
    (ip : Ip)
    → parse_ip parse_v6 t ≡ some ip
    → add_ips parse_v6 (t ∷ ts) m ≡ add_ips parse_v6 ts (insert (ip_key ip) tt m)
unfolding add_ips
add_ips-read parse_v6 t ts m ip read = rw (add_ips, read) refl

has-add_ips :
    (parse_v6 : Text → Option Ip) (saved m : Map (List ℕ) (Unit {0})) (j : List ℕ)
    → All (λ entry. IsKey entry.0) saved
    → has j (add_ips parse_v6 (ip_texts saved) m) ≡ (has j saved || has j m)
unfolding add_ips lookup
has-add_ips parse_v6 [] m j h = refl
has-add_ips parse_v6 ((key, u) ∷ saved) m j (is_key, h) =
    let (ip, read, same) = key_read parse_v6 key is_key in
    ap (λ n. has j n)
      (add_ips-read parse_v6 (dotted key) (ip_texts saved) m ip read
        ∙ ap (λ k. add_ips parse_v6 (ip_texts saved) (insert k tt m)) same)
    ∙ has-add_ips parse_v6 saved (insert key tt m) j h
    ∙ ground (arith, lookup-insert key j tt m)

has-add_ports :
    (saved m : Map ℕ (Unit {0})) (j : ℕ)
    → has j (add_ports (keys saved) m) ≡ (has j saved || has j m)
unfolding add_ports lookup
has-add_ports [] m j = refl
has-add_ports ((port, u) ∷ saved) m j =
    has-add_ports saved (insert port tt m) j ∙ ground (arith, lookup-insert port j tt m)

-- `b` is frozen and knows what `a` knows
pub record IsCopy (a b : Baseline) : Type 0 where
  pub ips : (ip : Ip) → knows_ip b ip ≡ knows_ip a ip
  pub ports : (port : ℕ) → knows_port b port ≡ knows_port a port
  pub peak : b.max_concurrent ≡ a.max_concurrent
  pub polls : b.samples ≡ a.samples
  pub frozen : b.frozen ≡ true
  pub time : b.frozen_at ≡ a.frozen_at

restored-IsCopy :
    (parse_v6 : Text → Option Ip) (id : Text) (b : Baseline)
    → All (λ entry. IsKey entry.0) b.known_ips
    → IsCopy b (restored parse_v6 (record_of id b))
unfolding knows_ip knows_port lookup
restored-IsCopy parse_v6 id b h = record {
  ips = λ ip. has-add_ips parse_v6 b.known_ips [] (ip_key ip) h ∙ ground arith;
  ports = λ port. has-add_ports b.known_ports [] port ∙ ground arith;
  peak = refl;
  polls = refl;
  frozen = refl;
  time = refl;
}

load-saved :
    (json : Json) (calls : Calls) (id dir : Text) (b : Baseline) (content : List ℕ) (disk : Disk)
    → lookup (baseline_path id dir) disk ≡ some content
    → calls.read ≡ true
    → json.unmarshal content ≡ some (record_of id b)
    → load_baseline json calls id dir disk ≡ loaded (restored json.parse_v6 (record_of id b))
unfolding load_baseline
load-saved json calls id dir b content disk there reads back =
    rw (load_baseline, there, reads, back) refl

-- what the next run of the angel starts with
pub record Resumes (b : Baseline) (s : Sentinel) : Type 0 where
  pub is_active : s.phase ≡ active
  pub scores : s.scorer ≡ some new_scorer
  pub copy : IsCopy b s.baseline

-- The baseline that is saved at the end of the training, when the calls succeed and the text of JSON is
-- read back, is the one that the next run of the angel has: it is active at once, with a scorer, and
-- knows the same addresses and ports.
pub training-Resumes :
    (json : Json) (saving loading : Calls) (id dir : Text) (now : ℕ) (s next : Sentinel)
    (content : List ℕ) (disk : Disk)
    → saving.mkdir ≡ true
    → saving.write_fails ≡ none
    → saving.rename ≡ true
    → loading.read ≡ true
    → json.marshal (record_of id (freeze now s.baseline)) ≡ some content
    → json.unmarshal content ≡ some (record_of id (freeze now s.baseline))
    → All (λ entry. IsKey entry.0) s.baseline.known_ips
    → let (s', disk') = finalise_and_save json saving id dir now s disk in
      Resumes s'.baseline (resume (load_baseline json loading id dir disk') next)
unfolding finalise_and_save finalise_baseline freeze save_baseline resume
training-Resumes json saving loading id dir now s next content disk made written moved reads text
      back h =
    let dest = baseline_path id dir in
    let there : lookup dest (save_baseline json saving id dir (freeze now s.baseline) disk).0
        ≡ some content =
      rw (made, text, written, moved) (lookup-insert_self dest content _) in
    rw
      (load-saved json loading id dir (freeze now s.baseline) content
        (save_baseline json saving id dir (freeze now s.baseline) disk).0 there reads back)
      (record {
        is_active = refl;
        scores = refl;
        copy = restored-IsCopy json.parse_v6 id (freeze now s.baseline) h;
      })
