-- ===== src/Sentinel/Persist/Tests.antt =====
-- A baseline of one address that is saved, on a disk that works and on one that is full.
use angellab.Prelude.{
  ℕ, ◌≡◌, ◌≢◌, refl, sym, ap, true, false, Option, none, some, List, [], ◌∷◌, ◌++◌, arith, bytes_eq,
  nat_eq, is_some, length, if◌then◌else◌,
}
use angellab.Prelude.Map.{lookup}
use angellab.Prelude.Text.{Text, codes}
use angellab.Net.Dotted.{dotted, parse_ip}
use angellab.Sentinel.Baseline.{Baseline, new_baseline, freeze}
use angellab.Sentinel.Dedup.{new_deduplicator}
use angellab.Sentinel.Rate.{new_rate_tracker}
use angellab.Sentinel.Poll.{Sentinel, training}
use angellab.Sentinel.Persist.{
  Json, Calls, Disk, baseline_path, record_of, tmp_of, save_baseline, load_baseline, resume,
  finalise_and_save,
}
use angellab.Sentinel.Persist.Restart.{save_baseline_atomic, Resumes, training-Resumes}

abbrev learned : Baseline
learned = record new_baseline {
  known_ips = (8 ∷ 8 ∷ 4 ∷ 4 ∷ [], tt) ∷ [];
  known_ports = (443, tt) ∷ [];
  max_concurrent = 3;
  samples = 30;
}

abbrev id : Text
id = codes "A-02"

abbrev dir : Text
dir = codes "/var/lib/angellab"

-- JSON of one record
abbrev json : Json
json = record {
  marshal = λ rec. some (123 ∷ 125 ∷ []);
  unmarshal = λ content. some (record_of id (freeze 9 learned));
  parse_v6 = λ t. none;
}

abbrev working : Calls
working = record { mkdir = true; write_fails = none; rename = true; remove = true; read = true }

abbrev full : Calls
full = record working { write_fails = some (123 ∷ []) }

abbrev before : Disk
before = (codes "/etc/hosts", 1 ∷ []) ∷ []

dotted_example : dotted (8 ∷ 8 ∷ 4 ∷ 4 ∷ []) ≡ codes "8.8.4.4"
unfolding angellab.Prelude.Decimal.digits
dotted_example = refl

leading_zero : parse_ip (λ t. none) (codes "8.08.4.4") ≡ none
unfolding parse_ip angellab.Net.Dotted.parse_addr angellab.Net.Dotted.parse_fields
leading_zero = refl

hosts-Other : codes "/etc/hosts" ≢ baseline_path id dir
unfolding baseline_path
hosts-Other e = omega (arith, ap (λ (t : Text). length t) e)

hosts-OtherTmp : codes "/etc/hosts" ≢ tmp_of (baseline_path id dir)
unfolding baseline_path
hosts-OtherTmp e = omega (arith, ap (λ (t : Text). length t) e)

save_baseline_atomic_example :
    let (disk', e) = save_baseline json full id dir learned before in
    let dest = baseline_path id dir in
    (lookup dest disk'
      ≡ (if is_some e then lookup dest before else json.marshal (record_of id learned)))
    × (lookup (codes "/etc/hosts") disk' ≡ lookup (codes "/etc/hosts") before)
save_baseline_atomic_example =
    save_baseline_atomic json full id dir (codes "/etc/hosts") learned before hosts-Other
      hosts-OtherTmp

abbrev at_start : Sentinel
at_start = record {
  phase = training;
  baseline = learned;
  scorer = none;
  dedup = new_deduplicator 0;
  rate_track = new_rate_tracker 5;
  total_events_emitted = 0;
  last_poll_count = 0;
}

training-Resumes_example :
    let (s', disk') = finalise_and_save json working id dir 9 at_start before in
    Resumes s'.baseline (resume (load_baseline json working id dir disk') at_start)
training-Resumes_example =
    training-Resumes json working working id dir 9 at_start at_start (123 ∷ 125 ∷ []) before refl
      refl refl refl refl refl
      ((8, 8, 4, 4, refl, omega arith, omega arith, omega arith, omega arith), tt)
