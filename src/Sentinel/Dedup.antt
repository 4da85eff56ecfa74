-- ===== src/Sentinel/Dedup.antt =====
-- internal/angels/sentinel/dedup.go: the Deduplicator. A method that runs under `d.mu` is one
-- function; times and durations are nanoseconds, and `now.Sub(t) > ttl` is `t + ttl < now`, which
-- is the same for any two times. `sort.Slice` leaves the order of entries with equal times open:
-- here it is the stable one.
pub mod Size
pub mod Repeats
use angellab.Prelude.{
  ℕ, ◌+◌, ◌*◌, ◌/◌, Bool, true, false, not, Option, none, some, List, [], ◌∷◌, length, drop, ltb,
  leb, if◌then◌else◌, bytes_eq,
}
use angellab.Prelude.Map.{Map, lookup, insert, retain}
use angellab.Sentinel.Baseline.{OutboundConn, compact_key}

-- 5 * time.Minute
abbrev pub default_dedup_ttl : ℕ
default_dedup_ttl = 5 * 60 * 1_000_000_000

abbrev pub max_dedup_size : ℕ
max_dedup_size = 100_000

abbrev pub Seen : Type 0
Seen = Map (List ℕ) ℕ

pub record Deduplicator : Type 0 where
  pub seen : Seen
  pub ttl : ℕ
  pub prune_at : ℕ
  pub calls : ℕ
  pub last_prune_at : ℕ

abbrev pub new_deduplicator : ℕ → Deduplicator
new_deduplicator now = record {
  seen = [];
  ttl = default_dedup_ttl;
  prune_at = 500;
  calls = 0;
  last_prune_at = now;
}

-- the loop of `prune` deletes the entries that have expired
unfoldable pub prune : ℕ → Deduplicator → Deduplicator
prune now d = record d { seen = retain (λ key last. not (ltb (last + d.ttl) now)) d.seen }

-- entries[i].last.Before(entries[j].last)
unfoldable pub insert_sorted : List ℕ × ℕ → Seen → Seen
insert_sorted e [] = e ∷ []
insert_sorted e (f ∷ fs) = if ltb f.1 e.1 then f ∷ insert_sorted e fs else e ∷ f ∷ fs

unfoldable pub sort_by_last : Seen → Seen
unfolding insert_sorted
sort_by_last [] = []
sort_by_last (e ∷ es) = insert_sorted e (sort_by_last es)

-- for _, e := range entries { newMap[e.key] = e.last }
unfoldable pub collect : Seen → Seen → Seen
collect [] new_map = new_map
collect (e ∷ es) new_map = collect es (insert e.0 e.1 new_map)

unfoldable pub prune_half : Deduplicator → Deduplicator
prune_half d =
    let entries = sort_by_last d.seen in
    let keep = length entries / 2 in record d { seen = collect (drop keep entries) [] }

-- the block that counts the calls and prunes on every `pruneAt`-th
unfoldable pub count_call : ℕ → Deduplicator → Deduplicator
unfolding prune
count_call now d =
    if leb d.prune_at (d.calls + 1)
    then (if leb (d.last_prune_at + d.ttl / 4) now
        then record (prune now d) { last_prune_at = now; calls = 0 }
        else record d { calls = 0 })
    else record d { calls = d.calls + 1 }

unfoldable pub cap_size : Deduplicator → Deduplicator
cap_size d = if leb max_dedup_size (length d.seen) then prune_half d else d

-- the branches on `seen` and on `expired`
unfoldable pub judge : Option ℕ → List ℕ → ℕ → Deduplicator → Deduplicator × Bool
judge none key now d = (cap_size (count_call now (record d { seen = insert key now d.seen })), true)
judge (some last) key now d =
    if ltb (last + d.ttl) now then (record d { seen = insert key now d.seen }, true) else (d, false)

unfoldable pub is_new : OutboundConn → ℕ → Deduplicator → Deduplicator × Bool
unfolding judge
is_new oc now d = let key = compact_key oc in judge (lookup key d.seen) key now d

unfoldable pub reset : Deduplicator → Deduplicator
reset d = record d { seen = [] }

unfoldable pub size : Deduplicator → ℕ
size d = length d.seen
