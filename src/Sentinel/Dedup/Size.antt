-- ===== src/Sentinel/Dedup/Size.antt =====
-- The table of seen connections stays below its limit, and every key stands once.
use angellab.Prelude.{
  ◌⊎◌, inr, inl, ℕ, ◌+◌, ◌-◌, ◌/◌, ◌≤◌, ◌<◌, ◌≡◌, refl, none, List, [], ◌∷◌, suc, arith, length,
  drop, ltb, leb, bytes_eq, Bool-cases, Option-cases, length-drop,
}
use angellab.Prelude.Map.{lookup, insert, IsMap}
use angellab.Prelude.Map.Laws.{length-insert, insert-IsMap, retain-IsMap, length-retain}
use angellab.Sentinel.Baseline.{OutboundConn, compact_key}
use angellab.Sentinel.Dedup.{
  Deduplicator, Seen, prune, insert_sorted, sort_by_last, collect, prune_half, count_call, cap_size,
  judge, is_new, max_dedup_size,
}

pub record IsSound (d : Deduplicator) : Type 0 where
  pub small : length d.seen < max_dedup_size
  pub distinct : IsMap d.seen

length-insert_sorted : (e : List ℕ × ℕ) (l : Seen) → length (insert_sorted e l) ≡ suc (length l)
unfolding insert_sorted
length-insert_sorted e [] = refl
length-insert_sorted e (f ∷ fs) = ground (arith, length-insert_sorted e fs)

length-sort : (l : Seen) → length (sort_by_last l) ≡ length l
unfolding sort_by_last
length-sort [] = refl
length-sort (e ∷ es) = omega (arith, length-insert_sorted e (sort_by_last es), length-sort es)

length-collect : (l m : Seen) → length (collect l m) ≤ length l + length m
unfolding collect
length-collect [] m = omega arith
length-collect (e ∷ es) m =
    ground (arith, length-collect es (insert e.0 e.1 m), length-insert e.0 e.1 m)

collect-IsMap : (l m : Seen) → IsMap m → IsMap (collect l m)
unfolding collect
collect-IsMap [] m h = h
collect-IsMap (e ∷ es) m h = collect-IsMap es (insert e.0 e.1 m) (insert-IsMap e.0 e.1 m h)

-- half of the entries, rounded up, are left at most
length-prune_half :
    (d : Deduplicator) → length (prune_half d).seen ≤ length d.seen - length d.seen / 2
unfolding prune_half
length-prune_half d = omega (
  arith,
  length-collect (drop (length (sort_by_last d.seen) / 2) (sort_by_last d.seen)) [],
  length-drop (length (sort_by_last d.seen) / 2) (sort_by_last d.seen),
  length-sort d.seen,
)

cap_size-IsSound :
    (d : Deduplicator) → length d.seen ≤ max_dedup_size → IsMap d.seen → IsSound (cap_size d)
unfolding cap_size
cap_size-IsSound d small distinct = elim (Bool-cases (leb max_dedup_size (length d.seen))) [
  | inl full ↦ rw full (record {
    small = omega (arith, length-prune_half d);
    distinct = unfold prune_half in collect-IsMap _ [] tt;
  })
  | inr room ↦ rw room (record { small = ground arith; distinct = distinct })
]

-- counting a call leaves the table alone or prunes it
pub count_call-cases :
    (now : ℕ) (d : Deduplicator)
    → ((count_call now d).seen ≡ d.seen) ⊎ ((count_call now d).seen ≡ (prune now d).seen)
unfolding count_call
count_call-cases now d = ground arith

pub count_call_seen :
    (now : ℕ) (d : Deduplicator)
    → IsMap d.seen
    → (length (count_call now d).seen ≤ length d.seen) × IsMap (count_call now d).seen
count_call_seen now d h = elim (count_call-cases now d) [
  | inl same ↦ rw same (omega arith, h)
  | inr pruned ↦ rw pruned (unfold prune in (length-retain _ d.seen, retain-IsMap _ d.seen h))
]

-- Every call of `IsNew` keeps the table below `maxDedupSize`, with each key once: a call that would
-- fill it drops the older half.
pub is_new-IsSound :
    (oc : OutboundConn) (now : ℕ) (d : Deduplicator) → IsSound d → IsSound (is_new oc now d).0
unfolding is_new
is_new-IsSound oc now d h = elim (Option-cases (lookup (compact_key oc) d.seen)) [
  | inl unseen ↦ rw (unseen, judge) (first unseen)
  | inr (last, known) ↦ elim (Bool-cases (ltb (last + d.ttl) now)) [
    | inl expired ↦
        rw (known, judge, expired)
          (record {
            small = ground (arith, h.small, length-insert (compact_key oc) now d.seen);
            distinct = insert-IsMap (compact_key oc) now d.seen h.distinct;
          })
    | inr fresh ↦ rw (known, judge, fresh) h
  ]
]
  where
    first :
        lookup (compact_key oc) d.seen ≡ none
        → IsSound
            (cap_size (count_call now (record d { seen = insert (compact_key oc) now d.seen })))
    first unseen =
        let d' : Deduplicator = record d { seen = insert (compact_key oc) now d.seen } in
        let (short, distinct) =
          count_call_seen now d' (insert-IsMap (compact_key oc) now d.seen h.distinct) in
        cap_size-IsSound (count_call now d')
          (ground (arith, short, h.small, length-insert (compact_key oc) now d.seen)) distinct
