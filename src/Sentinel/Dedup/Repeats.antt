-- ===== src/Sentinel/Dedup/Repeats.antt =====
-- A connection is reported once in `ttl`, however many others are seen between; and again after
-- `ttl`, however recently it was sighted.
use angellab.Prelude.{
  ap, ◌∙◌, ◌≢◌, ℕ, ◌+◌, ◌≤◌, ◌<◌, ◌≡◌, refl, inl, inr, true, false, none, some, List, [], ◌∷◌,
  arith, length, ltb, not, if◌then◌else◌, bytes_eq, Bool-cases, Option-cases, All,
}
use angellab.Prelude.Map.{lookup, insert, IsMap}
use angellab.Prelude.Map.Laws.{
  lookup-insert, lookup-insert_self, lookup-retain, length-insert, insert-IsMap,
}
use angellab.Sentinel.Baseline.{OutboundConn, compact_key}
use angellab.Sentinel.Dedup.{
  Deduplicator, prune, count_call, cap_size, judge, is_new, max_dedup_size,
}
use angellab.Sentinel.Dedup.Size.{IsSound, is_new-IsSound, count_call-cases, count_call_seen}

-- the calls of one or more polls, in order
unfoldable pub feed : List (OutboundConn × ℕ) → Deduplicator → Deduplicator
feed [] d = d
feed ((oc, now) ∷ rest) d = feed rest (is_new oc now d).0

-- the key is in the table with a time not before `t`
abbrev Remembers : List ℕ → ℕ → Deduplicator → Type 0
Remembers key t d = (last : ℕ) × (lookup key d.seen ≡ some last) × (t ≤ last)

ttl-count_call : (now : ℕ) (d : Deduplicator) → (count_call now d).ttl ≡ d.ttl
unfolding count_call
ttl-count_call now d = ground arith

-- what `IsNew` does while the table has room
is_new_unseen :
    (oc : OutboundConn) (now : ℕ) (d : Deduplicator)
    → IsMap d.seen
    → length d.seen + 1 < max_dedup_size
    → lookup (compact_key oc) d.seen ≡ none
    → is_new oc now d
      ≡ (count_call now (record d { seen = insert (compact_key oc) now d.seen }), true)
unfolding is_new cap_size
is_new_unseen oc now d distinct room unseen =
    let d' : Deduplicator = record d { seen = insert (compact_key oc) now d.seen } in
    let (short, _) = count_call_seen now d' (insert-IsMap (compact_key oc) now d.seen distinct) in
    rw (unseen, judge) (ground (arith, short, length-insert (compact_key oc) now d.seen))

is_new_known :
    (oc : OutboundConn) (now : ℕ) (d : Deduplicator) (last : ℕ)
    → lookup (compact_key oc) d.seen ≡ some last
    → is_new oc now d ≡ (
        if ltb (last + d.ttl) now
        then (record d { seen = insert (compact_key oc) now d.seen }, true)
        else (d, false))
unfolding is_new judge
is_new_known oc now d last known = rw (known, judge)

length-is_new :
    (oc : OutboundConn) (now : ℕ) (d : Deduplicator)
    → IsMap d.seen
    → length d.seen + 1 < max_dedup_size
    → length (is_new oc now d).0.seen ≤ length d.seen + 1
length-is_new oc now d distinct room = elim (Option-cases (lookup (compact_key oc) d.seen)) [
  | inl unseen ↦
      let d' : Deduplicator = record d { seen = insert (compact_key oc) now d.seen } in
      let (short, _) = count_call_seen now d' (insert-IsMap (compact_key oc) now d.seen distinct) in
      rw (is_new_unseen oc now d distinct room unseen)
        (ground (arith, short, length-insert (compact_key oc) now d.seen))
  | inr (l, seen) ↦
      ground (arith, is_new_known oc now d l seen, length-insert (compact_key oc) now d.seen)
]

module _ (key : List ℕ) (t : ℕ) where
  count_call-Remembers :
      (now : ℕ) (d : Deduplicator)
      → IsMap d.seen
      → now ≤ t + d.ttl
      → Remembers key t d
      → Remembers key t (count_call now d) × ((count_call now d).ttl ≡ d.ttl)
  count_call-Remembers now d distinct early (last, known, recent) = (
    elim (count_call-cases now d) [
      | inl same ↦ (last, rw same known, recent)
      | inr pruned ↦ (
        last,
        rw pruned (
            unfold prune in
            ground (
              arith,
              lookup-retain (λ key last. not (ltb (last + d.ttl) now)) key d.seen distinct,
            )),
        recent,
      )
    ],
    ttl-count_call now d,
  )

  insert-Remembers :
      (k : List ℕ) (now : ℕ) (d : Deduplicator)
      → k ≢ key
      → Remembers key t d
      → Remembers key t (record d { seen = insert k now d.seen })
  insert-Remembers k now d other (last, known, recent) =
      (last, ground (arith, lookup-insert k key now d.seen, bytes_eq.eqb_iff k key), recent)

  is_new-Remembers :
      (oc : OutboundConn) (now : ℕ) (d : Deduplicator)
      → IsMap d.seen
      → length d.seen + 1 < max_dedup_size
      → now ≤ t + d.ttl
      → Remembers key t d
      → Remembers key t (is_new oc now d).0 × ((is_new oc now d).0.ttl ≡ d.ttl)
  is_new-Remembers oc now d distinct room early (last, known, recent) =
      elim (Option-cases (lookup (compact_key oc) d.seen)) [
        | inl unseen ↦ rw (is_new_unseen oc now d distinct room unseen) (
            count_call-Remembers now (record d { seen = insert (compact_key oc) now d.seen })
              (insert-IsMap (compact_key oc) now d.seen distinct) early
              (insert-Remembers (compact_key oc) now d (λ e. ground arith) (last, known, recent)))
        | inr (l, seen) ↦ elim (Bool-cases (ltb (l + d.ttl) now)) [
          | inl expired ↦
              rw (is_new_known oc now d l seen, expired)
                (
                  insert-Remembers (compact_key oc) now d (λ e. ground arith) (last, known, recent),
                  refl,
                )
          | inr fresh ↦ rw (is_new_known oc now d l seen, fresh) ((last, known, recent), refl)
        ]
      ]

  feed-Remembers :
      (calls : List (OutboundConn × ℕ)) (d : Deduplicator)
      → IsSound d
      → length d.seen + length calls < max_dedup_size
      → All (λ c. c.1 ≤ t + d.ttl) calls
      → Remembers key t d
      → Remembers key t (feed calls d) × ((feed calls d).ttl ≡ d.ttl)
  unfolding feed
  feed-Remembers [] d sound room early h = (h, refl)
  feed-Remembers ((oc, now) ∷ rest) d sound room early h =
      let (h', same) = is_new-Remembers oc now d sound.distinct (omega arith) early.0 h in
      let (h'', same') =
        feed-Remembers rest (is_new oc now d).0 (is_new-IsSound oc now d sound)
          (omega (arith, length-is_new oc now d sound.distinct)) (rw same early.1) h' in
      (h'', same' ∙ same)

  not-is_new :
      (oc : OutboundConn) (now : ℕ) (d : Deduplicator)
      → compact_key oc ≡ key
      → now ≤ t + d.ttl
      → Remembers key t d
      → (is_new oc now d) ≡ (d, false)
  not-is_new oc now d same early (last, known, recent) =
      let seen : lookup (compact_key oc) d.seen ≡ some last = rw same known in
      ground (arith, is_new_known oc now d last seen)

reported-Remembers :
    (oc : OutboundConn) (now : ℕ) (d : Deduplicator)
    → IsMap d.seen
    → length d.seen + 1 < max_dedup_size
    → (is_new oc now d).1 ≡ true
    → Remembers (compact_key oc) now (is_new oc now d).0 × ((is_new oc now d).0.ttl ≡ d.ttl)
reported-Remembers oc now d distinct room reported =
    elim (Option-cases (lookup (compact_key oc) d.seen)) [
      | inl unseen ↦ rw (is_new_unseen oc now d distinct room unseen) (
          count_call-Remembers (compact_key oc) now now
            (record d { seen = insert (compact_key oc) now d.seen })
            (insert-IsMap (compact_key oc) now d.seen distinct) (omega arith)
            (now, lookup-insert_self (compact_key oc) now d.seen, omega arith))
      | inr (l, seen) ↦ elim (Bool-cases (ltb (l + d.ttl) now)) [
        | inl expired ↦
            rw (is_new_known oc now d l seen, expired)
              ((now, lookup-insert_self (compact_key oc) now d.seen, omega arith), refl)
        | inr fresh ↦ absurd (ground (arith, is_new_known oc now d l seen))
      ]
    ]

-- After a connection is reported as new, it is not reported again within `ttl`, whatever other
-- connections are seen in between, as long as the table has room for them.
pub no_repeat_within_ttl :
    (oc : OutboundConn) (now : ℕ) (d : Deduplicator) (calls : List (OutboundConn × ℕ)) (later : ℕ)
    → IsSound d
    → length d.seen + 1 + length calls < max_dedup_size
    → (is_new oc now d).1 ≡ true
    → All (λ c. c.1 ≤ now + d.ttl) calls
    → later ≤ now + d.ttl
    → (is_new oc later (feed calls (is_new oc now d).0)).1 ≡ false
no_repeat_within_ttl oc now d calls later sound room reported early late =
    let (h, same) = reported-Remembers oc now d sound.distinct (omega arith) reported in
    let d' = (is_new oc now d).0 in
    let (h', same') =
      feed-Remembers (compact_key oc) now calls d' (is_new-IsSound oc now d sound)
        (omega (arith, length-is_new oc now d sound.distinct)) (rw same early) h in
    ap (λ r. r.1)
      (not-is_new (compact_key oc) now oc later (feed calls d') refl (rw (same', same) late) h')

-- The sightings of one connection.
abbrev pub sightings : OutboundConn → List ℕ → List (OutboundConn × ℕ)
sightings oc [] = []
sightings oc (now ∷ rest) = (oc, now) ∷ sightings oc rest

feed-sightings :
    (oc : OutboundConn) (t : ℕ) (times : List ℕ) (d : Deduplicator)
    → lookup (compact_key oc) d.seen ≡ some t
    → All (λ s. s ≤ t + d.ttl) times
    → feed (sightings oc times) d ≡ d
unfolding feed
feed-sightings oc t [] d known early = refl
feed-sightings oc t (s ∷ rest) d known (now, early) =
    ap (λ r. feed (sightings oc rest) r.0)
      (not-is_new (compact_key oc) t oc s d refl now (t, known, omega arith))
    ∙ feed-sightings oc t rest d known early

-- A sighting does not refresh the time of an entry: a connection recorded at `t` that is sighted
-- all the way to `t + ttl` is reported as new by the first call after that.
repeat_after_ttl :
    (oc : OutboundConn) (t : ℕ) (times : List ℕ) (later : ℕ) (d : Deduplicator)
    → lookup (compact_key oc) d.seen ≡ some t
    → All (λ s. s ≤ t + d.ttl) times
    → t + d.ttl < later
    → (is_new oc later (feed (sightings oc times) d)).1 ≡ true
repeat_after_ttl oc t times later d known early late =
    rw (feed-sightings oc t times d known early) (ground (arith, is_new_known oc later d t known))
