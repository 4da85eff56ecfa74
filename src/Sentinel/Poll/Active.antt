-- ===== src/Sentinel/Poll/Active.antt =====
-- A poll in the ACTIVE phase: it always ends, leaves the model alone, and accounts for its alerts.
use angellab.Prelude.{
  ap, sym, ◌∙◌, inr, inl, ℕ, ◌+◌, ◌≤◌, ◌≡◌, ◌≢◌, refl, true, false, not, ◌||◌, some, List, [], ◌∷◌,
  arith, length, All, All-append, length-append, Bool-cases,
}
use angellab.Linux.NetConn.{NetConn, InodeMap, is_outbound, is_established}
use angellab.Sentinel.Baseline.{OutboundConn}
use angellab.Sentinel.Dedup.{is_new}
use angellab.Sentinel.Scorer.{Scorer, AnomalyScore, score_ok, level}
use angellab.Sentinel.Poll.{
  score, Sentinel, Polling, Alert, active, is_ok, call_score, settle, poll_fresh, poll_conn,
  poll_conns, poll, finish, ◌>>=◌, outbound_conn,
}

-- what holds between two rounds of the loop of a poll that began in `s`
record Tracks (s : Sentinel) (sc : Scorer) (p : Polling) : Type 0 where
  phase_kept : p.sentinel.phase ≡ active
  scorer_kept : p.sentinel.scorer ≡ some sc
  baseline_kept : p.sentinel.baseline ≡ s.baseline
  counted : p.sentinel.total_events_emitted ≡ s.total_events_emitted + length p.sent
  few : length p.sent ≤ p.count
  serious : All (λ a. level a.total ≢ score_ok) p.sent

module _ (s : Sentinel) (sc : Scorer) (inodes : InodeMap) where
  is_ok-false :
      (score : AnomalyScore) → is_ok (level score.total) ≡ false → level score.total ≢ score_ok
  is_ok-false score h = ground arith

  settle-Tracks :
      (oc : OutboundConn) (score : AnomalyScore) (p : Polling)
      → Tracks s sc (record p { count = p.count })
      → length p.sent + 1 ≤ p.count
      → Tracks s sc (settle inodes oc score p)
  unfolding settle
  settle-Tracks oc score p h room = elim (Bool-cases (is_ok (level score.total))) [
    | inl quiet ↦ rw quiet (record {
      phase_kept = h.phase_kept;
      scorer_kept = h.scorer_kept;
      baseline_kept = h.baseline_kept;
      counted = h.counted;
      few = h.few;
      serious = h.serious;
    })
    | inr loud ↦ rw loud (record {
      phase_kept = h.phase_kept;
      scorer_kept = h.scorer_kept;
      baseline_kept = h.baseline_kept;
      counted = omega (arith, h.counted, length-append p.sent);
      few = omega (arith, room, length-append p.sent);
      serious = All-append _ p.sent _ h.serious (is_ok-false score loud, tt);
    })
  ]

  scored :
      (t : ℕ) (oc : OutboundConn) (p : Polling) (n : ℕ)
      → p.sentinel.scorer ≡ some sc
      → call_score p.sentinel.scorer p.sentinel.baseline p.sentinel.rate_track t oc n
        ≡ some (score sc p.sentinel.baseline p.sentinel.rate_track t oc true n)
  unfolding call_score
  scored t oc p n kept =
      ap (λ o. call_score o p.sentinel.baseline p.sentinel.rate_track t oc n) kept

  poll_fresh-Tracks :
      (t : ℕ) (oc : OutboundConn) (p : Polling)
      → Tracks s sc p
      → (p' : Polling) × (poll_fresh inodes t oc p ≡ some p') × Tracks s sc p'
  unfolding poll_fresh
  poll_fresh-Tracks t oc p h =
      let (a, rate) = score sc p.sentinel.baseline p.sentinel.rate_track t oc true (p.count + 1) in
      let p' : Polling = record p {
        sentinel = record p.sentinel { rate_track = rate };
        count = p.count + 1;
      } in
      (
        settle inodes oc a p',
        ap
            (λ r. r >>= λ x. some (
              settle inodes oc x.0 (record p {
                sentinel = record p.sentinel { rate_track = x.1 };
                count = p.count + 1;
              })))
            (scored t oc p (p.count + 1) h.scorer_kept),
        settle-Tracks oc a p'
            (record {
              phase_kept = h.phase_kept;
              scorer_kept = h.scorer_kept;
              baseline_kept = h.baseline_kept;
              counted = h.counted;
              few = omega (arith, h.few);
              serious = h.serious;
            })
            (omega (arith, h.few)),
      )

  poll_conn-Tracks :
      (now : ℕ) (c : NetConn × ℕ) (p : Polling)
      → Tracks s sc p
      → (p' : Polling) × (poll_conn inodes now c p ≡ some p') × Tracks s sc p'
  unfolding poll_conn
  poll_conn-Tracks now (c, t) p h =
      let d' = is_new (outbound_conn c) now p.sentinel.dedup in
      let p' : Polling = record p { sentinel = record p.sentinel { dedup = d'.0 } } in
      let h' : Tracks s sc p' = record {
        phase_kept = h.phase_kept;
        scorer_kept = h.scorer_kept;
        baseline_kept = h.baseline_kept;
        counted = h.counted;
        few = h.few;
        serious = h.serious;
      } in
      elim (Bool-cases (not (is_outbound c) || not (is_established c))) [
        | inl other ↦ (p, rw other, h)
        | inr ours ↦ elim (Bool-cases d'.1) [
          | inl fresh ↦
              let (p'', e, h'') = poll_fresh-Tracks t (outbound_conn c) p' h' in
              (p'', rw (ours, fresh) e, h'')
          | inr known ↦ (p', rw (ours, known), h')
        ]
      ]

  poll_conns-Tracks :
      (now : ℕ) (raw : List (NetConn × ℕ)) (p : Polling)
      → Tracks s sc p
      → (p' : Polling) × (poll_conns inodes now raw p ≡ some p') × Tracks s sc p'
  unfolding poll_conns
  poll_conns-Tracks now [] p h = (p, refl, h)
  poll_conns-Tracks now (c ∷ cs) p h =
      let (p', e, h') = poll_conn-Tracks now c p h in
      let (p'', e', h'') = poll_conns-Tracks now cs p' h' in (p'', rw e e', h'')

-- What a poll that began in `s` and ended in `r` with the alerts `sent` has done.
pub record Polled (s r : Sentinel) (sent : List Alert) : Type 0 where
  pub phase_kept : r.phase ≡ active
  pub scorer_kept : r.scorer ≡ s.scorer
  pub baseline_kept : r.baseline ≡ s.baseline
  pub counted : r.total_events_emitted ≡ s.total_events_emitted + length sent
  pub few : length sent ≤ r.last_poll_count
  pub serious : All (λ a. level a.total ≢ score_ok) sent

-- In the ACTIVE phase with a scorer every poll ends normally, whatever the sockets: the phase, the
-- scorer and the model stay, every alert has a score at or above the warning level, there is at most
-- one alert for each new connection, and the counter grows by the number of alerts.
pub active_poll :
    (s : Sentinel) (sc : Scorer) (inodes : InodeMap) (now : ℕ) (raw : List (NetConn × ℕ))
    → s.phase ≡ active
    → s.scorer ≡ some sc
    → (r : Sentinel) × (sent : List Alert) × (poll inodes now raw s ≡ some (r, sent))
      × Polled s r sent
unfolding poll finish
active_poll s sc inodes now raw is_active has_scorer =
    let p : Polling = record { sentinel = s; count = 0; training_batch = []; sent = [] } in
    let (p', e, h) = poll_conns-Tracks s sc inodes now raw p (record {
      phase_kept = is_active;
      scorer_kept = has_scorer;
      baseline_kept = refl;
      counted = omega arith;
      few = omega arith;
      serious = tt;
    }) in
    (
      (finish p').0,
      (finish p').1,
      rw e,
      record {
        phase_kept = h.phase_kept;
        scorer_kept = h.scorer_kept ∙ sym has_scorer;
        baseline_kept = ground (arith, h.phase_kept, h.baseline_kept);
        counted = h.counted;
        few = h.few;
        serious = h.serious;
      },
    )
