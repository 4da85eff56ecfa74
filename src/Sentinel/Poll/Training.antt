-- ===== src/Sentinel/Poll/Training.antt =====
-- A poll in the TRAINING phase, before `NewScorer` has run.
use angellab.Prelude.{
  ap, ◌∙◌, ℕ, ◌≡◌, refl, ap, ◌∙◌, Bool, true, false, not, ◌&&◌, ◌||◌, Option, none, some, List, [],
  ◌∷◌, arith, Bool-cases, inl, inr, if◌then◌else◌,
}
use angellab.Net.{is_loopback}
use angellab.Linux.NetConn.{NetConn, InodeMap, is_outbound, is_established}
use angellab.Sentinel.Dedup.{Deduplicator, is_new}
use angellab.Sentinel.Poll.{
  Sentinel, Polling, call_score, settle, poll_fresh, poll_conn, poll_conns, poll, finish,
  outbound_conn, ◌>>=◌,
}

abbrev pub is_none {ℓ} : {A : Type ℓ} → Option A → Bool
is_none none = true
is_none (some a) = false

-- a socket that the angel looks at
abbrev is_watched : NetConn → Bool
is_watched c = is_outbound c && is_established c

-- a connection that the deduplicator lets through, to another host
abbrev is_hit : ℕ → NetConn → Deduplicator → Bool
is_hit now c d =
    is_watched c && ((is_new (outbound_conn c) now d).1 && not (is_loopback c.remote_ip))

-- what the deduplicator has seen after the socket
abbrev seen_after : ℕ → NetConn → Deduplicator → Deduplicator
seen_after now c d = if is_watched c then (is_new (outbound_conn c) now d).0 else d

-- whether one of the sockets is a new, established outbound connection to another host
abbrev pub reaches_scorer : ℕ → Deduplicator → List (NetConn × ℕ) → Bool
reaches_scorer now d [] = false
reaches_scorer now d ((c, t) ∷ rest) =
    is_hit now c d || reaches_scorer now (seen_after now c d) rest

module _ (inodes : InodeMap) (now : ℕ) where
  -- a socket that is survived
  abbrev Survives : NetConn → Polling → Option Polling → Type 0
  Survives c p r =
      (p' : Polling) × (r ≡ some p')
      × (p'.sentinel.scorer ≡ none)
      × (p'.sentinel.dedup ≡ seen_after now c p.sentinel.dedup)

  hit :
      (c : NetConn) (t : ℕ) (p : Polling)
      → p.sentinel.scorer ≡ none
      → is_hit now c p.sentinel.dedup ≡ true
      → poll_conn inodes now (c, t) p ≡ none
  unfolding poll_conn poll_fresh call_score
  hit c t p nil struck = ground arith

  poll_fresh_local :
      (t : ℕ) (c : NetConn) (p : Polling)
      → p.sentinel.scorer ≡ none
      → is_loopback c.remote_ip ≡ true
      → (p' : Polling) × (poll_fresh inodes t (outbound_conn c) p ≡ some p')
        × (p'.sentinel.scorer ≡ none)
        × (p'.sentinel.dedup ≡ p.sentinel.dedup)
  unfolding poll_fresh call_score settle
  poll_fresh_local t c p nil inside = rw (nil, inside) (_, refl, refl, refl)

  miss :
      (c : NetConn) (t : ℕ) (p : Polling)
      → p.sentinel.scorer ≡ none
      → is_hit now c p.sentinel.dedup ≡ false
      → Survives c p (poll_conn inodes now (c, t) p)
  unfolding poll_conn
  miss c t p nil passed =
      let (dedup, fresh) = is_new (outbound_conn c) now p.sentinel.dedup in
      let p1 : Polling = record p { sentinel = record p.sentinel { dedup = dedup } } in
      elim (Bool-cases (is_watched c)) [
        | inr other ↦
            let shut : (not (is_outbound c) || not (is_established c)) ≡ true = ground arith in
            rw (shut, other) (p, refl, nil, refl)
        | inl watched ↦
            let open_to : (not (is_outbound c) || not (is_established c)) ≡ false = ground arith in
            elim (Bool-cases fresh) [
              | inr known ↦ rw (open_to, known, watched) (p1, refl, nil, refl)
              | inl new ↦
                  let inside : is_loopback c.remote_ip ≡ true = ground (arith, passed) in
                  let (p', ends, nil', kept) = poll_fresh_local t c p1 nil inside in
                  rw (open_to, new, watched) (p', ends, nil', kept)
            ]
      ]

  poll_conns-none :
      (raw : List (NetConn × ℕ)) (p : Polling)
      → p.sentinel.scorer ≡ none
      → is_none (poll_conns inodes now raw p) ≡ reaches_scorer now p.sentinel.dedup raw
  unfolding poll_conns
  poll_conns-none [] p nil = refl
  poll_conns-none ((c, t) ∷ rest) p nil = elim (Bool-cases (is_hit now c p.sentinel.dedup)) [
    | inl struck ↦ rw (hit c t p nil struck, struck) refl
    | inr passed ↦
        let (p', ends, nil', dedup) = miss c t p nil passed in
        rw (ends, passed) (poll_conns-none rest p' nil' ∙ ap (λ d. reaches_scorer now d rest) dedup)
  ]

is_none-map :
    {A B : Type 0} (f : A → B) (o : Option A) → is_none (o >>= λ a. some (f a)) ≡ is_none o
is_none-map f none = refl
is_none-map f (some a) = refl

-- A poll without a scorer, as all are before the training window ends, crashes exactly when one of its
-- sockets is an established outbound connection to an address outside the loopback range that the
-- deduplicator takes for new, whatever the sockets before it are.
pub training_poll_crashes :
    (s : Sentinel) (inodes : InodeMap) (now : ℕ) (raw : List (NetConn × ℕ))
    → s.scorer ≡ none
    → is_none (poll inodes now raw s) ≡ reaches_scorer now s.dedup raw
unfolding poll
training_poll_crashes s inodes now raw nil =
    let p : Polling = record { sentinel = s; count = 0; training_batch = []; sent = [] } in
    is_none-map finish (poll_conns inodes now raw p) ∙ poll_conns-none inodes now raw p nil
