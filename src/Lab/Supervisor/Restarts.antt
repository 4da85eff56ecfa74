-- ===== src/Lab/Supervisor/Restarts.antt =====
-- How often the goroutine of an angel starts a process.
use angellab.Prelude.{
  ap, ℕ, suc, ◌+◌, ◌-◌, ◌≤◌, ◌<◌, ◌≡◌, refl, max, Bool, true, Option, some, List, [], ◌∷◌, ◌++◌,
  arith, All, Bool-cases, inl, inr, leb, bytes_eq,
}
use angellab.Registry.{
  AngelId, Angel, Registry, count_of, find, update, get_angel, update_state, update_pid,
  touch_last_seen, increment_restarts, state_contained, state_active, state_unstable,
  state_training, state_terminated,
}
use angellab.Registry.Recovery.{find-update}
use angellab.Lab.Supervisor.{
  Env, Effect, started, sigterm, sigkill, asked_to_stop, register_conn, handle_heartbeat,
  mark_conn_lost, check_heartbeat, terminate_angel, on_expired, ask, reset_conn,
}
use angellab.Lab.Supervisor.Worker.{
  World, Stage, starting, running, exited, settling, deciding, backing_off, stopped, Op, Limits,
  decide, worker, step, run, expire,
}

-- the row's restart counter
abbrev pub counter : AngelId → Registry → Option ℕ
counter id r = count_of (get_angel id r)

-- the processes among the effects
abbrev pub starts : List Effect → ℕ
starts [] = 0
starts (started pid ∷ rest) = suc (starts rest)
starts (_ ∷ rest) = starts rest

starts-append : (xs ys : List Effect) → starts (xs ++ ys) ≡ starts xs + starts ys
starts-append [] ys = omega arith
starts-append (started pid ∷ xs) ys = omega (arith, starts-append xs ys)
starts-append (sigterm pid ∷ xs) ys = starts-append xs ys
starts-append (sigkill pid ∷ xs) ys = starts-append xs ys
starts-append (asked_to_stop c ∷ xs) ys = starts-append xs ys

count-update :
    (f : Angel → Angel) (id other : AngelId) (rows : List Angel)
    → ((a : Angel) → (f a).id ≡ a.id)
    → ((a : Angel) → (f a).restart_count ≡ a.restart_count)
    → count_of (find other (update f id rows)) ≡ count_of (find other rows)
count-update f id other [] ids counts = refl
count-update f id other (a ∷ rest) ids counts =
    ground (arith, ids a, counts a, count-update f id other rest ids counts)

counter-update_state :
    (ok : Bool) (now : ℕ) (id other : AngelId) (s : _) (r : Registry)
    → counter other (update_state ok now id s r) ≡ counter other r
unfolding update_state get_angel
counter-update_state ok now id other s r = ground (
  arith,
  count-update (λ a. record a { state = s; updated_at = now }) id other r.angels (λ a. refl)
      (λ a. refl),
)

counter-update_pid :
    (ok : Bool) (now : ℕ) (id other : AngelId) (pid : ℕ) (r : Registry)
    → counter other (update_pid ok now id pid r) ≡ counter other r
unfolding update_pid get_angel
counter-update_pid ok now id other pid r = ground (
  arith,
  count-update (λ a. record a { pid = pid; updated_at = now }) id other r.angels (λ a. refl)
      (λ a. refl),
)

counter-touch_last_seen :
    (ok : Bool) (now : ℕ) (id other : AngelId) (r : Registry)
    → counter other (touch_last_seen ok now id r) ≡ counter other r
unfolding touch_last_seen get_angel
counter-touch_last_seen ok now id other r = ground (
  arith,
  count-update (λ a. record a { last_seen = some now; updated_at = now }) id other r.angels
      (λ a. refl) (λ a. refl),
)

counter-increment_restarts :
    (now : ℕ) (id : AngelId) (r : Registry) (c : ℕ)
    → counter id r ≡ some c
    → ((increment_restarts true true now id r).1 ≡ some (c + 1))
      × (counter id (increment_restarts true true now id r).0 ≡ some (c + 1))
unfolding increment_restarts get_angel
counter-increment_restarts now id r c h = ground (
  arith,
  bytes_eq.eqb_iff id id,
  find-update (λ a. record a { restart_count = a.restart_count + 1; updated_at = now }) id id
      r.angels (λ a. refl),
)

-- how many processes the goroutine can still start
abbrev pub left : ℕ → Stage → ℕ → ℕ
left limit starting c = max 1 (limit - c)
left limit running c = limit - c - 1
left limit exited c = limit - c - 1
left limit settling c = limit - c - 1
left limit deciding c = limit - c - 1
left limit backing_off c = limit - c
left limit stopped c = 0

-- the goroutine waits for a restart only below the limit
abbrev pub IsAllowed : ℕ → Stage → ℕ → Type 0
IsAllowed limit backing_off c = c < limit
IsAllowed limit _ c = Unit

-- what holds between two steps when the counter stands at `c`
record Counts (limit : ℕ) (w : World) (c : ℕ) : Type 0 where
  counted : counter w.entry.id w.reg ≡ some c
  allowed : IsAllowed limit w.stage c

-- what one step comes to
abbrev Advances : ℕ → World → ℕ → World × List Effect → Type 0
Advances limit w c (w', effects) =
    (c' : ℕ) × Counts limit w' c' × (starts effects + left limit w'.stage c' ≤ left limit w.stage c)

module _ (limits : Limits) (env : Env) (ok : (k : ℕ) → env.db k ≡ true) where
  decide-Advances :
      (w : World) (c : ℕ)
      → counter w.entry.id w.reg ≡ some c
      → Advances limits.max_restarts (record w { stage = deciding }) c (decide limits env w, [])
  unfolding decide
  decide-Advances w c h =
      let (answer, counted) = counter-increment_restarts w.now w.entry.id w.reg c h in
      let reg = (increment_restarts true true w.now w.entry.id w.reg).0 in
      elim (Bool-cases (leb limits.max_restarts (c + 1))) [
        | inl reached ↦
            rw (ok 0, ok 1, answer, reached)
              (
                c + 1,
                record {
                  counted =
                      rw
                        (counter-update_state (env.db 2) w.now w.entry.id w.entry.id state_contained
                          reg)
                        counted;
                  allowed = tt;
                },
                omega arith,
              )
        | inr below ↦
            rw (ok 0, ok 1, answer, below)
              (c + 1, record { counted = counted; allowed = ground arith }, omega arith)
      ]

  worker-Advances :
      (op : Op) (s : Stage) (w : World) (c : ℕ)
      → Counts limits.max_restarts (record w { stage = s }) c
      → Advances limits.max_restarts
          (record w { stage = s })
          c
          (worker limits env op s (record w { stage = s }))
  unfolding worker
  worker-Advances (Op.start_succeeds pid) starting w c h = (
    c,
    record { counted = rw (counter-update_pid, counter-update_state) h.counted; allowed = tt },
    omega arith,
  )
  worker-Advances Op.start_fails starting w c h =
      (c, record { counted = rw (counter-update_state) h.counted; allowed = tt }, omega arith)
  worker-Advances Op.exits running w c h =
      (c, record { counted = h.counted; allowed = tt }, omega arith)
  worker-Advances Op.inspects exited w c h =
      (c, record { counted = h.counted; allowed = ground arith }, ground arith)
  worker-Advances Op.waited settling w c h =
      (c, record { counted = h.counted; allowed = tt }, omega arith)
  worker-Advances Op.cancelled settling w c h =
      (c, record { counted = rw (counter-update_state) h.counted; allowed = tt }, omega arith)
  worker-Advances Op.decides deciding w c h =
      decide-Advances (record w { stage = deciding }) c h.counted
  worker-Advances Op.backoff_over backing_off w c h = (
    c,
    record { counted = unfold reset_conn in h.counted; allowed = tt },
    omega (arith, h.allowed),
  )
  worker-Advances Op.cancelled backing_off w c h =
      (c, record { counted = rw (counter-update_state) h.counted; allowed = tt }, omega arith)
  worker-Advances op s w c h = (c, h, omega arith)

  -- what another goroutine does leaves the budget alone
  others :
      (w : World) (c : ℕ) (r : World × List Effect)
      → Counts limits.max_restarts w c
      → r.0.stage ≡ w.stage
      → counter r.0.entry.id r.0.reg ≡ counter w.entry.id w.reg
      → starts r.1 ≡ 0
      → Advances limits.max_restarts w c r
  others w c r h stage same none_started = (
    c,
    record { counted = cc; allowed = rw stage h.allowed },
    rw (stage, none_started) (omega arith),
  )

  starts-on_expired : (e : _) → starts (on_expired env e) ≡ 0
  unfolding on_expired
  starts-on_expired e = ground arith

  starts-terminate : (w : World) → starts (terminate_angel env w.now w.entry w.reg).1 ≡ 0
  unfolding terminate_angel
  starts-terminate w = ground (arith, starts-append (ask w.entry.conn))

  counter-handle_heartbeat :
      (hb : _) (w : World)
      → let (e, r) = handle_heartbeat env w.now hb w.entry w.reg in
        counter e.id r ≡ counter w.entry.id w.reg
  unfolding handle_heartbeat
  counter-handle_heartbeat hb w = ground (
    arith,
    counter-touch_last_seen (env.db 0) w.now w.entry.id w.entry.id w.reg,
    counter-update_state (env.db 1) w.now w.entry.id w.entry.id state_active
        (touch_last_seen (env.db 0) w.now w.entry.id w.reg),
  )

  counter-check_heartbeat :
      (t : ℕ) (w : World)
      → let (e, r) = check_heartbeat env t w.now w.entry w.reg in
        counter e.id r ≡ counter w.entry.id w.reg
  unfolding check_heartbeat
  counter-check_heartbeat t w =
      ground
        (arith, counter-update_state (env.db 0) w.now w.entry.id w.entry.id state_unstable w.reg)

  starts-expire : (k : ℕ) (w : World) → starts (expire env k w).1 ≡ 0
  unfolding expire
  starts-expire k w = ground (arith, starts-on_expired w.entry)

  step-Advances :
      (op : Op) (w : World) (c : ℕ)
      → Counts limits.max_restarts w c
      → Advances limits.max_restarts w c (step limits env op w)
  unfolding step register_conn mark_conn_lost
  step-Advances (Op.registers conn) w c h =
      others w c (step limits env (Op.registers conn) w) h refl
        (counter-update_state (env.db 0) w.now w.entry.id w.entry.id state_training w.reg) refl
  step-Advances (Op.heartbeat hb) w c h =
      others w c (step limits env (Op.heartbeat hb) w) h refl (counter-handle_heartbeat hb w) refl
  step-Advances Op.drops w c h = others w c (step limits env Op.drops w) h refl refl refl
  step-Advances Op.checks w c h =
      others w c (step limits env Op.checks w) h refl
        (counter-check_heartbeat limits.heartbeat_timeout w) refl
  step-Advances Op.terminates w c h =
      others w c (step limits env Op.terminates w) h refl
        (unfold terminate_angel in
          counter-update_state (env.db 0) w.now w.entry.id w.entry.id state_terminated w.reg)
        (starts-terminate w)
  step-Advances (Op.tick d) w c h = others w c (step limits env (Op.tick d) w) h refl refl refl
  step-Advances (Op.due k) w c h = others w c (step limits env (Op.due k) w) h refl refl refl
  step-Advances (Op.callback k) w c h =
      others w c (expire env k w) h (unfold expire in refl) (unfold expire in refl)
        (starts-expire k w)
  step-Advances op w c h = worker-Advances op w.stage w c h

-- every SQL statement of the run succeeds
abbrev pub AllSucceed : Op × Env → Type 0
AllSucceed (op, env) = (k : ℕ) → env.db k ≡ true

run-Advances :
    (limits : Limits) (ops : List (Op × Env)) (w : World) (c : ℕ)
    → All AllSucceed ops
    → Counts limits.max_restarts w c
    → starts (run limits ops w).1 ≤ left limits.max_restarts w.stage c
unfolding run
run-Advances limits [] w c ok h = omega arith
run-Advances limits ((op, env) ∷ rest) w c (ok, oks) h =
    let (c', h', le) = step-Advances limits env ok op w c h in
    let (w', effects) = step limits env op w in
    omega (
      arith,
      le,
      run-Advances limits rest w' c' oks h',
      starts-append effects (run limits rest w').1,
    )

-- However the angel crashes, registers, drops or is terminated, its goroutine starts a process at
-- most as often as restarts are left in the registry, and once at least, when every SQL statement
-- succeeds.
pub starts_bounded :
    (limits : Limits) (ops : List (Op × Env)) (w : World) (a : Angel)
    → All AllSucceed ops
    → w.stage ≡ starting
    → get_angel w.entry.id w.reg ≡ some a
    → starts (run limits ops w).1 ≤ max 1 (limits.max_restarts - a.restart_count)
starts_bounded limits ops w a oks fresh row =
    let h =
      run-Advances limits ops w a.restart_count oks
        (record { counted = rw row refl; allowed = rw fresh tt }) in
    omega (arith, ap (λ s. left limits.max_restarts s a.restart_count) fresh, h)
