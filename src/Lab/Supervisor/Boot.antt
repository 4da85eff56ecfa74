-- ===== src/Lab/Supervisor/Boot.antt =====
-- What spawning and the boot recovery leave behind.
use angellab.Prelude.{
  ℕ, ◌≡◌, ◌≢◌, refl, ap, sym, ◌∙◌, Bool, true, false, some, List, [], ◌∷◌, String, arith,
  if◌then◌else◌, bytes_eq, string_eq, ◌==◌, All, All-append,
}
use mathlib.Core.Path.{subst}
use angellab.Prelude.Map.{Map, lookup, has}
use angellab.Prelude.Map.Laws.{lookup-insert, lookup-insert_self, lookup-insert_ne}
use angellab.Lab.Conn.{connecting, transition, valid_transition}
use angellab.Registry.{AngelId, Angel, list_recoverable, mark_stale}
use angellab.Lab.Supervisor.{AngelConfig, Env, Effect, sigkill, verify_angel_pid}
use angellab.Lab.Supervisor.Worker.{starting}
use angellab.Lab.Supervisor.Ids.{generate_id-free}
use angellab.Lab.Supervisor.Table.{
  entered, spawn_as, Codec, Lane, Supervisor, new_entry, or_generated, enter, spawn_angel,
  stored_config, kill_stale, recover_each, boot_recovery,
}

-- An angel of the table whose goroutine is about to start it with this configuration text.
pub record IsSpawned (id : AngelId) (kind config : String) (angels : Map AngelId Lane)
    : Type 0 where
  pub lane : Lane
  pub found : lookup id angels ≡ some lane
  pub waits : lane.stage ≡ starting
  pub link_fresh : lane.entry.link.tracker.state ≡ connecting
  pub has_kind : lane.entry.angel_type ≡ kind
  pub has_config : lane.entry.config_json ≡ config

enter-IsSpawned :
    (env : Env) (now : ℕ) (cfg : AngelConfig) (config : String) (s : Supervisor)
    → IsSpawned cfg.id cfg.kind config (enter env now cfg config s).angels
unfolding enter transition valid_transition
enter-IsSpawned env now cfg config s = record {
  lane = record { stage = starting; entry = new_entry cfg.id cfg.kind config };
  found = lookup-insert_self cfg.id _ s.angels;
  waits = refl;
  link_fresh = refl;
  has_kind = refl;
  has_config = refl;
}

-- Without an id `SpawnAngel` takes one that no angel has: every angel of the table stays, and the new
-- one is about to be started with its own id in the text of its configuration.
spawn_generated :
    (codec : Codec) (env : Env) (now : ℕ) (cfg : AngelConfig) (s : Supervisor)
    (text : AngelId → String)
    → cfg.id ≡ []
    → ((id : AngelId) → codec.marshal (record cfg { id = id }) ≡ some (text id))
    → (id : AngelId) × (r : Supervisor) × (spawn_angel codec env now cfg s
        ≡ (r, some (record cfg { id = id })))
      × (has id s.angels ≡ false)
      × IsSpawned id cfg.kind (text id) r.angels
      × ((other : AngelId)
          → lookup other r.angels
            ≡ (if id == other then lookup id r.angels else lookup other s.angels))
unfolding spawn_angel
spawn_generated codec env now cfg s text unnamed encodes =
    let (id, generated, free) = generate_id-free s.angels in
    let cfg' : AngelConfig = record cfg { id = id } in
    (
      id,
      enter env now cfg' (text id) s,
      ap (spawn_as codec env now cfg s) (ap (λ i. or_generated i s.angels) unnamed ∙ generated)
          ∙ ap (entered env now cfg' s) (encodes id),
      free,
      enter-IsSpawned env now cfg' (text id) s,
      λ other.
          unfold enter in
          ground (
            arith,
            lookup-insert id other
                (record { stage = starting; entry = new_entry id cfg.kind (text id) }) s.angels,
            bytes_eq.eqb_iff id other,
            lookup-insert_self id
                (record { stage = starting; entry = new_entry id cfg.kind (text id) }) s.angels,
          ),
    )

-- Every signal of the boot recovery goes to a process whose command line has been checked.
abbrev pub is_verified_kill : Env → Effect → Bool
is_verified_kill env (sigkill pid) = verify_angel_pid env.cmdline pid
is_verified_kill env _ = false

abbrev pub IsVerified : Env → Effect → Type 0
IsVerified env e = is_verified_kill env e ≡ true

kills : (env : Env) (a : Angel) → All (IsVerified env) (kill_stale env a)
unfolding kill_stale
kills env a = ground arith

-- A row whose configuration reads back as one of its own id and kind, and can be written again.
abbrev pub IsReadable : Codec → Angel → Type 0
IsReadable codec a =
    let cfg = stored_config codec a in
    (cfg.id ≡ a.id)
    × (cfg.kind ≡ a.angel_type)
    × (a.id ≢ [])
    × (codec.marshal cfg ≡ some a.config_json)

-- No id stands twice.
abbrev pub AreDistinct : List Angel → Type 0
AreDistinct [] = Unit
AreDistinct (a ∷ rest) = All (λ b. b.id ≢ a.id) rest × AreDistinct rest

or_generated-named :
    (id : AngelId) (angels : Map AngelId Lane) → id ≢ [] → or_generated id angels ≡ some id
or_generated-named [] angels named = absurd (named refl)
or_generated-named (c ∷ cs) angels named = refl

module _ (codec : Codec) (env : Env) (now : ℕ) where
  spawn_named :
      (cfg : AngelConfig) (s : Supervisor) (text : String)
      → cfg.id ≢ []
      → codec.marshal cfg ≡ some text
      → spawn_angel codec env now cfg s ≡ (enter env now cfg text s, some cfg)
  unfolding spawn_angel
  spawn_named cfg s text named encodes =
      ap (spawn_as codec env now cfg s) (or_generated-named cfg.id s.angels named)
      ∙ ap (entered env now cfg s) encodes

  respawn-IsSpawned :
      (a : Angel) (s : Supervisor)
      → IsReadable codec a
      → IsSpawned a.id a.angel_type a.config_json
          (spawn_angel codec env now (stored_config codec a) s).0.angels
  respawn-IsSpawned a s (same_id, same_kind, named, text) =
      let cfg = stored_config codec a in
      rw (spawn_named cfg s a.config_json (λ e. named (sym same_id ∙ e)) text) (
        subst
          (λ i. IsSpawned i a.angel_type a.config_json (enter env now cfg a.config_json s).angels)
          same_id
          (subst (λ k. IsSpawned cfg.id k a.config_json (enter env now cfg a.config_json s).angels)
            same_kind (enter-IsSpawned env now cfg a.config_json s)))

  -- a later respawn of another angel leaves it alone
  respawn_other :
      (a : Angel) (s : Supervisor) (id : AngelId) (kind config : String)
      → IsReadable codec a
      → a.id ≢ id
      → IsSpawned id kind config s.angels
      → IsSpawned id kind config (spawn_angel codec env now (stored_config codec a) s).0.angels
  respawn_other a s id kind config (same_id, same_kind, named, text) other h =
      let cfg = stored_config codec a in
      rw (spawn_named cfg s a.config_json (λ e. named (sym same_id ∙ e)) text) (record {
        lane = h.lane;
        found =
            unfold enter in
            (lookup-insert_ne cfg.id id _ s.angels (λ e. other (sym same_id ∙ e)) ∙ h.found);
        waits = h.waits;
        link_fresh = h.link_fresh;
        has_kind = h.has_kind;
        has_config = h.has_config;
      })

  recover-keeps :
      (rows : List Angel) (s : Supervisor) (id : AngelId) (kind config : String)
      → All (IsReadable codec) rows
      → All (λ b. b.id ≢ id) rows
      → IsSpawned id kind config s.angels
      → IsSpawned id kind config (recover_each codec env now rows s).0.angels
  unfolding recover_each
  recover-keeps [] s id kind config readable others h = h
  recover-keeps (a ∷ rest) s id kind config (reads, readable) (other, others) h =
      recover-keeps rest _ id kind config readable others
        (respawn_other a s id kind config reads other h)

  recover-IsSpawned :
      (rows : List Angel) (s : Supervisor)
      → All (IsReadable codec) rows
      → AreDistinct rows
      → All
          (λ a.
            IsSpawned a.id a.angel_type a.config_json (recover_each codec env now rows s).0.angels)
          rows
  unfolding recover_each
  recover-IsSpawned [] s readable distinct = tt
  recover-IsSpawned (a ∷ rest) s (reads, readable) (apart, distinct) = (
    recover-keeps rest _ a.id a.angel_type a.config_json readable apart
        (respawn-IsSpawned a s reads),
    recover-IsSpawned rest _ readable distinct,
  )

  recover_kills :
      (rows : List Angel) (s : Supervisor)
      → All (IsVerified env) (recover_each codec env now rows s).1
  unfolding recover_each
  recover_kills [] s = tt
  recover_kills (a ∷ rest) s = All-append (IsVerified env) _ _ (kills env a) (recover_kills rest _)

-- When the two queries succeed, the boot recovery ends with every angel that was ACTIVE or TRAINING
-- in the table, about to be started under its old id with its old kind and configuration text, and
-- with a link in CONNECTING; the only signals it sends are SIGKILL to processes that /proc shows to
-- be angels.
pub boot_recovery_respawns :
    (codec : Codec) (queries env : Env) (now : ℕ) (s : Supervisor)
    → queries.db 0 ≡ true
    → queries.db 1 ≡ true
    → All (IsReadable codec) (list_recoverable s.reg)
    → AreDistinct (list_recoverable s.reg)
    → (r : Supervisor) × (effects : List Effect) × (boot_recovery codec queries env now s
        ≡ some (r, effects))
      × All (λ a. IsSpawned a.id a.angel_type a.config_json r.angels) (list_recoverable s.reg)
      × All (IsVerified env) effects
unfolding boot_recovery
boot_recovery_respawns codec queries env now s ok ok' readable distinct =
    let s' : Supervisor = record s { reg = mark_stale now s.reg } in
    let rows = list_recoverable s.reg in
    (
      (recover_each codec env now rows s').0,
      (recover_each codec env now rows s').1,
      rw (ok, ok') refl,
      recover-IsSpawned codec env now rows s' readable distinct,
      recover_kills codec env now rows s',
    )
