-- ===== src/Lab/Daemon/Reload.antt =====
-- What a reload does to the table of the angels.
use angellab.Prelude.{
  ℕ, ◌≡◌, refl, sym, ap, ◌∙◌, true, false, ◌||◌, Option, none, some, List, [], ◌∷◌, String, arith,
  inl, inr, Bool-cases, bytes_eq, string_eq, ◌==◌, All,
}
use mathlib.Core.Path.{subst}
use angellab.Prelude.Map.{Map, lookup, insert, has}
use angellab.Prelude.Map.Laws.{lookup-insert}
use angellab.Registry.{AngelId, Registry}
use angellab.Lab.Supervisor.{AngelConfig, Env}
use angellab.Lab.Supervisor.Worker.{starting}
use angellab.Lab.Supervisor.Table.{
  Codec, Lane, Supervisor, new_entry, or_generated, enter, entered, spawn_as, spawn_angel,
}
use angellab.Lab.Daemon.{
  Config, default_config, Files, Toml, read_file, parsed, load_config, Daemon, new_daemon,
  spawn_missing, reloaded, reload,
}

-- The daemon as its goroutines leave it; the others change the table, the registry and nothing else.
pub data Running : Daemon → Type 0 where
  created : (cfg : Config) (reg : Registry) → Running (new_daemon cfg reg)
  changed : (sup : Supervisor) {d : Daemon} → Running d → Running (record d { sup = sup })
  again :
      (toml : Toml) (files : Files) (codec : Codec) (env : Env) (now : ℕ) {d : Daemon}
      → Running d
      → Running (reload toml files codec env now d).0

path-reloaded :
    (codec : Codec) (env : Env) (now : ℕ) (d : Daemon) (o : Option Config)
    → (reloaded codec env now d o).0.config_path ≡ d.config_path
path-reloaded codec env now d none = refl
path-reloaded codec env now d (some cfg) = refl

Running-path : {d : Daemon} → Running d → d.config_path ≡ ""
unfolding new_daemon reload
Running-path (created cfg reg) = refl
Running-path (changed sup r) = Running-path r
Running-path (again toml files codec env now {d} r) =
    path-reloaded codec env now d (load_config toml files d.config_path) ∙ Running-path r

-- The daemon never learns the path of its configuration, so that a reload reads no file: it replaces the
-- configuration by the default one and spawns no angel, whatever the file holds.
pub reload_reads_nothing :
    (toml : Toml) (files : Files) (codec : Codec) (env : Env) (now : ℕ) (d : Daemon)
    → Running d
    → reload toml files codec env now d ≡ (record d { cfg = default_config }, true)
unfolding reload load_config read_file spawn_missing
reload_reads_nothing toml files codec env now d r =
    ap (λ p. reloaded codec env now d (parsed toml (read_file files p))) (Running-path r)

abbrev spawned_lane : AngelConfig → String → Lane
spawned_lane ac text = record { stage = starting; entry = new_entry ac.id ac.kind text }

generated-named :
    (id : AngelId) (angels : Map AngelId Lane)
    → (id == []) ≡ false
    → or_generated id angels ≡ some id
generated-named [] angels named = ground (arith, named)
generated-named (c ∷ cs) angels named = refl

angels-spawned :
    (codec : Codec) (env : Env) (now : ℕ) (ac : AngelConfig) (text : String) (s : Supervisor)
    → (ac.id == []) ≡ false
    → codec.marshal ac ≡ some text
    → (spawn_angel codec env now ac s).0.angels ≡ insert ac.id (spawned_lane ac text) s.angels
unfolding spawn_angel enter
angels-spawned codec env now ac text s named fine =
    ap (λ o. (spawn_as codec env now ac s o).0.angels) (generated-named ac.id s.angels named)
    ∙ ap (λ o. (entered env now ac s o).0.angels) fine

-- an angel of the configuration that has no id, or is in the table
abbrev pub IsCovered : Map AngelId Lane → AngelConfig → Type 0
IsCovered angels ac = (ac.id == [] || has ac.id angels) ≡ true

module _ (codec : Codec) (env : Env) (now : ℕ) (current : Map AngelId Lane)
    (text : AngelConfig → String)
    (fine : (ac : AngelConfig) → codec.marshal ac ≡ some (text ac)) where
  -- an angel of the table before the reload
  lookup-spawn_missing :
      (cfgs : List AngelConfig) (s : Supervisor) (other : AngelId)
      → has other current ≡ true
      → lookup other (spawn_missing codec env now current cfgs s).angels ≡ lookup other s.angels
  unfolding spawn_missing
  lookup-spawn_missing [] s other there = refl
  lookup-spawn_missing (ac ∷ rest) s other there = elim (Bool-cases (ac.id == [])) [
    | inl unnamed ↦ rw unnamed (lookup-spawn_missing rest s other there)
    | inr named ↦ elim (Bool-cases (has ac.id current)) [
      | inl known ↦ rw (named, known) (lookup-spawn_missing rest s other there)
      | inr new ↦
          let s' = (spawn_angel codec env now ac s).0 in
          rw (named, new)
            (lookup-spawn_missing rest s' other there
              ∙ ap (λ m. lookup other m)
                  (angels-spawned codec env now ac (text ac) s named (fine ac))
              ∙ ground (
                arith,
                lookup-insert ac.id other (spawned_lane ac (text ac)) s.angels,
                bytes_eq.eqb_iff ac.id other,
                there,
                new,
              ))
    ]
  ]

  has-spawn_missing :
      (cfgs : List AngelConfig) (s : Supervisor) (other : AngelId)
      → has other s.angels ≡ true
      → has other (spawn_missing codec env now current cfgs s).angels ≡ true
  unfolding spawn_missing
  has-spawn_missing [] s other there = there
  has-spawn_missing (ac ∷ rest) s other there = elim (Bool-cases (ac.id == [])) [
    | inl unnamed ↦ rw unnamed (has-spawn_missing rest s other there)
    | inr named ↦ elim (Bool-cases (has ac.id current)) [
      | inl known ↦ rw (named, known) (has-spawn_missing rest s other there)
      | inr new ↦
          let s' = (spawn_angel codec env now ac s).0 in
          rw (named, new)
            (has-spawn_missing rest s' other (
              ap (λ m. has other m) (angels-spawned codec env now ac (text ac) s named (fine ac))
              ∙ ground
                  (arith, lookup-insert ac.id other (spawned_lane ac (text ac)) s.angels, there)))
    ]
  ]

  has-IsCovered :
      (angels : Map AngelId Lane) (ac : AngelConfig) → has ac.id angels ≡ true → IsCovered angels ac
  has-IsCovered angels ac there = ground (arith, there)

  -- from what the first configuration comes to
  first-IsCovered :
      (ac : AngelConfig) (rest : List AngelConfig) (s r : Supervisor)
      → spawn_missing codec env now current (ac ∷ rest) s ≡ r
      → IsCovered r.angels ac
      → All (IsCovered r.angels) rest
      → All (IsCovered (spawn_missing codec env now current (ac ∷ rest) s).angels) (ac ∷ rest)
  first-IsCovered ac rest s r e first others =
      subst (λ (q : Supervisor). All (IsCovered q.angels) (ac ∷ rest)) (sym e) (first, others)

  spawn_missing-IsCovered :
      (cfgs : List AngelConfig) (s : Supervisor)
      → ((id : AngelId) → has id current ≡ true → has id s.angels ≡ true)
      → All (IsCovered (spawn_missing codec env now current cfgs s).angels) cfgs
  unfolding spawn_missing
  spawn_missing-IsCovered [] s within = tt
  spawn_missing-IsCovered (ac ∷ rest) s within = elim (Bool-cases (ac.id == [])) [
    | inl unnamed ↦
        first-IsCovered ac rest s (spawn_missing codec env now current rest s) (rw unnamed refl)
          (ground (arith, unnamed)) (spawn_missing-IsCovered rest s within)
    | inr named ↦ elim (Bool-cases (has ac.id current)) [
      | inl known ↦
          first-IsCovered ac rest s (spawn_missing codec env now current rest s)
            (rw (named, known) refl)
            (has-IsCovered _ ac (has-spawn_missing rest s ac.id (within ac.id known)))
            (spawn_missing-IsCovered rest s within)
      | inr new ↦
          let s' = (spawn_angel codec env now ac s).0 in
          let table = angels-spawned codec env now ac (text ac) s named (fine ac) in
          let grown : (id : AngelId) → has id s.angels ≡ true → has id s'.angels ≡ true =
            λ id there.
              ap (λ m. has id m) table
              ∙ ground
                  (arith, lookup-insert ac.id id (spawned_lane ac (text ac)) s.angels, there) in
          let added : has ac.id s'.angels ≡ true =
            ap (λ m. has ac.id m) table
            ∙ ground (
              arith,
              lookup-insert ac.id ac.id (spawned_lane ac (text ac)) s.angels,
              bytes_eq.eqb_iff ac.id ac.id,
            ) in
          first-IsCovered ac rest s (spawn_missing codec env now current rest s')
            (rw (named, new) refl) (has-IsCovered _ ac (has-spawn_missing rest s' ac.id added))
            (spawn_missing-IsCovered rest s' (λ id there. grown id (within id there)))
    ]
  ]

-- What the reload does with a configuration that it has read, when every text of JSON can be written:
-- each angel of the configuration that has an id is in the table, and the angels that were there are
-- not touched.
reloaded_table :
    (codec : Codec) (env : Env) (now : ℕ) (d : Daemon) (cfg : Config) (other : AngelId)
    (text : AngelConfig → String)
    → ((ac : AngelConfig) → codec.marshal ac ≡ some (text ac))
    → has other d.sup.angels ≡ true
    → let (d', fine) = reloaded codec env now d (some cfg) in
      All (IsCovered d'.sup.angels) cfg.angels
      × (lookup other d'.sup.angels ≡ lookup other d.sup.angels)
reloaded_table codec env now d cfg other text fine there = (
  spawn_missing-IsCovered codec env now d.sup.angels text fine cfg.angels d.sup (λ id known. known),
  lookup-spawn_missing codec env now d.sup.angels text fine cfg.angels d.sup other there,
)
