-- ===== src/Sentinel/Caches.antt =====
-- internal/angels/sentinel/inodecache.go, and `ConnCache` of sentinel.go: what is read of /proc, kept for
-- a while. `built_at` is `none` for the zero time, whose age is over every interval. `InodeCache.Get` is
-- two steps, since it walks through /proc between its two locks; `ConnCache.Get` reads under the lock,
-- and its test without it is the same test.
mod Tests
use angellab.Prelude.{
  ℕ, ◌+◌, ◌*◌, ◌<◌, ◌≤◌, ◌≡◌, refl, Bool, true, false, Option, none, some, List, [], ◌∷◌, arith,
  inl, inr, Bool-cases, Option-cases, if◌then◌else◌, ltb, is_some,
}

pub record Cache (A : Type 0) : Type 0 where
  pub value : Option A
  pub built_at : Option ℕ
  pub interval : ℕ

-- 10 * time.Second
abbrev pub rebuild_interval : ℕ
rebuild_interval = 10_000_000_000

module _ {A : Type 0} where
  abbrev pub new_cache : ℕ → Cache A
  new_cache interval = record { value = none; built_at = none; interval = interval }

  -- time.Since(c.builtAt) < c.interval
  unfoldable pub is_young : ℕ → Cache A → Bool
  is_young now c = elim c.built_at [ none ↦ false | some t ↦ ltb now (t + c.interval) ]

  -- the fast path of `InodeCache.Get`; `none` is that the map has to be built
  unfoldable pub cached : ℕ → Cache A → Option A
  cached now c = if is_young now c then c.value else none

  -- the end of the slow path: the time of the test, that of the assignment, and what the walk gave
  unfoldable pub store : ℕ → ℕ → A → Cache A → Cache A × Option A
  store now later fresh c =
      if is_young now c
      then (c, c.value)
      else (record c { value = some fresh; built_at = some later }, some fresh)

  unfoldable pub invalidate : Cache A → Cache A
  invalidate c = record c { built_at = none }

  -- An invalidation that comes while a map is being built is lost: the older map is stored as new, and
  -- the calls of the whole interval get it.
  pub invalidation_lost :
      (c : Cache A) (now later then_ : ℕ) (old : A)
      → then_ < later + c.interval
      → let (c', answer) = store now later old (invalidate c) in
        (answer ≡ some old) × (cached then_ c' ≡ some old)
  unfolding store invalidate cached is_young
  invalidation_lost c now later then_ old soon = (refl, ground (arith, soon))

module _ {B : Type 0} where
  -- a nil list is one without connections
  abbrev pub or_nil : List B → Option (List B)
  or_nil [] = none
  or_nil (c ∷ cs) = some (c ∷ cs)

  -- `ConnCache.Get`: the time of the test, that of the assignment, and what `ReadTCP` answers
  unfoldable pub get_conns :
      ℕ → ℕ → Option (List B) → Cache (List B) → Cache (List B) × Option (List B)
  get_conns now later read c = elim (cached now c) [
    | some conns ↦ (c, some conns)
    | none ↦ elim read [
      | none ↦ (c, none)
      | some fresh ↦ (record c { value = or_nil fresh; built_at = some later }, some fresh)
    ]
  ]

  -- A table of the connections that is read and is not empty is the answer of every call within the
  -- interval, whatever the kernel's table becomes.
  pub get_conns_again :
      (c : Cache (List B)) (now later then_ after_ : ℕ) (again : Option (List B)) (x : B)
      (xs : List B)
      → cached now c ≡ none
      → then_ < later + c.interval
      → let (c', answer) = get_conns now later (some (x ∷ xs)) c in
        (answer ≡ some (x ∷ xs)) × (get_conns then_ after_ again c' ≡ (c', some (x ∷ xs)))
  unfolding get_conns cached is_young
  get_conns_again c now later then_ after_ again x xs missing soon = ground (arith, missing, soon)
