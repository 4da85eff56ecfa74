-- ===== src/Sentinel/Caches/Tests.antt =====
-- A cache that is read, invalidated, and read once more.
use angellab.Prelude.{ℕ, List, ◌≡◌, refl, none, some}
use angellab.Sentinel.Caches.{
  Cache, rebuild_interval, new_cache, is_young, cached, store, invalidate, get_conns,
}

abbrev built : Cache ℕ
unfolding store is_young
built = (store 0 5 7 (new_cache rebuild_interval)).0

young_hit : cached 10_000_000_004 built ≡ some 7
unfolding cached is_young built
young_hit = refl

old_miss : cached 10_000_000_005 built ≡ none
unfolding cached is_young built
old_miss = refl

invalidated_miss : cached 6 (invalidate built) ≡ none
unfolding cached is_young invalidate built
invalidated_miss = refl

failed_read_kept : (get_conns 6 6 none (new_cache 5)).0 ≡ new_cache {A = List ℕ} 5
unfolding get_conns cached is_young
failed_read_kept = refl
