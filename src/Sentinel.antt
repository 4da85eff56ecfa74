-- ===== src/Sentinel.antt =====
-- internal/angels/sentinel: the angel that learns the host's outbound traffic and scores what is new.
pub mod Baseline
pub mod Dedup
pub mod Rate
pub mod Scorer
pub mod Poll
pub mod Persist
pub mod Caches
mod Tests
