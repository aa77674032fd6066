-- ===== src/Artifact.antt =====
-- Artifacts (internal/artifact): the collector of expired artifacts (`Gc`).
pub mod Gc
mod Tests
