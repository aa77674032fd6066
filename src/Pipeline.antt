-- ===== src/Pipeline.antt =====
-- Pipeline definitions (internal/pipeline): version snapshots (`Snapshot`), their comparison
-- (`Changes`, `Diff`), the history of versions (`Versions`), cron expressions (`Cron`) and
-- triggers (`Triggers`).
pub mod Snapshot
pub mod Changes
pub mod Diff
pub mod Versions
pub mod Cron
pub mod Triggers
mod Tests
