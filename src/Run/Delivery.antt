-- ===== src/Run/Delivery.antt =====
-- internal/run/service/pipeline_run.go: the durable dispatch queue, its backoff (`Backoff`), one
-- delivery of a job (`Attempt`), and what a delivery does to the table (`Rows`, `Faults`).
pub mod Backoff
pub mod Attempt
pub mod Rows
pub mod Batches
pub mod Outcomes
