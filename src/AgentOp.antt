-- ===== src/AgentOp.antt =====
-- Agent operations (internal/target): the ledger of exec, install and upgrade operations (`Ledger`),
-- the lifecycle service (`Service`), its calls in any order (`Calls`), the life of an operation
-- (`Lifecycle`), how its log is numbered (`Numbers`), what is sent (`Released`), and what a runner
-- that connects is sent (`Drain`).
pub mod Ledger
pub mod Service
pub mod Calls
pub mod Lifecycle
pub mod Numbers
pub mod Released
pub mod Drain
mod Tests
