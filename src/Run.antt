-- ===== src/Run.antt =====
-- Pipeline runs and the durable dispatch queue: internal/run. The child modules are the records of a
-- run (`Spec`) and what it is made of (`Definitions`), the tables and phases (`Tables`), parameters
-- (`Params`) and assembly (`Build`), the repository statements on dispatch jobs (`Jobs`) and on runs
-- (`Rows`), the delivery of jobs to runners (`Delivery`), the queue of runs (`Concurrency`), the
-- operations on a run's jobs (`Control`), the trigger (`Creation`), the decisions on approval tasks
-- (`Approval`), the progress of a run (`Progress`), what runners report (`Status`, with `Produced` and
-- `Rollouts`, and `Logs`), the timeouts of runs (`Timeouts`) and what operators send to a runner
-- (`Commands`).
pub mod Spec
pub mod Definitions
pub mod Tables
pub mod Params
pub mod Build
pub mod Jobs
pub mod Delivery
pub mod Rows
pub mod Concurrency
pub mod Control
pub mod Creation
pub mod Approval
pub mod Progress
pub mod Rollouts
pub mod Produced
pub mod Status
pub mod Logs
pub mod Timeouts
pub mod Commands
mod Tests
