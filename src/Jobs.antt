-- ===== src/Jobs.antt =====
-- ml-job-orchestrator/internal: jobs that are queued, run by a pool of workers, and retried.
pub mod Model
pub mod Store
pub mod Executor
pub mod Dispatch
pub mod Api
mod Holds
pub mod Outcomes
pub mod Pool
pub mod System
mod Tests
pub mod Budget
