-- ===== src/ControlPlane.antt =====
-- control-plane/internal: the cluster's desired and observed state, and what acts on it.
pub mod Model
pub mod State
pub mod Scheduler
pub mod Reconciler
pub mod Api
pub mod Agent
mod Samples
mod Tests
