-- ===== src/ControlPlane/Model.antt =====
-- control-plane/internal/model: the entities of the cluster and their state machines. A value is
-- immutable here, so the deep copies of `Clone` are the values themselves.
pub mod Deployment
pub mod Pod
pub mod Node
pub mod Service
