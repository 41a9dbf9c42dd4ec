-- ===== src/ControlPlane/Model/Node.antt =====
-- control-plane/internal/model/node.go.
use backend_infra_platform.Base.{
  ℤ, pos, ltb_ℤ, leb_ℤ, String, Bool, true, false, ◌&&◌, ◌||◌, List, [], ◌∷◌, if◌then◌else◌,
}
use backend_infra_platform.Base.SyncMap.{SyncMap}
use backend_infra_platform.ControlPlane.Model.Deployment.{Time, ResourceRequest}

pub data NodeStatus : Type 0 where
  registering healthy draining unhealthy removed : NodeStatus

unfoldable pub node_status_eq : NodeStatus → NodeStatus → Bool
node_status_eq NodeStatus.registering NodeStatus.registering = true
node_status_eq NodeStatus.healthy NodeStatus.healthy = true
node_status_eq NodeStatus.draining NodeStatus.draining = true
node_status_eq NodeStatus.unhealthy NodeStatus.unhealthy = true
node_status_eq NodeStatus.removed NodeStatus.removed = true
node_status_eq _ _ = false

unfoldable pub allowed_node_transitions : NodeStatus → List NodeStatus
allowed_node_transitions NodeStatus.registering = NodeStatus.healthy ∷ NodeStatus.unhealthy ∷ []
allowed_node_transitions NodeStatus.healthy = NodeStatus.draining ∷ NodeStatus.unhealthy ∷ []
allowed_node_transitions NodeStatus.draining = NodeStatus.removed ∷ NodeStatus.unhealthy ∷ []
allowed_node_transitions NodeStatus.unhealthy = NodeStatus.healthy ∷ NodeStatus.removed ∷ []
allowed_node_transitions NodeStatus.removed = []

lists_node_status : NodeStatus → List NodeStatus → Bool
lists_node_status to [] = false
lists_node_status to (s ∷ ss) = node_status_eq s to || lists_node_status to ss

-- `TransitionNode` of the package model: is the move legal?
unfoldable pub can_transition_node : NodeStatus → NodeStatus → Bool
unfolding lists_node_status allowed_node_transitions node_status_eq
can_transition_node from to = lists_node_status to (allowed_node_transitions from)

pub record ResourceCapacity : Type 0 where
  pub cpu : ℤ
  pub memory_mb : ℤ

pub record Node : Type 0 where
  pub id : String
  pub hostname : String
  pub address : String
  pub labels : SyncMap String
  pub status : NodeStatus
  pub capacity : ResourceCapacity
  pub available : ResourceCapacity
  pub running_jobs : ℤ
  pub max_concurrent : ℤ
  pub last_heartbeat_at : Time
  pub registered_at : Time

unfoldable pub has_capacity_for : Node → ResourceRequest → Bool
has_capacity_for n req =
    if ltb_ℤ (pos 0) n.max_concurrent && leb_ℤ n.max_concurrent n.running_jobs
    then false
    else leb_ℤ req.cpu n.available.cpu && leb_ℤ req.memory_mb n.available.memory_mb
