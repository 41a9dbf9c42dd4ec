-- ===== src/ControlPlane/Scheduler.antt =====
-- control-plane/internal/scheduler: scheduler.go and placement.go. Logging and the Prometheus
-- gauges are left out; the clock is read once for a pass.
pub mod Select
mod Copies
pub mod Capacity
pub mod Placement
pub mod Race
use backend_infra_platform.Base.{
  ℕ, suc, ◌-◌, pos, ◌+ℤ◌, ◌-ℤ◌, ltb_ℤ, eqb_ℤ, Bool, not, ◌&&◌, ◌||◌, List, [], ◌∷◌, Option, none,
  some, str_eq, ltb, ◌==◌, if◌then◌else◌, length,
}
use backend_infra_platform.Base.Sort.{sort_slice}
use backend_infra_platform.Base.Float.{sub_float}
use backend_infra_platform.ControlPlane.Model.Deployment.{Time, ResourceRequest}
use backend_infra_platform.ControlPlane.Model.Pod.{Pod, PodStatus}
use backend_infra_platform.ControlPlane.Model.Node.{
  Node, NodeStatus, node_status_eq, has_capacity_for,
}
use backend_infra_platform.ControlPlane.State.{MemoryStore, ok, err, or_keep}
use backend_infra_platform.ControlPlane.State.Deployments.{get_deployment}
use backend_infra_platform.ControlPlane.State.Pods.{list_pods_by_status, update_pod, transition_pod}
use backend_infra_platform.ControlPlane.State.Nodes.{list_nodes, update_node}

-- The two `continue` tests of the loop in `SelectNode`.
unfoldable pub is_candidate : ResourceRequest → Node → Bool
unfolding node_status_eq has_capacity_for
is_candidate required n = node_status_eq n.status NodeStatus.healthy && has_capacity_for n required

-- Less loaded, or as loaded and registered earlier.
unfoldable pub is_better : Node → Node → Bool
is_better n best =
    ltb_ℤ n.running_jobs best.running_jobs
    || (eqb_ℤ n.running_jobs best.running_jobs && ltb n.registered_at best.registered_at)

unfoldable pub consider : ResourceRequest → Node → Option Node → Option Node
consider required n none = if is_candidate required n then some n else none
consider required n (some best) =
    if is_candidate required n && is_better n best then some n else some best

unfoldable pub select_from : ResourceRequest → Option Node → List Node → Option Node
select_from required best [] = best
select_from required best (n ∷ ns) = select_from required (consider required n best) ns

-- `none` is `ErrNoCapacity`.
unfoldable pub select_node : List Node → ResourceRequest → Option Node
select_node candidates required = select_from required none candidates

pub record Stats : Type 0 where
  pub last_tick_at : Time
  pub scheduled_last : ℕ
  pub pending_now : ℕ

-- What a pass holds between two pods: `nodes` is its own copy of the node list.
pub record Pass : Type 0 where
  pub cluster : MemoryStore
  pub nodes : List Node
  pub scheduled : ℕ

-- The backoff gate is open: `run_after` is unset, or is not after now.
unfoldable pub is_ready : Time → Pod → Bool
is_ready now pod = not (not (pod.run_after == 0) && ltb now pod.run_after)

unfoldable pub required_for : Pod → MemoryStore → ResourceRequest
required_for pod s = elim (get_deployment pod.deployment_id s) [
  | ok d ↦ d.resources
  | err _ ↦ record { cpu = pos 0; memory_mb = pos 0 }
]

unfoldable pub reserve : ResourceRequest → Node → Node
reserve required n = record n {
  available = record {
    cpu = sub_float n.available.cpu required.cpu;
    memory_mb = n.available.memory_mb -ℤ required.memory_mb;
  };
  running_jobs = n.running_jobs +ℤ pos 1;
}

-- A write through the pointer to the node of that identifier in the pass's list.
unfoldable pub write_node : Node → List Node → List Node
write_node n [] = []
write_node n (m ∷ ms) = (if str_eq m.id n.id then n else m) ∷ write_node n ms

-- The node's capacity is taken in the pass's copy whether or not the store accepts it.
unfoldable pub commit : ResourceRequest → Node → MemoryStore → Pass → Pass
unfolding reserve
commit required node s t =
    let node' = reserve required node in
    record {
      cluster = or_keep s (update_node node' s);
      nodes = write_node node' t.nodes;
      scheduled = suc t.scheduled;
    }

-- The body of the loop, from the choice of the node on.
unfoldable pub assign : Time → Pod → ResourceRequest → Node → Pass → Pass
assign now pod required node t = elim (update_pod (record pod { node_id = node.id }) t.cluster) [
  | err _ ↦ t
  | ok s ↦ elim (transition_pod now pod.id PodStatus.scheduled "" s) [
    | err _ ↦ record t { cluster = s }
    | ok s' ↦ commit required node s' t
  ]
]

unfoldable pub schedule_pod : Time → Pod → Pass → Pass
schedule_pod now pod t =
    let required = required_for pod t.cluster in
    if is_ready now pod
    then elim (select_node t.nodes required) [
      | none ↦ t
      | some node ↦ assign now pod required node t
    ]
    else t

unfoldable pub schedule_pods : Time → List Pod → Pass → Pass
schedule_pods now [] t = t
schedule_pods now (pod ∷ pods) t = schedule_pods now pods (schedule_pod now pod t)

abbrev pub older : Pod → Pod → Bool
older p q = ltb p.created_at q.created_at

-- The pending pods, oldest first.
unfoldable pub pending_queue : MemoryStore → List Pod
pending_queue s = sort_slice older (list_pods_by_status PodStatus.pending s)

unfoldable pub tick : Time → MemoryStore → MemoryStore × Stats
tick now s =
    let pending = pending_queue s in
    let start : Pass = record { cluster = s; nodes = list_nodes s; scheduled = 0 } in
    let t = schedule_pods now pending start in
    (
      t.cluster,
      record {
        last_tick_at = now;
        scheduled_last = t.scheduled;
        pending_now = length pending - t.scheduled;
      },
    )
