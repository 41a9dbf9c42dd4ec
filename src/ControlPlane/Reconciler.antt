-- ===== src/ControlPlane/Reconciler.antt =====
-- control-plane/internal/reconciler: reconciler.go, with backoff.go in Delay and the lost nodes in
-- Loss. The identifiers of id.go are drawn from a list. Logging and the Prometheus counters are left
-- out; the clock is read once for a pass.
pub mod Backoff
mod Delay
mod Loss
mod Rule
mod Frame
pub mod Detection
pub mod Failed
pub mod Replicas
pub mod Slots
mod ScaleUp
mod ScaleDown
pub mod Reservations
pub mod Retries
unfoldable pub use Delay.{
  int64_mod, int64_sign, second, max_backoff, exceeds, add_duration, backoff,
}
unfoldable pub use Loss.{
  give_up, send_back, max_retries_of, timed_out, requeue, reschedule_pod, reschedule_each,
  reschedule_pods_for, lose_node, detect_node, detect_each, detect_unhealthy_nodes,
}
use backend_infra_platform.Base.{
  ℕ, zero, suc, ◌+◌, ◌-◌, ◌*◌, ◌%◌, ◌^◌, ℤ, pos, pos_part, ◌-ℤ◌, ltb_ℤ, leb_ℤ, String, Bool, not,
  ◌&&◌, ◌||◌, List, [], ◌∷◌, Option, none, some, ltb, ◌==◌, if◌then◌else◌, keep, count_if,
}
use backend_infra_platform.Base.Sort.{sort_slice}
use backend_infra_platform.ControlPlane.Model.Deployment.{
  Time, Deployment, DeploymentStatus, deployment_status_eq,
}
use backend_infra_platform.ControlPlane.Model.Pod.{Pod, PodStatus, pod_status_eq, active}
use backend_infra_platform.ControlPlane.Model.Node.{Node, NodeStatus, node_status_eq}
use backend_infra_platform.ControlPlane.State.{MemoryStore, Result, ok, err, or_keep}
use backend_infra_platform.ControlPlane.State.Deployments.{
  get_deployment, list_deployments, transition_deployment,
}
use backend_infra_platform.ControlPlane.State.Pods.{
  create_pod, list_pods_by_deployment, list_pods_by_node, update_pod, transition_pod,
}
use backend_infra_platform.ControlPlane.State.Nodes.{list_nodes, transition_node}

-- What is left of the identifiers that `newPodID` will draw: `none` where the random source fails,
-- which it does from the end of the list on.
pub record Pass : Type 0 where
  pub cluster : MemoryStore
  pub ids : List (Option String)

unfoldable pub new_pod : Time → Deployment → String → Pod
new_pod now d id = record {
  id = id;
  deployment_id = d.id;
  node_id = "";
  namespace = d.namespace;
  labels = d.labels;
  attempt = 0;
  status = PodStatus.pending;
  image = d.image;
  container_id = "";
  command = d.command;
  args = d.args;
  resources = d.resources;
  exit_code = none;
  error = "";
  output = "";
  created_at = now;
  scheduled_at = none;
  started_at = none;
  finished_at = none;
  run_after = 0;
}

create_with : Time → Deployment → Option String → List (Option String) → Pass → Pass
create_with now d none rest t = record t { ids = rest }
create_with now d (some id) rest t = record {
  cluster = or_keep t.cluster (create_pod (new_pod now d id) t.cluster);
  ids = rest;
}

-- One round of the loop that fills the missing replicas.
unfoldable pub create_one : Time → Deployment → Pass → Pass
unfolding create_with new_pod
create_one now d t = elim t.ids [
  | [] ↦ create_with now d none [] t
  | id ∷ rest ↦ create_with now d id rest t
]

unfoldable pub create_pods : Time → Deployment → ℕ → Pass → Pass
create_pods now d zero t = t
create_pods now d (suc n) t = create_pods now d n (create_one now d t)

-- The loop that cancels at most `excess` of the pods given.
unfoldable pub cancel_pods : Time → ℕ → List Pod → MemoryStore → MemoryStore
cancel_pods now zero ps s = s
cancel_pods now (suc excess) [] s = s
cancel_pods now (suc excess) (p ∷ ps) s =
    cancel_pods now excess ps
      (or_keep s (transition_pod now p.id PodStatus.cancelled "deployment scaled down" s))

abbrev pub newer : Pod → Pod → Bool
newer p q = ltb q.created_at p.created_at

unfoldable pub is_cancellable : Pod → Bool
unfolding pod_status_eq
is_cancellable p =
    pod_status_eq p.status PodStatus.pending || pod_status_eq p.status PodStatus.scheduled

unfoldable pub is_dead_letter : Pod → Bool
unfolding pod_status_eq
is_dead_letter p = pod_status_eq p.status PodStatus.dead_letter

unfoldable pub cancellable_pods : List Pod → List Pod
cancellable_pods pods = sort_slice newer (keep is_cancellable pods)

-- The first `switch`: too few replicas, too many, or neither.
unfoldable pub match_replicas : Time → Deployment → List Pod → Pass → Pass
match_replicas now d pods t =
    let running = pos (count_if active pods) in
    if ltb_ℤ running d.replicas
    then create_pods now d (pos_part (d.replicas -ℤ running)) t
    else if ltb_ℤ d.replicas running
    then record t {
      cluster =
          cancel_pods now (pos_part (running -ℤ d.replicas)) (cancellable_pods pods) t.cluster;
    }
    else t

-- The second `switch`.
unfoldable pub judge : Time → Deployment → List Pod → MemoryStore → MemoryStore
unfolding deployment_status_eq
judge now d pods s =
    let dead = not (count_if is_dead_letter pods == 0) in
    if dead && deployment_status_eq d.status DeploymentStatus.active
    then or_keep s (transition_deployment now d.id DeploymentStatus.degraded s)
    else if not dead && deployment_status_eq d.status DeploymentStatus.degraded
    then or_keep s (transition_deployment now d.id DeploymentStatus.active s)
    else s

-- The body of the loop, for a deployment that is not pending any more.
unfoldable pub reconcile_active : Time → Deployment → Pass → Pass
reconcile_active now d t =
    let pods = list_pods_by_deployment d.id t.cluster in
    let t' = match_replicas now d pods t in record t' { cluster = judge now d pods t'.cluster }

unfoldable pub reconcile_deployment : Time → Deployment → Pass → Pass
unfolding deployment_status_eq
reconcile_deployment now d t =
    if deployment_status_eq d.status DeploymentStatus.cancelled
    then t
    else if deployment_status_eq d.status DeploymentStatus.pending
    then elim (transition_deployment now d.id DeploymentStatus.active t.cluster) [
      | err _ ↦ t
      | ok s ↦
          reconcile_active now (record d { status = DeploymentStatus.active })
            (record t { cluster = s })
    ]
    else reconcile_active now d t

unfoldable pub reconcile_each : Time → List Deployment → Pass → Pass
reconcile_each now [] t = t
reconcile_each now (d ∷ ds) t = reconcile_each now ds (reconcile_deployment now d t)

unfoldable pub reconcile_deployments : Time → Pass → Pass
reconcile_deployments now t = reconcile_each now (list_deployments t.cluster) t

module _ (overflowed heartbeat_timeout : ℕ) where
  unfoldable pub tick : Time → Pass → Pass
  tick now t =
      let t' = reconcile_deployments now t in
      record t' { cluster = detect_unhealthy_nodes overflowed heartbeat_timeout now t'.cluster }
