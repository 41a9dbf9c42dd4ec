-- ===== src/ControlPlane/Reconciler/Loss.antt =====
-- The half of control-plane/internal/reconciler/reconciler.go that is about lost nodes.
use backend_infra_platform.Base.{
  ℕ, suc, ◌-◌, ℤ, pos, leb_ℤ, String, Bool, not, ◌&&◌, List, [], ◌∷◌, ltb, if◌then◌else◌,
}
use backend_infra_platform.ControlPlane.Model.Deployment.{Time}
use backend_infra_platform.ControlPlane.Model.Pod.{Pod, PodStatus, pod_status_eq}
use backend_infra_platform.ControlPlane.Model.Node.{Node, NodeStatus, node_status_eq}
use backend_infra_platform.ControlPlane.State.{MemoryStore, ok, err, or_keep}
use backend_infra_platform.ControlPlane.State.Deployments.{get_deployment}
use backend_infra_platform.ControlPlane.State.Pods.{list_pods_by_node, update_pod, transition_pod}
use backend_infra_platform.ControlPlane.State.Nodes.{list_nodes, transition_node}
use backend_infra_platform.ControlPlane.Reconciler.Delay.{backoff, add_duration}

-- A pod that was running on the lost node, past its retries.
unfoldable pub give_up : Time → Pod → MemoryStore → MemoryStore
give_up now p s = elim (update_pod (record p { attempt = suc p.attempt }) s) [
  | err _ ↦ s
  | ok s₁ ↦ elim (transition_pod now p.id PodStatus.failed "node heartbeat timeout" s₁) [
    | err _ ↦ s₁
    | ok s₂ ↦
        or_keep s₂ (
          transition_pod now p.id PodStatus.dead_letter "max retries exceeded after node failure"
            s₂)
  ]
]

-- A pod that was dispatched to the lost node and not picked up.
unfoldable pub send_back : Time → Pod → MemoryStore → MemoryStore
send_back now p s = elim (update_pod (record p { node_id = "" }) s) [
  | err _ ↦ s
  | ok s₁ ↦ or_keep s₁ (transition_pod now p.id PodStatus.pending "" s₁)
]

unfoldable pub max_retries_of : Pod → MemoryStore → ℤ
max_retries_of p s = elim (get_deployment p.deployment_id s) [
  | ok d ↦ d.max_retries
  | err _ ↦ pos 0
]

unfoldable pub timed_out : ℕ → Time → Node → Bool
timed_out heartbeat_timeout now n = ltb heartbeat_timeout (now - n.last_heartbeat_at)

module _ (overflowed : ℕ) where
  -- A pod that was running on the lost node, within its retries.
  unfoldable pub requeue : Time → Pod → MemoryStore → MemoryStore
  requeue now p s =
      let attempt = suc p.attempt in
      let p' : Pod = record p {
        attempt = attempt;
        run_after = add_duration now (backoff overflowed attempt);
        node_id = "";
      } in
      elim (update_pod p' s) [
        | err _ ↦ s
        | ok s₁ ↦ elim (transition_pod now p.id PodStatus.failed "node heartbeat timeout" s₁) [
          | err _ ↦ s₁
          | ok s₂ ↦
              let s₃ = or_keep s₂ (transition_pod now p.id PodStatus.retrying "" s₂) in
              or_keep s₃ (transition_pod now p.id PodStatus.pending "" s₃)
        ]
      ]

  unfoldable pub reschedule_pod : Time → Pod → MemoryStore → MemoryStore
  unfolding pod_status_eq
  reschedule_pod now p s =
      if pod_status_eq p.status PodStatus.scheduled
      then send_back now p s
      else if not (pod_status_eq p.status PodStatus.running)
      then s
      else if leb_ℤ (pos (suc p.attempt)) (max_retries_of p s)
      then requeue now p s
      else give_up now p s

  unfoldable pub reschedule_each : Time → List Pod → MemoryStore → MemoryStore
  reschedule_each now [] s = s
  reschedule_each now (p ∷ ps) s = reschedule_each now ps (reschedule_pod now p s)

  unfoldable pub reschedule_pods_for : Time → String → MemoryStore → MemoryStore
  reschedule_pods_for now node_id s = reschedule_each now (list_pods_by_node node_id s) s

  unfoldable pub lose_node : Time → Node → NodeStatus → MemoryStore → MemoryStore
  lose_node now n to s = elim (transition_node n.id to s) [
    | err _ ↦ s
    | ok s' ↦ reschedule_pods_for now n.id s'
  ]

module _ (overflowed heartbeat_timeout : ℕ) where
  unfoldable pub detect_node : Time → Node → MemoryStore → MemoryStore
  unfolding node_status_eq
  detect_node now n s =
      if node_status_eq n.status NodeStatus.healthy && timed_out heartbeat_timeout now n
      then lose_node overflowed now n NodeStatus.unhealthy s
      else if node_status_eq n.status NodeStatus.draining && timed_out heartbeat_timeout now n
      then lose_node overflowed now n NodeStatus.removed s
      else s

  unfoldable pub detect_each : Time → List Node → MemoryStore → MemoryStore
  detect_each now [] s = s
  detect_each now (n ∷ ns) s = detect_each now ns (detect_node now n s)

  unfoldable pub detect_unhealthy_nodes : Time → MemoryStore → MemoryStore
  detect_unhealthy_nodes now s = detect_each now (list_nodes s) s
