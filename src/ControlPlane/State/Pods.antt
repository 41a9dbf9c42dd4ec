-- ===== src/ControlPlane/State/Pods.antt =====
-- The pod operations of control-plane/internal/state/memory_store.go.
use backend_infra_platform.Base.{
  String, Bool, true, false, ◌&&◌, ◌||◌, List, Option, none, some, str_eq, if◌then◌else◌, keep,
}
use backend_infra_platform.Base.SyncMap.{SyncMap, load, store, values}
use backend_infra_platform.ControlPlane.Model.Deployment.{Time}
use backend_infra_platform.ControlPlane.Model.Pod.{
  Pod, PodStatus, pod_status_eq, can_transition_pod,
}
use backend_infra_platform.ControlPlane.State.{
  MemoryStore, Result, ok, err, not_found, already_exists, invalid_transition, matches_selector,
}

unfoldable pub create_pod : Pod → MemoryStore → Result MemoryStore
create_pod p s = elim (load p.id s.pods) [
  | some _ ↦ err already_exists
  | none ↦ ok (record s { pods = store p.id p s.pods })
]

unfoldable pub get_pod : String → MemoryStore → Result Pod
get_pod id s = elim (load id s.pods) [ none ↦ err not_found | some p ↦ ok p ]

unfoldable pub list_pods_by_deployment : String → MemoryStore → List Pod
list_pods_by_deployment deployment_id s =
    keep (λ p. str_eq p.deployment_id deployment_id) (values s.pods)

unfoldable pub list_pods_by_status : PodStatus → MemoryStore → List Pod
list_pods_by_status status s = keep (λ p. pod_status_eq p.status status) (values s.pods)

unfoldable pub list_pods_by_node : String → MemoryStore → List Pod
list_pods_by_node node_id s = keep (λ p. str_eq p.node_id node_id) (values s.pods)

unfoldable pub list_pods_by_labels : String → SyncMap String → MemoryStore → List Pod
list_pods_by_labels namespace selector s =
    keep
      (λ p.
        (str_eq namespace "" || str_eq p.namespace namespace) && matches_selector p.labels selector)
      (values s.pods)

-- Overwrites the stored pod wholesale, its status included.
unfoldable pub update_pod : Pod → MemoryStore → Result MemoryStore
update_pod p s = elim (load p.id s.pods) [
  | none ↦ err not_found
  | some _ ↦ ok (record s { pods = store p.id p s.pods })
]

unfoldable pub is_terminal_pod_status : PodStatus → Bool
is_terminal_pod_status PodStatus.succeeded = true
is_terminal_pod_status PodStatus.dead_letter = true
is_terminal_pod_status PodStatus.cancelled = true
is_terminal_pod_status _ = false

-- `if t == nil { t = &now }`
abbrev pub first_time : Option Time → Time → Option Time
first_time none now = some now
first_time (some t) now = some t

-- What `TransitionPod` writes into the pod, once the move is found legal.
unfoldable pub apply_transition : Time → PodStatus → String → Pod → Pod
unfolding is_terminal_pod_status pod_status_eq
apply_transition now to err_msg p = record p {
  status = to;
  error = if str_eq err_msg "" then p.error else err_msg;
  scheduled_at =
      if pod_status_eq to PodStatus.scheduled
      then first_time p.scheduled_at now
      else p.scheduled_at;
  started_at =
      if pod_status_eq to PodStatus.running then first_time p.started_at now else p.started_at;
  finished_at = if is_terminal_pod_status to then first_time p.finished_at now else p.finished_at;
}

unfoldable pub transition_pod :
    Time → String → PodStatus → String → MemoryStore → Result MemoryStore
transition_pod now id to err_msg s = elim (load id s.pods) [
  | none ↦ err not_found
  | some p ↦
      if can_transition_pod p.status to
      then ok (record s { pods = store id (apply_transition now to err_msg p) s.pods })
      else err invalid_transition
]
