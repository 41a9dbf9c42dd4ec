-- ===== src/ControlPlane/State/Bolt/Pods.antt =====
-- The pod operations of control-plane/internal/state/bolt_store.go.
use backend_infra_platform.Base.{String, ◌&&◌, ◌||◌, List, none, some, str_eq, if◌then◌else◌}
use backend_infra_platform.Base.SyncMap.{SyncMap}
use backend_infra_platform.ControlPlane.Model.Deployment.{Time}
use backend_infra_platform.ControlPlane.Model.Pod.{
  Pod, PodStatus, pod_status_eq, can_transition_pod,
}
use backend_infra_platform.ControlPlane.State.{
  not_found, already_exists, invalid_transition, matches_selector,
}
use backend_infra_platform.ControlPlane.State.Pods.{is_terminal_pod_status, first_time}
use backend_infra_platform.ControlPlane.State.Bolt.{
  Database, BoltStore, Answer, done, store_error, and_then, bget, bput, list_where,
}

-- What the transaction of `TransitionPod` writes into the pod, in the order of its statements.
unfoldable pub moved : Time → PodStatus → String → Pod → Pod
unfolding is_terminal_pod_status pod_status_eq
moved now to err_msg p =
    let p₁ : Pod = record p { status = to } in
    let p₂ : Pod = if str_eq err_msg "" then p₁ else record p₁ { error = err_msg } in
    let p₃ : Pod =
      if pod_status_eq to PodStatus.scheduled
      then record p₂ { scheduled_at = first_time p₂.scheduled_at now }
      else if pod_status_eq to PodStatus.running
      then record p₂ { started_at = first_time p₂.started_at now }
      else p₂ in
    if is_terminal_pod_status to
    then record p₃ { finished_at = first_time p₃.finished_at now }
    else p₃

module _ {Bucket Bytes : Type 0} (db : Database Bucket Bytes) where
  -- A transaction that writes the bucket of the pods.
  abbrev pub in_pods : BoltStore Bucket → Answer Bucket → Answer (BoltStore Bucket)
  in_pods s b = and_then b λ b'. done (record s { pods = b' })

  unfoldable pub create_pod : Pod → BoltStore Bucket → Answer (BoltStore Bucket)
  create_pod p s = elim (db.get p.id s.pods) [
    | some _ ↦ store_error already_exists
    | none ↦ in_pods s (bput db db.pod p.id p s.pods)
  ]

  unfoldable pub get_pod : String → BoltStore Bucket → Answer Pod
  get_pod id s = bget db db.pod id s.pods

  unfoldable pub list_pods_by_deployment : String → BoltStore Bucket → Answer (List Pod)
  list_pods_by_deployment deployment_id s =
      list_where db db.pod (λ p. str_eq p.deployment_id deployment_id) s.pods

  unfoldable pub list_pods_by_status : PodStatus → BoltStore Bucket → Answer (List Pod)
  list_pods_by_status status s = list_where db db.pod (λ p. pod_status_eq p.status status) s.pods

  unfoldable pub list_pods_by_node : String → BoltStore Bucket → Answer (List Pod)
  list_pods_by_node node_id s = list_where db db.pod (λ p. str_eq p.node_id node_id) s.pods

  unfoldable pub list_pods_by_labels :
      String → SyncMap String → BoltStore Bucket → Answer (List Pod)
  list_pods_by_labels namespace selector s =
      list_where db db.pod
        (λ p.
          (str_eq namespace "" || str_eq p.namespace namespace)
          && matches_selector p.labels selector)
        s.pods

  unfoldable pub update_pod : Pod → BoltStore Bucket → Answer (BoltStore Bucket)
  update_pod p s = elim (db.get p.id s.pods) [
    | none ↦ store_error not_found
    | some _ ↦ in_pods s (bput db db.pod p.id p s.pods)
  ]

  unfoldable pub transition_pod :
      Time → String → PodStatus → String → BoltStore Bucket → Answer (BoltStore Bucket)
  transition_pod now id to err_msg s = and_then (bget db db.pod id s.pods) λ p.
      if can_transition_pod p.status to
      then in_pods s (bput db db.pod id (moved now to err_msg p) s.pods)
      else store_error invalid_transition
