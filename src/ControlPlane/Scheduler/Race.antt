-- ===== src/ControlPlane/Scheduler/Race.antt =====
-- A pass works on a snapshot of the pods, and other writers run between its steps.
use backend_infra_platform.Base.{String, some, ◌≡◌, refl, eq_refl}
use backend_infra_platform.Base.SyncMap.{load, store, load-store}
use backend_infra_platform.ControlPlane.Model.Deployment.{Time, ResourceRequest}
use backend_infra_platform.ControlPlane.Model.Pod.{Pod, PodStatus, can_transition_pod}
use backend_infra_platform.ControlPlane.Model.Node.{Node}
use backend_infra_platform.ControlPlane.State.{MemoryStore, ok}
use backend_infra_platform.ControlPlane.State.Pods.{transition_pod, apply_transition}
use backend_infra_platform.ControlPlane.State.Effects.{
  transition_pod-eq-ok, transition_pod-ok, update_pod-ok, update_node-pods,
}
use backend_infra_platform.ControlPlane.Scheduler.{Pass, assign, commit}

-- A pass has read the pending pod `p`; before it assigns the pod, someone else cancels it in the
-- store. The assignment still succeeds, on every node and in every state of the pass: the stored pod
-- ends as dispatched, and its cancellation is lost.
pub assign_resurrects :
    (now later : Time) (msg : String) (p : Pod) (required : ResourceRequest) (n : Node) (t : Pass)
    (s : MemoryStore)
    → load p.id s.pods ≡ some p
    → p.status ≡ PodStatus.pending
    → transition_pod now p.id PodStatus.cancelled msg s ≡ ok t.cluster
    → load p.id (assign later p required n t).cluster.pods
      ≡ some (apply_transition later PodStatus.scheduled "" (record p { node_id = n.id }))
unfolding assign commit can_transition_pod
assign_resurrects now later msg p required n t s found pending cancelled =
    let (old, _, _, wrote) = transition_pod-eq-ok s now p.id PodStatus.cancelled msg cancelled in
    let p' : Pod = record p { node_id = n.id } in
    let there : load p.id t.cluster.pods ≡ some (apply_transition now PodStatus.cancelled msg old) =
      rw wrote (rw (load-store, eq_refl) refl) in
    let kept = update_pod-ok p' _ t.cluster there in
    let u : MemoryStore = record t.cluster { pods = store p.id p' t.cluster.pods } in
    let moved =
      transition_pod-ok later p.id PodStatus.scheduled "" u p' (rw (load-store, eq_refl) refl)
        (rw pending refl) in
    rw (kept, assign) (rw moved (rw update_node-pods (rw (load-store, eq_refl) refl)))
