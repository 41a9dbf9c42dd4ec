-- ===== src/ControlPlane/Scheduler/Capacity.antt =====
-- A scheduling pass keeps every node within its capacity.
use backend_infra_platform.Base.{
  pos, ◌-ℤ◌, ◌≤ℤ◌, ltb_ℤ, +ℤ_parts, -ℤ_parts, true, List, [], ◌∷◌, ◌≡◌, ◌∙◌, inl, inr, arith, All,
  Bool-cases, Option-cases,
}
use backend_infra_platform.Base.SyncMap.{values, All-store}
use backend_infra_platform.Base.Float.{sub_float, round_float_nonnegative}
use backend_infra_platform.ControlPlane.Model.Deployment.{Time, ResourceRequest}
use backend_infra_platform.ControlPlane.Model.Pod.{Pod, PodStatus}
use backend_infra_platform.ControlPlane.Model.Node.{Node, has_capacity_for}
use backend_infra_platform.ControlPlane.State.{MemoryStore, or_keep, Result-cases}
use backend_infra_platform.ControlPlane.State.Pods.{update_pod, transition_pod}
use backend_infra_platform.ControlPlane.State.Nodes.{update_node, list_nodes}
use backend_infra_platform.ControlPlane.State.Effects.{update_pod-nodes, transition_pod-nodes}
use backend_infra_platform.ControlPlane.Scheduler.{
  Pass, is_candidate, select_node, reserve, commit, assign, schedule_pod, schedule_pods,
  required_for, is_ready, tick, pending_queue,
}
use backend_infra_platform.ControlPlane.Scheduler.Copies.{write_node-All}
use backend_infra_platform.ControlPlane.Scheduler.Select.{select_node-Chosen}

-- Nothing is oversubscribed, and a node with a limit on its pods stays within it.
pub record IsWithin (n : Node) : Type 0 where
  pub cpu : pos 0 ≤ℤ n.available.cpu
  pub memory : pos 0 ≤ℤ n.available.memory_mb
  pub jobs : ltb_ℤ (pos 0) n.max_concurrent ≡ true → n.running_jobs ≤ℤ n.max_concurrent

reserve-IsWithin :
    (required : ResourceRequest) (n : Node)
    → is_candidate required n ≡ true
    → IsWithin (reserve required n)
unfolding reserve is_candidate has_capacity_for sub_float
reserve-IsWithin required n c = record {
  cpu =
      round_float_nonnegative (n.available.cpu -ℤ required.cpu)
        (ground (arith, -ℤ_parts n.available.cpu required.cpu));
  memory = ground (arith, -ℤ_parts n.available.memory_mb required.memory_mb);
  jobs = λ h. ground (arith, +ℤ_parts n.running_jobs (pos 1));
}

-- What holds between two pods of a pass.
record Inv (t : Pass) : Type 0 where
  copies : All IsWithin t.nodes
  stored : All IsWithin (values t.cluster.nodes)

stored_after-update_node :
    (n : Node) (s : MemoryStore)
    → IsWithin n
    → All IsWithin (values s.nodes)
    → All IsWithin (values (or_keep s (update_node n s)).nodes)
unfolding update_node
stored_after-update_node n s w h = ground (arith, All-store IsWithin n.id n s.nodes w h)

commit-Inv :
    (required : ResourceRequest) (n : Node) (s : MemoryStore) (t : Pass)
    → is_candidate required n ≡ true
    → s.nodes ≡ t.cluster.nodes
    → Inv t
    → Inv (commit required n s t)
unfolding commit
commit-Inv required n s t c same v =
    let w = reserve-IsWithin required n c in
    record {
      copies = write_node-All IsWithin (reserve required n) t.nodes w v.copies;
      stored = stored_after-update_node (reserve required n) s w (rw same v.stored);
    }

assign-Inv :
    (now : Time) (pod : Pod) (required : ResourceRequest) (n : Node) (t : Pass)
    → is_candidate required n ≡ true
    → Inv t
    → Inv (assign now pod required n t)
unfolding assign
assign-Inv now pod required n t c v =
    let pod' : Pod = record pod { node_id = n.id } in
    elim (Result-cases (update_pod pod' t.cluster)) [
      | inl (_, e) ↦ rw (e, assign) v
      | inr (s, e) ↦
          rw (e, assign)
            (let kept = update_pod-nodes t.cluster pod' e in
              elim (Result-cases (transition_pod now pod.id PodStatus.scheduled "" s)) [
                | inl (_, f) ↦ rw f (record { copies = v.copies; stored = rw kept v.stored })
                | inr (s', f) ↦ rw f (
                    commit-Inv required n s' t c
                      (transition_pod-nodes s now pod.id PodStatus.scheduled "" f ∙ kept) v)
              ])
    ]

schedule_pod-Inv : (now : Time) (pod : Pod) (t : Pass) → Inv t → Inv (schedule_pod now pod t)
unfolding schedule_pod
schedule_pod-Inv now pod t v = elim (Bool-cases (is_ready now pod)) [
  | inr wait ↦ rw wait v
  | inl ready ↦ rw ready (
      let required = required_for pod t.cluster in
      elim (Option-cases (select_node t.nodes required)) [
        | inl e ↦ rw (e, schedule_pod) v
        | inr (n, e) ↦
            rw (e, schedule_pod)
              (assign-Inv now pod required n t (rw e at (select_node-Chosen required t.nodes)).1 v)
      ])
]

schedule_pods-Inv :
    (now : Time) (pods : List Pod) (t : Pass) → Inv t → Inv (schedule_pods now pods t)
unfolding schedule_pods
schedule_pods-Inv now [] t v = v
schedule_pods-Inv now (pod ∷ pods) t v =
    schedule_pods-Inv now pods (schedule_pod now pod t) (schedule_pod-Inv now pod t v)

-- If before a scheduling pass no node of the store is oversubscribed and none runs more pods than
-- its limit, then the same holds after it, however many pods the pass places, whatever they ask for.
pub tick-IsWithin :
    (now : Time) (s : MemoryStore)
    → All IsWithin (values s.nodes)
    → All IsWithin (values (tick now s).0.nodes)
unfolding tick list_nodes
tick-IsWithin now s h =
    (schedule_pods-Inv now (pending_queue s) _ (record { copies = h; stored = h })).stored
