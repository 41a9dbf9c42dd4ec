-- ===== src/ControlPlane/Api/Statuses.antt =====
-- What a worker reports: the status of a pod, and that it is alive.
use backend_infra_platform.Base.{
  ◌&&◌, pos, eqb_ℤ, String, Bool, true, false, some, ◌≡◌, refl, arith, inl, inr, Bool-cases,
  eq_refl, if◌then◌else◌,
}
use backend_infra_platform.Base.SyncMap.{load, store, load-store}
use backend_infra_platform.ControlPlane.Model.Deployment.{Time}
use backend_infra_platform.ControlPlane.Model.Pod.{Pod, PodStatus, can_transition_pod}
use backend_infra_platform.ControlPlane.Model.Node.{
  Node, NodeStatus, node_status_eq, can_transition_node,
}
use backend_infra_platform.ControlPlane.State.{MemoryStore, ok, err, invalid_transition}
use backend_infra_platform.ControlPlane.State.Pods.{get_pod, transition_pod, apply_transition}
use backend_infra_platform.ControlPlane.State.Nodes.{get_node, update_node, transition_node}
use backend_infra_platform.ControlPlane.State.Effects.{transition_pod-ok, update_pod-ok}
use backend_infra_platform.ControlPlane.Api.{write_json, write_json_error}
use backend_infra_platform.ControlPlane.Api.Nodes.{
  status_error, PodStatusRequest, HeartbeatRequest, report, update_pod_status,
  release_node_capacity, heartbeat, beat, is_zero_capacity,
}

-- The pod with the outcome that the worker reports.
abbrev pub with_outcome : PodStatusRequest → Pod → Pod
with_outcome req p = record p { exit_code = req.exit_code; output = req.output }

release_node_capacity-pods :
    (node_id deployment_id : String) (s : MemoryStore)
    → (release_node_capacity node_id deployment_id s).pods ≡ s.pods
unfolding release_node_capacity update_node
release_node_capacity-pods node_id deployment_id s = ground arith

after_release-pods :
    (released : Bool) (node_id deployment_id : String) (s : MemoryStore)
    → (if released then release_node_capacity node_id deployment_id s else s).pods ≡ s.pods
after_release-pods true node_id deployment_id s = release_node_capacity-pods node_id deployment_id s
after_release-pods false node_id deployment_id s = refl

get_pod_found :
    (id : String) (s : MemoryStore) (p : Pod) → load id s.pods ≡ some p → get_pod id s ≡ ok p
unfolding get_pod
get_pod_found id s p h = ground arith

transition_pod_illegal :
    (now : Time) (id : String) (to : PodStatus) (msg : String) (s : MemoryStore) (p : Pod)
    → load id s.pods ≡ some p
    → can_transition_pod p.status to ≡ false
    → transition_pod now id to msg s ≡ err invalid_transition
unfolding transition_pod
transition_pod_illegal now id to msg s p found illegal = rw (found, transition_pod) (rw illegal)

-- The two writes of `report`, one after the other, and what follows them.
module _ (now : Time) (node_id : String) (p : Pod) (req : PodStatusRequest) (s : MemoryStore) where
  reported : MemoryStore
  reported = record s { pods = store p.id (with_outcome req p) s.pods }

  report_legal :
      load p.id s.pods ≡ some p
      → can_transition_pod p.status req.status ≡ true
      → (load p.id (report now node_id p req s).0.pods
          ≡ some (apply_transition now req.status req.error (with_outcome req p)))
        × ((report now node_id p req s).1.status ≡ 200)
  unfolding report write_json reported
  report_legal found legal =
      let there : load p.id reported.pods ≡ some (with_outcome req p) =
        rw (load-store, eq_refl) refl in
      rw (update_pod-ok (with_outcome req p) p s found, report)
        (rw
          (
            transition_pod-ok now p.id req.status req.error reported (with_outcome req p) there
                legal,
            report,
          )
          (rw after_release-pods (rw (load-store, eq_refl) refl), refl))

  report_illegal :
      load p.id s.pods ≡ some p
      → can_transition_pod p.status req.status ≡ false
      → (load p.id (report now node_id p req s).0.pods ≡ some (with_outcome req p))
        × ((report now node_id p req s).1.status ≡ 409)
  unfolding report write_json_error write_json reported status_error
  report_illegal found illegal =
      let there : load p.id reported.pods ≡ some (with_outcome req p) =
        rw (load-store, eq_refl) refl in
      rw (update_pod-ok (with_outcome req p) p s found, report)
        (rw
          (
            transition_pod_illegal now p.id req.status req.error reported (with_outcome req p) there
                illegal,
            report,
          )
          (rw (load-store, eq_refl) refl, refl))

-- Let the store hold the pod `p` under its identifier. Then a report on it, from any node, with any
-- status, always leaves the reported exit code and output in the stored pod. Where the pod may move
-- to the reported status it has moved there and the answer is 200; where it may not, the answer is
-- 409 and everything else of the pod is as it was.
pub update_pod_status-outcome :
    (now : Time) (node_id : String) (p : Pod) (req : PodStatusRequest) (s : MemoryStore)
    → load p.id s.pods ≡ some p
    → let legal = can_transition_pod p.status req.status in
      let after = update_pod_status now node_id p.id (some req) s in
      (load p.id after.0.pods
        ≡ some (
            if legal
            then apply_transition now req.status req.error (with_outcome req p)
            else with_outcome req p))
      × (after.1.status ≡ (if legal then 200 else 409))
unfolding update_pod_status
update_pod_status-outcome now node_id p req s found =
    rw (get_pod_found p.id s p found, update_pod_status)
      (elim (Bool-cases (can_transition_pod p.status req.status)) [
        | inl legal ↦ rw legal (report_legal now node_id p req s found legal)
        | inr illegal ↦ rw illegal (report_illegal now node_id p req s found illegal)
      ])

get_node_found :
    (id : String) (s : MemoryStore) (n : Node) → load id s.nodes ≡ some n → get_node id s ≡ ok n
unfolding get_node
get_node_found id s n h = ground arith

update_node_found :
    (n old : Node) (s : MemoryStore)
    → load n.id s.nodes ≡ some old
    → update_node n s ≡ ok (record s { nodes = store n.id n s.nodes })
unfolding update_node
update_node_found n old s h = ground arith

transition_node_found :
    (id : String) (to : NodeStatus) (s : MemoryStore) (n : Node)
    → load id s.nodes ≡ some n
    → can_transition_node n.status to ≡ true
    → transition_node id to s
      ≡ ok (record s { nodes = store id (record n { status = to }) s.nodes })
unfolding transition_node
transition_node_found id to s n h legal = rw (h, transition_node) (rw legal refl)

recovers :
    (n : Node)
    → node_status_eq n.status NodeStatus.unhealthy ≡ true
    → can_transition_node n.status NodeStatus.healthy ≡ true
unfolding node_status_eq can_transition_node
recovers n h = ground arith

-- Let the store hold the node `n` under its identifier. A heartbeat of it is answered with 200 and
-- leaves the node with the time of the heartbeat, the number of running jobs that it reports and the
-- capacity that it reports as available, unless that is zero in CPU and in memory, in which case the
-- available capacity stays. If it was unhealthy it is healthy again; any other status, draining and
-- removed included, stays. Every other field of the node is as it was.
pub heartbeat-recovers :
    (now : Time) (n : Node) (req : HeartbeatRequest) (s : MemoryStore)
    → load n.id s.nodes ≡ some n
    → let after = heartbeat now n.id req s in
      (load n.id after.0.nodes
        ≡ some (record n {
          last_heartbeat_at = now;
          running_jobs = req.running_jobs;
          available =
              if eqb_ℤ req.available.cpu (pos 0) && eqb_ℤ req.available.memory_mb (pos 0)
              then n.available
              else req.available;
          status =
              if node_status_eq n.status NodeStatus.unhealthy then NodeStatus.healthy else n.status;
        }))
      × (after.1.status ≡ 200)
unfolding heartbeat beat is_zero_capacity write_json
heartbeat-recovers now n req s found =
    let s₁ : MemoryStore = record s { nodes = store n.id (beat now req n) s.nodes } in
    let there : load n.id s₁.nodes ≡ some (beat now req n) = rw (load-store, eq_refl) refl in
    rw (get_node_found n.id s n found, heartbeat)
      (rw (update_node_found (beat now req n) n s found, heartbeat)
        (elim (Bool-cases (node_status_eq n.status NodeStatus.unhealthy)) [
          | inl e ↦ rw e (
              rw
                (
                  transition_node_found n.id NodeStatus.healthy s₁ (beat now req n) there
                      (recovers n e),
                  heartbeat,
                )
                (rw (load-store, eq_refl) refl, refl))
          | inr e ↦ rw e (there, refl)
        ]))
