-- ===== src/ControlPlane/Tests.antt =====
-- Runs of the scheduler and the reconciler on small clusters: the theorems at concrete inputs.
use Prim.Native.Nat.{min}
use backend_infra_platform.Base.{
  ◌*◌, ◌^◌, pos, ◌-ℤ◌, ◌≤ℤ◌, [], ◌∷◌, some, ◌≡◌, refl, ◌⊎◌, arith, All,
}
use backend_infra_platform.Base.SyncMap.{load, store, values}
use backend_infra_platform.ControlPlane.Model.Deployment.{Deployment}
use backend_infra_platform.ControlPlane.Model.Pod.{Pod, PodStatus, active, can_transition_pod}
use backend_infra_platform.ControlPlane.Model.Node.{NodeStatus, node_status_eq}
use backend_infra_platform.ControlPlane.State.{MemoryStore, new_memory_store}
use backend_infra_platform.ControlPlane.State.Pods.{
  list_pods_by_deployment, create_pod, transition_pod, apply_transition,
}
use backend_infra_platform.ControlPlane.State.Invariant.{
  IsWellFormed, StoreStep, StoreReach, StoreReach-IsWellFormed,
}
use backend_infra_platform.ControlPlane.Scheduler.{
  is_candidate, select_node, reserve, assign, is_ready,
}
use backend_infra_platform.ControlPlane.Scheduler as Scheduler
use backend_infra_platform.ControlPlane.Scheduler.Select.{Chosen, select_node-Chosen}
use backend_infra_platform.ControlPlane.Scheduler.Capacity.{IsWithin, tick-IsWithin}
use backend_infra_platform.ControlPlane.Scheduler.Placement.{PodOutcome, tick-PodOutcome}
use backend_infra_platform.ControlPlane.Scheduler.Race.{assign_resurrects}
use backend_infra_platform.ControlPlane.Reconciler as Reconciler
use backend_infra_platform.ControlPlane.Reconciler.{
  timed_out, cancellable_pods, is_cancellable, backoff, second, max_backoff, add_duration,
  reconcile_active, reschedule_pod, max_retries_of,
}
use backend_infra_platform.ControlPlane.Reconciler.Backoff.{backoff-eq-min, backoff_vanishes}
use backend_infra_platform.ControlPlane.Reconciler.Failed.{tick_failed_stays}
use backend_infra_platform.ControlPlane.Reconciler.Slots.{filled}
use backend_infra_platform.ControlPlane.Reconciler.Replicas.{reconcile_active-replicas}
use backend_infra_platform.ControlPlane.Reconciler.Reservations.{IsReserved, tick-IsReserved}
use backend_infra_platform.ControlPlane.Reconciler.Retries.{
  IsRequeued, IsDeadLettered, reschedule_pod_running, reschedule_pod_scheduled,
}
use backend_infra_platform.ControlPlane.Samples.{
  request, web, waiting, idle, cluster_of, cluster, with_status, lost,
}
use backend_infra_platform.ControlPlane.Reconciler.Detection.{detect_unhealthy_nodes-verdict}

select_node-Chosen_example : Chosen request (idle ∷ []) (select_node (idle ∷ []) request)
select_node-Chosen_example = select_node-Chosen request (idle ∷ [])

idle-IsWithin : IsWithin idle
idle-IsWithin = record { cpu = omega arith; memory = omega arith; jobs = λ h. omega arith }

tick-IsWithin_example : All IsWithin (values (Scheduler.tick 10 cluster).0.nodes)
unfolding values
tick-IsWithin_example = tick-IsWithin 10 cluster (idle-IsWithin, tt)

cluster-IsWellFormed : IsWellFormed cluster
unfolding load
cluster-IsWellFormed = record {
  deployments = (refl, refl, tt);
  pods = (refl, refl, tt);
  nodes = (refl, refl, tt);
  services = tt;
}

tick-PodOutcome_example :
    PodOutcome 10 cluster "pod_1" (load "pod_1" (Scheduler.tick 10 cluster).0.pods)
tick-PodOutcome_example = tick-PodOutcome 10 cluster cluster-IsWellFormed "pod_1"

abbrev one_pod : MemoryStore
one_pod = record new_memory_store { pods = ("pod_1", waiting) ∷ [] }

StoreReach-IsWellFormed_example : IsWellFormed one_pod
unfolding create_pod load store new_memory_store
StoreReach-IsWellFormed_example =
    StoreReach-IsWellFormed (StoreReach.next StoreReach.here (StoreStep.creates_pod waiting refl))

assign_resurrects_example :
    load "pod_1"
      (assign 9 waiting request idle (record {
        cluster = cluster_of (apply_transition 8 PodStatus.cancelled "" waiting);
        nodes = [];
        scheduled = 0;
      })).cluster.pods
    ≡ some (apply_transition 9 PodStatus.scheduled "" (record waiting { node_id = "node_1" }))
unfolding load store transition_pod can_transition_pod
assign_resurrects_example =
    assign_resurrects 8 9 "" waiting request idle
      (record {
        cluster = cluster_of (apply_transition 8 PodStatus.cancelled "" waiting);
        nodes = [];
        scheduled = 0;
      })
      cluster refl refl refl

-- Three slots are filled where one is asked for, two of them by running pods: one slot is freed.
abbrev crowded : MemoryStore
crowded = record cluster {
  pods =
      ("pod_1", lost)
      ∷ ("pod_2", record waiting { id = "pod_2" })
      ∷ ("pod_3", record lost { id = "pod_3" })
      ∷ [];
}

abbrev single : Deployment
single = record web { replicas = pos 1 }

reconcile_active-replicas_example :
    pos (filled single (reconcile_active 7 single (record { cluster = crowded; ids = [] })).cluster)
    ≡ pos 2
unfolding load values list_pods_by_deployment active ◌-ℤ◌
reconcile_active-replicas_example =
    reconcile_active-replicas 7 single (record { cluster = crowded; ids = [] })
      (refl, refl, (refl, refl, (refl, refl, tt))) tt

backoff-eq-min_example : backoff 0 5 ≡ min (2 ^ 5 * second) max_backoff
backoff-eq-min_example = backoff-eq-min 0 5 (omega arith)

backoff_vanishes_example : backoff 0 60 ≡ 0
backoff_vanishes_example = backoff_vanishes 0 60 (omega arith) (omega arith)

tick_failed_stays_example :
    load "pod_1"
      (Reconciler.tick 0 30 100
        (record { cluster = cluster_of (with_status PodStatus.failed); ids = [] })).cluster.pods
    ≡ some (with_status PodStatus.failed)
unfolding load
tick_failed_stays_example =
    tick_failed_stays 0 30 100
      (record { cluster = cluster_of (with_status PodStatus.failed); ids = [] }) "pod_1"
      (with_status PodStatus.failed) (refl, refl, tt) refl refl

tick-IsReserved_example :
    IsReserved "node_1" idle
      (Reconciler.tick 0 30 100 (record { cluster = cluster; ids = [] })).cluster
unfolding load
tick-IsReserved_example =
    tick-IsReserved 0 30 100 (record { cluster = cluster; ids = [] }) "node_1" idle refl

reschedule_pod_running_example :
    (q : Pod) × (load "pod_1" (reschedule_pod 0 100 lost (cluster_of lost)).pods ≡ some q)
    × ((pos 1 ≤ℤ max_retries_of lost (cluster_of lost))
          × IsRequeued 1 (add_duration 100 (backoff 0 1)) q
        ⊎ (¬ (pos 1 ≤ℤ max_retries_of lost (cluster_of lost))) × IsDeadLettered 1 q)
unfolding load
reschedule_pod_running_example = reschedule_pod_running 0 100 lost (cluster_of lost) refl refl

abbrev dispatched : Pod
dispatched = with_status PodStatus.scheduled

reschedule_pod_scheduled_example :
    (q : Pod) × (load "pod_1" (reschedule_pod 0 100 dispatched (cluster_of dispatched)).pods
      ≡ some q)
    × IsRequeued 0 0 q
unfolding load
reschedule_pod_scheduled_example =
    reschedule_pod_scheduled 0 100 dispatched (cluster_of dispatched) refl refl

detect_unhealthy_nodes-verdict_example :
    load "node_1" (Reconciler.detect_unhealthy_nodes 0 30 100 cluster).nodes
    ≡ some (record idle { status = NodeStatus.unhealthy })
unfolding load node_status_eq timed_out
detect_unhealthy_nodes-verdict_example =
    detect_unhealthy_nodes-verdict 0 30 100 cluster "node_1" idle (refl, refl, tt) refl
