-- ===== src/ControlPlane/Scheduler/Placement.antt =====
-- What a scheduling pass does to the pods.
use backend_infra_platform.Base.{
  String, true, List, [], ◌∷◌, Option, some, ◌≡◌, refl, ◌∙◌, sym, ap, ◌⊎◌, inl, inr, arith, All,
  All-mem, keep-All, subst, Bool-cases, Option-cases, eq_iff, str_eq, eq_refl,
}
use mathlib.Core.List.{Memᴰ}
use backend_infra_platform.Base.SyncMap.{load, values, store, load-store, All-of_load, id_of_load}
use backend_infra_platform.Base.Sort.{sort_slice-All}
use backend_infra_platform.ControlPlane.Model.Deployment.{Time, ResourceRequest}
use backend_infra_platform.ControlPlane.Model.Pod.{
  Pod, PodStatus, pod_status_eq, can_transition_pod, pod_status_eq_iff_to,
}
use backend_infra_platform.ControlPlane.Model.Node.{Node, NodeStatus, node_status_eq}
use backend_infra_platform.ControlPlane.State.{MemoryStore, Result-cases}
use backend_infra_platform.ControlPlane.State.Pods.{
  update_pod, apply_transition, list_pods_by_status,
}
use backend_infra_platform.ControlPlane.State.Nodes.{list_nodes}
use backend_infra_platform.ControlPlane.State.Invariant.{IsWellFormed}
use backend_infra_platform.ControlPlane.State.Effects.{
  update_pod-eq-ok, transition_pod-ok, update_node-pods,
}
use backend_infra_platform.ControlPlane.Scheduler.{
  Pass, is_candidate, select_node, reserve, commit, assign, schedule_pod, schedule_pods,
  required_for, is_ready, tick, pending_queue, older,
}
use backend_infra_platform.ControlPlane.Scheduler.Copies.{write_node-All}
use backend_infra_platform.ControlPlane.Scheduler.Select.{select_node-Chosen}

-- The pod that a pass places: the pod as it was, with the node and the status of its dispatch.
abbrev placed : Time → Pod → Node → Pod
placed now pod node = apply_transition now PodStatus.scheduled "" (record pod { node_id = node.id })

-- Entry `k` was a pending pod that was ready, and is dispatched now to a node that was healthy.
pub record IsPlaced (now : Time) (s : MemoryStore) (k : String) (o : Option Pod) : Type 0 where
  pub pod : Pod
  pub node : Node
  pub was : load k s.pods ≡ some pod
  pub pending : pod.status ≡ PodStatus.pending
  pub ready : is_ready now pod ≡ true
  pub known : load node.id s.nodes ≡ some node
  pub healthy : node.status ≡ NodeStatus.healthy
  pub becomes : o ≡ some (placed now pod node)

abbrev pub PodOutcome : Time → MemoryStore → String → Option Pod → Type 0
PodOutcome now s k o = (o ≡ load k s.pods) ⊎ IsPlaced now s k o

-- `n` stands for a node of the store, at another load.
record IsCopy (s : MemoryStore) (n : Node) : Type 0 where
  original : Node
  known : load n.id s.nodes ≡ some original
  same_id : original.id ≡ n.id
  same_status : original.status ≡ n.status

abbrev IsSnapshot : MemoryStore → Pod → Type 0
IsSnapshot s p = (load p.id s.pods ≡ some p) × (p.status ≡ PodStatus.pending)

pending_to_scheduled : can_transition_pod PodStatus.pending PodStatus.scheduled ≡ true
unfolding can_transition_pod
pending_to_scheduled = refl

module _ (now : Time) (s : MemoryStore) where
  record Inv (t : Pass) : Type 0 where
    outcome : (k : String) → PodOutcome now s k (load k t.cluster.pods)
    copies : All (IsCopy s) t.nodes

  candidate-healthy :
      (required : ResourceRequest) (n : Node)
      → is_candidate required n ≡ true
      → n.status ≡ NodeStatus.healthy
  unfolding is_candidate node_status_eq
  candidate-healthy required n c = ground arith

  reserve-IsCopy :
      (required : ResourceRequest) (n : Node) → IsCopy s n → IsCopy s (reserve required n)
  unfolding reserve
  reserve-IsCopy required n c = record {
    original = c.original;
    known = c.known;
    same_id = c.same_id;
    same_status = c.same_status;
  }

  -- The entries after `pod` was given to a healthy node.
  placed-outcome :
      (pod : Pod) (n m : Node) (t : Pass)
      → IsSnapshot s pod
      → is_ready now pod ≡ true
      → load n.id s.nodes ≡ some m
      → m.status ≡ NodeStatus.healthy
      → m.id ≡ n.id
      → ((k : String) → PodOutcome now s k (load k t.cluster.pods))
      → (k : String)
      → PodOutcome now s k (
          load k (
            store pod.id
              (placed now pod n)
              (store pod.id (record pod { node_id = n.id }) t.cluster.pods)))
  placed-outcome pod n m t snap ready known healthy same old k =
      elim (Bool-cases (str_eq pod.id k)) [
        | inl here ↦
            let e : pod.id ≡ k = (eq_iff pod.id k).0 here in
            inr (record {
              pod = pod;
              node = m;
              was = subst (λ j. load j s.pods ≡ some pod) e snap.0;
              pending = snap.1;
              ready = ready;
              known = subst (λ i. load i s.nodes ≡ some m) (sym same) known;
              healthy = healthy;
              becomes =
                  rw (load-store, here)
                    (ap
                      (λ (i : String).
                        some (
                          apply_transition now PodStatus.scheduled "" (record pod { node_id = i })))
                      (sym same));
            })
        | inr there ↦ rw (load-store, there) (rw (load-store, there) (old k))
      ]

  assign-Inv :
      (pod : Pod) (required : ResourceRequest) (n : Node) (t : Pass)
      → is_candidate required n ≡ true
      → Memᴰ n t.nodes
      → IsSnapshot s pod
      → is_ready now pod ≡ true
      → Inv t
      → Inv (assign now pod required n t)
  unfolding assign commit
  assign-Inv pod required n t c m snap ready v =
      let pod' : Pod = record pod { node_id = n.id } in
      let copy = All-mem (IsCopy s) n t.nodes v.copies m in
      elim (Result-cases (update_pod pod' t.cluster)) [
        | inl (_, e) ↦ rw (e, assign) v
        | inr (u, e) ↦
            let legal : can_transition_pod pod.status PodStatus.scheduled ≡ true =
              rw snap.1 pending_to_scheduled in
            let wrote = update_pod-eq-ok t.cluster pod' e in
            let moved =
              transition_pod-ok now pod.id PodStatus.scheduled "" u pod'
                (rw wrote (rw (load-store, eq_refl) refl)) legal in
            rw (e, assign)
              (rw moved (record {
                outcome = λ k. rw update_node-pods (
                    rw wrote (
                      placed-outcome pod n copy.original t snap ready copy.known
                        (copy.same_status ∙ candidate-healthy required n c) copy.same_id v.outcome
                        k));
                copies =
                    write_node-All (IsCopy s) (reserve required n) t.nodes
                      (reserve-IsCopy required n copy) v.copies;
              }))
      ]

  schedule_pod-Inv :
      (pod : Pod) (t : Pass) → IsSnapshot s pod → Inv t → Inv (schedule_pod now pod t)
  unfolding schedule_pod
  schedule_pod-Inv pod t snap v = elim (Bool-cases (is_ready now pod)) [
    | inr wait ↦ rw wait v
    | inl ready ↦ rw ready (
        let required = required_for pod t.cluster in
        elim (Option-cases (select_node t.nodes required)) [
          | inl e ↦ rw (e, schedule_pod) v
          | inr (n, e) ↦
              let chosen = rw e at (select_node-Chosen required t.nodes) in
              rw (e, schedule_pod) (assign-Inv pod required n t chosen.1 chosen.0 snap ready v)
        ])
  ]

  schedule_pods-Inv :
      (pods : List Pod) (t : Pass)
      → All (IsSnapshot s) pods
      → Inv t
      → Inv (schedule_pods now pods t)
  unfolding schedule_pods
  schedule_pods-Inv [] t snaps v = v
  schedule_pods-Inv (pod ∷ pods) t snaps v =
      schedule_pods-Inv pods (schedule_pod now pod t) snaps.1 (schedule_pod-Inv pod t snaps.0 v)

-- The queue of a pass holds pending pods as the store has them.
pending_queue-IsSnapshot : (s : MemoryStore) → IsWellFormed s → All (IsSnapshot s) (pending_queue s)
unfolding pending_queue list_pods_by_status
pending_queue-IsSnapshot s w = sort_slice-All older (IsSnapshot s) _ (
    keep-All (λ p. load p.id s.pods ≡ some p) (λ p. p.status ≡ PodStatus.pending)
      (λ p. pod_status_eq p.status PodStatus.pending)
      (λ p h. pod_status_eq_iff_to p.status PodStatus.pending h) (values s.pods)
      (All-of_load _ (λ (p : Pod). p.id) s.pods w.pods
        (λ k p e. subst (λ j. load j s.pods ≡ some p) (sym (id_of_load _ k p s.pods w.pods e)) e)))

-- In a store whose entities stand under their identifiers, a scheduling pass leaves each entry of the
-- pods as it was, or it dispatches it: then the entry was a pending pod past its backoff, and becomes
-- that pod with the status of a dispatch and the identifier of a node that the store has as healthy.
pub tick-PodOutcome :
    (now : Time) (s : MemoryStore)
    → IsWellFormed s
    → (k : String) → PodOutcome now s k (load k (tick now s).0.pods)
unfolding tick list_nodes
tick-PodOutcome now s w k =
    (schedule_pods-Inv now s (pending_queue s) _ (pending_queue-IsSnapshot s w) (record {
      outcome = λ j. inl refl;
      copies =
          All-of_load _ (λ (n : Node). n.id) s.nodes w.nodes
            λ j n e. record {
              original = n;
              known =
                  subst (λ i. load i s.nodes ≡ some n) (sym (id_of_load _ j n s.nodes w.nodes e)) e;
              same_id = refl;
              same_status = refl;
            };
    })).outcome
      k
