-- ===== src/ControlPlane/Reconciler/Failed.antt =====
-- Pods that a worker reported as FAILED, under the passes of the reconciler and the scheduler.
use backend_infra_platform.Base.{
  ℕ, String, true, none, some, ◌≡◌, ◌∙◌, sym, ap, refl, inl, inr, arith, All, All-keep, Bool-cases,
  str_eq, eq_iff, subst,
}
use backend_infra_platform.Base.SyncMap.{
  load, load-store, values, load_unique, All-of_load, id_of_load, store-IsKeyed,
}
use backend_infra_platform.ControlPlane.Model.Deployment.{Time, DeploymentStatus}
use backend_infra_platform.ControlPlane.Model.Pod.{Pod, PodStatus, can_transition_pod}
use backend_infra_platform.ControlPlane.Model.Node.{NodeStatus}
use backend_infra_platform.ControlPlane.State.{MemoryStore, ok, or_keep, Result-cases}
use backend_infra_platform.ControlPlane.State.Deployments.{transition_deployment}
use backend_infra_platform.ControlPlane.State.Pods.{create_pod, list_pods_by_node, transition_pod}
use backend_infra_platform.ControlPlane.State.Nodes.{transition_node}
use backend_infra_platform.ControlPlane.State.Effects.{
  transition_pod-eq-ok, create_pod-eq-ok, KeyedPods, transition_pod-IsKeyed,
}
use backend_infra_platform.ControlPlane.Reconciler.{Pass, reschedule_pod, tick}
use backend_infra_platform.ControlPlane.Reconciler.Rule.{Rule, tick-keeps}
use backend_infra_platform.ControlPlane.Reconciler.Frame.{
  reschedule_pod-IsKeyed, reschedule_pod-other,
}

failed_not_cancelled :
    (q : Pod)
    → q.status ≡ PodStatus.failed
    → can_transition_pod q.status PodStatus.cancelled ≡ true
    → ⊥
unfolding can_transition_pod
failed_not_cancelled q e h = cc (rw e at h)

reschedule_pod_failed :
    (overflowed : ℕ) (now : Time) (q : Pod) (s : MemoryStore)
    → q.status ≡ PodStatus.failed
    → reschedule_pod overflowed now q s ≡ s
unfolding reschedule_pod
reschedule_pod_failed overflowed now q s e = ground arith

create_pod_new :
    (s : MemoryStore) {t : MemoryStore} (q : Pod) → create_pod q s ≡ ok t → load q.id s.pods ≡ none
unfolding create_pod
create_pod_new s q e = ground arith

-- The pods are keyed, and entry `k` is the failed pod `p`.
record Inv (k : String) (p : Pod) (s : MemoryStore) : Type 0 where
  keyed : KeyedPods s
  stored : load k s.pods ≡ some p

-- A pod that is read is either another one, or failed.
abbrev Reads : String → Pod → Type 0
Reads k q = str_eq q.id k ≡ true → q.status ≡ PodStatus.failed

module _ (k : String) (p : Pod) (failed : p.status ≡ PodStatus.failed) where
  same_pods : {s t : MemoryStore} → t.pods ≡ s.pods → Inv k p s → Inv k p t
  same_pods e v = record { keyed = rw e v.keyed; stored = rw e v.stored }

  create_pod-Inv : (q : Pod) (s : MemoryStore) → Inv k p s → Inv k p (or_keep s (create_pod q s))
  create_pod-Inv q s v = elim (Result-cases (create_pod q s)) [
    | inl (_, e) ↦ rw e v
    | inr (t, e) ↦ rw e (
        rw (create_pod-eq-ok s q e) (record {
          keyed = store-IsKeyed _ q.id q s.pods refl v.keyed;
          stored =
              ground
                (arith, load-store q.id k q s.pods, eq_iff q.id k, create_pod_new s q e, v.stored);
        }))
  ]

  cancel-Inv :
      (now : Time) (id : String) (msg : String) (s : MemoryStore)
      → Inv k p s
      → Inv k p (or_keep s (transition_pod now id PodStatus.cancelled msg s))
  cancel-Inv now id msg s v =
      elim (Result-cases (transition_pod now id PodStatus.cancelled msg s)) [
        | inl (_, e) ↦ rw e v
        | inr (t, e) ↦ rw e (
            let (q, found, legal, wrote) =
              transition_pod-eq-ok s now id PodStatus.cancelled msg e in
            record {
              keyed = transition_pod-IsKeyed s now id PodStatus.cancelled msg v.keyed e;
              stored = elim (Bool-cases (str_eq id k)) [
                | inr other ↦ rw wrote (rw (load-store, other) v.stored)
                | inl here ↦
                    let same = load_unique id k q p s.pods here found v.stored in
                    absurd (failed_not_cancelled q (ap (λ (x : Pod). x.status) same ∙ failed) legal)
              ];
            })
      ]

  transition_deployment-pods :
      (now : Time) (id : String) (to : DeploymentStatus) (s : MemoryStore)
      → (or_keep s (transition_deployment now id to s)).pods ≡ s.pods
  unfolding transition_deployment
  transition_deployment-pods now id to s = ground arith

  transition_node-pods :
      (id : String) (to : NodeStatus) (s : MemoryStore)
      → (or_keep s (transition_node id to s)).pods ≡ s.pods
  unfolding transition_node
  transition_node-pods id to s = ground arith

  list_pods_by_node-Reads :
      (node_id : String) (s : MemoryStore) → Inv k p s → All (Reads k) (list_pods_by_node node_id s)
  unfolding list_pods_by_node
  list_pods_by_node-Reads node_id s v = All-keep (Reads k) _ (values s.pods) (
      All-of_load (Reads k) _ s.pods v.keyed λ j q e here.
        let named = id_of_load _ j q s.pods v.keyed e in
        ap (λ (x : Pod). x.status)
          (load_unique q.id k q p s.pods here (subst (λ i. load i s.pods ≡ some q) (sym named) e)
            v.stored)
        ∙ failed)

  reschedule_pod-Inv :
      (overflowed : ℕ) (now : Time) (q : Pod) (s : MemoryStore)
      → Reads k q
      → Inv k p s
      → Inv k p (reschedule_pod overflowed now q s)
  reschedule_pod-Inv overflowed now q s r v = record {
    keyed = reschedule_pod-IsKeyed overflowed now q s v.keyed;
    stored = elim (Bool-cases (str_eq q.id k)) [
      | inr other ↦ reschedule_pod-other overflowed now q s k other ∙ v.stored
      | inl here ↦ rw (reschedule_pod_failed overflowed now q s (r here)) v.stored
    ];
  }

  failed_rule : (overflowed : ℕ) → Rule overflowed (Inv k p) (Reads k)
  failed_rule overflowed = record {
    creates = create_pod-Inv;
    cancels = λ now id s v. cancel-Inv now id _ s v;
    moves_deployment = λ now id to s v. same_pods (transition_deployment-pods now id to s) v;
    moves_node = λ id to s v. same_pods (transition_node-pods id to s) v;
    reads = list_pods_by_node-Reads;
    reschedules = reschedule_pod-Inv overflowed;
  }

-- A pod whose status is FAILED stays in the store exactly as it is through a pass of the reconciler,
-- whatever its attempts, its deployment's retries, and the nodes that time out: it is not retried.
pub tick_failed_stays :
    (overflowed heartbeat_timeout : ℕ) (now : Time) (t : Pass) (k : String) (p : Pod)
    → KeyedPods t.cluster
    → load k t.cluster.pods ≡ some p
    → p.status ≡ PodStatus.failed
    → load k (tick overflowed heartbeat_timeout now t).cluster.pods ≡ some p
tick_failed_stays overflowed heartbeat_timeout now t k p keyed stored failed =
    (tick-keeps (failed_rule k p failed overflowed) now heartbeat_timeout t
      (record { keyed = keyed; stored = stored })).stored
