-- ===== src/ControlPlane/Reconciler/Rule.antt =====
-- A proof rule for a pass of the reconciler: what each of its writes keeps, the pass keeps.
use backend_infra_platform.Base.{
  ℕ, zero, suc, String, List, [], ◌∷◌, Option, none, some, ◌≡◌, refl, inl, inr, All, Bool-cases,
  not, ◌&&◌, pos, ltb_ℤ, count_if, ◌==◌,
}
use backend_infra_platform.ControlPlane.Model.Deployment.{
  Time, Deployment, DeploymentStatus, deployment_status_eq,
}
use backend_infra_platform.ControlPlane.Model.Pod.{Pod, PodStatus, active}
use backend_infra_platform.ControlPlane.Model.Node.{Node, NodeStatus, node_status_eq}
use backend_infra_platform.ControlPlane.State.{MemoryStore, or_keep, Result-cases}
use backend_infra_platform.ControlPlane.State.Deployments.{transition_deployment}
use backend_infra_platform.ControlPlane.State.Pods.{create_pod, list_pods_by_node, transition_pod}
use backend_infra_platform.ControlPlane.State.Nodes.{transition_node}
use backend_infra_platform.ControlPlane.Reconciler.{
  Pass, is_dead_letter, timed_out, create_one, create_pods, cancel_pods, match_replicas, judge,
  reconcile_active, reconcile_deployment, reconcile_each, reconcile_deployments, reschedule_pod,
  reschedule_each, reschedule_pods_for, lose_node, detect_node, detect_each, detect_unhealthy_nodes,
  tick,
}

-- `P` is the invariant on the store, and `R` what it says of a pod that is read from the store.
pub record Rule (overflowed : ℕ) (P : MemoryStore → Type 0) (R : Pod → Type 0) : Type 0 where
  pub creates : (p : Pod) (s : MemoryStore) → P s → P (or_keep s (create_pod p s))
  pub cancels :
      (now : Time) (id : String) (s : MemoryStore)
      → P s
      → P (or_keep s (transition_pod now id PodStatus.cancelled "deployment scaled down" s))
  pub moves_deployment :
      (now : Time) (id : String) (to : DeploymentStatus) (s : MemoryStore)
      → P s
      → P (or_keep s (transition_deployment now id to s))
  pub moves_node :
      (id : String) (to : NodeStatus) (s : MemoryStore)
      → P s
      → P (or_keep s (transition_node id to s))
  pub reads : (node_id : String) (s : MemoryStore) → P s → All R (list_pods_by_node node_id s)
  pub reschedules :
      (now : Time) (p : Pod) (s : MemoryStore) → R p → P s → P (reschedule_pod overflowed now p s)

module _ {overflowed : ℕ} {P : MemoryStore → Type 0} {R : Pod → Type 0} (rule : Rule overflowed P R)
    (now : Time) where
  open rule use {creates, cancels, moves_deployment, moves_node, reads, reschedules}

  create_one-keeps : (d : Deployment) (t : Pass) → P t.cluster → P (create_one now d t).cluster
  unfolding create_one
  create_one-keeps d t h = go t.ids refl
    where
      go : (ids : List (Option String)) → t.ids ≡ ids → P (create_one now d t).cluster
      go [] e = rw (e, create_one) h
      go (none ∷ rest) e = rw (e, create_one) h
      go (some id ∷ rest) e = rw (e, create_one) (creates _ t.cluster h)

  create_pods-keeps :
      (d : Deployment) (n : ℕ) (t : Pass) → P t.cluster → P (create_pods now d n t).cluster
  unfolding create_pods
  create_pods-keeps d zero t h = h
  create_pods-keeps d (suc n) t h =
      create_pods-keeps d n (create_one now d t) (create_one-keeps d t h)

  cancel_pods-keeps : (n : ℕ) (ps : List Pod) (s : MemoryStore) → P s → P (cancel_pods now n ps s)
  unfolding cancel_pods
  cancel_pods-keeps zero ps s h = h
  cancel_pods-keeps (suc n) [] s h = h
  cancel_pods-keeps (suc n) (p ∷ ps) s h = cancel_pods-keeps n ps _ (cancels now p.id s h)

  match_replicas-keeps :
      (d : Deployment) (pods : List Pod) (t : Pass)
      → P t.cluster
      → P (match_replicas now d pods t).cluster
  unfolding match_replicas
  match_replicas-keeps d pods t h =
      let running = pos (count_if active pods) in
      elim (Bool-cases (ltb_ℤ running d.replicas)) [
        | inl few ↦ rw few (create_pods-keeps d _ t h)
        | inr enough ↦ rw enough (elim (Bool-cases (ltb_ℤ d.replicas running)) [
          | inl many ↦ rw many (cancel_pods-keeps _ _ t.cluster h)
          | inr equal ↦ rw equal h
        ])
      ]

  judge-keeps : (d : Deployment) (pods : List Pod) (s : MemoryStore) → P s → P (judge now d pods s)
  unfolding judge
  judge-keeps d pods s h =
      let dead = not (count_if is_dead_letter pods == 0) in
      elim (Bool-cases (dead && deployment_status_eq d.status DeploymentStatus.active)) [
        | inl worse ↦ rw worse (moves_deployment now d.id DeploymentStatus.degraded s h)
        | inr same ↦
            rw same
              (elim (Bool-cases
                (not dead && deployment_status_eq d.status DeploymentStatus.degraded)) [
                  | inl better ↦ rw better (moves_deployment now d.id DeploymentStatus.active s h)
                  | inr still ↦ rw still h
                ])
      ]

  reconcile_active-keeps :
      (d : Deployment) (t : Pass) → P t.cluster → P (reconcile_active now d t).cluster
  unfolding reconcile_active
  reconcile_active-keeps d t h = judge-keeps d _ _ (match_replicas-keeps d _ t h)

  reconcile_deployment-keeps :
      (d : Deployment) (t : Pass) → P t.cluster → P (reconcile_deployment now d t).cluster
  unfolding reconcile_deployment
  reconcile_deployment-keeps d t h =
      elim (Bool-cases (deployment_status_eq d.status DeploymentStatus.cancelled)) [
        | inl gone ↦ rw gone h
        | inr lives ↦
            rw lives (elim (Bool-cases (deployment_status_eq d.status DeploymentStatus.pending)) [
              | inr started ↦ rw started (reconcile_active-keeps d t h)
              | inl fresh ↦ rw fresh (
                  let moved = moves_deployment now d.id DeploymentStatus.active t.cluster h in
                  elim (Result-cases
                    (transition_deployment now d.id DeploymentStatus.active t.cluster)) [
                      | inl (_, e) ↦ rw (e, reconcile_deployment) h
                      | inr (s, e) ↦
                          rw (e, reconcile_deployment) (reconcile_active-keeps _ _ (rw e at moved))
                    ])
            ])
      ]

  reconcile_each-keeps :
      (ds : List Deployment) (t : Pass) → P t.cluster → P (reconcile_each now ds t).cluster
  unfolding reconcile_each
  reconcile_each-keeps [] t h = h
  reconcile_each-keeps (d ∷ ds) t h =
      reconcile_each-keeps ds (reconcile_deployment now d t) (reconcile_deployment-keeps d t h)

  reschedule_each-keeps :
      (ps : List Pod) (s : MemoryStore) → All R ps → P s → P (reschedule_each overflowed now ps s)
  unfolding reschedule_each
  reschedule_each-keeps [] s r h = h
  reschedule_each-keeps (p ∷ ps) s r h =
      reschedule_each-keeps ps (reschedule_pod overflowed now p s) r.1 (reschedules now p s r.0 h)

  lose_node-keeps :
      (n : Node) (to : NodeStatus) (s : MemoryStore) → P s → P (lose_node overflowed now n to s)
  unfolding lose_node reschedule_pods_for
  lose_node-keeps n to s h =
      let moved = moves_node n.id to s h in
      elim (Result-cases (transition_node n.id to s)) [
        | inl (_, e) ↦ rw (e, lose_node) h
        | inr (s', e) ↦
            let h' = rw e at moved in
            rw (e, lose_node) (reschedule_each-keeps _ s' (reads n.id s' h') h')
      ]

  module _ (heartbeat_timeout : ℕ) where
    detect_node-keeps :
        (n : Node) (s : MemoryStore) → P s → P (detect_node overflowed heartbeat_timeout now n s)
    unfolding detect_node
    detect_node-keeps n s h =
        let late = timed_out heartbeat_timeout now n in
        elim (Bool-cases (node_status_eq n.status NodeStatus.healthy && late)) [
          | inl lost ↦ rw lost (lose_node-keeps n NodeStatus.unhealthy s h)
          | inr there ↦
              rw there (elim (Bool-cases (node_status_eq n.status NodeStatus.draining && late)) [
                | inl drained ↦ rw drained (lose_node-keeps n NodeStatus.removed s h)
                | inr stays ↦ rw stays h
              ])
        ]

    detect_each-keeps :
        (ns : List Node) (s : MemoryStore)
        → P s
        → P (detect_each overflowed heartbeat_timeout now ns s)
    unfolding detect_each
    detect_each-keeps [] s h = h
    detect_each-keeps (n ∷ ns) s h = detect_each-keeps ns _ (detect_node-keeps n s h)

    -- What every write of the reconciler keeps, a whole pass keeps.
    pub tick-keeps : (t : Pass) → P t.cluster → P (tick overflowed heartbeat_timeout now t).cluster
    unfolding tick reconcile_deployments detect_unhealthy_nodes
    tick-keeps t h = detect_each-keeps _ _ (reconcile_each-keeps _ t h)
