-- ===== src/ControlPlane/Reconciler/Reservations.antt =====
-- What a pass of the reconciler does to the capacity that the scheduler reserved on a node.
use backend_infra_platform.Base.{
  ℕ, String, List, some, [], ◌∷◌, ◌≡◌, ◌∙◌, ap, refl, inl, inr, arith, All, Bool-cases, str_eq,
}
use backend_infra_platform.Base.SyncMap.{load, load-store, load_unique}
use backend_infra_platform.ControlPlane.Model.Deployment.{Time, DeploymentStatus}
use backend_infra_platform.ControlPlane.Model.Pod.{Pod, PodStatus}
use backend_infra_platform.ControlPlane.Model.Node.{Node, NodeStatus}
use backend_infra_platform.ControlPlane.State.{MemoryStore, or_keep, Result-cases}
use backend_infra_platform.ControlPlane.State.Deployments.{transition_deployment}
use backend_infra_platform.ControlPlane.State.Pods.{create_pod, transition_pod}
use backend_infra_platform.ControlPlane.State.Nodes.{transition_node}
use backend_infra_platform.ControlPlane.State.Effects.{transition_node-eq-ok}
use backend_infra_platform.ControlPlane.Reconciler.{Pass, tick}
use backend_infra_platform.ControlPlane.Reconciler.Rule.{Rule, tick-keeps}
use backend_infra_platform.ControlPlane.Reconciler.Frame.{reschedule_pod-nodes}

-- Node `k` is registered, and its counts are those of `n`.
pub record IsReserved (k : String) (n : Node) (s : MemoryStore) : Type 0 where
  pub node : Node
  pub known : load k s.nodes ≡ some node
  pub jobs : node.running_jobs ≡ n.running_jobs
  pub cpu : node.available.cpu ≡ n.available.cpu
  pub memory : node.available.memory_mb ≡ n.available.memory_mb

module _ (k : String) (n : Node) where
  same_nodes : {s t : MemoryStore} → t.nodes ≡ s.nodes → IsReserved k n s → IsReserved k n t
  same_nodes e r = record {
    node = r.node;
    known = rw e r.known;
    jobs = r.jobs;
    cpu = r.cpu;
    memory = r.memory;
  }

  create_pod-same : (p : Pod) (s : MemoryStore) → (or_keep s (create_pod p s)).nodes ≡ s.nodes
  unfolding create_pod
  create_pod-same p s = ground arith

  transition_pod-same :
      (now : Time) (id : String) (to : PodStatus) (msg : String) (s : MemoryStore)
      → (or_keep s (transition_pod now id to msg s)).nodes ≡ s.nodes
  unfolding transition_pod
  transition_pod-same now id to msg s = ground arith

  transition_deployment-same :
      (now : Time) (id : String) (to : DeploymentStatus) (s : MemoryStore)
      → (or_keep s (transition_deployment now id to s)).nodes ≡ s.nodes
  unfolding transition_deployment
  transition_deployment-same now id to s = ground arith

  transition_node-IsReserved :
      (id : String) (to : NodeStatus) (s : MemoryStore)
      → IsReserved k n s
      → IsReserved k n (or_keep s (transition_node id to s))
  transition_node-IsReserved id to s r = elim (Result-cases (transition_node id to s)) [
    | inl (_, e) ↦ rw e r
    | inr (t, e) ↦
        let (m, found, _, wrote) = transition_node-eq-ok s id to e in
        rw e (
          rw wrote (elim (Bool-cases (str_eq id k)) [
            | inr other ↦ record {
              node = r.node;
              known = rw (load-store, other) r.known;
              jobs = r.jobs;
              cpu = r.cpu;
              memory = r.memory;
            }
            | inl here ↦
                let same = load_unique id k m r.node s.nodes here found r.known in
                record {
                  node = record m { status = to };
                  known = rw (load-store, here) refl;
                  jobs = ap (λ (x : Node). x.running_jobs) same ∙ r.jobs;
                  cpu = ap (λ (x : Node). x.available.cpu) same ∙ r.cpu;
                  memory = ap (λ (x : Node). x.available.memory_mb) same ∙ r.memory;
                }
          ]))
  ]

  All-any : (ps : List Pod) → All (λ _. Unit {0}) ps
  All-any [] = tt
  All-any (p ∷ ps) = (tt, All-any ps)

  IsReserved-rule : (overflowed : ℕ) → Rule overflowed (IsReserved k n) (λ _. Unit {0})
  IsReserved-rule overflowed = record {
    creates = λ p s r. same_nodes (create_pod-same p s) r;
    cancels = λ now id s r. same_nodes (transition_pod-same now id _ _ s) r;
    moves_deployment = λ now id to s r. same_nodes (transition_deployment-same now id to s) r;
    moves_node = transition_node-IsReserved;
    reads = λ id s r. All-any _;
    reschedules = λ now p s _ r. same_nodes (reschedule_pod-nodes overflowed now p s) r;
  }

-- A pass of the reconciler leaves the count of running pods and the available resources of every
-- registered node as they were, whatever pods it cancels, requeues or gives up: a reservation of the
-- scheduler is never released here.
pub tick-IsReserved :
    (overflowed heartbeat_timeout : ℕ) (now : Time) (t : Pass) (k : String) (n : Node)
    → load k t.cluster.nodes ≡ some n
    → IsReserved k n (tick overflowed heartbeat_timeout now t).cluster
tick-IsReserved overflowed heartbeat_timeout now t k n known =
    tick-keeps (IsReserved-rule k n overflowed) now heartbeat_timeout t
      (record { node = n; known = known; jobs = refl; cpu = refl; memory = refl })
