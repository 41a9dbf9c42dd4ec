-- ===== src/ControlPlane/State/Effects.antt =====
-- What a successful write did: the inversion of each operation of the store that writes.
use backend_infra_platform.Base.{String, ◌≡◌, refl, ◌∙◌, arith, some, true, inl, inr, Option-cases}
use backend_infra_platform.Base.SyncMap.{load, store, delete, IsKeyed, store-IsKeyed, id_of_load}
use backend_infra_platform.ControlPlane.Model.Deployment.{Time, Deployment, DeploymentStatus}
use backend_infra_platform.ControlPlane.Model.Pod.{Pod, PodStatus, can_transition_pod}
use backend_infra_platform.ControlPlane.Model.Node.{Node, NodeStatus, can_transition_node}
use backend_infra_platform.ControlPlane.Model.Service.{Service}
use backend_infra_platform.ControlPlane.State.{MemoryStore, ok, or_keep}
use backend_infra_platform.ControlPlane.State.Deployments.{
  create_deployment, update_deployment, transition_deployment, delete_deployment,
}
use backend_infra_platform.ControlPlane.State.Pods.{
  create_pod, update_pod, apply_transition, transition_pod,
}
use backend_infra_platform.ControlPlane.State.Nodes.{register_node, update_node, transition_node}
use backend_infra_platform.ControlPlane.State.Services.{upsert_service, delete_service}

module _ (s : MemoryStore) {t : MemoryStore} where
  pub create_deployment-eq-ok :
      (d : Deployment)
      → create_deployment d s ≡ ok t
      → t ≡ record s { deployments = store d.id d s.deployments }
  unfolding create_deployment
  create_deployment-eq-ok d h = ground arith

  pub update_deployment-eq-ok :
      (now : Time) (d : Deployment)
      → update_deployment now d s ≡ ok t
      → t ≡ record s { deployments = store d.id (record d { updated_at = now }) s.deployments }
  unfolding update_deployment
  update_deployment-eq-ok now d h = ground arith

  pub transition_deployment-eq-ok :
      (now : Time) (id : String) (to : DeploymentStatus)
      → transition_deployment now id to s ≡ ok t
      → (d : Deployment) × (load id s.deployments ≡ some d)
        × (t ≡ record s {
          deployments = store id (record d { status = to; updated_at = now }) s.deployments;
        })
  unfolding transition_deployment
  transition_deployment-eq-ok now id to h = elim (Option-cases (load id s.deployments)) [
    | inl missing ↦ absurd (ground arith)
    | inr (old, found) ↦ (old, found, ground arith)
  ]

  pub delete_deployment-eq-ok :
      (id : String)
      → delete_deployment id s ≡ ok t
      → t ≡ record s { deployments = delete id s.deployments }
  unfolding delete_deployment
  delete_deployment-eq-ok id h = ground arith

  pub create_pod-eq-ok :
      (p : Pod) → create_pod p s ≡ ok t → t ≡ record s { pods = store p.id p s.pods }
  unfolding create_pod
  create_pod-eq-ok p h = ground arith

  pub update_pod-eq-ok :
      (p : Pod) → update_pod p s ≡ ok t → t ≡ record s { pods = store p.id p s.pods }
  unfolding update_pod
  update_pod-eq-ok p h = ground arith

  pub transition_pod-eq-ok :
      (now : Time) (id : String) (to : PodStatus) (msg : String)
      → transition_pod now id to msg s ≡ ok t
      → (p : Pod) × (load id s.pods ≡ some p)
        × (can_transition_pod p.status to ≡ true)
        × (t ≡ record s { pods = store id (apply_transition now to msg p) s.pods })
  unfolding transition_pod
  transition_pod-eq-ok now id to msg h = elim (Option-cases (load id s.pods)) [
    | inl missing ↦ absurd (ground arith)
    | inr (old, found) ↦ (old, found, ground arith, ground arith)
  ]

  pub register_node-eq-ok :
      (n : Node) → register_node n s ≡ ok t → t ≡ record s { nodes = store n.id n s.nodes }
  unfolding register_node
  register_node-eq-ok n h = ground arith

  pub update_node-eq-ok :
      (n : Node) → update_node n s ≡ ok t → t ≡ record s { nodes = store n.id n s.nodes }
  unfolding update_node
  update_node-eq-ok n h = ground arith

  pub transition_node-eq-ok :
      (id : String) (to : NodeStatus)
      → transition_node id to s ≡ ok t
      → (n : Node) × (load id s.nodes ≡ some n)
        × (can_transition_node n.status to ≡ true)
        × (t ≡ record s { nodes = store id (record n { status = to }) s.nodes })
  unfolding transition_node
  transition_node-eq-ok id to h = elim (Option-cases (load id s.nodes)) [
    | inl missing ↦ absurd (ground arith)
    | inr (old, found) ↦ (old, found, ground arith, ground arith)
  ]

  pub upsert_service-eq-ok :
      (now : Time) (v : Service)
      → upsert_service now v s ≡ ok t
      → t ≡ record s { services = store v.id (record v { updated_at = now }) s.services }
  unfolding upsert_service
  upsert_service-eq-ok now v h = ground arith

  pub delete_service-eq-ok :
      (id : String) → delete_service id s ≡ ok t → t ≡ record s { services = delete id s.services }
  unfolding delete_service
  delete_service-eq-ok id h = ground arith

  -- A write to the pods leaves the other maps alone.
  pub create_pod-nodes : (p : Pod) → create_pod p s ≡ ok t → t.nodes ≡ s.nodes
  unfolding create_pod
  create_pod-nodes p h = ground arith

  pub update_pod-nodes : (p : Pod) → update_pod p s ≡ ok t → t.nodes ≡ s.nodes
  unfolding update_pod
  update_pod-nodes p h = ground arith

  pub transition_pod-nodes :
      (now : Time) (id : String) (to : PodStatus) (msg : String)
      → transition_pod now id to msg s ≡ ok t
      → t.nodes ≡ s.nodes
  unfolding transition_pod
  transition_pod-nodes now id to msg h = ground arith

pub apply_transition-id :
    (now : Time) (to : PodStatus) (msg : String) (p : Pod)
    → (apply_transition now to msg p).id ≡ p.id
unfolding apply_transition
apply_transition-id now to msg p = refl

abbrev pub KeyedPods : MemoryStore → Type 0
KeyedPods s = IsKeyed (λ (p : Pod). p.id) s.pods

module _ (s : MemoryStore) {t : MemoryStore} where
  pub update_pod-IsKeyed : (p : Pod) → KeyedPods s → update_pod p s ≡ ok t → KeyedPods t
  update_pod-IsKeyed p h e = rw (update_pod-eq-ok s p e) (store-IsKeyed _ p.id p s.pods refl h)

  pub transition_pod-IsKeyed :
      (now : Time) (id : String) (to : PodStatus) (msg : String)
      → KeyedPods s
      → transition_pod now id to msg s ≡ ok t
      → KeyedPods t
  transition_pod-IsKeyed now id to msg h e =
      let (p, found, _, wrote) = transition_pod-eq-ok s now id to msg e in
      rw wrote (
        store-IsKeyed _ id _ s.pods
          (apply_transition-id now to msg p ∙ id_of_load _ id p s.pods h found) h)

-- A legal move of a pod that is there succeeds.
pub transition_pod-ok :
    (now : Time) (id : String) (to : PodStatus) (msg : String) (s : MemoryStore) (p : Pod)
    → load id s.pods ≡ some p
    → can_transition_pod p.status to ≡ true
    → transition_pod now id to msg s
      ≡ ok (record s { pods = store id (apply_transition now to msg p) s.pods })
unfolding transition_pod
transition_pod-ok now id to msg s p found legal = rw (found, transition_pod) (rw legal)

pub update_pod-ok :
    (p old : Pod) (s : MemoryStore)
    → load p.id s.pods ≡ some old
    → update_pod p s ≡ ok (record s { pods = store p.id p s.pods })
unfolding update_pod
update_pod-ok p old s found = rw (found, update_pod)

pub update_node-pods : (n : Node) (s : MemoryStore) → (or_keep s (update_node n s)).pods ≡ s.pods
unfolding update_node
update_node-pods n s = ground arith
