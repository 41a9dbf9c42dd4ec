-- ===== src/ControlPlane/State/Invariant.antt =====
-- The keys of the four maps of the store, under every order of its atomic operations: whatever the
-- scheduler, the reconciler and the handlers do at the same time is a sequence of these steps.
use backend_infra_platform.Base.{String, ◌≡◌, refl, ◌∙◌}
use backend_infra_platform.Base.SyncMap.{IsKeyed, store, store-IsKeyed, delete-IsKeyed, id_of_load}
use backend_infra_platform.ControlPlane.Model.Deployment.{Time, Deployment, DeploymentStatus}
use backend_infra_platform.ControlPlane.Model.Pod.{Pod, PodStatus}
use backend_infra_platform.ControlPlane.Model.Node.{Node, NodeStatus}
use backend_infra_platform.ControlPlane.Model.Service.{Service}
use backend_infra_platform.ControlPlane.State.{MemoryStore, ok, new_memory_store}
use backend_infra_platform.ControlPlane.State.Deployments.{
  create_deployment, update_deployment, transition_deployment, delete_deployment,
}
use backend_infra_platform.ControlPlane.State.Pods.{create_pod, update_pod, transition_pod}
use backend_infra_platform.ControlPlane.State.Nodes.{register_node, update_node, transition_node}
use backend_infra_platform.ControlPlane.State.Services.{upsert_service, delete_service}
use backend_infra_platform.ControlPlane.State.Effects.{
  create_deployment-eq-ok, update_deployment-eq-ok, transition_deployment-eq-ok,
  delete_deployment-eq-ok, create_pod-eq-ok, update_pod-eq-ok, transition_pod-eq-ok,
  register_node-eq-ok, update_node-eq-ok, transition_node-eq-ok, upsert_service-eq-ok,
  delete_service-eq-ok, apply_transition-id,
}

-- Each entity stands under its own identifier, once.
pub record IsWellFormed (s : MemoryStore) : Type 0 where
  pub deployments : IsKeyed (λ (d : Deployment). d.id) s.deployments
  pub pods : IsKeyed (λ (p : Pod). p.id) s.pods
  pub nodes : IsKeyed (λ (n : Node). n.id) s.nodes
  pub services : IsKeyed (λ (v : Service). v.id) s.services

-- One successful call of an operation that writes.
pub data StoreStep (s t : MemoryStore) : Type 0 where
  creates_deployment : (d : Deployment) → create_deployment d s ≡ ok t → StoreStep s t
  updates_deployment :
      (now : Time) (d : Deployment) → update_deployment now d s ≡ ok t → StoreStep s t
  transitions_deployment :
      (now : Time) (id : String) (to : DeploymentStatus)
      → transition_deployment now id to s ≡ ok t
      → StoreStep s t
  deletes_deployment : (id : String) → delete_deployment id s ≡ ok t → StoreStep s t
  creates_pod : (p : Pod) → create_pod p s ≡ ok t → StoreStep s t
  updates_pod : (p : Pod) → update_pod p s ≡ ok t → StoreStep s t
  transitions_pod :
      (now : Time) (id : String) (to : PodStatus) (msg : String)
      → transition_pod now id to msg s ≡ ok t
      → StoreStep s t
  registers_node : (n : Node) → register_node n s ≡ ok t → StoreStep s t
  updates_node : (n : Node) → update_node n s ≡ ok t → StoreStep s t
  transitions_node :
      (id : String) (to : NodeStatus) → transition_node id to s ≡ ok t → StoreStep s t
  upserts_service : (now : Time) (v : Service) → upsert_service now v s ≡ ok t → StoreStep s t
  deletes_service : (id : String) → delete_service id s ≡ ok t → StoreStep s t

pub data StoreReach (s : MemoryStore) : MemoryStore → Type 0 where
  here : StoreReach s s
  next : {t u : MemoryStore} → StoreReach s t → StoreStep t u → StoreReach s u

module _ (s : MemoryStore) (k : String) where
  with_deployment :
      (v : Deployment)
      → v.id ≡ k
      → IsWellFormed s
      → IsWellFormed (record s { deployments = store k v s.deployments })
  with_deployment v e w = record {
    deployments = store-IsKeyed _ k v s.deployments e w.deployments;
    pods = w.pods;
    nodes = w.nodes;
    services = w.services;
  }

  with_pod :
      (v : Pod) → v.id ≡ k → IsWellFormed s → IsWellFormed (record s { pods = store k v s.pods })
  with_pod v e w = record {
    deployments = w.deployments;
    pods = store-IsKeyed _ k v s.pods e w.pods;
    nodes = w.nodes;
    services = w.services;
  }

  with_node :
      (v : Node) → v.id ≡ k → IsWellFormed s → IsWellFormed (record s { nodes = store k v s.nodes })
  with_node v e w = record {
    deployments = w.deployments;
    pods = w.pods;
    nodes = store-IsKeyed _ k v s.nodes e w.nodes;
    services = w.services;
  }

new_memory_store-IsWellFormed : IsWellFormed new_memory_store
unfolding new_memory_store
new_memory_store-IsWellFormed = record { deployments = tt; pods = tt; nodes = tt; services = tt }

pub StoreStep-IsWellFormed : {s t : MemoryStore} → StoreStep s t → IsWellFormed s → IsWellFormed t
StoreStep-IsWellFormed {s} (creates_deployment d e) w =
    rw (create_deployment-eq-ok s d e) (with_deployment s d.id d refl w)
StoreStep-IsWellFormed {s} (updates_deployment now d e) w =
    rw (update_deployment-eq-ok s now d e) (with_deployment s d.id _ refl w)
StoreStep-IsWellFormed {s} (transitions_deployment now id to e) w =
    let (d, found, written) = transition_deployment-eq-ok s now id to e in
    rw written (with_deployment s id _ (id_of_load _ id d s.deployments w.deployments found) w)
StoreStep-IsWellFormed {s} (deletes_deployment id e) w =
    rw (delete_deployment-eq-ok s id e) (record {
      deployments = delete-IsKeyed _ id s.deployments w.deployments;
      pods = w.pods;
      nodes = w.nodes;
      services = w.services;
    })
StoreStep-IsWellFormed {s} (creates_pod p e) w =
    rw (create_pod-eq-ok s p e) (with_pod s p.id p refl w)
StoreStep-IsWellFormed {s} (updates_pod p e) w =
    rw (update_pod-eq-ok s p e) (with_pod s p.id p refl w)
StoreStep-IsWellFormed {s} (transitions_pod now id to msg e) w =
    let (p, found, legal, written) = transition_pod-eq-ok s now id to msg e in
    rw written
      (with_pod s id _ (apply_transition-id now to msg p ∙ id_of_load _ id p s.pods w.pods found) w)
StoreStep-IsWellFormed {s} (registers_node n e) w =
    rw (register_node-eq-ok s n e) (with_node s n.id n refl w)
StoreStep-IsWellFormed {s} (updates_node n e) w =
    rw (update_node-eq-ok s n e) (with_node s n.id n refl w)
StoreStep-IsWellFormed {s} (transitions_node id to e) w =
    let (n, found, legal, written) = transition_node-eq-ok s id to e in
    rw written (with_node s id _ (id_of_load _ id n s.nodes w.nodes found) w)
StoreStep-IsWellFormed {s} (upserts_service now v e) w =
    rw (upsert_service-eq-ok s now v e) (record {
      deployments = w.deployments;
      pods = w.pods;
      nodes = w.nodes;
      services = store-IsKeyed _ v.id _ s.services refl w.services;
    })
StoreStep-IsWellFormed {s} (deletes_service id e) w = rw (delete_service-eq-ok s id e) (record {
  deployments = w.deployments;
  pods = w.pods;
  nodes = w.nodes;
  services = delete-IsKeyed _ id s.services w.services;
})

-- However the atomic operations of the store are interleaved, each entity of a store that grew from
-- the empty one stands under its own identifier, and no identifier has two entries.
pub StoreReach-IsWellFormed : {s : MemoryStore} → StoreReach new_memory_store s → IsWellFormed s
StoreReach-IsWellFormed here = new_memory_store-IsWellFormed
StoreReach-IsWellFormed (next r step) = StoreStep-IsWellFormed step (StoreReach-IsWellFormed r)
