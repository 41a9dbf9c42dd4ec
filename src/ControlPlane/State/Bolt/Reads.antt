-- ===== src/ControlPlane/State/Bolt/Reads.antt =====
-- What both stores answer when one entity is read.
use backend_infra_platform.Base.{String, Bool, ◌≡◌, refl, inl, inr, Option-cases}
use backend_infra_platform.Base.SyncMap.{load}
use backend_infra_platform.ControlPlane.State.{MemoryStore, new_memory_store}
use backend_infra_platform.ControlPlane.State.Deployments as Memory_deployments
use backend_infra_platform.ControlPlane.State.Pods as Memory_pods
use backend_infra_platform.ControlPlane.State.Nodes as Memory_nodes
use backend_infra_platform.ControlPlane.State.Services as Memory_services
use backend_infra_platform.ControlPlane.State.Bolt.{Database, IsDatabase, BoltStore, new_bolt_store}
use backend_infra_platform.ControlPlane.State.Bolt.Deployments as Bolt_deployments
use backend_infra_platform.ControlPlane.State.Bolt.Pods as Bolt_pods
use backend_infra_platform.ControlPlane.State.Bolt.Nodes as Bolt_nodes
use backend_infra_platform.ControlPlane.State.Bolt.Services as Bolt_services
use backend_infra_platform.ControlPlane.State.Bolt.Calls.{
  memory_reply, bolt_reply, with_deployment, with_pod, with_node, with_service,
}
use backend_infra_platform.ControlPlane.State.Bolt.Sees.{bget_absent, bget_present}
use backend_infra_platform.ControlPlane.State.Bolt.Agreement.{Refines}

module _ {Bucket Bytes : Type 0} (db : Database Bucket Bytes) where
  pub new-Refines :
      (accepts : String → Bool)
      → IsDatabase db accepts
      → Refines db (new_bolt_store db) new_memory_store
  unfolding new_bolt_store new_memory_store load
  new-Refines accepts law = record {
    deployments = λ k. rw law.get_new refl;
    pods = λ k. rw law.get_new refl;
    nodes = λ k. rw law.get_new refl;
    services = λ k. rw law.get_new refl;
  }

module _ {Bucket Bytes : Type 0} (db : Database Bucket Bytes) (b : BoltStore Bucket)
    (s : MemoryStore) (r : Refines db b s) (id : String) where
  pub get_deployment_agrees :
      bolt_reply with_deployment (Bolt_deployments.get_deployment db id b)
      ≡ memory_reply with_deployment (Memory_deployments.get_deployment id s)
  unfolding Bolt_deployments.get_deployment Memory_deployments.get_deployment
  get_deployment_agrees = elim (Option-cases (load id s.deployments)) [
    | inl absent ↦
        rw (absent, Memory_deployments.get_deployment)
          (rw (bget_absent db db.deployment id b.deployments s.deployments r.deployments absent)
            refl)
    | inr (v, found) ↦
        rw (found, Memory_deployments.get_deployment)
          (rw (bget_present db db.deployment id b.deployments s.deployments r.deployments v found)
            refl)
  ]

  pub get_pod_agrees :
      bolt_reply with_pod (Bolt_pods.get_pod db id b)
      ≡ memory_reply with_pod (Memory_pods.get_pod id s)
  unfolding Bolt_pods.get_pod Memory_pods.get_pod
  get_pod_agrees = elim (Option-cases (load id s.pods)) [
    | inl absent ↦
        rw (absent, Memory_pods.get_pod)
          (rw (bget_absent db db.pod id b.pods s.pods r.pods absent) refl)
    | inr (v, found) ↦
        rw (found, Memory_pods.get_pod)
          (rw (bget_present db db.pod id b.pods s.pods r.pods v found) refl)
  ]

  pub get_node_agrees :
      bolt_reply with_node (Bolt_nodes.get_node db id b)
      ≡ memory_reply with_node (Memory_nodes.get_node id s)
  unfolding Bolt_nodes.get_node Memory_nodes.get_node
  get_node_agrees = elim (Option-cases (load id s.nodes)) [
    | inl absent ↦
        rw (absent, Memory_nodes.get_node)
          (rw (bget_absent db db.node id b.nodes s.nodes r.nodes absent) refl)
    | inr (v, found) ↦
        rw (found, Memory_nodes.get_node)
          (rw (bget_present db db.node id b.nodes s.nodes r.nodes v found) refl)
  ]

  pub get_service_agrees :
      bolt_reply with_service (Bolt_services.get_service db id b)
      ≡ memory_reply with_service (Memory_services.get_service id s)
  unfolding Bolt_services.get_service Memory_services.get_service
  get_service_agrees = elim (Option-cases (load id s.services)) [
    | inl absent ↦
        rw (absent, Memory_services.get_service)
          (rw (bget_absent db db.service id b.services s.services r.services absent) refl)
    | inr (v, found) ↦
        rw (found, Memory_services.get_service)
          (rw (bget_present db db.service id b.services s.services r.services v found) refl)
  ]
