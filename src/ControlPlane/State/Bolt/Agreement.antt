-- ===== src/ControlPlane/State/Bolt/Agreement.antt =====
-- Each write of the bolt store beside the same write of the memory store.
use backend_infra_platform.Base.{String, Bool, true, ◌≡◌, arith}
use backend_infra_platform.Base.SyncMap.{store}
use backend_infra_platform.ControlPlane.Model.Deployment.{Time, Deployment}
use backend_infra_platform.ControlPlane.Model.Pod.{Pod, PodStatus, pod_status_eq}
use backend_infra_platform.ControlPlane.Model.Node.{Node}
use backend_infra_platform.ControlPlane.Model.Service.{Service}
use backend_infra_platform.ControlPlane.State.{MemoryStore, Result, ok, err}
use backend_infra_platform.ControlPlane.State.Pods.{apply_transition, is_terminal_pod_status}
use backend_infra_platform.ControlPlane.State.Bolt.{
  Database, IsDatabase, BoltStore, Answer, done, store_error, other_error, and_then, bput,
}
use backend_infra_platform.ControlPlane.State.Bolt.Deployments as Bolt_deployments
use backend_infra_platform.ControlPlane.State.Bolt.Pods as Bolt_pods
use backend_infra_platform.ControlPlane.State.Bolt.Pods.{moved}
use backend_infra_platform.ControlPlane.State.Bolt.Nodes as Bolt_nodes
use backend_infra_platform.ControlPlane.State.Bolt.Services as Bolt_services
use backend_infra_platform.ControlPlane.State.Bolt.Sees.{Sees, bput-Sees}

-- Both write the same pod.
pub moved-apply_transition :
    (now : Time) (to : PodStatus) (msg : String) (p : Pod)
    → moved now to msg p ≡ apply_transition now to msg p
unfolding moved apply_transition pod_status_eq is_terminal_pod_status
moved-apply_transition now to msg p = ground arith

module _ {Bucket Bytes : Type 0} (db : Database Bucket Bytes) where
  -- Each bucket holds the entities of the map of its kind.
  pub record Refines (b : BoltStore Bucket) (s : MemoryStore) : Type 0 where
    pub deployments : Sees db db.deployment b.deployments s.deployments
    pub pods : Sees db db.pod b.pods s.pods
    pub nodes : Sees db db.node b.nodes s.nodes
    pub services : Sees db db.service b.services s.services

  -- Both succeed, in stores that still correspond, or both fail with the same error.
  abbrev pub Agrees : Answer (BoltStore Bucket) → Result MemoryStore → Type 0
  Agrees (done b) (ok s) = Refines b s
  Agrees (done b) (err e) = ⊥
  Agrees (store_error e) (ok s) = ⊥
  Agrees (store_error e) (err f) = e ≡ f
  Agrees other_error r = ⊥

module _ {Bucket Bytes : Type 0} (db : Database Bucket Bytes) (accepts : String → Bool)
    (law : IsDatabase db accepts) (b : BoltStore Bucket) (s : MemoryStore)
    (r : Refines db b s) where
  pub put_deployment :
      (k : String) (v : Deployment)
      → accepts k ≡ true
      → Agrees db
          (Bolt_deployments.in_deployments db b (bput db db.deployment k v b.deployments))
          (ok (record s { deployments = store k v s.deployments }))
  unfolding and_then
  put_deployment k v key =
      let (b', wrote, sees) =
        bput-Sees db accepts law db.deployment k b.deployments s.deployments r.deployments v
          law.deployments key in
      rw wrote
        (record { deployments = sees; pods = r.pods; nodes = r.nodes; services = r.services })

  pub put_pod :
      (k : String) (v : Pod)
      → accepts k ≡ true
      → Agrees db
          (Bolt_pods.in_pods db b (bput db db.pod k v b.pods))
          (ok (record s { pods = store k v s.pods }))
  unfolding and_then
  put_pod k v key =
      let (b', wrote, sees) =
        bput-Sees db accepts law db.pod k b.pods s.pods r.pods v law.pods key in
      rw wrote (record {
        deployments = r.deployments;
        pods = sees;
        nodes = r.nodes;
        services = r.services;
      })

  pub put_node :
      (k : String) (v : Node)
      → accepts k ≡ true
      → Agrees db
          (Bolt_nodes.in_nodes db b (bput db db.node k v b.nodes))
          (ok (record s { nodes = store k v s.nodes }))
  unfolding and_then
  put_node k v key =
      let (b', wrote, sees) =
        bput-Sees db accepts law db.node k b.nodes s.nodes r.nodes v law.nodes key in
      rw wrote
        (record { deployments = r.deployments; pods = r.pods; nodes = sees; services = r.services })

  pub put_service :
      (k : String) (v : Service)
      → accepts k ≡ true
      → Agrees db
          (Bolt_services.in_services db b (bput db db.service k v b.services))
          (ok (record s { services = store k v s.services }))
  unfolding and_then
  put_service k v key =
      let (b', wrote, sees) =
        bput-Sees db accepts law db.service k b.services s.services r.services v law.services key in
      rw wrote
        (record { deployments = r.deployments; pods = r.pods; nodes = r.nodes; services = sees })
