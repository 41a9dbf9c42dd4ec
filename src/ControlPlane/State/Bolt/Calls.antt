-- ===== src/ControlPlane/State/Bolt/Calls.antt =====
-- The calls of the interface `Store` of control-plane/internal/state/store.go that write or that read
-- one entity, made one after the other on either store.
use backend_infra_platform.Base.{String, List, [], ◌∷◌}
use backend_infra_platform.ControlPlane.Model.Deployment.{Time, Deployment, DeploymentStatus}
use backend_infra_platform.ControlPlane.Model.Pod.{Pod, PodStatus}
use backend_infra_platform.ControlPlane.Model.Node.{Node, NodeStatus}
use backend_infra_platform.ControlPlane.Model.Service.{Service}
use backend_infra_platform.ControlPlane.State.{MemoryStore, Result, ok, err, StoreError, or_keep}
use backend_infra_platform.ControlPlane.State.Deployments as Memory_deployments
use backend_infra_platform.ControlPlane.State.Pods as Memory_pods
use backend_infra_platform.ControlPlane.State.Nodes as Memory_nodes
use backend_infra_platform.ControlPlane.State.Services as Memory_services
use backend_infra_platform.ControlPlane.State.Bolt.{
  Database, BoltStore, Answer, done, store_error, other_error,
}
use backend_infra_platform.ControlPlane.State.Bolt.Deployments as Bolt_deployments
use backend_infra_platform.ControlPlane.State.Bolt.Pods as Bolt_pods
use backend_infra_platform.ControlPlane.State.Bolt.Nodes as Bolt_nodes
use backend_infra_platform.ControlPlane.State.Bolt.Services as Bolt_services

pub data Call : Type 0 where
  creates_deployment : Deployment → Call
  updates_deployment : Time → Deployment → Call
  transitions_deployment : Time → String → DeploymentStatus → Call
  deletes_deployment : String → Call
  creates_pod : Pod → Call
  updates_pod : Pod → Call
  transitions_pod : Time → String → PodStatus → String → Call
  registers_node : Node → Call
  updates_node : Node → Call
  transitions_node : String → NodeStatus → Call
  upserts_service : Time → Service → Call
  deletes_service : String → Call
  gets_deployment : String → Call
  gets_pod : String → Call
  gets_node : String → Call
  gets_service : String → Call

-- The identifier that a call is about.
abbrev pub call_id : Call → String
call_id (creates_deployment d) = d.id
call_id (updates_deployment now d) = d.id
call_id (transitions_deployment now id to) = id
call_id (deletes_deployment id) = id
call_id (creates_pod p) = p.id
call_id (updates_pod p) = p.id
call_id (transitions_pod now id to err_msg) = id
call_id (registers_node n) = n.id
call_id (updates_node n) = n.id
call_id (transitions_node id to) = id
call_id (upserts_service now svc) = svc.id
call_id (deletes_service id) = id
call_id (gets_deployment id) = id
call_id (gets_pod id) = id
call_id (gets_node id) = id
call_id (gets_service id) = id

-- `broke` is an error that is not one of the store's own.
pub data Reply : Type 0 where
  succeeded broke : Reply
  refused : StoreError → Reply
  with_deployment : Deployment → Reply
  with_pod : Pod → Reply
  with_node : Node → Reply
  with_service : Service → Reply

abbrev pub memory_reply {ℓ} : {A : Type ℓ} → (A → Reply) → Result A → Reply
memory_reply f (ok a) = f a
memory_reply f (err e) = refused e

abbrev pub bolt_reply {ℓ} : {A : Type ℓ} → (A → Reply) → Answer A → Reply
bolt_reply f (done a) = f a
bolt_reply f (store_error e) = refused e
bolt_reply f other_error = broke

-- The store after a write: the transaction of one that failed is rolled back.
abbrev pub or_rolled_back :
    {Bucket : Type 0} → BoltStore Bucket → Answer (BoltStore Bucket) → BoltStore Bucket
or_rolled_back b (done b') = b'
or_rolled_back b (store_error e) = b
or_rolled_back b other_error = b

abbrev pub memory_write : MemoryStore → Result MemoryStore → Reply × MemoryStore
memory_write s r = (memory_reply (λ _. succeeded) r, or_keep s r)

abbrev pub bolt_write :
    {Bucket : Type 0} → BoltStore Bucket → Answer (BoltStore Bucket) → Reply × BoltStore Bucket
bolt_write b r = (bolt_reply (λ _. succeeded) r, or_rolled_back b r)

unfoldable pub memory_call : Call → MemoryStore → Reply × MemoryStore
memory_call (creates_deployment d) s = memory_write s (Memory_deployments.create_deployment d s)
memory_call (updates_deployment now d) s =
    memory_write s (Memory_deployments.update_deployment now d s)
memory_call (transitions_deployment now id to) s =
    memory_write s (Memory_deployments.transition_deployment now id to s)
memory_call (deletes_deployment id) s = memory_write s (Memory_deployments.delete_deployment id s)
memory_call (creates_pod p) s = memory_write s (Memory_pods.create_pod p s)
memory_call (updates_pod p) s = memory_write s (Memory_pods.update_pod p s)
memory_call (transitions_pod now id to err_msg) s =
    memory_write s (Memory_pods.transition_pod now id to err_msg s)
memory_call (registers_node n) s = memory_write s (Memory_nodes.register_node n s)
memory_call (updates_node n) s = memory_write s (Memory_nodes.update_node n s)
memory_call (transitions_node id to) s = memory_write s (Memory_nodes.transition_node id to s)
memory_call (upserts_service now svc) s = memory_write s (Memory_services.upsert_service now svc s)
memory_call (deletes_service id) s = memory_write s (Memory_services.delete_service id s)
memory_call (gets_deployment id) s =
    (memory_reply with_deployment (Memory_deployments.get_deployment id s), s)
memory_call (gets_pod id) s = (memory_reply with_pod (Memory_pods.get_pod id s), s)
memory_call (gets_node id) s = (memory_reply with_node (Memory_nodes.get_node id s), s)
memory_call (gets_service id) s = (memory_reply with_service (Memory_services.get_service id s), s)

unfoldable pub memory_run : List Call → MemoryStore → List Reply × MemoryStore
memory_run [] s = ([], s)
memory_run (c ∷ cs) s =
    let (reply, s') = memory_call c s in
    let (replies, s'') = memory_run cs s' in (reply ∷ replies, s'')

module _ {Bucket Bytes : Type 0} (db : Database Bucket Bytes) where
  unfoldable pub bolt_call : Call → BoltStore Bucket → Reply × BoltStore Bucket
  bolt_call (creates_deployment d) b = bolt_write b (Bolt_deployments.create_deployment db d b)
  bolt_call (updates_deployment now d) b =
      bolt_write b (Bolt_deployments.update_deployment db now d b)
  bolt_call (transitions_deployment now id to) b =
      bolt_write b (Bolt_deployments.transition_deployment db now id to b)
  bolt_call (deletes_deployment id) b = bolt_write b (Bolt_deployments.delete_deployment db id b)
  bolt_call (creates_pod p) b = bolt_write b (Bolt_pods.create_pod db p b)
  bolt_call (updates_pod p) b = bolt_write b (Bolt_pods.update_pod db p b)
  bolt_call (transitions_pod now id to err_msg) b =
      bolt_write b (Bolt_pods.transition_pod db now id to err_msg b)
  bolt_call (registers_node n) b = bolt_write b (Bolt_nodes.register_node db n b)
  bolt_call (updates_node n) b = bolt_write b (Bolt_nodes.update_node db n b)
  bolt_call (transitions_node id to) b = bolt_write b (Bolt_nodes.transition_node db id to b)
  bolt_call (upserts_service now svc) b = bolt_write b (Bolt_services.upsert_service db now svc b)
  bolt_call (deletes_service id) b = bolt_write b (Bolt_services.delete_service db id b)
  bolt_call (gets_deployment id) b =
      (bolt_reply with_deployment (Bolt_deployments.get_deployment db id b), b)
  bolt_call (gets_pod id) b = (bolt_reply with_pod (Bolt_pods.get_pod db id b), b)
  bolt_call (gets_node id) b = (bolt_reply with_node (Bolt_nodes.get_node db id b), b)
  bolt_call (gets_service id) b = (bolt_reply with_service (Bolt_services.get_service db id b), b)

  unfoldable pub bolt_run : List Call → BoltStore Bucket → List Reply × BoltStore Bucket
  bolt_run [] b = ([], b)
  bolt_run (c ∷ cs) b =
      let (reply, b') = bolt_call c b in
      let (replies, b'') = bolt_run cs b' in (reply ∷ replies, b'')
