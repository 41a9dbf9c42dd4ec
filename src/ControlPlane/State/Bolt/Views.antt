-- ===== src/ControlPlane/State/Bolt/Views.antt =====
-- The operations of both stores that list.
use backend_infra_platform.Base.{String, Bool, true, subst}
use backend_infra_platform.Base.SyncMap.{SyncMap, values, HasUniqueKeys, IsKeyed-HasUniqueKeys}
use backend_infra_platform.ControlPlane.Model.Deployment.{Deployment}
use backend_infra_platform.ControlPlane.Model.Pod.{Pod, PodStatus}
use backend_infra_platform.ControlPlane.Model.Node.{Node}
use backend_infra_platform.ControlPlane.Model.Service.{Service}
use backend_infra_platform.ControlPlane.State.{MemoryStore}
use backend_infra_platform.ControlPlane.State.Invariant.{IsWellFormed}
use backend_infra_platform.ControlPlane.State.Deployments as Memory_deployments
use backend_infra_platform.ControlPlane.State.Pods as Memory_pods
use backend_infra_platform.ControlPlane.State.Nodes as Memory_nodes
use backend_infra_platform.ControlPlane.State.Services as Memory_services
use backend_infra_platform.ControlPlane.State.Bolt.{
  Codec, Database, IsDatabase, BoltStore, list_where,
}
use backend_infra_platform.ControlPlane.State.Bolt.Deployments as Bolt_deployments
use backend_infra_platform.ControlPlane.State.Bolt.Pods as Bolt_pods
use backend_infra_platform.ControlPlane.State.Bolt.Nodes as Bolt_nodes
use backend_infra_platform.ControlPlane.State.Bolt.Services as Bolt_services
use backend_infra_platform.ControlPlane.State.Bolt.Sees.{Sees}
use backend_infra_platform.ControlPlane.State.Bolt.Agreement.{Refines}
use backend_infra_platform.ControlPlane.State.Bolt.Listing.{Lists, list_where-Lists, keep_all}

module _ {Bucket Bytes : Type 0} (db : Database Bucket Bytes) (accepts : String → Bool)
    (law : IsDatabase db accepts) where
  whole-Lists :
      {A : Type 0} (c : Codec Bytes A) (b : Bucket) (m : SyncMap A)
      → HasUniqueKeys m
      → Sees db c b m
      → Lists (list_where db c (λ a. true) b) (values m)
  whole-Lists c b m um sees =
      subst (Lists (list_where db c (λ a. true) b)) (keep_all (values m))
        (list_where-Lists db c accepts (λ a. true) b m law um sees)

  -- Where the buckets hold the entities of the maps, and each map has its entities under their own
  -- identifiers, each of the nine listings of the bolt store succeeds, and every test counts as many
  -- entities in it as in the same listing of the memory store: the two differ in order only.
  pub listings_agree :
      (b : BoltStore Bucket) (s : MemoryStore) (namespace deployment_id node_id : String)
      (status : PodStatus) (selector : SyncMap String)
      → IsWellFormed s
      → Refines db b s
      → Lists (Bolt_deployments.list_deployments db b) (Memory_deployments.list_deployments s)
        × Lists
            (Bolt_deployments.list_deployments_by_namespace db namespace b)
            (Memory_deployments.list_deployments_by_namespace namespace s)
        × Lists
            (Bolt_pods.list_pods_by_deployment db deployment_id b)
            (Memory_pods.list_pods_by_deployment deployment_id s)
        × Lists
            (Bolt_pods.list_pods_by_status db status b)
            (Memory_pods.list_pods_by_status status s)
        × Lists (Bolt_pods.list_pods_by_node db node_id b) (Memory_pods.list_pods_by_node node_id s)
        × Lists
            (Bolt_pods.list_pods_by_labels db namespace selector b)
            (Memory_pods.list_pods_by_labels namespace selector s)
        × Lists (Bolt_nodes.list_nodes db b) (Memory_nodes.list_nodes s)
        × Lists
            (Bolt_nodes.list_nodes_by_labels db selector b)
            (Memory_nodes.list_nodes_by_labels selector s)
        × Lists (Bolt_services.list_services db b) (Memory_services.list_services s)
  unfolding Bolt_deployments.list_deployments Memory_deployments.list_deployments
      Bolt_deployments.list_deployments_by_namespace
      Memory_deployments.list_deployments_by_namespace Bolt_pods.list_pods_by_deployment
      Memory_pods.list_pods_by_deployment Bolt_pods.list_pods_by_status
      Memory_pods.list_pods_by_status Bolt_pods.list_pods_by_node Memory_pods.list_pods_by_node
      Bolt_pods.list_pods_by_labels Memory_pods.list_pods_by_labels Bolt_nodes.list_nodes
      Memory_nodes.list_nodes Bolt_nodes.list_nodes_by_labels Memory_nodes.list_nodes_by_labels
      Bolt_services.list_services Memory_services.list_services
  listings_agree b s namespace deployment_id node_id status selector wf r =
      let ud = IsKeyed-HasUniqueKeys (λ (d : Deployment). d.id) s.deployments wf.deployments in
      let up = IsKeyed-HasUniqueKeys (λ (p : Pod). p.id) s.pods wf.pods in
      let un = IsKeyed-HasUniqueKeys (λ (n : Node). n.id) s.nodes wf.nodes in
      let us = IsKeyed-HasUniqueKeys (λ (v : Service). v.id) s.services wf.services in
      (
        whole-Lists db.deployment b.deployments s.deployments ud r.deployments,
        list_where-Lists db db.deployment accepts _ b.deployments s.deployments law ud
            r.deployments,
        list_where-Lists db db.pod accepts _ b.pods s.pods law up r.pods,
        list_where-Lists db db.pod accepts _ b.pods s.pods law up r.pods,
        list_where-Lists db db.pod accepts _ b.pods s.pods law up r.pods,
        list_where-Lists db db.pod accepts _ b.pods s.pods law up r.pods,
        whole-Lists db.node b.nodes s.nodes un r.nodes,
        list_where-Lists db db.node accepts _ b.nodes s.nodes law un r.nodes,
        whole-Lists db.service b.services s.services us r.services,
      )
