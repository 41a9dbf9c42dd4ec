-- ===== src/ControlPlane/State/Bolt/Nodes.antt =====
-- The node operations of control-plane/internal/state/bolt_store.go.
use backend_infra_platform.Base.{String, true, List, none, some, if◌then◌else◌}
use backend_infra_platform.Base.SyncMap.{SyncMap}
use backend_infra_platform.ControlPlane.Model.Node.{Node, NodeStatus, can_transition_node}
use backend_infra_platform.ControlPlane.State.{
  not_found, already_exists, invalid_transition, matches_selector,
}
use backend_infra_platform.ControlPlane.State.Bolt.{
  Database, BoltStore, Answer, done, store_error, and_then, bget, bput, list_where,
}

module _ {Bucket Bytes : Type 0} (db : Database Bucket Bytes) where
  -- A transaction that writes the bucket of the nodes.
  abbrev pub in_nodes : BoltStore Bucket → Answer Bucket → Answer (BoltStore Bucket)
  in_nodes s b = and_then b λ b'. done (record s { nodes = b' })

  unfoldable pub register_node : Node → BoltStore Bucket → Answer (BoltStore Bucket)
  register_node n s = elim (db.get n.id s.nodes) [
    | some _ ↦ store_error already_exists
    | none ↦ in_nodes s (bput db db.node n.id n s.nodes)
  ]

  unfoldable pub get_node : String → BoltStore Bucket → Answer Node
  get_node id s = bget db db.node id s.nodes

  unfoldable pub list_nodes : BoltStore Bucket → Answer (List Node)
  list_nodes s = list_where db db.node (λ n. true) s.nodes

  unfoldable pub list_nodes_by_labels : SyncMap String → BoltStore Bucket → Answer (List Node)
  list_nodes_by_labels selector s =
      list_where db db.node (λ n. matches_selector n.labels selector) s.nodes

  unfoldable pub update_node : Node → BoltStore Bucket → Answer (BoltStore Bucket)
  update_node n s = elim (db.get n.id s.nodes) [
    | none ↦ store_error not_found
    | some _ ↦ in_nodes s (bput db db.node n.id n s.nodes)
  ]

  unfoldable pub transition_node :
      String → NodeStatus → BoltStore Bucket → Answer (BoltStore Bucket)
  transition_node id to s = and_then (bget db db.node id s.nodes) λ n.
      if can_transition_node n.status to
      then in_nodes s (bput db db.node id (record n { status = to }) s.nodes)
      else store_error invalid_transition
