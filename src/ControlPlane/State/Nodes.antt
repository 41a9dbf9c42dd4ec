-- ===== src/ControlPlane/State/Nodes.antt =====
-- The node operations of control-plane/internal/state/memory_store.go.
use backend_infra_platform.Base.{String, List, none, some, if◌then◌else◌, keep}
use backend_infra_platform.Base.SyncMap.{SyncMap, load, store, values}
use backend_infra_platform.ControlPlane.Model.Node.{Node, NodeStatus, can_transition_node}
use backend_infra_platform.ControlPlane.State.{
  MemoryStore, Result, ok, err, not_found, already_exists, invalid_transition, matches_selector,
}

unfoldable pub register_node : Node → MemoryStore → Result MemoryStore
register_node n s = elim (load n.id s.nodes) [
  | some _ ↦ err already_exists
  | none ↦ ok (record s { nodes = store n.id n s.nodes })
]

unfoldable pub get_node : String → MemoryStore → Result Node
get_node id s = elim (load id s.nodes) [ none ↦ err not_found | some n ↦ ok n ]

unfoldable pub list_nodes : MemoryStore → List Node
list_nodes s = values s.nodes

unfoldable pub list_nodes_by_labels : SyncMap String → MemoryStore → List Node
list_nodes_by_labels selector s = keep (λ n. matches_selector n.labels selector) (values s.nodes)

unfoldable pub update_node : Node → MemoryStore → Result MemoryStore
update_node n s = elim (load n.id s.nodes) [
  | none ↦ err not_found
  | some _ ↦ ok (record s { nodes = store n.id n s.nodes })
]

unfoldable pub transition_node : String → NodeStatus → MemoryStore → Result MemoryStore
transition_node id to s = elim (load id s.nodes) [
  | none ↦ err not_found
  | some n ↦
      if can_transition_node n.status to
      then ok (record s { nodes = store id (record n { status = to }) s.nodes })
      else err invalid_transition
]
