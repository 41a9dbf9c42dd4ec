-- ===== src/ControlPlane/State/Bolt/NodeWrites.antt =====
-- The writes of the nodes in both stores.
use backend_infra_platform.Base.{String, Bool, true, ◌≡◌, refl, inl, inr, Option-cases, Bool-cases}
use backend_infra_platform.Base.SyncMap.{load}
use backend_infra_platform.ControlPlane.Model.Node.{Node, NodeStatus, can_transition_node}
use backend_infra_platform.ControlPlane.State.{MemoryStore}
use backend_infra_platform.ControlPlane.State.Nodes as Memory_nodes
use backend_infra_platform.ControlPlane.State.Bolt.{Database, IsDatabase, BoltStore, and_then}
use backend_infra_platform.ControlPlane.State.Bolt.Nodes as Bolt_nodes
use backend_infra_platform.ControlPlane.State.Bolt.Sees.{
  get_absent, get_present, bget_absent, bget_present,
}
use backend_infra_platform.ControlPlane.State.Bolt.Agreement.{Refines, Agrees, put_node}

module _ {Bucket Bytes : Type 0} (db : Database Bucket Bytes) (accepts : String → Bool)
    (law : IsDatabase db accepts) (b : BoltStore Bucket) (s : MemoryStore)
    (r : Refines db b s) where
  pub register_node-Agrees :
      (v : Node)
      → accepts v.id ≡ true
      → Agrees db (Bolt_nodes.register_node db v b) (Memory_nodes.register_node v s)
  unfolding Bolt_nodes.register_node Memory_nodes.register_node
  register_node-Agrees v key = elim (Option-cases (load v.id s.nodes)) [
    | inl absent ↦
        rw (absent, Memory_nodes.register_node)
          (rw (get_absent db db.node v.id b.nodes s.nodes r.nodes absent, Bolt_nodes.register_node)
            (put_node db accepts law b s r v.id v key))
    | inr (old, found) ↦
        let (raw, e, _) = get_present db db.node v.id b.nodes s.nodes r.nodes old found in
        rw (found, Memory_nodes.register_node) (rw (e, Bolt_nodes.register_node) refl)
  ]

  pub update_node-Agrees :
      (v : Node)
      → accepts v.id ≡ true
      → Agrees db (Bolt_nodes.update_node db v b) (Memory_nodes.update_node v s)
  unfolding Bolt_nodes.update_node Memory_nodes.update_node
  update_node-Agrees v key = elim (Option-cases (load v.id s.nodes)) [
    | inl absent ↦
        rw (absent, Memory_nodes.update_node)
          (rw (get_absent db db.node v.id b.nodes s.nodes r.nodes absent, Bolt_nodes.update_node)
            refl)
    | inr (old, found) ↦
        let (raw, e, _) = get_present db db.node v.id b.nodes s.nodes r.nodes old found in
        rw (found, Memory_nodes.update_node)
          (rw (e, Bolt_nodes.update_node) (put_node db accepts law b s r v.id v key))
  ]

  pub transition_node-Agrees :
      (id : String) (to : NodeStatus)
      → accepts id ≡ true
      → Agrees db (Bolt_nodes.transition_node db id to b) (Memory_nodes.transition_node id to s)
  unfolding Bolt_nodes.transition_node Memory_nodes.transition_node and_then
  transition_node-Agrees id to key = elim (Option-cases (load id s.nodes)) [
    | inl absent ↦
        rw (absent, Memory_nodes.transition_node)
          (rw (bget_absent db db.node id b.nodes s.nodes r.nodes absent) refl)
    | inr (v, found) ↦
        rw (found, Memory_nodes.transition_node)
          (rw (bget_present db db.node id b.nodes s.nodes r.nodes v found)
            (elim (Bool-cases (can_transition_node v.status to)) [
              | inl legal ↦
                  rw legal (put_node db accepts law b s r id (record v { status = to }) key)
              | inr illegal ↦ rw illegal refl
            ]))
  ]
