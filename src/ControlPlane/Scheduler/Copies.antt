-- ===== src/ControlPlane/Scheduler/Copies.antt =====
-- The pass's own list of nodes: a write through a pointer keeps what holds of every node.
use backend_infra_platform.Base.{List, [], ◌∷◌, inl, inr, All, Bool-cases, str_eq}
use backend_infra_platform.ControlPlane.Model.Node.{Node}
use backend_infra_platform.ControlPlane.Scheduler.{write_node}

pub write_node-All {κ} :
    (P : Node → Type κ) (n : Node) (ms : List Node) → P n → All P ms → All P (write_node n ms)
unfolding write_node
write_node-All P n [] w h = tt
write_node-All P n (m ∷ ms) w h = elim (Bool-cases (str_eq m.id n.id)) [
  | inl e ↦ rw e (w, write_node-All P n ms w h.1)
  | inr e ↦ rw e (h.0, write_node-All P n ms w h.1)
]
