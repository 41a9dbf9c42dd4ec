-- ===== src/ControlPlane/Reconciler/Detection.antt =====
-- What the detection of lost nodes makes of each node.
use backend_infra_platform.Base.{
  ℕ, String, Bool, true, false, ◌&&◌, List, [], ◌∷◌, some, ◌≡◌, refl, ◌∙◌, sym, subst, arith, inl,
  inr, Bool-cases, Memᴰ, All, All-map, str_eq, eq_iff, eq_refl, if◌then◌else◌,
}
use backend_infra_platform.Base.SyncMap.{
  SyncMap, load, store, values, load-store, IsKeyed, All-of_load, id_of_load,
}
use backend_infra_platform.Base.Distinct.{Differs, IsDistinct, values-IsDistinct}
use backend_infra_platform.ControlPlane.Model.Deployment.{Time}
use backend_infra_platform.ControlPlane.Model.Pod.{Pod}
use backend_infra_platform.ControlPlane.Model.Node.{
  Node, NodeStatus, node_status_eq, can_transition_node,
}
use backend_infra_platform.ControlPlane.State.{MemoryStore, ok}
use backend_infra_platform.ControlPlane.State.Nodes.{list_nodes, transition_node}
use backend_infra_platform.ControlPlane.Reconciler.{
  timed_out, lose_node, detect_node, detect_each, detect_unhealthy_nodes, reschedule_each,
  reschedule_pods_for, reschedule_pod,
}
use backend_infra_platform.ControlPlane.Reconciler.Frame.{reschedule_pod-nodes}

-- A healthy node that timed out is unhealthy, a draining one is removed, any other is what it was.
abbrev pub verdict : ℕ → Time → Node → NodeStatus
verdict heartbeat_timeout now n =
    if node_status_eq n.status NodeStatus.healthy && timed_out heartbeat_timeout now n
    then NodeStatus.unhealthy
    else if node_status_eq n.status NodeStatus.draining && timed_out heartbeat_timeout now n
    then NodeStatus.removed
    else n.status

transition_node_ok :
    (n : Node) (to : NodeStatus) (s : MemoryStore)
    → load n.id s.nodes ≡ some n
    → can_transition_node n.status to ≡ true
    → transition_node n.id to s
      ≡ ok (record s { nodes = store n.id (record n { status = to }) s.nodes })
unfolding transition_node
transition_node_ok n to s found legal = rw (found, transition_node) (rw legal refl)

module _ (overflowed : ℕ) (now : Time) where
  reschedule_each-nodes :
      (ps : List Pod) (s : MemoryStore) → (reschedule_each overflowed now ps s).nodes ≡ s.nodes
  unfolding reschedule_each
  reschedule_each-nodes [] s = refl
  reschedule_each-nodes (p ∷ ps) s =
      reschedule_each-nodes ps (reschedule_pod overflowed now p s)
      ∙ reschedule_pod-nodes overflowed now p s

  reschedule_pods_for-nodes :
      (id : String) (s : MemoryStore) → (reschedule_pods_for overflowed now id s).nodes ≡ s.nodes
  unfolding reschedule_pods_for
  reschedule_pods_for-nodes id s = reschedule_each-nodes _ s

  lose_node-nodes :
      (n : Node) (to : NodeStatus) (s : MemoryStore)
      → load n.id s.nodes ≡ some n
      → can_transition_node n.status to ≡ true
      → (lose_node overflowed now n to s).nodes ≡ store n.id (record n { status = to }) s.nodes
  unfolding lose_node
  lose_node-nodes n to s found legal =
      rw (transition_node_ok n to s found legal, lose_node) (reschedule_pods_for-nodes n.id _)

may_be_lost :
    (n : Node) (late : Bool)
    → (node_status_eq n.status NodeStatus.healthy && late) ≡ true
    → can_transition_node n.status NodeStatus.unhealthy ≡ true
unfolding node_status_eq can_transition_node
may_be_lost n late h = ground arith

may_be_removed :
    (n : Node) (late : Bool)
    → (node_status_eq n.status NodeStatus.draining && late) ≡ true
    → can_transition_node n.status NodeStatus.removed ≡ true
unfolding node_status_eq can_transition_node
may_be_removed n late h = ground arith

load-Mem : (k : String) (n : Node) (m : SyncMap Node) → load k m ≡ some n → Memᴰ n (values m)
unfolding load values
load-Mem k n [] e = absurd (cc)
load-Mem k n ((j, v) ∷ m) e = elim (Bool-cases (str_eq j k)) [
  | inl same ↦ Memᴰ.head (ground arith)
  | inr other ↦ Memᴰ.tail (load-Mem k n m (ground arith))
]

module _ (overflowed heartbeat_timeout : ℕ) (now : Time) where
  -- The store gains the verdict on `n`, or nothing where that is the status `n` has.
  detect_node-load :
      (n : Node) (s : MemoryStore) (k : String)
      → load n.id s.nodes ≡ some n
      → load k (detect_node overflowed heartbeat_timeout now n s).nodes ≡ (
          if str_eq n.id k
          then some (record n { status = verdict heartbeat_timeout now n })
          else load k s.nodes)
  unfolding detect_node
  detect_node-load n s k found =
      elim (Bool-cases
        (node_status_eq n.status NodeStatus.healthy && timed_out heartbeat_timeout now n)) [
          | inl h ↦ rw h (
              rw (lose_node-nodes overflowed now n NodeStatus.unhealthy s found (may_be_lost n _ h))
                (load-store n.id k _ s.nodes))
          | inr h ↦
              rw h
                (elim (Bool-cases (
                  node_status_eq n.status NodeStatus.draining
                  && timed_out heartbeat_timeout now n)) [
                    | inl d ↦ rw d (
                        rw
                          (lose_node-nodes overflowed now n NodeStatus.removed s found
                            (may_be_removed n _ d))
                          (load-store n.id k _ s.nodes))
                    | inr d ↦ rw d (ground (arith, eq_iff n.id k, found))
                  ])
        ]

  still_stored :
      (n : Node) (ns : List Node) (s : MemoryStore)
      → load n.id s.nodes ≡ some n
      → All (Differs (λ (m : Node). m.id) n) ns
      → All (λ (m : Node). load m.id s.nodes ≡ some m) ns
      → All
          (λ (m : Node).
            load m.id (detect_node overflowed heartbeat_timeout now n s).nodes ≡ some m)
          ns
  still_stored n [] s found dif at = tt
  still_stored n (m ∷ ns) s found dif at =
      (detect_node-load n s m.id found ∙ rw dif.0 at.0, still_stored n ns s found dif.1 at.1)

  detect_each-other :
      (ns : List Node) (s : MemoryStore) (k : String)
      → All (λ (n : Node). load n.id s.nodes ≡ some n) ns
      → IsDistinct (λ (n : Node). n.id) ns
      → All (λ (n : Node). str_eq n.id k ≡ false) ns
      → load k (detect_each overflowed heartbeat_timeout now ns s).nodes ≡ load k s.nodes
  unfolding detect_each
  detect_each-other [] s k at dif other = refl
  detect_each-other (n ∷ ns) s k at dif other =
      detect_each-other ns _ k (still_stored n ns s at.0 dif.0 at.1) dif.1 other.1
      ∙ (detect_node-load n s k at.0 ∙ rw other.0 refl)

  detect_each-verdict :
      (ns : List Node) (s : MemoryStore) (m : Node)
      → All (λ (n : Node). load n.id s.nodes ≡ some n) ns
      → IsDistinct (λ (n : Node). n.id) ns
      → Memᴰ m ns
      → load m.id (detect_each overflowed heartbeat_timeout now ns s).nodes
        ≡ some (record m { status = verdict heartbeat_timeout now m })
  unfolding detect_each
  detect_each-verdict [] s m at dif i = elim i [ ]
  detect_each-verdict (n ∷ ns) s m at dif (Memᴰ.head e) =
      subst
        (λ x.
          load x.id (detect_each overflowed heartbeat_timeout now (n ∷ ns) s).nodes
          ≡ some (record x { status = verdict heartbeat_timeout now x }))
        (sym e)
        (detect_each-other ns _ n.id (still_stored n ns s at.0 dif.0 at.1) dif.1
            (All-map _ _ (λ x d. ground (arith, eq_iff n.id x.id, eq_iff x.id n.id, d)) ns dif.0)
          ∙ detect_node-load n s n.id at.0
          ∙ rw eq_refl refl)
  detect_each-verdict (n ∷ ns) s m at dif (Memᴰ.tail i) =
      detect_each-verdict ns _ m (still_stored n ns s at.0 dif.0 at.1) dif.1 i

-- Let each node stand under its own identifier. After the detection every stored node has its
-- verdict, and nothing else of it has changed: a healthy node whose last heartbeat is longer ago than
-- the timeout is unhealthy, a draining one is removed, and any other has the status that it had.
pub detect_unhealthy_nodes-verdict :
    (overflowed heartbeat_timeout : ℕ) (now : Time) (s : MemoryStore) (k : String) (n : Node)
    → IsKeyed (λ (m : Node). m.id) s.nodes
    → load k s.nodes ≡ some n
    → load k (detect_unhealthy_nodes overflowed heartbeat_timeout now s).nodes
      ≡ some (record n { status = verdict heartbeat_timeout now n })
unfolding detect_unhealthy_nodes list_nodes
detect_unhealthy_nodes-verdict overflowed heartbeat_timeout now s k n keyed found =
    let at =
      All-of_load (λ (m : Node). load m.id s.nodes ≡ some m) (λ (m : Node). m.id) s.nodes keyed
        λ j m e.
          subst (λ i. load i s.nodes ≡ some m)
            (sym (id_of_load (λ (x : Node). x.id) j m s.nodes keyed e)) e in
    subst
      (λ j.
        load j (detect_unhealthy_nodes overflowed heartbeat_timeout now s).nodes
        ≡ some (record n { status = verdict heartbeat_timeout now n }))
      (id_of_load (λ (m : Node). m.id) k n s.nodes keyed found)
      (detect_each-verdict overflowed heartbeat_timeout now (values s.nodes) s n at
        (values-IsDistinct _ s.nodes keyed) (load-Mem k n s.nodes found))
