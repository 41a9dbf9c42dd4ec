-- ===== src/ControlPlane/Api/Backends.antt =====
-- The backends that the control plane resolves for a service.
use backend_infra_platform.Base.{
  All, Option-cases, ◌⊎◌, eq_iff, eq_refl, str_eq, String, pos, some, none, ◌∙◌, Bool, true, List,
  [], ◌∷◌, ◌≡◌, refl, sym, ap, subst, ◌↔◌, Memᴰ, inl, inr, arith, Bool-cases, keep, if◌then◌else◌,
}
use backend_infra_platform.ControlPlane.Model.Node.{Node, NodeStatus, node_status_eq}
use backend_infra_platform.ControlPlane.Model.Service.{Service, BackendSpec}
use backend_infra_platform.ControlPlane.State.{MemoryStore, matches_selector, label}
use backend_infra_platform.Base.SyncMap.{SyncMap, load, values}
use backend_infra_platform.ControlPlane.State.Nodes.{list_nodes, list_nodes_by_labels}
use backend_infra_platform.ControlPlane.Api.Services.{
  backend_of, healthy_backends, resolve_service_backends,
}

-- `n` is a node of `ns` that stands behind the backend `b`.
abbrev pub Serves : BackendSpec → List Node → Node → Type 0
Serves b ns n =
    Memᴰ n ns
    × (n.status ≡ NodeStatus.healthy)
    × (b ≡ record { name = n.id; url = n.address; weight = pos 1 })

-- The labels give the key that value; a key that they do not have counts as the empty value.
abbrev pub Gives : SyncMap String → String × String → Type 0
Gives labels (k, v) = (load k labels ≡ some v) ⊎ ((load k labels ≡ none) × (v ≡ ""))

label-Gives :
    (labels : SyncMap String) (k v : String)
    → str_eq (label k labels) v ≡ true
    → Gives labels (k, v)
unfolding label
label-Gives labels k v h = elim (Option-cases (load k labels)) [
  | inl absent ↦ inr (absent, sym ((eq_iff "" v).0 (rw (absent, label) at h)))
  | inr (w, found) ↦ inl (found ∙ ap some ((eq_iff w v).0 (rw (found, label) at h)))
]

Gives-label :
    (labels : SyncMap String) (k v : String)
    → Gives labels (k, v)
    → str_eq (label k labels) v ≡ true
unfolding label
Gives-label labels k v (inl found) = rw (found, label) (eq_refl v)
Gives-label labels k v (inr (absent, empty)) = rw (absent, label) (rw empty (eq_refl ""))

matches_selector_iff :
    (labels selector : SyncMap String)
    → (matches_selector labels selector ≡ true) ↔ All (Gives labels) selector
unfolding matches_selector
matches_selector_iff labels [] = (λ _. tt, λ _. refl)
matches_selector_iff labels ((k, v) ∷ selector) =
    let (to, from) = matches_selector_iff labels selector in
    (
      λ h.
          let mine : str_eq (label k labels) v ≡ true = ground arith in
          let others : matches_selector labels selector ≡ true = ground arith in
          (label-Gives labels k v mine, to others),
      λ (one, all). rw (Gives-label labels k v one, from all) refl,
    )

is_healthy :
    (n : Node) → node_status_eq n.status NodeStatus.healthy ≡ true → n.status ≡ NodeStatus.healthy
unfolding node_status_eq
is_healthy n h = ground arith

healthy_backends-to :
    (b : BackendSpec) (ns : List Node) → Memᴰ b (healthy_backends ns) → (n : Node) × Serves b ns n
unfolding healthy_backends backend_of
healthy_backends-to b (m ∷ ns) h = elim (Bool-cases (node_status_eq m.status NodeStatus.healthy)) [
  | inl e ↦
      elim (subst
        (λ t. Memᴰ b (if t then backend_of m ∷ healthy_backends ns else healthy_backends ns)) e h) [
          | Memᴰ.head p ↦ (m, (Memᴰ.head refl, is_healthy m e, p))
          | Memᴰ.tail t ↦ let (n, i) = healthy_backends-to b ns t in (n, (Memᴰ.tail i.0, i.1, i.2))
        ]
  | inr e ↦
      let (n, i) = healthy_backends-to b ns (
        subst (λ t. Memᴰ b (if t then backend_of m ∷ healthy_backends ns else healthy_backends ns))
          e h) in
      (n, (Memᴰ.tail i.0, i.1, i.2))
]
healthy_backends-to b [] h = elim h [ ]

healthy_backends-from :
    (b : BackendSpec) (ns : List Node) (n : Node) → Serves b ns n → Memᴰ b (healthy_backends ns)
unfolding healthy_backends backend_of node_status_eq
healthy_backends-from b [] n (m, h, p) = elim m [ ]
healthy_backends-from b (m ∷ ns) n (Memᴰ.head e, h, p) = rw (sym e) (rw h (Memᴰ.head p))
healthy_backends-from b (m ∷ ns) n (Memᴰ.tail t, h, p) =
    elim (Bool-cases (node_status_eq m.status NodeStatus.healthy)) [
      | inl e ↦ rw e (Memᴰ.tail (healthy_backends-from b ns n (t, h, p)))
      | inr e ↦ rw e (healthy_backends-from b ns n (t, h, p))
    ]

keep_mem-to :
    (q : Node → Bool) (n : Node) (ns : List Node) → Memᴰ n (keep q ns) → Memᴰ n ns × (q n ≡ true)
keep_mem-to q n (m ∷ ns) h = elim (Bool-cases (q m)) [
  | inl e ↦ elim (subst (λ t. Memᴰ n (if t then m ∷ keep q ns else keep q ns)) e h) [
    | Memᴰ.head p ↦ (Memᴰ.head p, rw p e)
    | Memᴰ.tail t ↦ let (i, r) = keep_mem-to q n ns t in (Memᴰ.tail i, r)
  ]
  | inr e ↦
      let (i, r) =
        keep_mem-to q n ns (subst (λ t. Memᴰ n (if t then m ∷ keep q ns else keep q ns)) e h) in
      (Memᴰ.tail i, r)
]
keep_mem-to q n [] h = elim h [ ]

keep_mem-from :
    (q : Node → Bool) (n : Node) (ns : List Node) → Memᴰ n ns → q n ≡ true → Memᴰ n (keep q ns)
keep_mem-from q n [] m h = elim m [ ]
keep_mem-from q n (m ∷ ns) (Memᴰ.head e) h = rw (ap q (sym e)) (rw h (Memᴰ.head e))
keep_mem-from q n (m ∷ ns) (Memᴰ.tail t) h = elim (Bool-cases (q m)) [
  | inl e ↦ rw e (Memᴰ.tail (keep_mem-from q n ns t h))
  | inr e ↦ rw e (keep_mem-from q n ns t h)
]

-- A backend is among those that the control plane resolves for a service exactly if it consists of
-- the identifier, the address and weight 1 of a node that the store holds, that is healthy and whose
-- labels give every key of the service's selector the value there, where a key that the labels do not
-- have counts as the empty value.
pub resolve_service_backends_iff :
    (svc : Service) (s : MemoryStore) (b : BackendSpec)
    → Memᴰ b (resolve_service_backends svc s)
      ↔ ((n : Node) × Serves b (values s.nodes) n × All (Gives n.labels) svc.selector)
unfolding resolve_service_backends list_nodes_by_labels list_nodes
resolve_service_backends_iff svc s b = (
  λ h.
      let (n, m) = healthy_backends-to b _ h in
      let (i, q) = keep_mem-to _ n _ m.0 in
      (n, (i, m.1, m.2), (matches_selector_iff n.labels svc.selector).0 q),
  λ h.
      let q = (matches_selector_iff h.0.labels svc.selector).1 h.2 in
      healthy_backends-from b _ h.0 (keep_mem-from _ h.0 _ h.1.0 q, h.1.1, h.1.2),
)
