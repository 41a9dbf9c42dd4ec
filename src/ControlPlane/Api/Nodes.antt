-- ===== src/ControlPlane/Api/Nodes.antt =====
-- control-plane/internal/api/handlers_node.go.
use backend_infra_platform.Base.{
  ℕ, zero, suc, ℤ, pos, ◌+ℤ◌, ◌-ℤ◌, ltb_ℤ, eqb_ℤ, String, Bool, true, false, ◌&&◌, List, [], ◌∷◌,
  Option, none, some, str_eq, if◌then◌else◌, length,
}
use backend_infra_platform.Base.Float.{add_float}
use backend_infra_platform.ControlPlane.Model.Deployment.{Time, ResourceRequest}
use backend_infra_platform.ControlPlane.Model.Pod.{Pod, PodStatus, pod_status_eq}
use backend_infra_platform.ControlPlane.Model.Node.{
  Node, NodeStatus, ResourceCapacity, node_status_eq,
}
use backend_infra_platform.ControlPlane.State.{
  MemoryStore, StoreError, invalid_transition, ok, err, or_keep,
}
use backend_infra_platform.ControlPlane.State.Deployments.{get_deployment}
use backend_infra_platform.ControlPlane.State.Pods.{
  get_pod, list_pods_by_node, update_pod, transition_pod,
}
use backend_infra_platform.ControlPlane.State.Nodes.{
  register_node, get_node, list_nodes, list_nodes_by_labels, update_node, transition_node,
}
use backend_infra_platform.ControlPlane.Api.{
  Body, Response, write_json, write_json_error, error_text, body_of, parse_labels,
}

pub record RegisterNodeRequest : Type 0 where
  pub hostname : String
  pub address : String
  pub capacity : ResourceCapacity
  pub max_concurrent : ℤ

unfoldable pub new_node : Time → RegisterNodeRequest → String → Node
new_node now req id = record {
  id = id;
  hostname = req.hostname;
  address = req.address;
  labels = [];
  status = NodeStatus.registering;
  capacity = req.capacity;
  available = req.capacity;
  running_jobs = pos 0;
  max_concurrent = req.max_concurrent;
  last_heartbeat_at = now;
  registered_at = now;
}

-- How the loop over fresh identifiers ends.
pub data Allocation : Type 0 where
  generation_failed : Allocation
  no_unique_id : Allocation
  allocated : String → MemoryStore → Allocation

-- At most `attempts` rounds of the loop, on the identifiers that `generateID` draws.
unfoldable pub allocate_node :
    Time → RegisterNodeRequest → ℕ → List (Option String) → MemoryStore → Allocation
allocate_node now req zero ids s = Allocation.no_unique_id
allocate_node now req (suc attempts) [] s = Allocation.generation_failed
allocate_node now req (suc attempts) (none ∷ ids) s = Allocation.generation_failed
allocate_node now req (suc attempts) (some id ∷ ids) s =
    elim (register_node (new_node now req id) s) [
      | ok s' ↦ Allocation.allocated id s'
      | err _ ↦ allocate_node now req attempts ids s
    ]

-- From the allocation on.
unfoldable pub mark_healthy : String → MemoryStore → MemoryStore × Response
mark_healthy id s = elim (transition_node id NodeStatus.healthy s) [
  | err _ ↦ (s, write_json_error 500 "failed to mark node healthy")
  | ok s' ↦ (
    s',
    elim (get_node id s') [
      | err _ ↦ write_json_error 500 "node vanished after registration"
      | ok n ↦ write_json 201 (Body.one_node n)
    ],
  )
]

unfoldable pub register_node_handler :
    Time → List (Option String) → Option RegisterNodeRequest → MemoryStore → MemoryStore × Response
register_node_handler now ids none s = (s, write_json_error 400 "invalid JSON body")
register_node_handler now ids (some req) s =
    if str_eq req.address ""
    then (s, write_json_error 400 "address is required")
    else elim (allocate_node now req 5 ids s) [
      | Allocation.generation_failed ↦ (s, write_json_error 500 "failed to generate node id")
      | Allocation.no_unique_id ↦ (s, write_json_error 500 "failed to allocate a unique node id")
      | Allocation.allocated id s' ↦
          if str_eq id ""
          then (s', write_json_error 500 "failed to allocate a unique node id")
          else mark_healthy id s'
    ]

pub record HeartbeatRequest : Type 0 where
  pub running_jobs : ℤ
  pub available : ResourceCapacity

unfoldable pub is_zero_capacity : ResourceCapacity → Bool
is_zero_capacity c = eqb_ℤ c.cpu (pos 0) && eqb_ℤ c.memory_mb (pos 0)

unfoldable pub beat : Time → HeartbeatRequest → Node → Node
beat now req n = record n {
  last_heartbeat_at = now;
  running_jobs = req.running_jobs;
  available = if is_zero_capacity req.available then n.available else req.available;
}

-- `req` is what the decoder left of the optional body.
unfoldable pub heartbeat : Time → String → HeartbeatRequest → MemoryStore → MemoryStore × Response
unfolding beat is_zero_capacity node_status_eq
heartbeat now id req s = elim (get_node id s) [
  | err _ ↦ (s, write_json_error 404 "node not found")
  | ok node ↦ elim (update_node (beat now req node) s) [
    | err e ↦ (s, write_json_error 500 (error_text e))
    | ok s₁ ↦
        if node_status_eq node.status NodeStatus.unhealthy
        then elim (transition_node id NodeStatus.healthy s₁) [
          | err e ↦ (s₁, write_json_error 500 (error_text e))
          | ok s₂ ↦ (s₂, write_json 200 Body.status_ok)
        ]
        else (s₁, write_json 200 Body.status_ok)
  ]
]

first_scheduled : List Pod → Option Pod
first_scheduled [] = none
first_scheduled (p ∷ ps) =
    if pod_status_eq p.status PodStatus.scheduled then some p else first_scheduled ps

unfoldable pub poll_pods : String → MemoryStore → Response
unfolding first_scheduled
poll_pods id s = elim (get_node id s) [
  | err _ ↦ write_json_error 404 "node not found"
  | ok _ ↦ write_json 200 (Body.polled (first_scheduled (list_pods_by_node id s)))
]

pub record PodStatusRequest : Type 0 where
  pub status : PodStatus
  pub exit_code : Option ℤ
  pub error : String
  pub output : String

unfoldable pub is_pod_terminalish : PodStatus → Bool
is_pod_terminalish PodStatus.succeeded = true
is_pod_terminalish PodStatus.failed = true
is_pod_terminalish PodStatus.cancelled = true
is_pod_terminalish _ = false

-- `if a > b { a = b }`
abbrev pub clamp : ℤ → ℤ → ℤ
clamp a b = if ltb_ℤ b a then b else a

-- One job less, and never more than the capacity.
unfoldable pub release : Option ResourceRequest → Node → Node
release resources n =
    let n₁ : Node =
      if ltb_ℤ (pos 0) n.running_jobs
      then record n { running_jobs = n.running_jobs -ℤ pos 1 }
      else n in
    elim resources [
      | none ↦ n₁
      | some r ↦ record n₁ {
        available = record {
          cpu = clamp (add_float n₁.available.cpu r.cpu) n₁.capacity.cpu;
          memory_mb = clamp (n₁.available.memory_mb +ℤ r.memory_mb) n₁.capacity.memory_mb;
        };
      }
    ]

unfoldable pub resources_of : String → MemoryStore → Option ResourceRequest
resources_of deployment_id s = elim (get_deployment deployment_id s) [
  | err _ ↦ none
  | ok d ↦ some d.resources
]

unfoldable pub release_node_capacity : String → String → MemoryStore → MemoryStore
release_node_capacity node_id deployment_id s = elim (get_node node_id s) [
  | err _ ↦ s
  | ok node ↦ or_keep s (update_node (release (resources_of deployment_id s) node) s)
]

unfoldable pub status_error : StoreError → Response
status_error invalid_transition = write_json_error 409 (error_text invalid_transition)
status_error e = write_json_error 500 (error_text e)

-- From the two writes on, for the pod that was read.
unfoldable pub report :
    Time → String → Pod → PodStatusRequest → MemoryStore → MemoryStore × Response
unfolding is_pod_terminalish status_error pod_status_eq
report now node_id pod req s =
    let p : Pod = record pod { exit_code = req.exit_code; output = req.output } in
    elim (update_pod p s) [
      | err e ↦ (s, write_json_error 500 (error_text e))
      | ok s₁ ↦ elim (transition_pod now pod.id req.status req.error s₁) [
        | err e ↦ (s₁, status_error e)
        | ok s₂ ↦
            let s₃ =
              if pod_status_eq pod.status PodStatus.running && is_pod_terminalish req.status
              then release_node_capacity node_id pod.deployment_id s₂
              else s₂ in
            (s₃, write_json 200 (body_of Body.one_pod (get_pod pod.id s₃)))
      ]
    ]

unfoldable pub update_pod_status :
    Time → String → String → Option PodStatusRequest → MemoryStore → MemoryStore × Response
unfolding report
update_pod_status now node_id pod_id none s = (s, write_json_error 400 "invalid JSON body")
update_pod_status now node_id pod_id (some req) s = elim (get_pod pod_id s) [
  | err _ ↦ (s, write_json_error 404 "pod not found")
  | ok pod ↦ report now node_id pod req s
]

-- `cut` is `strings.Cut` at "=".
unfoldable pub list_nodes_handler :
    (String → Option (String × String)) → List String → MemoryStore → Response
list_nodes_handler cut [] s =
    let nodes = list_nodes s in write_json 200 (Body.all_nodes nodes (length nodes))
list_nodes_handler cut (v ∷ vals) s =
    let nodes = list_nodes_by_labels (parse_labels cut (v ∷ vals) []) s in
    write_json 200 (Body.all_nodes nodes (length nodes))

unfoldable pub get_node_handler : String → MemoryStore → Response
get_node_handler id s = elim (get_node id s) [
  | err _ ↦ write_json_error 404 "node not found"
  | ok n ↦ write_json 200 (Body.one_node n)
]

unfoldable pub drain_node : String → MemoryStore → MemoryStore × Response
unfolding status_error
drain_node id s = elim (get_node id s) [
  | err _ ↦ (s, write_json_error 404 "node not found")
  | ok _ ↦ elim (transition_node id NodeStatus.draining s) [
    | err e ↦ (s, status_error e)
    | ok s' ↦ (s', write_json 200 (body_of Body.one_node (get_node id s')))
  ]
]
