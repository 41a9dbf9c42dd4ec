-- ===== src/ControlPlane/Api/Deployments.antt =====
-- control-plane/internal/api/handlers_deployment.go.
use backend_infra_platform.Base.{
  text_append, ℕ, zero, suc, ℤ, pos, leb_ℤ, String, Bool, false, ◌&&◌, ◌||◌, List, [], ◌∷◌, Option,
  none, some, str_eq, if◌then◌else◌, length,
}
use backend_infra_platform.Base.SyncMap.{SyncMap}
use backend_infra_platform.ControlPlane.Model.Deployment.{
  Time, ResourceRequest, Deployment, DeploymentType, DeploymentStatus, RestartPolicy,
}
use backend_infra_platform.ControlPlane.State.{MemoryStore, StoreError, invalid_transition, ok, err}
use backend_infra_platform.ControlPlane.State.Deployments.{
  create_deployment, get_deployment, list_deployments, list_deployments_by_namespace,
  transition_deployment,
}
use backend_infra_platform.ControlPlane.State.Pods.{list_pods_by_deployment}
use backend_infra_platform.ControlPlane.Api.{
  Body, Response, write_json, write_json_error, error_text, body_of,
}
use backend_infra_platform.ControlPlane.Api.Nodes.{Allocation}

pub record SubmitDeploymentRequest : Type 0 where
  pub name : String
  pub namespace : String
  pub labels : SyncMap String
  pub type : DeploymentType
  pub image : String
  pub command : String
  pub args : List String
  pub replicas : ℤ
  pub max_retries : ℤ
  pub restart_policy : RestartPolicy
  pub resources : ResourceRequest

unfoldable pub is_empty_type : DeploymentType → Bool
is_empty_type (DeploymentType.other s) = str_eq s ""
is_empty_type _ = false

unfoldable pub is_empty_policy : RestartPolicy → Bool
is_empty_policy (RestartPolicy.other s) = str_eq s ""
is_empty_policy _ = false

-- The four defaults.
unfoldable pub with_defaults : SubmitDeploymentRequest → SubmitDeploymentRequest
unfolding is_empty_type is_empty_policy
with_defaults req = record req {
  replicas = if leb_ℤ req.replicas (pos 0) then pos 1 else req.replicas;
  type = if is_empty_type req.type then DeploymentType.batch else req.type;
  restart_policy =
      if is_empty_policy req.restart_policy then RestartPolicy.on_failure else req.restart_policy;
  namespace = if str_eq req.namespace "" then "default" else req.namespace;
}

unfoldable pub new_deployment : Time → SubmitDeploymentRequest → String → Deployment
new_deployment now req id = record {
  id = id;
  name = req.name;
  namespace = req.namespace;
  labels = req.labels;
  type = req.type;
  image = req.image;
  command = req.command;
  args = req.args;
  replicas = req.replicas;
  max_retries = req.max_retries;
  restart_policy = req.restart_policy;
  resources = req.resources;
  status = DeploymentStatus.pending;
  created_at = now;
  updated_at = now;
}

-- At most `attempts` rounds of the loop, on the identifiers that `generateID` draws.
unfoldable pub allocate_deployment :
    Time → SubmitDeploymentRequest → ℕ → List (Option String) → MemoryStore → Allocation
allocate_deployment now req zero ids s = Allocation.no_unique_id
allocate_deployment now req (suc attempts) [] s = Allocation.generation_failed
allocate_deployment now req (suc attempts) (none ∷ ids) s = Allocation.generation_failed
allocate_deployment now req (suc attempts) (some id ∷ ids) s =
    elim (create_deployment (new_deployment now req id) s) [
      | ok s' ↦ Allocation.allocated id s'
      | err _ ↦ allocate_deployment now req attempts ids s
    ]

unfoldable pub answer_created : String → MemoryStore → MemoryStore × Response
answer_created id s = (
  s,
  elim (get_deployment id s) [
    | err _ ↦ write_json_error 500 "deployment vanished after creation"
    | ok d ↦ record (write_json 201 (Body.one_deployment d)) {
      location = text_append "/api/v1/deployments/" id;
    }
  ],
)

unfoldable pub is_incomplete : SubmitDeploymentRequest → Bool
is_incomplete req = str_eq req.name "" || (str_eq req.command "" && str_eq req.image "")

unfoldable pub create_deployment_handler :
    Time
    → List (Option String)
    → Option SubmitDeploymentRequest
    → MemoryStore
    → MemoryStore × Response
unfolding is_incomplete
create_deployment_handler now ids none s = (s, write_json_error 400 "invalid JSON body")
create_deployment_handler now ids (some req) s =
    if is_incomplete req
    then (s, write_json_error 400 "name and either command or image are required")
    else elim (allocate_deployment now (with_defaults req) 5 ids s) [
      | Allocation.generation_failed ↦ (s, write_json_error 500 "failed to generate deployment id")
      | Allocation.no_unique_id ↦
          (s, write_json_error 500 "failed to allocate a unique deployment id")
      | Allocation.allocated id s' ↦
          if str_eq id ""
          then (s', write_json_error 500 "failed to allocate a unique deployment id")
          else answer_created id s'
    ]

unfoldable pub list_deployments_handler : String → MemoryStore → Response
list_deployments_handler ns s =
    let deployments =
      if str_eq ns "" then list_deployments s else list_deployments_by_namespace ns s in
    write_json 200 (Body.all_deployments deployments (length deployments))

unfoldable pub get_deployment_handler : String → MemoryStore → Response
get_deployment_handler id s = elim (get_deployment id s) [
  | err _ ↦ write_json_error 404 "deployment not found"
  | ok d ↦ write_json 200 (Body.one_deployment d)
]

unfoldable pub cancel_error : StoreError → Response
cancel_error invalid_transition = write_json_error 409 "deployment already cancelled"
cancel_error e = write_json_error 500 (error_text e)

unfoldable pub cancel_deployment : Time → String → MemoryStore → MemoryStore × Response
unfolding cancel_error
cancel_deployment now id s = elim (get_deployment id s) [
  | err _ ↦ (s, write_json_error 404 "deployment not found")
  | ok _ ↦ elim (transition_deployment now id DeploymentStatus.cancelled s) [
    | err e ↦ (s, cancel_error e)
    | ok s' ↦ (s', write_json 200 (body_of Body.one_deployment (get_deployment id s')))
  ]
]

unfoldable pub list_deployment_pods : String → MemoryStore → Response
list_deployment_pods id s = elim (get_deployment id s) [
  | err _ ↦ write_json_error 404 "deployment not found"
  | ok _ ↦
      let pods = list_pods_by_deployment id s in write_json 200 (Body.all_pods pods (length pods))
]
