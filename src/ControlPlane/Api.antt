-- ===== src/ControlPlane/Api.antt =====
-- control-plane/internal/api: handlers.go and what the handlers share. A handler is a function from
-- what it reads (path values, the query, the decoded body, the clock, the identifiers drawn) and
-- the store to the store it leaves and the response it writes. A body that the JSON decoder refuses
-- is `none`. Headers other than `Location` and the Prometheus counters are left out.
pub mod Nodes
pub mod Deployments
pub mod Services
pub mod Queue
pub mod Capacity
pub mod Statuses
pub mod Backends
pub mod Submit
mod Tests
use backend_infra_platform.Base.{ℕ, String, List, [], ◌∷◌, Option, none, some}
use backend_infra_platform.Base.SyncMap.{SyncMap, store}
use backend_infra_platform.ControlPlane.Model.Deployment.{Deployment}
use backend_infra_platform.ControlPlane.Model.Pod.{Pod}
use backend_infra_platform.ControlPlane.Model.Node.{Node}
use backend_infra_platform.ControlPlane.Model.Service.{Service, BackendSpec}
use backend_infra_platform.ControlPlane.Scheduler.{Stats}
use backend_infra_platform.ControlPlane.State.{
  StoreError, not_found, already_exists, invalid_transition, MemoryStore, Result, ok, err,
}

-- What a response carries; an entity that could not be read again is a JSON null. A list comes with
-- its length where the handler writes one.
pub data Body : Type 0 where
  no_content null : Body
  error : String → Body
  one_deployment : Deployment → Body
  one_pod : Pod → Body
  one_node : Node → Body
  one_service : Service → Body
  polled : Option Pod → Body
  all_deployments : List Deployment → ℕ → Body
  all_pods : List Pod → ℕ → Body
  all_nodes : List Node → ℕ → Body
  all_services : List Service → Option ℕ → Body
  all_backends : List BackendSpec → Option ℕ → Body
  stats : Stats → Body
  status_ok : Body

pub record Response : Type 0 where
  pub status : ℕ
  pub location : String
  pub body : Body

unfoldable pub write_json : ℕ → Body → Response
write_json status body = record { status = status; location = ""; body = body }

unfoldable pub write_json_error : ℕ → String → Response
unfolding write_json
write_json_error status msg = write_json status (Body.error msg)

unfoldable pub error_text : StoreError → String
error_text not_found = "not found"
error_text already_exists = "already exists"
error_text invalid_transition = "invalid state transition"

-- The answer that reads an entity again and ignores the error.
unfoldable pub body_of {ℓ} : {A : Type ℓ} → (A → Body) → Result A → Body
body_of f (ok a) = f a
body_of f (err e) = Body.null

add_label : Option (String × String) → SyncMap String → SyncMap String
add_label none labels = labels
add_label (some (k, v)) labels = store k v labels

-- `cut` is `strings.Cut` at "=". Later values overwrite earlier ones.
unfoldable pub parse_labels :
    (String → Option (String × String)) → List String → SyncMap String → SyncMap String
unfolding add_label
parse_labels cut [] labels = labels
parse_labels cut (v ∷ vals) labels = parse_labels cut vals (add_label (cut v) labels)
