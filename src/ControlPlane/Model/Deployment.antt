-- ===== src/ControlPlane/Model/Deployment.antt =====
-- control-plane/internal/model/deployment.go.
use backend_infra_platform.Base.{ℕ, ℤ, String, Bool, true, false, ◌||◌, List, [], ◌∷◌}
use backend_infra_platform.Base.SyncMap.{SyncMap}

-- A point in time, in nanoseconds since Go's zero `time.Time`; 0 is the time that `IsZero`.
abbrev pub Time : Type 0
Time = ℕ

pub data DeploymentType : Type 0 where
  batch service : DeploymentType
  other : String → DeploymentType

pub data RestartPolicy : Type 0 where
  never on_failure always : RestartPolicy
  other : String → RestartPolicy

pub data DeploymentStatus : Type 0 where
  pending active degraded cancelled : DeploymentStatus

unfoldable pub deployment_status_eq : DeploymentStatus → DeploymentStatus → Bool
deployment_status_eq DeploymentStatus.pending DeploymentStatus.pending = true
deployment_status_eq DeploymentStatus.active DeploymentStatus.active = true
deployment_status_eq DeploymentStatus.degraded DeploymentStatus.degraded = true
deployment_status_eq DeploymentStatus.cancelled DeploymentStatus.cancelled = true
deployment_status_eq _ _ = false

unfoldable pub allowed_deployment_transitions : DeploymentStatus → List DeploymentStatus
allowed_deployment_transitions DeploymentStatus.pending =
    DeploymentStatus.active ∷ DeploymentStatus.cancelled ∷ []
allowed_deployment_transitions DeploymentStatus.active =
    DeploymentStatus.degraded ∷ DeploymentStatus.cancelled ∷ []
allowed_deployment_transitions DeploymentStatus.degraded =
    DeploymentStatus.active ∷ DeploymentStatus.cancelled ∷ []
allowed_deployment_transitions DeploymentStatus.cancelled = []

lists_deployment_status : DeploymentStatus → List DeploymentStatus → Bool
lists_deployment_status to [] = false
lists_deployment_status to (s ∷ ss) = deployment_status_eq s to || lists_deployment_status to ss

-- `TransitionDeployment` of the package model: is the move legal?
unfoldable pub can_transition_deployment : DeploymentStatus → DeploymentStatus → Bool
unfolding lists_deployment_status allowed_deployment_transitions deployment_status_eq
can_transition_deployment from to = lists_deployment_status to (allowed_deployment_transitions from)

-- CPU is a float64, as the multiple of 2^-1074 that it is (Base/Float).
pub record ResourceRequest : Type 0 where
  pub cpu : ℤ
  pub memory_mb : ℤ

pub record Deployment : Type 0 where
  pub id : String
  pub name : String
  pub namespace : String
  pub labels : SyncMap String
  pub type : DeploymentType
  pub image : String
  pub command : String
  pub args : List String
  pub replicas : ℤ
  pub max_retries : ℤ
  pub restart_policy : RestartPolicy
  pub resources : ResourceRequest
  pub status : DeploymentStatus
  pub created_at : Time
  pub updated_at : Time
