-- ===== src/ControlPlane/Model/Pod.antt =====
-- control-plane/internal/model/pod.go.
use backend_infra_platform.Base.{
  ℕ, ℤ, String, Bool, true, false, ◌||◌, List, [], ◌∷◌, Option, str_eq, ◌≡◌, arith, eq_iff,
}
use backend_infra_platform.Base.SyncMap.{SyncMap}
use backend_infra_platform.ControlPlane.Model.Deployment.{Time, ResourceRequest}

-- A status that a client sends may be any text: `other` is one that the package does not name.
pub data PodStatus : Type 0 where
  pending scheduled running succeeded failed retrying dead_letter cancelled : PodStatus
  other : String → PodStatus

unfoldable pub pod_status_eq : PodStatus → PodStatus → Bool
pod_status_eq PodStatus.pending PodStatus.pending = true
pod_status_eq PodStatus.scheduled PodStatus.scheduled = true
pod_status_eq PodStatus.running PodStatus.running = true
pod_status_eq PodStatus.succeeded PodStatus.succeeded = true
pod_status_eq PodStatus.failed PodStatus.failed = true
pod_status_eq PodStatus.retrying PodStatus.retrying = true
pod_status_eq PodStatus.dead_letter PodStatus.dead_letter = true
pod_status_eq PodStatus.cancelled PodStatus.cancelled = true
pod_status_eq (PodStatus.other s) (PodStatus.other t) = str_eq s t
pod_status_eq _ _ = false

unfoldable pub allowed_pod_transitions : PodStatus → List PodStatus
allowed_pod_transitions PodStatus.pending = PodStatus.scheduled ∷ PodStatus.cancelled ∷ []
allowed_pod_transitions PodStatus.scheduled =
    PodStatus.running ∷ PodStatus.pending ∷ PodStatus.cancelled ∷ []
allowed_pod_transitions PodStatus.running =
    PodStatus.succeeded ∷ PodStatus.failed ∷ PodStatus.cancelled ∷ []
allowed_pod_transitions PodStatus.failed = PodStatus.retrying ∷ PodStatus.dead_letter ∷ []
allowed_pod_transitions PodStatus.retrying = PodStatus.pending ∷ PodStatus.scheduled ∷ []
allowed_pod_transitions PodStatus.succeeded = []
allowed_pod_transitions PodStatus.dead_letter = []
allowed_pod_transitions PodStatus.cancelled = []
allowed_pod_transitions (PodStatus.other s) = []

lists_pod_status : PodStatus → List PodStatus → Bool
lists_pod_status to [] = false
lists_pod_status to (s ∷ ss) = pod_status_eq s to || lists_pod_status to ss

-- `TransitionPod` of the package model: is the move legal?
unfoldable pub can_transition_pod : PodStatus → PodStatus → Bool
unfolding lists_pod_status allowed_pod_transitions pod_status_eq
can_transition_pod from to = lists_pod_status to (allowed_pod_transitions from)

pub record Pod : Type 0 where
  pub id : String
  pub deployment_id : String
  pub node_id : String
  pub namespace : String
  pub labels : SyncMap String
  pub attempt : ℕ
  pub status : PodStatus
  pub image : String
  pub container_id : String
  pub command : String
  pub args : List String
  pub resources : ResourceRequest
  pub exit_code : Option ℤ
  pub error : String
  pub output : String
  pub created_at : Time
  pub scheduled_at : Option Time
  pub started_at : Option Time
  pub finished_at : Option Time
  pub run_after : Time

-- The cases of the `switch` in `Active`.
unfoldable pub is_active_status : PodStatus → Bool
is_active_status PodStatus.pending = true
is_active_status PodStatus.scheduled = true
is_active_status PodStatus.running = true
is_active_status PodStatus.retrying = true
is_active_status PodStatus.failed = true
is_active_status PodStatus.succeeded = true
is_active_status _ = false

unfoldable pub active : Pod → Bool
unfolding is_active_status
active p = is_active_status p.status

pub pod_status_eq_iff_to : (s t : PodStatus) → pod_status_eq s t ≡ true → s ≡ t
unfolding pod_status_eq
pod_status_eq_iff_to (PodStatus.other s) (PodStatus.other t) h = ground (arith, eq_iff s t)
pod_status_eq_iff_to s t h = ground arith
