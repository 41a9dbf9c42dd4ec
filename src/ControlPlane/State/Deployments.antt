-- ===== src/ControlPlane/State/Deployments.antt =====
-- The deployment operations of control-plane/internal/state/memory_store.go.
use backend_infra_platform.Base.{String, List, none, some, str_eq, if◌then◌else◌, keep}
use backend_infra_platform.Base.SyncMap.{load, store, delete, values}
use backend_infra_platform.ControlPlane.Model.Deployment.{
  Time, Deployment, DeploymentStatus, can_transition_deployment,
}
use backend_infra_platform.ControlPlane.State.{
  MemoryStore, Result, ok, err, not_found, already_exists, invalid_transition,
}

unfoldable pub create_deployment : Deployment → MemoryStore → Result MemoryStore
create_deployment d s = elim (load d.id s.deployments) [
  | some _ ↦ err already_exists
  | none ↦ ok (record s { deployments = store d.id d s.deployments })
]

unfoldable pub get_deployment : String → MemoryStore → Result Deployment
get_deployment id s = elim (load id s.deployments) [ none ↦ err not_found | some d ↦ ok d ]

unfoldable pub list_deployments : MemoryStore → List Deployment
list_deployments s = values s.deployments

unfoldable pub list_deployments_by_namespace : String → MemoryStore → List Deployment
list_deployments_by_namespace namespace s =
    keep (λ d. str_eq d.namespace namespace) (values s.deployments)

unfoldable pub update_deployment : Time → Deployment → MemoryStore → Result MemoryStore
update_deployment now d s = elim (load d.id s.deployments) [
  | none ↦ err not_found
  | some _ ↦
      ok (record s { deployments = store d.id (record d { updated_at = now }) s.deployments })
]

unfoldable pub transition_deployment :
    Time → String → DeploymentStatus → MemoryStore → Result MemoryStore
transition_deployment now id to s = elim (load id s.deployments) [
  | none ↦ err not_found
  | some d ↦
      if can_transition_deployment d.status to
      then ok (record s {
        deployments = store id (record d { status = to; updated_at = now }) s.deployments;
      })
      else err invalid_transition
]

unfoldable pub delete_deployment : String → MemoryStore → Result MemoryStore
delete_deployment id s = elim (load id s.deployments) [
  | none ↦ err not_found
  | some _ ↦ ok (record s { deployments = delete id s.deployments })
]
