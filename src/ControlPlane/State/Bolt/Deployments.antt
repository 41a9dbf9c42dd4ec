-- ===== src/ControlPlane/State/Bolt/Deployments.antt =====
-- The deployment operations of control-plane/internal/state/bolt_store.go.
use backend_infra_platform.Base.{String, true, List, none, some, str_eq, if◌then◌else◌}
use backend_infra_platform.ControlPlane.Model.Deployment.{
  Time, Deployment, DeploymentStatus, can_transition_deployment,
}
use backend_infra_platform.ControlPlane.State.{not_found, already_exists, invalid_transition}
use backend_infra_platform.ControlPlane.State.Bolt.{
  Database, BoltStore, Answer, done, store_error, and_then, bget, bput, bdelete, list_where,
}

module _ {Bucket Bytes : Type 0} (db : Database Bucket Bytes) where
  -- A transaction that writes the bucket of the deployments.
  abbrev pub in_deployments : BoltStore Bucket → Answer Bucket → Answer (BoltStore Bucket)
  in_deployments s b = and_then b λ b'. done (record s { deployments = b' })

  unfoldable pub create_deployment : Deployment → BoltStore Bucket → Answer (BoltStore Bucket)
  create_deployment d s = elim (db.get d.id s.deployments) [
    | some _ ↦ store_error already_exists
    | none ↦ in_deployments s (bput db db.deployment d.id d s.deployments)
  ]

  unfoldable pub get_deployment : String → BoltStore Bucket → Answer Deployment
  get_deployment id s = bget db db.deployment id s.deployments

  unfoldable pub list_deployments : BoltStore Bucket → Answer (List Deployment)
  list_deployments s = list_where db db.deployment (λ d. true) s.deployments

  unfoldable pub list_deployments_by_namespace :
      String → BoltStore Bucket → Answer (List Deployment)
  list_deployments_by_namespace namespace s =
      list_where db db.deployment (λ d. str_eq d.namespace namespace) s.deployments

  unfoldable pub update_deployment :
      Time → Deployment → BoltStore Bucket → Answer (BoltStore Bucket)
  update_deployment now d s = elim (db.get d.id s.deployments) [
    | none ↦ store_error not_found
    | some _ ↦
        in_deployments s (bput db db.deployment d.id (record d { updated_at = now }) s.deployments)
  ]

  unfoldable pub transition_deployment :
      Time → String → DeploymentStatus → BoltStore Bucket → Answer (BoltStore Bucket)
  transition_deployment now id to s = and_then (bget db db.deployment id s.deployments) λ d.
      if can_transition_deployment d.status to
      then in_deployments s
          (bput db db.deployment id (record d { status = to; updated_at = now }) s.deployments)
      else store_error invalid_transition

  unfoldable pub delete_deployment : String → BoltStore Bucket → Answer (BoltStore Bucket)
  delete_deployment id s = in_deployments s (bdelete db id s.deployments)
