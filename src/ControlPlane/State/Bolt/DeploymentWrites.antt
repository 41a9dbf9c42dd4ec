-- ===== src/ControlPlane/State/Bolt/DeploymentWrites.antt =====
-- The writes of the deployments in both stores.
use backend_infra_platform.Base.{String, Bool, true, ◌≡◌, refl, inl, inr, Option-cases, Bool-cases}
use backend_infra_platform.Base.SyncMap.{load}
use backend_infra_platform.ControlPlane.Model.Deployment.{
  Time, Deployment, DeploymentStatus, can_transition_deployment,
}
use backend_infra_platform.ControlPlane.State.{MemoryStore}
use backend_infra_platform.ControlPlane.State.Deployments as Memory_deployments
use backend_infra_platform.ControlPlane.State.Bolt.{Database, IsDatabase, BoltStore, and_then}
use backend_infra_platform.ControlPlane.State.Bolt.Deployments as Bolt_deployments
use backend_infra_platform.ControlPlane.State.Bolt.Sees.{
  get_absent, get_present, bget_absent, bget_present, bdelete-Sees, bdelete_absent,
}
use backend_infra_platform.ControlPlane.State.Bolt.Agreement.{Refines, Agrees, put_deployment}

module _ {Bucket Bytes : Type 0} (db : Database Bucket Bytes) (accepts : String → Bool)
    (law : IsDatabase db accepts) (b : BoltStore Bucket) (s : MemoryStore)
    (r : Refines db b s) where
  pub create_deployment-Agrees :
      (v : Deployment)
      → accepts v.id ≡ true
      → Agrees db
          (Bolt_deployments.create_deployment db v b)
          (Memory_deployments.create_deployment v s)
  unfolding Bolt_deployments.create_deployment Memory_deployments.create_deployment
  create_deployment-Agrees v key = elim (Option-cases (load v.id s.deployments)) [
    | inl absent ↦
        rw (absent, Memory_deployments.create_deployment)
          (rw
            (
              get_absent db db.deployment v.id b.deployments s.deployments r.deployments absent,
              Bolt_deployments.create_deployment,
            )
            (put_deployment db accepts law b s r v.id v key))
    | inr (old, found) ↦
        let (raw, e, _) =
          get_present db db.deployment v.id b.deployments s.deployments r.deployments old found in
        rw (found, Memory_deployments.create_deployment)
          (rw (e, Bolt_deployments.create_deployment) refl)
  ]

  pub update_deployment-Agrees :
      (now : Time) (v : Deployment)
      → accepts v.id ≡ true
      → Agrees db
          (Bolt_deployments.update_deployment db now v b)
          (Memory_deployments.update_deployment now v s)
  unfolding Bolt_deployments.update_deployment Memory_deployments.update_deployment
  update_deployment-Agrees now v key = elim (Option-cases (load v.id s.deployments)) [
    | inl absent ↦
        rw (absent, Memory_deployments.update_deployment)
          (rw
            (
              get_absent db db.deployment v.id b.deployments s.deployments r.deployments absent,
              Bolt_deployments.update_deployment,
            )
            refl)
    | inr (old, found) ↦
        let (raw, e, _) =
          get_present db db.deployment v.id b.deployments s.deployments r.deployments old found in
        rw (found, Memory_deployments.update_deployment)
          (rw (e, Bolt_deployments.update_deployment)
            (put_deployment db accepts law b s r v.id (record v { updated_at = now }) key))
  ]

  pub transition_deployment-Agrees :
      (now : Time) (id : String) (to : DeploymentStatus)
      → accepts id ≡ true
      → Agrees db
          (Bolt_deployments.transition_deployment db now id to b)
          (Memory_deployments.transition_deployment now id to s)
  unfolding Bolt_deployments.transition_deployment Memory_deployments.transition_deployment and_then
  transition_deployment-Agrees now id to key = elim (Option-cases (load id s.deployments)) [
    | inl absent ↦
        rw (absent, Memory_deployments.transition_deployment)
          (rw (bget_absent db db.deployment id b.deployments s.deployments r.deployments absent)
            refl)
    | inr (v, found) ↦
        rw (found, Memory_deployments.transition_deployment)
          (rw (bget_present db db.deployment id b.deployments s.deployments r.deployments v found)
            (elim (Bool-cases (can_transition_deployment v.status to)) [
              | inl legal ↦ rw legal (
                  put_deployment db accepts law b s r id
                    (record v { status = to; updated_at = now }) key)
              | inr illegal ↦ rw illegal refl
            ]))
  ]

  pub delete_deployment-Agrees :
      (id : String)
      → Agrees db
          (Bolt_deployments.delete_deployment db id b)
          (Memory_deployments.delete_deployment id s)
  unfolding Bolt_deployments.delete_deployment Memory_deployments.delete_deployment and_then
  delete_deployment-Agrees id = elim (Option-cases (load id s.deployments)) [
    | inl absent ↦
        rw (absent, Memory_deployments.delete_deployment)
          (rw
            (bdelete_absent db accepts law db.deployment id b.deployments s.deployments
              r.deployments absent)
            refl)
    | inr (v, found) ↦
        let (b', deleted, sees) =
          bdelete-Sees db accepts law db.deployment id b.deployments s.deployments r.deployments v
            found in
        rw (found, Memory_deployments.delete_deployment)
          (rw deleted
            (record { deployments = sees; pods = r.pods; nodes = r.nodes; services = r.services }))
  ]
