-- ===== src/ControlPlane/State/Bolt/ServiceWrites.antt =====
-- The writes of the services in both stores.
use backend_infra_platform.Base.{String, Bool, true, ◌≡◌, refl, inl, inr, Option-cases}
use backend_infra_platform.Base.SyncMap.{load}
use backend_infra_platform.ControlPlane.Model.Deployment.{Time}
use backend_infra_platform.ControlPlane.Model.Service.{Service}
use backend_infra_platform.ControlPlane.State.{MemoryStore}
use backend_infra_platform.ControlPlane.State.Services as Memory_services
use backend_infra_platform.ControlPlane.State.Bolt.{Database, IsDatabase, BoltStore, and_then}
use backend_infra_platform.ControlPlane.State.Bolt.Services as Bolt_services
use backend_infra_platform.ControlPlane.State.Bolt.Sees.{bdelete-Sees, bdelete_absent}
use backend_infra_platform.ControlPlane.State.Bolt.Agreement.{Refines, Agrees, put_service}

module _ {Bucket Bytes : Type 0} (db : Database Bucket Bytes) (accepts : String → Bool)
    (law : IsDatabase db accepts) (b : BoltStore Bucket) (s : MemoryStore)
    (r : Refines db b s) where
  pub upsert_service-Agrees :
      (now : Time) (v : Service)
      → accepts v.id ≡ true
      → Agrees db (Bolt_services.upsert_service db now v b) (Memory_services.upsert_service now v s)
  unfolding Bolt_services.upsert_service Memory_services.upsert_service
  upsert_service-Agrees now v key =
      put_service db accepts law b s r v.id (record v { updated_at = now }) key

  pub delete_service-Agrees :
      (id : String)
      → Agrees db (Bolt_services.delete_service db id b) (Memory_services.delete_service id s)
  unfolding Bolt_services.delete_service Memory_services.delete_service and_then
  delete_service-Agrees id = elim (Option-cases (load id s.services)) [
    | inl absent ↦
        rw (absent, Memory_services.delete_service)
          (rw (bdelete_absent db accepts law db.service id b.services s.services r.services absent)
            refl)
    | inr (v, found) ↦
        let (b', deleted, sees) =
          bdelete-Sees db accepts law db.service id b.services s.services r.services v found in
        rw (found, Memory_services.delete_service)
          (rw deleted (record {
            deployments = r.deployments;
            pods = r.pods;
            nodes = r.nodes;
            services = sees;
          }))
  ]
