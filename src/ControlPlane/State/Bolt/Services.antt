-- ===== src/ControlPlane/State/Bolt/Services.antt =====
-- The service operations of control-plane/internal/state/bolt_store.go.
use backend_infra_platform.Base.{String, true, List}
use backend_infra_platform.ControlPlane.Model.Deployment.{Time}
use backend_infra_platform.ControlPlane.Model.Service.{Service}
use backend_infra_platform.ControlPlane.State.Bolt.{
  Database, BoltStore, Answer, done, and_then, bget, bput, bdelete, list_where,
}

module _ {Bucket Bytes : Type 0} (db : Database Bucket Bytes) where
  -- A transaction that writes the bucket of the services.
  abbrev pub in_services : BoltStore Bucket → Answer Bucket → Answer (BoltStore Bucket)
  in_services s b = and_then b λ b'. done (record s { services = b' })

  unfoldable pub upsert_service : Time → Service → BoltStore Bucket → Answer (BoltStore Bucket)
  upsert_service now svc s =
      in_services s (bput db db.service svc.id (record svc { updated_at = now }) s.services)

  unfoldable pub get_service : String → BoltStore Bucket → Answer Service
  get_service id s = bget db db.service id s.services

  unfoldable pub list_services : BoltStore Bucket → Answer (List Service)
  list_services s = list_where db db.service (λ svc. true) s.services

  unfoldable pub delete_service : String → BoltStore Bucket → Answer (BoltStore Bucket)
  delete_service id s = in_services s (bdelete db id s.services)
