-- ===== src/ControlPlane/State/Services.antt =====
-- The service operations of control-plane/internal/state/memory_store.go.
use backend_infra_platform.Base.{String, List, none, some}
use backend_infra_platform.Base.SyncMap.{load, store, delete, values}
use backend_infra_platform.ControlPlane.Model.Deployment.{Time}
use backend_infra_platform.ControlPlane.Model.Service.{Service}
use backend_infra_platform.ControlPlane.State.{MemoryStore, Result, ok, err, not_found}

unfoldable pub upsert_service : Time → Service → MemoryStore → Result MemoryStore
upsert_service now svc s =
    ok (record s { services = store svc.id (record svc { updated_at = now }) s.services })

unfoldable pub get_service : String → MemoryStore → Result Service
get_service id s = elim (load id s.services) [ none ↦ err not_found | some svc ↦ ok svc ]

unfoldable pub list_services : MemoryStore → List Service
list_services s = values s.services

unfoldable pub delete_service : String → MemoryStore → Result MemoryStore
delete_service id s = elim (load id s.services) [
  | none ↦ err not_found
  | some _ ↦ ok (record s { services = delete id s.services })
]
