-- ===== src/ControlPlane/Api/Queue.antt =====
-- control-plane/internal/api/handlers_scheduler.go. `none` is a server that runs no scheduler;
-- otherwise the argument holds the statistics of the scheduler's last pass.
use backend_infra_platform.Base.{Option, none, some, length}
use backend_infra_platform.ControlPlane.Model.Deployment.{Time}
use backend_infra_platform.ControlPlane.Model.Pod.{PodStatus}
use backend_infra_platform.ControlPlane.State.{MemoryStore}
use backend_infra_platform.ControlPlane.State.Pods.{list_pods_by_status}
use backend_infra_platform.ControlPlane.Scheduler.{Stats, tick}
use backend_infra_platform.ControlPlane.Api.{Body, Response, write_json, write_json_error}

unfoldable pub scheduler_queue : MemoryStore → Response
scheduler_queue s =
    let pending = list_pods_by_status PodStatus.pending s in
    write_json 200 (Body.all_pods pending (length pending))

unfoldable pub scheduler_stats : Option Stats → Response
scheduler_stats none = write_json_error 503 "scheduler not running"
scheduler_stats (some stats) = write_json 200 (Body.stats stats)

-- The store and the statistics that the pass leaves, and the answer.
unfoldable pub scheduler_rebalance :
    Time → Option Stats → MemoryStore → MemoryStore × Option Stats × Response
scheduler_rebalance now none s = (s, none, write_json_error 503 "scheduler not running")
scheduler_rebalance now (some old) s =
    let (s', stats) = tick now s in (s', some stats, write_json 202 (Body.stats stats))
