-- ===== src/ControlPlane/Api/Tests.antt =====
-- Runs of the handlers on a small cluster: the theorems at concrete inputs.
use backend_infra_platform.Base.{
  ◌*◌, ◌^◌, ◌⊎◌, ◌≢◌, ◌-ℤ◌, ◌+ℤ◌, All, pos, ◌≤ℤ◌, [], ◌∷◌, some, ◌≡◌, refl, ◌↔◌, arith, Memᴰ,
  text_append,
}
use backend_infra_platform.Base.SyncMap.{load, store, values}
use backend_infra_platform.Base.Float.{round_float, add_float, sub_float}
use backend_infra_platform.ControlPlane.Model.Deployment.{
  ResourceRequest, Deployment, DeploymentStatus, DeploymentType, RestartPolicy,
}
use backend_infra_platform.ControlPlane.Model.Pod.{PodStatus, can_transition_pod}
use backend_infra_platform.ControlPlane.Model.Node.{Node, NodeStatus, node_status_eq}
use backend_infra_platform.ControlPlane.Model.Service.{Service, LoadBalanceStrategy, BackendSpec}
use backend_infra_platform.ControlPlane.State.{MemoryStore}
use backend_infra_platform.ControlPlane.Scheduler.{reserve}
use backend_infra_platform.ControlPlane.Api.{Body}
use backend_infra_platform.ControlPlane.Api.Nodes.{
  PodStatusRequest, HeartbeatRequest, update_pod_status, heartbeat, release,
}
use backend_infra_platform.ControlPlane.Api.Deployments.{
  SubmitDeploymentRequest, create_deployment_handler, cancel_deployment,
}
use backend_infra_platform.ControlPlane.Api.Services.{resolve_service_backends}
use backend_infra_platform.ControlPlane.Api.Capacity.{release-reserve}
use backend_infra_platform.ControlPlane.Api.Statuses.{
  with_outcome, update_pod_status-outcome, heartbeat-recovers,
}
use backend_infra_platform.ControlPlane.Api.Submit.{
  create_deployment_handler-created, cancel_deployment-once,
}
use backend_infra_platform.ControlPlane.Api.Backends.{Serves, Gives, resolve_service_backends_iff}
use backend_infra_platform.ControlPlane.Samples.{request, web, idle, cluster_of, cluster, lost}

abbrev report : PodStatusRequest
report = record { status = PodStatus.pending; exit_code = some (pos 1); error = ""; output = "x" }

-- The move from RUNNING to PENDING is refused.
update_pod_status-outcome_example :
    (load "pod_1" (update_pod_status 50 "node_1" "pod_1" (some report) (cluster_of lost)).0.pods
      ≡ some (with_outcome report lost))
    × ((update_pod_status 50 "node_1" "pod_1" (some report) (cluster_of lost)).1.status ≡ 409)
unfolding load can_transition_pod
update_pod_status-outcome_example =
    update_pod_status-outcome 50 "node_1" lost report (cluster_of lost) refl

abbrev lost_node : Node
lost_node = record idle { status = NodeStatus.unhealthy }

abbrev alive_again : HeartbeatRequest
alive_again = record {
  running_jobs = pos 3;
  available = record { cpu = pos 0; memory_mb = pos 64 };
}

abbrev degraded_cluster : MemoryStore
degraded_cluster = record cluster { nodes = ("node_1", lost_node) ∷ [] }

heartbeat-recovers_example :
    (load "node_1" (heartbeat 60 "node_1" alive_again degraded_cluster).0.nodes
      ≡ some (record lost_node {
        last_heartbeat_at = 60;
        running_jobs = pos 3;
        available = record { cpu = pos 0; memory_mb = pos 64 };
        status = NodeStatus.healthy;
      }))
    × ((heartbeat 60 "node_1" alive_again degraded_cluster).1.status ≡ 200)
unfolding load node_status_eq
heartbeat-recovers_example = heartbeat-recovers 60 lost_node alive_again degraded_cluster refl

-- 4 cores, of which one is wanted, as float64s.
abbrev four_cores : Node
four_cores = record idle {
  capacity = record { cpu = pos (4 * 2 ^ 1074); memory_mb = pos 1000 };
  available = record { cpu = pos (4 * 2 ^ 1074); memory_mb = pos 1000 };
}

abbrev one_core : ResourceRequest
one_core = record { cpu = pos (2 ^ 1074); memory_mb = pos 100 }

release-reserve_example :
    let back = release (some one_core) (reserve one_core four_cores) in
    let after = release (some one_core) idle in
    (back
      ≡ record four_cores { available = record { cpu = back.available.cpu; memory_mb = pos 1000 } })
    × ((back.available.cpu ≡ four_cores.available.cpu)
        ⊎ (sub_float four_cores.available.cpu one_core.cpu
            ≢ four_cores.available.cpu -ℤ one_core.cpu))
    × (after.available.cpu ≤ℤ idle.capacity.cpu)
    × (after.available.memory_mb ≤ℤ idle.capacity.memory_mb)
    × (pos 0 ≤ℤ after.running_jobs)
unfolding round_float
release-reserve_example =
    release-reserve one_core four_cores idle (omega arith) (omega arith) refl (omega arith)
      (omega arith)

-- 0.9, less 0.2, plus 0.2 is 0.8999999999999999.
rounding_drifts :
    add_float
      (sub_float (pos (8106479329266893 * 2 ^ 1021)) (pos (7205759403792794 * 2 ^ 1019)))
      (pos (7205759403792794 * 2 ^ 1019))
    ≡ pos (8106479329266892 * 2 ^ 1021)
unfolding add_float sub_float round_float ◌+ℤ◌ ◌-ℤ◌
rounding_drifts = λ i. pos (8106479329266892 * 2 ^ 1021)

abbrev submitted : SubmitDeploymentRequest
submitted = record {
  name = "api";
  namespace = "";
  labels = [];
  type = DeploymentType.other "";
  image = "";
  command = "serve";
  args = [];
  replicas = pos 0;
  max_retries = pos 1;
  restart_policy = RestartPolicy.other "";
  resources = request;
}

-- What comes of it.
abbrev api : Deployment
api = record {
  id = "deploy_2";
  name = "api";
  namespace = "default";
  labels = [];
  type = DeploymentType.batch;
  image = "";
  command = "serve";
  args = [];
  replicas = pos 1;
  max_retries = pos 1;
  restart_policy = RestartPolicy.on_failure;
  resources = request;
  status = DeploymentStatus.pending;
  created_at = 70;
  updated_at = 70;
}

-- The first identifier drawn is taken.
create_deployment_handler-created_example :
    let after =
      create_deployment_handler 70
        (some "deploy_1" ∷ some "deploy_2" ∷ [])
        (some submitted)
        cluster in
    (after.0 ≡ record cluster { deployments = store "deploy_2" api cluster.deployments })
    × (after.1 ≡ record {
      status = 201;
      location = text_append "/api/v1/deployments/" "deploy_2";
      body = Body.one_deployment api;
    })
    × (pos 1 ≤ℤ api.replicas)
unfolding load
create_deployment_handler-created_example =
    create_deployment_handler-created 70 submitted cluster "deploy_2" ("deploy_1" ∷ []) [] refl refl
      (omega arith) ((web, refl), tt) refl refl

cancel_deployment-once_example :
    let first = cancel_deployment 80 "deploy_1" cluster in
    let second = cancel_deployment 90 "deploy_1" first.0 in
    (load "deploy_1" first.0.deployments
      ≡ some (record web { status = DeploymentStatus.cancelled; updated_at = 80 }))
    × (first.1.status ≡ 200)
    × (second.0 ≡ first.0)
    × (second.1.status ≡ 409)
unfolding load
cancel_deployment-once_example =
    cancel_deployment-once 80 90 "deploy_1" web cluster refl (λ e. absurd (cc))

abbrev on_gpus : Service
on_gpus = record {
  id = "svc_1";
  name = "gpus";
  namespace = "default";
  path_prefix = "/";
  strategy = LoadBalanceStrategy.round_robin;
  selector = ("gpu", "yes") ∷ [];
  retry_policy = record { max_attempts = pos 1; per_try_timeout_ms = pos 100 };
  health_check = record { path = "/health"; interval_seconds = pos 5 };
  updated_at = 1;
}

abbrev gpu_cluster : MemoryStore
gpu_cluster = record cluster {
  nodes =
      ("node_1", idle)
      ∷ ("node_2", record idle { id = "node_2"; labels = ("gpu", "yes") ∷ [] })
      ∷ [];
}

abbrev gpu_backend : BackendSpec
gpu_backend = record { name = "node_2"; url = idle.address; weight = pos 1 }

resolve_service_backends_iff_example :
    Memᴰ gpu_backend (resolve_service_backends on_gpus gpu_cluster) ↔ (
      (n : Node) × Serves gpu_backend (values gpu_cluster.nodes) n
      × All (Gives n.labels) (("gpu", "yes") ∷ []))
resolve_service_backends_iff_example = resolve_service_backends_iff on_gpus gpu_cluster gpu_backend
