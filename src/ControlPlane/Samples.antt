-- ===== src/ControlPlane/Samples.antt =====
-- A small cluster: one deployment, one pod, one node.
use backend_infra_platform.Base.{pos, [], ◌∷◌, none}
use backend_infra_platform.ControlPlane.Model.Deployment.{
  Deployment, DeploymentStatus, DeploymentType, ResourceRequest, RestartPolicy,
}
use backend_infra_platform.ControlPlane.Model.Pod.{Pod, PodStatus}
use backend_infra_platform.ControlPlane.Model.Node.{Node, NodeStatus}
use backend_infra_platform.ControlPlane.State.{MemoryStore}

abbrev pub request : ResourceRequest
request = record { cpu = pos 2; memory_mb = pos 100 }

abbrev pub web : Deployment
web = record {
  id = "deploy_1";
  name = "web";
  namespace = "default";
  labels = [];
  type = DeploymentType.service;
  image = "nginx";
  command = "";
  args = [];
  replicas = pos 2;
  max_retries = pos 3;
  restart_policy = RestartPolicy.always;
  resources = request;
  status = DeploymentStatus.active;
  created_at = 1;
  updated_at = 1;
}

abbrev pub waiting : Pod
waiting = record {
  id = "pod_1";
  deployment_id = "deploy_1";
  node_id = "";
  namespace = "default";
  labels = [];
  attempt = 0;
  status = PodStatus.pending;
  image = "nginx";
  container_id = "";
  command = "";
  args = [];
  resources = request;
  exit_code = none;
  error = "";
  output = "";
  created_at = 2;
  scheduled_at = none;
  started_at = none;
  finished_at = none;
  run_after = 0;
}

abbrev pub idle : Node
idle = record {
  id = "node_1";
  hostname = "a";
  address = "http://a:9000";
  labels = [];
  status = NodeStatus.healthy;
  capacity = record { cpu = pos 4; memory_mb = pos 1000 };
  available = record { cpu = pos 4; memory_mb = pos 1000 };
  running_jobs = pos 0;
  max_concurrent = pos 2;
  last_heartbeat_at = 5;
  registered_at = 3;
}

abbrev pub cluster_of : Pod → MemoryStore
cluster_of p = record {
  deployments = ("deploy_1", web) ∷ [];
  pods = ("pod_1", p) ∷ [];
  nodes = ("node_1", idle) ∷ [];
  services = [];
}

abbrev pub cluster : MemoryStore
cluster = cluster_of waiting

abbrev pub with_status : PodStatus → Pod
with_status status = record waiting { status = status; node_id = "node_1" }

abbrev pub lost : Pod
lost = with_status PodStatus.running
