-- ===== src/ControlPlane/Agent.antt =====
-- control-plane/internal/worker: agent.go, executor.go and container.go, the agent on a node. Its HTTP
-- calls, the Docker daemon and the subprocess are outside: what they give is an argument. A slot is a
-- place in the buffer of the channel `sem`.
pub mod Outcome
mod Tests
use Prim.Native.Nat.{max}
use backend_infra_platform.Base.{
  ℕ, suc, ℤ, pos, pos_part, eqb_ℤ, String, text_append, str_eq, Bool, true, false, not, List, [],
  ◌∷◌, Option, none, some, ltb, if◌then◌else◌,
}
use backend_infra_platform.ControlPlane.Model.Deployment.{Time}
use backend_infra_platform.ControlPlane.Model.Pod.{Pod, PodStatus}
use backend_infra_platform.ControlPlane.State.{MemoryStore}
use backend_infra_platform.ControlPlane.Api.Nodes.{PodStatusRequest, update_pod_status}

-- The capacity of `sem`.
unfoldable pub slots : ℤ → ℕ
slots max_concurrent_jobs = max (pos_part max_concurrent_jobs) 1

-- One poll: the slots in use after it, and the pod that it starts. The response is `none` where the
-- call failed. The slot of a pod is given back when the pod has been run.
unfoldable pub poll_once : ℤ → Option (Option Pod) → ℕ → ℕ × Option Pod
unfolding slots
poll_once max_concurrent_jobs response used =
    if ltb used (slots max_concurrent_jobs)
    then elim response [
      | none ↦ (used, none)
      | some polled ↦ elim polled [ none ↦ (used, none) | some pod ↦ (suc used, some pod) ]
    ]
    else (used, none)

-- How the command of a subprocess ends: the agent was shut down, the command failed with an error and
-- perhaps an exit code, or it succeeded; with its output.
pub data SubprocessEnd : Type 0 where
  shut_down succeeded : String → SubprocessEnd
  failed : Option ℤ → String → String → SubprocessEnd

-- Where the run of a container ends. `exited` has the status code and its text in decimal.
pub data ContainerEnd : Type 0 where
  pull_failed create_failed start_failed : String → ContainerEnd
  shut_down : String → ContainerEnd
  wait_failed : String → String → ContainerEnd
  exited : ℤ → String → String → ContainerEnd

abbrev pub failure : Option ℤ → String → String → PodStatusRequest
failure exit_code error output = record {
  status = PodStatus.failed;
  exit_code = exit_code;
  error = error;
  output = output;
}

abbrev pub shutdown_report : String → PodStatusRequest
shutdown_report output = record {
  status = PodStatus.cancelled;
  exit_code = none;
  error = "node agent shutting down";
  output = output;
}

abbrev pub success : String → PodStatusRequest
success output = record {
  status = PodStatus.succeeded;
  exit_code = some (pos 0);
  error = "";
  output = output;
}

unfoldable pub run_subprocess_pod : SubprocessEnd → PodStatusRequest
run_subprocess_pod (SubprocessEnd.shut_down output) = shutdown_report output
run_subprocess_pod (SubprocessEnd.failed exit_code error output) = failure exit_code error output
run_subprocess_pod (SubprocessEnd.succeeded output) = success output

unfoldable pub run_container_pod : ContainerEnd → PodStatusRequest
run_container_pod (ContainerEnd.pull_failed e) = failure none (text_append "image pull: " e) ""
run_container_pod (ContainerEnd.create_failed e) =
    failure none (text_append "container create: " e) ""
run_container_pod (ContainerEnd.start_failed e) =
    failure none (text_append "container start: " e) ""
run_container_pod (ContainerEnd.shut_down output) = shutdown_report output
run_container_pod (ContainerEnd.wait_failed e output) = failure none e output
run_container_pod (ContainerEnd.exited code text output) =
    if not (eqb_ℤ code (pos 0))
    then failure (some code) (text_append "exit code " text) output
    else success output

unfoldable pub running_report : PodStatusRequest
running_report = record { status = PodStatus.running; exit_code = none; error = ""; output = "" }

-- The last report of a run: of the container if the pod names an image.
unfoldable pub last_report : Pod → SubprocessEnd → ContainerEnd → PodStatusRequest
unfolding run_subprocess_pod run_container_pod
last_report pod subprocess container =
    if not (str_eq pod.image "") then run_container_pod container else run_subprocess_pod subprocess

-- A report that reaches the control plane; its answer is only logged.
unfoldable pub report_status : Time → String → String → PodStatusRequest → MemoryStore → MemoryStore
report_status now node_id pod_id req s = (update_pod_status now node_id pod_id (some req) s).0

-- `started` and `now` are the clock of the control plane at the two reports.
unfoldable pub run_pod :
    Time → Time → String → Pod → SubprocessEnd → ContainerEnd → MemoryStore → MemoryStore
unfolding report_status
run_pod started now node_id pod subprocess container s =
    report_status now node_id pod.id (last_report pod subprocess container)
      (report_status started node_id pod.id running_report s)
