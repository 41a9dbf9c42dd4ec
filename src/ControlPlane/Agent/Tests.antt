-- ===== src/ControlPlane/Agent/Tests.antt =====
-- One run of a container.
use backend_infra_platform.ControlPlane.Model.Pod.{Pod, PodStatus}
use backend_infra_platform.ControlPlane.Samples.{with_status}

abbrev assigned : Pod
assigned = with_status PodStatus.scheduled
