-- ===== src/ControlPlane/Agent/Outcome.antt =====
-- What an agent's run of a pod leaves in the store of the control plane.
use backend_infra_platform.Base.{ℕ, ◌≤◌, ℤ, Option, none, some, ◌≡◌, arith, ◌⊎◌}
use backend_infra_platform.ControlPlane.Model.Pod.{Pod, PodStatus}
use backend_infra_platform.ControlPlane.Agent.{slots, poll_once}

-- A report that ends a run.
abbrev pub IsFinal : PodStatus → Type 0
IsFinal st = (st ≡ PodStatus.succeeded) ⊎ (st ≡ PodStatus.failed) ⊎ (st ≡ PodStatus.cancelled)

-- A poll never takes more slots than there are.
pub poll_once-slots :
    (max_concurrent_jobs : ℤ) (response : Option (Option Pod)) (used : ℕ)
    → used ≤ slots max_concurrent_jobs
    → (poll_once max_concurrent_jobs response used).0 ≤ slots max_concurrent_jobs
unfolding poll_once
poll_once-slots m none used h = ground (arith, h)
poll_once-slots m (some none) used h = ground (arith, h)
poll_once-slots m (some (some pod)) used h = ground (arith, h)
