-- ===== src/Jobs/Dispatch.antt =====
-- ml-job-orchestrator/internal/scheduler/scheduler.go: one pass of `scheduleReady`. The queue is the
-- buffer of the channel, oldest first; no worker takes from it during the pass.
pub mod Pass
pub mod Priority
use backend_infra_platform.Base.{
  ℕ, ltb_ℤ, eqb_ℤ, Bool, not, ◌||◌, List, [], ◌∷◌, ◌++◌, ltb, ◌==◌, if◌then◌else◌, keep, length,
}
use backend_infra_platform.Base.Sort.{sort_slice}
use backend_infra_platform.ControlPlane.State.{ok, err}
use backend_infra_platform.Jobs.Model.{Time, Job, JobState}
use backend_infra_platform.Jobs.Store.{JobStore, or_same, transition, list_by_state}

-- `RunAfter.IsZero() || RunAfter.Before(now)`
unfoldable pub is_due : Time → Job → Bool
is_due now j = (j.run_after == 0) || ltb j.run_after now

-- The higher priority first, then the older job.
unfoldable pub outranks : Job → Job → Bool
outranks a b =
    if not (eqb_ℤ a.priority b.priority)
    then ltb_ℤ b.priority a.priority
    else ltb a.created_at b.created_at

unfoldable pub ready_jobs : Time → JobStore → List Job
ready_jobs now s = sort_slice outranks (keep (is_due now) (list_by_state JobState.pending s))

-- The body of the loop: a full queue puts the job back.
unfoldable pub dispatch : Time → ℕ → Job → JobStore × List Job → JobStore × List Job
dispatch now capacity j (s, queue) = elim (transition now j.id JobState.queued "" s) [
  | err _ ↦ (s, queue)
  | ok s' ↦
      if ltb (length queue) capacity
      then (s', queue ++ j ∷ [])
      else (or_same s' (transition now j.id JobState.pending "" s'), queue)
]

unfoldable pub dispatch_each : Time → ℕ → List Job → JobStore × List Job → JobStore × List Job
dispatch_each now capacity [] t = t
dispatch_each now capacity (j ∷ js) t = dispatch_each now capacity js (dispatch now capacity j t)

unfoldable pub schedule_ready : Time → ℕ → JobStore × List Job → JobStore × List Job
schedule_ready now capacity (s, queue) = dispatch_each now capacity (ready_jobs now s) (s, queue)
