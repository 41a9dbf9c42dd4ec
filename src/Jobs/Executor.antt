-- ===== src/Jobs/Executor.antt =====
-- ml-job-orchestrator/internal/executor/executor.go and internal/retry/retry.go. The subprocess is
-- outside: how it ended, what it wrote and the clock are arguments. The Prometheus counters and the
-- table of cancel functions are left out; a call of a cancel function is a run that ends `stopped`.
use backend_infra_platform.Base.{
  ℕ, suc, ◌%◌, ◌*◌, ◌^◌, pos, ltb_ℤ, String, ltb, if◌then◌else◌, none,
}
use backend_infra_platform.ControlPlane.State.{ok, err}
use backend_infra_platform.ControlPlane.Reconciler.{
  int64_mod, second, max_backoff, exceeds, add_duration,
}
use backend_infra_platform.Jobs.Model.{Time, Job, JobState}
use backend_infra_platform.Jobs.Store.{JobStore, or_same, get, update, transition, set_output}

-- `time.Duration(math.Pow(2, n)) * time.Second` with its cap, on the bit patterns of int64;
-- `overflowed` is what the conversion of a float64 gives that does not fit.
unfoldable pub retry_delay : ℕ → ℕ → ℕ
retry_delay overflowed n =
    let d = ((if ltb n 63 then 2 ^ n else overflowed) * second) % int64_mod in
    if exceeds d max_backoff then max_backoff else d

unfoldable pub schedule_retry : ℕ → Time → Job → Job
unfolding retry_delay
schedule_retry overflowed now job =
    let n = suc job.retry_count in
    record job {
      retry_count = n;
      run_after = add_duration now (retry_delay overflowed n);
      state = JobState.pending;
      started_at = none;
      finished_at = none;
    }

-- The cases of the `switch` after the command: the context was cancelled, its deadline passed, the
-- command failed, or none of these.
pub data Outcome : Type 0 where
  stopped timed_out : Outcome
  failed_with : String → Outcome
  succeeded : Outcome

unfoldable pub fail_or_retry : ℕ → Time → String → String → JobStore → JobStore
fail_or_retry overflowed now id err_msg s = elim (transition now id JobState.failed err_msg s) [
  | err _ ↦ s
  | ok s₁ ↦ elim (get id s₁) [
    | err _ ↦ s₁
    | ok current ↦
        if ltb_ℤ (pos current.retry_count) current.max_retries
        then or_same s₁ (update (schedule_retry overflowed now current) s₁)
        else or_same s₁ (transition now id JobState.exhausted "" s₁)
  ]
]

-- `Run` from the end of the command on.
unfoldable pub conclude : ℕ → Time → String → Outcome → String → JobStore → JobStore
conclude overflowed now id outcome output s =
    let s₁ = or_same s (set_output id output s) in
    elim outcome [
      | Outcome.stopped ↦ or_same s₁ (transition now id JobState.cancelled "cancelled by user" s₁)
      | Outcome.timed_out ↦ fail_or_retry overflowed now id "timeout" s₁
      | Outcome.failed_with e ↦ fail_or_retry overflowed now id e s₁
      | Outcome.succeeded ↦ or_same s₁ (transition now id JobState.completed "" s₁)
    ]

-- `started` and `now` are the clock before and after the command.
unfoldable pub run : ℕ → Time → Time → Job → Outcome → String → JobStore → JobStore
run overflowed started now job outcome output s =
    elim (transition started job.id JobState.running "" s) [
      | err _ ↦ s
      | ok s₁ ↦ conclude overflowed now job.id outcome output s₁
    ]
