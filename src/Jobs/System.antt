-- ===== src/Jobs/System.antt =====
-- ml-job-orchestrator with its goroutines at work at once: the handlers, the scheduler and the
-- workers of internal/worker/pool.go take their steps in any order. A step is one call of a method
-- of the store, or one operation on the channel. Between two steps a job is in the store, in the
-- channel, with the scheduler that sends it, or with a worker.
pub mod Places
mod Moves
mod Waits
mod Works
mod Decisions
pub mod Safety
use backend_infra_platform.Base.{
  ℕ, suc, ◌+◌, ◌<◌, ltb_ℤ, pos, String, Bool, true, false, List, [], ◌∷◌, ◌++◌, Option, none, some,
  str_eq, ◌≡◌, length, ltb, ◌⊎◌, count_if,
}
use backend_infra_platform.Base.SyncMap.{load}
use backend_infra_platform.ControlPlane.State.{Result, ok, err, StoreError}
use backend_infra_platform.Jobs.Model.{Time, Job, JobState}
use backend_infra_platform.Jobs.Store.{
  JobStore, or_same, create, get, update, transition, set_output,
}
use backend_infra_platform.Jobs.Executor.{schedule_retry}

-- `queue` is the buffer of the channel, oldest first; `sending` the job that the scheduler has made
-- QUEUED and not yet sent; `taken` the jobs that workers have received and not yet started; `running`
-- those whose command a worker runs; `ended` those whose command has ended and whose output is stored;
-- `failing` those that `failOrRetry` has made FAILED; `deciding` the jobs that its `Get` has read
-- then; `cancelling` the identifiers of the jobs that a `CancelJob` has read as PENDING or QUEUED.
pub record System : Type 0 where
  pub jobs : JobStore
  pub queue : List Job
  pub sending : Option Job
  pub taken : List Job
  pub running : List Job
  pub ended : List Job
  pub failing : List Job
  pub deciding : List Job
  pub cancelling : List String

unfoldable pub new_system : System
new_system = record {
  jobs = [];
  queue = [];
  sending = none;
  taken = [];
  running = [];
  ended = [];
  failing = [];
  deciding = [];
  cancelling = [];
}

-- One step, for a channel of that capacity.
pub data Step (capacity : ℕ) (s : System) : System → Type 0 where
  -- `SubmitJob` creates a pending job.
  submits :
      (job : Job) (t : JobStore)
      → job.state ≡ JobState.pending
      → create job s.jobs ≡ ok t
      → Step capacity s (record s { jobs = t })
  -- The scheduler makes a job of its list QUEUED, whatever has happened since it read the list.
  queues :
      (now : Time) (job : Job) (t : JobStore)
      → s.sending ≡ none
      → transition now job.id JobState.queued "" s.jobs ≡ ok t
      → Step capacity s (record s { jobs = t; sending = some job })
  sends :
      (job : Job)
      → s.sending ≡ some job
      → length s.queue < capacity
      → Step capacity s (record s { queue = s.queue ++ job ∷ []; sending = none })
  -- The channel is full: the job goes back to PENDING, unless it cannot.
  puts_back :
      (now : Time) (job : Job) (t : JobStore)
      → s.sending ≡ some job
      → transition now job.id JobState.pending "" s.jobs ≡ ok t
      → Step capacity s (record s { jobs = t; sending = none })
  drops :
      (now : Time) (job : Job) (e : StoreError)
      → s.sending ≡ some job
      → transition now job.id JobState.pending "" s.jobs ≡ err e
      → Step capacity s (record s { sending = none })
  -- A worker receives from the channel.
  takes :
      (job : Job) (rest : List Job)
      → s.queue ≡ job ∷ rest
      → Step capacity s (record s { queue = rest; taken = job ∷ s.taken })
  -- `Run` starts, or finds the job no longer eligible.
  starts :
      (now : Time) (job : Job) (before after : List Job) (t : JobStore)
      → s.taken ≡ before ++ job ∷ after
      → transition now job.id JobState.running "" s.jobs ≡ ok t
      → Step capacity s (record s { jobs = t; taken = before ++ after; running = job ∷ s.running })
  skips :
      (now : Time) (job : Job) (before after : List Job) (e : StoreError)
      → s.taken ≡ before ++ job ∷ after
      → transition now job.id JobState.running "" s.jobs ≡ err e
      → Step capacity s (record s { taken = before ++ after })
  -- The command ends, and its output is stored.
  outputs :
      (job : Job) (before after : List Job) (output : String)
      → s.running ≡ before ++ job ∷ after
      → Step capacity s (record s {
        jobs = or_same s.jobs (set_output job.id output s.jobs);
        running = before ++ after;
        ended = job ∷ s.ended;
      })
  -- The command succeeded, or its context was cancelled: the last write of `Run`.
  finishes :
      (now : Time) (job : Job) (before after : List Job) (to : JobState) (msg : String)
      → s.ended ≡ before ++ job ∷ after
      → ((to ≡ JobState.completed) × (msg ≡ ""))
        ⊎ ((to ≡ JobState.cancelled) × (msg ≡ "cancelled by user"))
      → Step capacity s (record s {
        jobs = or_same s.jobs (transition now job.id to msg s.jobs);
        ended = before ++ after;
      })
  -- The command failed or ran out of time: `failOrRetry` makes the job FAILED, or gives up.
  fails :
      (now : Time) (job : Job) (before after : List Job) (msg : String) (t : JobStore)
      → s.ended ≡ before ++ job ∷ after
      → transition now job.id JobState.failed msg s.jobs ≡ ok t
      → Step capacity s (record s { jobs = t; ended = before ++ after; failing = job ∷ s.failing })
  gives_up :
      (now : Time) (job : Job) (before after : List Job) (msg : String) (e : StoreError)
      → s.ended ≡ before ++ job ∷ after
      → transition now job.id JobState.failed msg s.jobs ≡ err e
      → Step capacity s (record s { ended = before ++ after })
  -- `failOrRetry` reads the job, or does not find it.
  looks :
      (job v : Job) (before after : List Job)
      → s.failing ≡ before ++ job ∷ after
      → get job.id s.jobs ≡ ok v
      → Step capacity s (record s { failing = before ++ after; deciding = v ∷ s.deciding })
  vanishes :
      (job : Job) (before after : List Job) (e : StoreError)
      → s.failing ≡ before ++ job ∷ after
      → get job.id s.jobs ≡ err e
      → Step capacity s (record s { failing = before ++ after })
  -- By the copy that was read, `failOrRetry` puts the job back for a retry, or makes it EXHAUSTED.
  retries :
      (overflowed : ℕ) (now : Time) (v : Job) (before after : List Job)
      → s.deciding ≡ before ++ v ∷ after
      → ltb_ℤ (pos v.retry_count) v.max_retries ≡ true
      → Step capacity s (record s {
        jobs = or_same s.jobs (update (schedule_retry overflowed now v) s.jobs);
        deciding = before ++ after;
      })
  exhausts :
      (now : Time) (v : Job) (before after : List Job)
      → s.deciding ≡ before ++ v ∷ after
      → ltb_ℤ (pos v.retry_count) v.max_retries ≡ false
      → Step capacity s (record s {
        jobs = or_same s.jobs (transition now v.id JobState.exhausted "" s.jobs);
        deciding = before ++ after;
      })
  -- `CancelJob` reads a job that waits, without holding the lock from there on.
  reads_cancel :
      (id : String) (job : Job)
      → get id s.jobs ≡ ok job
      → (job.state ≡ JobState.pending) ⊎ (job.state ≡ JobState.queued)
      → Step capacity s (record s { cancelling = id ∷ s.cancelling })
  -- It makes the job CANCELLED, whatever has happened to it since, or is refused.
  cancels :
      (now : Time) (id : String) (before after : List String) (t : JobStore)
      → s.cancelling ≡ before ++ id ∷ after
      → transition now id JobState.cancelled "cancelled by user" s.jobs ≡ ok t
      → Step capacity s (record s { jobs = t; cancelling = before ++ after })
  cancel_refused :
      (now : Time) (id : String) (before after : List String) (e : StoreError)
      → s.cancelling ≡ before ++ id ∷ after
      → transition now id JobState.cancelled "cancelled by user" s.jobs ≡ err e
      → Step capacity s (record s { cancelling = before ++ after })

pub data Reach (capacity : ℕ) : System → Type 0 where
  start : Reach capacity new_system
  next : {s t : System} → Reach capacity s → Step capacity s t → Reach capacity t
