-- ===== src/Jobs/Api/Cancel.antt =====
-- What a cancellation does to a job that waits.
use backend_infra_platform.Base.{ℕ, String, true, false, List, some, ◌≡◌, refl, ◌⊎◌, inl, inr}
use backend_infra_platform.Base.SyncMap.{load}
use backend_infra_platform.ControlPlane.State.{err, invalid_transition}
use backend_infra_platform.Jobs.Model.{Time, Job, JobState, can_transition, state_eq}
use backend_infra_platform.Jobs.Store.{JobStore, get, transition, or_now, moved_to, is_terminal}
use backend_infra_platform.Jobs.Executor.{Outcome, run}
use backend_infra_platform.Jobs.Dispatch.{dispatch}
use backend_infra_platform.Jobs.Holds.{Holds, load-Holds, get-Holds, transition-Holds, same-Holds}
use backend_infra_platform.Jobs.Api.{cancel_job, cancel_waiting, job_answer}

-- The job as its cancellation leaves it.
abbrev pub as_cancelled : Time → Job → Job
as_cancelled now j = record j {
  state = JobState.cancelled;
  error_message = "cancelled by user";
  finished_at = or_now j.finished_at now;
}

cancel_waiting-Holds :
    (now : Time) (id : String) (j : Job) (s : JobStore)
    → load id s ≡ some j
    → can_transition j.state JobState.cancelled ≡ true
    → (t : JobStore) × (cancel_waiting now id s ≡ (t, job_answer (as_cancelled now j)))
      × Holds id (as_cancelled now j) s t
unfolding cancel_waiting moved_to is_terminal state_eq
cancel_waiting-Holds now id j s found legal =
    let (t, cancelled, h) =
      transition-Holds id j s s (same-Holds id j s found) now JobState.cancelled "cancelled by user"
        legal in
    (t, rw (cancelled, cancel_waiting) (rw (get-Holds id (as_cancelled now j) s t h) refl), h)

-- Cancelled jobs are refused every move.
transition_cancelled :
    (now : Time) (id : String) (to : JobState) (j : Job) (s : JobStore)
    → load id s ≡ some j
    → j.state ≡ JobState.cancelled
    → transition now id to "" s ≡ err invalid_transition
unfolding transition can_transition
transition_cancelled now id to j s found state = rw (found, transition) (rw state refl)

module _ (now : Time) (id : String) (seen : List JobStore) (j : Job) (s : JobStore)
    (found : load id s ≡ some j) where
  cancel_job-waiting :
      (j.state ≡ JobState.pending) ⊎ (j.state ≡ JobState.queued)
      → (t : JobStore) × (cancel_job now id seen s ≡ (t, job_answer (as_cancelled now j), false))
        × Holds id (as_cancelled now j) s t
  unfolding cancel_job get can_transition
  cancel_job-waiting (inl state) =
      let (t, e, h) = cancel_waiting-Holds now id j s found (rw state refl) in
      (t, rw (found, cancel_job) (rw state (rw e refl)), h)
  cancel_job-waiting (inr state) =
      let (t, e, h) = cancel_waiting-Holds now id j s found (rw state refl) in
      (t, rw (found, cancel_job) (rw state (rw e refl)), h)

-- A cancellation of a PENDING or QUEUED job answers 200 with the state CANCELLED and records it, and
-- it lasts: a worker that takes the job from the queue later does not run it, however the command
-- would have ended, and a pass of the scheduler that still has it in its list does not queue it;
-- both leave the store as it is.
pub cancel_job_waiting :
    (overflowed capacity : ℕ) (now later after : Time) (id output : String) (seen : List JobStore)
    (j copy : Job) (outcome : Outcome) (queue : List Job) (s : JobStore)
    → load id s ≡ some j
    → (j.state ≡ JobState.pending) ⊎ (j.state ≡ JobState.queued)
    → copy.id ≡ id
    → (t : JobStore) × (cancel_job now id seen s ≡ (t, job_answer (as_cancelled now j), false))
      × (load id t ≡ some (as_cancelled now j))
      × (run overflowed later after copy outcome output t ≡ t)
      × (dispatch later capacity copy (t, queue) ≡ (t, queue))
unfolding run dispatch
cancel_job_waiting overflowed capacity now later after id output seen j copy outcome queue s found
      waits same =
    let (t, e, h) = cancel_job-waiting now id seen j s found waits in
    let stored = load-Holds id (as_cancelled now j) s t h in
    let refused : (to : JobState) → transition later copy.id to "" t ≡ err invalid_transition =
      λ to. rw same (transition_cancelled later id to (as_cancelled now j) t stored refl) in
    (
      t,
      e,
      stored,
      rw (refused JobState.running, run) refl,
      rw (refused JobState.queued, dispatch) refl,
    )
