-- ===== src/Jobs/Outcomes.antt =====
-- What a run of the executor leaves in the store.
use backend_infra_platform.Base.{
  ℕ, suc, pos, ltb_ℤ, String, Option, none, some, str_eq, ◌≡◌, refl, subst, inl, inr, Bool-cases,
  if◌then◌else◌,
}
use backend_infra_platform.Base.SyncMap.{load, IsKeyed, id_of_load}
use backend_infra_platform.ControlPlane.Reconciler.{add_duration}
use backend_infra_platform.Jobs.Model.{Time, Job, JobState, can_transition, state_eq}
use backend_infra_platform.Jobs.Store.{JobStore, or_now, moved_to, is_terminal}
use backend_infra_platform.Jobs.Executor.{
  Outcome, retry_delay, schedule_retry, fail_or_retry, conclude, run,
}
use backend_infra_platform.Jobs.Holds.{
  Holds, get-Holds, transition-Holds, set_output-Holds, update-Holds, same-Holds,
}

-- A job whose command has failed with `e`: one more try behind its delay while the budget lasts,
-- exhausted after it.
abbrev pub after_failure : ℕ → Time → String → Job → Job
after_failure overflowed now e j =
    let error = if str_eq e "" then j.error_message else e in
    if ltb_ℤ (pos j.retry_count) j.max_retries
    then record j {
      state = JobState.pending;
      retry_count = suc j.retry_count;
      run_after = add_duration now (retry_delay overflowed (suc j.retry_count));
      error_message = error;
      started_at = none;
      finished_at = none;
    }
    else record j {
      state = JobState.exhausted;
      error_message = error;
      finished_at = or_now j.finished_at now;
    }

-- A running job, by the way its command ended.
abbrev pub after_outcome : ℕ → Time → Outcome → Job → Job
after_outcome overflowed now Outcome.stopped j = record j {
  state = JobState.cancelled;
  error_message = "cancelled by user";
  finished_at = or_now j.finished_at now;
}
after_outcome overflowed now Outcome.succeeded j = record j {
  state = JobState.completed;
  finished_at = or_now j.finished_at now;
}
after_outcome overflowed now Outcome.timed_out j = after_failure overflowed now "timeout" j
after_outcome overflowed now (Outcome.failed_with e) j = after_failure overflowed now e j

-- What the job is while its command runs, with the output that it will have.
abbrev pub while_running : Time → String → Job → Job
while_running started output j = record j {
  state = JobState.running;
  started_at = or_now j.started_at started;
  output = output;
}

or_now_twice : (t : Option Time) (now : Time) → or_now (or_now t now) now ≡ or_now t now
or_now_twice none now = refl
or_now_twice (some t) now = refl

module _ (overflowed : ℕ) (now : Time) (id : String) (v : Job) (s t : JobStore) (h : Holds id v s t)
    (state : v.state ≡ JobState.running) (keyed : v.id ≡ id) where
  fail_or_retry-Holds :
      (e : String)
      → Holds id (after_failure overflowed now e v) s (fail_or_retry overflowed now id e t)
  unfolding fail_or_retry schedule_retry moved_to is_terminal state_eq can_transition
  fail_or_retry-Holds e =
      let (t₁, failed, h₁) = transition-Holds id v s t h now JobState.failed e (rw state refl) in
      let v₁ = moved_to now JobState.failed e v in
      rw (failed, fail_or_retry)
        (rw (get-Holds id v₁ s t₁ h₁) (elim (Bool-cases (ltb_ℤ (pos v.retry_count) v.max_retries)) [
          | inl left ↦
              let (t₂, updated, h₂) =
                update-Holds id v₁ s t₁ h₁ (schedule_retry overflowed now v₁) keyed in
              rw left (rw updated h₂)
          | inr none_left ↦
              let (t₂, exhausted, h₂) =
                transition-Holds id v₁ s t₁ h₁ now JobState.exhausted "" refl in
              rw none_left (
                rw exhausted (
                  subst
                    (λ finished.
                      Holds id
                        (record v {
                          state = JobState.exhausted;
                          error_message = if str_eq e "" then v.error_message else e;
                          finished_at = finished;
                        })
                        s t₂)
                    (or_now_twice v.finished_at now) h₂))
        ]))

module _ (overflowed : ℕ) (now : Time) (id : String) (v : Job) (s t : JobStore) (h : Holds id v s t)
    (state : v.state ≡ JobState.running) (keyed : v.id ≡ id) (output : String) where
  pub conclude-Holds :
      (outcome : Outcome)
      → Holds id
          (after_outcome overflowed now outcome (record v { output = output }))
          s
          (conclude overflowed now id outcome output t)
  unfolding conclude moved_to is_terminal state_eq can_transition
  conclude-Holds Outcome.stopped =
      let v₁ : Job = record v { output = output } in
      let (t₁, written, h₁) = set_output-Holds id v s t h output in
      let (t₂, cancelled, h₂) =
        transition-Holds id v₁ s t₁ h₁ now JobState.cancelled "cancelled by user" (rw state refl) in
      rw written (rw cancelled h₂)
  conclude-Holds Outcome.succeeded =
      let v₁ : Job = record v { output = output } in
      let (t₁, written, h₁) = set_output-Holds id v s t h output in
      let (t₂, completed, h₂) =
        transition-Holds id v₁ s t₁ h₁ now JobState.completed "" (rw state refl) in
      rw written (rw completed h₂)
  conclude-Holds Outcome.timed_out =
      let v₁ : Job = record v { output = output } in
      let (t₁, written, h₁) = set_output-Holds id v s t h output in
      rw written (fail_or_retry-Holds overflowed now id v₁ s t₁ h₁ state keyed "timeout")
  conclude-Holds (Outcome.failed_with e) =
      let v₁ : Job = record v { output = output } in
      let (t₁, written, h₁) = set_output-Holds id v s t h output in
      rw written (fail_or_retry-Holds overflowed now id v₁ s t₁ h₁ state keyed e)

pub run-Holds :
    (overflowed : ℕ) (started now : Time) (job stored : Job) (outcome : Outcome) (output : String)
    (s t : JobStore)
    → Holds job.id stored s t
    → stored.id ≡ job.id
    → stored.state ≡ JobState.queued
    → Holds job.id
        (after_outcome overflowed now outcome (while_running started output stored))
        s
        (run overflowed started now job outcome output t)
unfolding run moved_to is_terminal state_eq can_transition
run-Holds overflowed started now job stored outcome output s t h keyed queued =
    let v : Job = moved_to started JobState.running "" stored in
    let (t₁, running, h₁) =
      transition-Holds job.id stored s t h started JobState.running "" (rw queued refl) in
    rw (running, run) (conclude-Holds overflowed now job.id v s t₁ h₁ refl keyed output outcome)

-- A run of a queued job changes that job only, and the way its command ended decides what becomes of
-- it: COMPLETED if it succeeded; CANCELLED if it was stopped, whatever is left of its retries; after
-- an error or a timeout PENDING behind a delay, with one more retry counted and its times cleared,
-- if it has retries left, and EXHAUSTED if it has not. The job has its output in every case. Each
-- job must stand under its own identifier.
pub run-after_outcome :
    (overflowed : ℕ) (started now : Time) (job stored : Job) (outcome : Outcome) (output : String)
    (s : JobStore)
    → IsKeyed (λ (j : Job). j.id) s
    → load job.id s ≡ some stored
    → stored.state ≡ JobState.queued
    → (k : String)
    → load k (run overflowed started now job outcome output s) ≡ (
        if str_eq job.id k
        then some (after_outcome overflowed now outcome (while_running started output stored))
        else load k s)
run-after_outcome overflowed started now job stored outcome output s keyed found queued =
    run-Holds overflowed started now job stored outcome output s s
      (same-Holds job.id stored s found)
      (id_of_load (λ (j : Job). j.id) job.id stored s keyed found) queued
