-- ===== src/Jobs/Tests.antt =====
-- Small runs of the orchestrator: the theorems at concrete inputs.
use Prim.Native.Nat.{min}
use backend_infra_platform.Base.{
  true, arith, ℕ, ◌+◌, ◌-◌, ◌≤◌, pos, String, false, List, [], ◌∷◌, ◌++◌, none, some, str_eq, ◌≡◌,
  refl, ◌⊎◌, inr, if◌then◌else◌, length, leb, take, drop, All,
}
use backend_infra_platform.Base.SyncMap.{load, store}
use backend_infra_platform.Jobs.Model.{Time, Job, JobState, can_transition, state_eq}
use backend_infra_platform.Jobs.Store.{JobStore, create, get, transition, moved_to, is_terminal}
use backend_infra_platform.Jobs.Executor.{Outcome, run}
use backend_infra_platform.Jobs.Outcomes.{after_outcome, while_running, run-after_outcome}
use backend_infra_platform.Jobs.Budget.{fail_each, budget, fail_each-budget}
use backend_infra_platform.Jobs.Dispatch.{ready_jobs, schedule_ready, dispatch}
use backend_infra_platform.Jobs.Dispatch.Pass.{marked, schedule_ready-marked}
use backend_infra_platform.Jobs.Dispatch.Priority.{Yields, ready_jobs_ranked}
use backend_infra_platform.Jobs.Api.{cancel_job, job_answer}
use backend_infra_platform.Jobs.Api.Cancel.{as_cancelled, cancel_job_waiting}
use backend_infra_platform.Jobs.System.{System, new_system, Step, Reach}
use backend_infra_platform.Jobs.System.Places.{IsPlaced}
use backend_infra_platform.Jobs.System.Safety.{Reach-IsPlaced}
use backend_infra_platform.Jobs.Pool.{Worker, Pool, WorkerStep}
use backend_infra_platform.Jobs.Pool.Drain.{Drain, steps_left, Drain-outcome}
use backend_infra_platform.Jobs.Pool.Strand.{stranded_jobs}

abbrev train : Job
train = record {
  id = "job_1";
  name = "train";
  type = "training";
  command = "python";
  args = "train.py" ∷ [];
  state = JobState.pending;
  priority = pos 1;
  max_retries = pos 2;
  retry_count = 0;
  timeout_seconds = pos 60;
  run_after = 0;
  created_at = 5;
  started_at = none;
  finished_at = none;
  output = "";
  error_message = "";
}

abbrev urgent : Job
urgent = record train { id = "job_2"; priority = pos 9; created_at = 7 }

abbrev queued_train : Job
queued_train = record train { state = JobState.queued }

abbrev two_jobs : JobStore
two_jobs = ("job_1", train) ∷ ("job_2", urgent) ∷ []

abbrev queued_jobs : JobStore
queued_jobs = ("job_1", queued_train) ∷ []

run-after_outcome_example :
    load "job_1" (run 0 10 20 train (Outcome.failed_with "exit status 1") "oops" queued_jobs) ≡ (
      if str_eq "job_1" "job_1"
      then some (
          after_outcome 0 20
            (Outcome.failed_with "exit status 1")
            (while_running 10 "oops" queued_train))
      else load "job_1" queued_jobs)
unfolding load
run-after_outcome_example =
    run-after_outcome 0 10 20 train queued_train (Outcome.failed_with "exit status 1") "oops"
      queued_jobs (refl, refl, tt) refl refl "job_1"

abbrev failures : List (Time × String)
failures = (10, "a") ∷ (20, "b") ∷ (30, "c") ∷ []

fail_each-budget_example :
    (last : Job) × (load "job_1" (fail_each 0 train failures two_jobs) ≡ some last)
    × (last.state
        ≡ (if leb (length failures) (budget train) then JobState.pending else JobState.exhausted))
    × (last.retry_count ≡ 0 + min (length failures) (budget train))
unfolding load
fail_each-budget_example = fail_each-budget 0 train failures train two_jobs refl refl refl

-- Three failures are one more than the retries.
failures-exhausted : leb (length failures) (budget train) ≡ false
failures-exhausted = refl

schedule_ready-marked_example :
    ((schedule_ready 100 1 (two_jobs, [])).1
      ≡ [] ++ take (1 - length {A = Job} []) (ready_jobs 100 two_jobs))
    × ((k : String)
        → load k (schedule_ready 100 1 (two_jobs, [])).0
          ≡ marked k (take (1 - length {A = Job} []) (ready_jobs 100 two_jobs)) (load k two_jobs))
unfolding load
schedule_ready-marked_example =
    schedule_ready-marked 100 1 two_jobs [] (refl, refl, (refl, refl, tt))

ready_jobs_ranked_example :
    All
      (λ queued. All (Yields queued) (drop 1 (ready_jobs 100 two_jobs)))
      (take 1 (ready_jobs 100 two_jobs))
ready_jobs_ranked_example = ready_jobs_ranked 100 two_jobs 1

cancel_job_waiting_example :
    (t : JobStore) × (cancel_job 50 "job_1" [] queued_jobs
      ≡ (t, job_answer (as_cancelled 50 queued_train), false))
    × (load "job_1" t ≡ some (as_cancelled 50 queued_train))
    × (run 0 60 70 train Outcome.succeeded "done" t ≡ t)
    × (dispatch 60 1 train (t, []) ≡ (t, []))
unfolding load
cancel_job_waiting_example =
    cancel_job_waiting 0 1 50 60 70 "job_1" "done" [] queued_train train Outcome.succeeded []
      queued_jobs refl (inr refl) refl

-- The job is created, made QUEUED and sent; `CancelJob` reads it as QUEUED; a worker receives and
-- starts it; only then does the cancellation write, so a CANCELLED job is run.
abbrev created : System
created = record {
  jobs = ("job_1", train) ∷ [];
  queue = [];
  sending = none;
  taken = [];
  running = [];
  ended = [];
  failing = [];
  deciding = [];
  cancelling = [];
}

abbrev in_hand : System
in_hand = record created { jobs = queued_jobs; sending = some train }

abbrev in_channel : System
in_channel = record in_hand { queue = train ∷ []; sending = none }

abbrev being_cancelled : System
being_cancelled = record in_channel { cancelling = "job_1" ∷ [] }

abbrev received : System
received = record being_cancelled { queue = []; taken = train ∷ [] }

abbrev working : System
working = record received {
  jobs = ("job_1", record train { state = JobState.running; started_at = some 9 }) ∷ [];
  taken = [];
  running = train ∷ [];
}

abbrev cancelled_at_work : System
cancelled_at_work = record working {
  jobs =
      (
        "job_1",
        record train {
          state = JobState.cancelled;
          started_at = some 9;
          finished_at = some 12;
          error_message = "cancelled by user";
        },
      )
      ∷ [];
  cancelling = [];
}

cancelled_at_work-Reach : Reach 1 cancelled_at_work
unfolding new_system create transition get load store can_transition moved_to is_terminal state_eq
cancelled_at_work-Reach =
    let s₁ : Reach 1 created =
      Reach.next Reach.start (Step.submits train (("job_1", train) ∷ []) refl refl) in
    let s₂ : Reach 1 in_hand = Reach.next s₁ (Step.queues 8 train queued_jobs refl refl) in
    let s₃ : Reach 1 in_channel = Reach.next s₂ (Step.sends train refl (omega arith)) in
    let s₄ : Reach 1 being_cancelled =
      Reach.next s₃ (Step.reads_cancel "job_1" queued_train refl (inr refl)) in
    let s₅ : Reach 1 received = Reach.next s₄ (Step.takes train [] refl) in
    let s₆ : Reach 1 working = Reach.next s₅ (Step.starts 9 train [] [] working.jobs refl refl) in
    Reach.next s₆ (Step.cancels 12 "job_1" [] [] cancelled_at_work.jobs refl refl)

Reach-IsPlaced_example : IsPlaced cancelled_at_work
Reach-IsPlaced_example = Reach-IsPlaced 1 cancelled_at_work cancelled_at_work-Reach

-- Two buffered jobs, one worker at its loop and one that has just finished looking.
abbrev stopping : Pool
stopping = record {
  queue = train ∷ urgent ∷ [];
  stopped = true;
  cancelled = false;
  workers = Worker.polling ∷ Worker.waiting ∷ [];
}

abbrev after_poll : Pool
after_poll = record {
  queue = urgent ∷ [];
  stopped = true;
  cancelled = false;
  workers = Worker.busy train ∷ Worker.waiting ∷ [];
}

one_poll : Drain stopping 1 after_poll
one_poll =
    Drain.then Drain.done
      (WorkerStep.polls_job [] (Worker.waiting ∷ []) train (urgent ∷ []) refl refl)

Drain-outcome_example :
    (1 ≤ steps_left stopping)
    × (((r : Pool) × WorkerStep after_poll r)
        ⊎ (All (λ w. w ≡ Worker.exited) after_poll.workers × (after_poll.queue ≡ [])))
Drain-outcome_example = Drain-outcome stopping after_poll 1 refl (inr (omega arith)) one_poll

abbrev late : Pool
late = record {
  queue = train ∷ [];
  stopped = true;
  cancelled = false;
  workers = Worker.waiting ∷ Worker.waiting ∷ [];
}

stranded_jobs_example :
    (n : ℕ) × (q : Pool) × Drain late n q
    × (q.queue ≡ train ∷ [])
    × All (λ w. w ≡ Worker.exited) q.workers
stranded_jobs_example = stranded_jobs late refl (refl, (refl, tt))
