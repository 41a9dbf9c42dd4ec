-- ===== src/Jobs/Api.antt =====
-- ml-job-orchestrator/internal/api/handlers.go. A handler is a function from what it reads (the path
-- value, the query, the decoded body, the clock, the identifiers drawn) and the store to the store it
-- leaves and the response it writes. A body that the JSON decoder refuses is `none`. The Prometheus
-- counters are left out.
pub mod Cancel
use backend_infra_platform.Base.{
  ℕ, zero, suc, ℤ, pos, String, text_append, str_eq, Bool, true, false, ◌||◌, List, [], ◌∷◌, Option,
  none, some, if◌then◌else◌,
}
use backend_infra_platform.ControlPlane.State.{
  ok, err, StoreError, not_found, already_exists, invalid_transition,
}
use backend_infra_platform.Jobs.Model.{Time, Job, JobState, state_eq, state_text}
use backend_infra_platform.Jobs.Store.{JobStore, ListFilter, create, get, transition, list}

-- What a response carries.
pub data JobBody : Type 0 where
  error : String → JobBody
  submitted : String → JobState → Time → JobBody
  one_job : Job → JobBody
  all_jobs : List Job → ℕ → JobBody
  job_state : String → String → JobBody

pub record JobResponse : Type 0 where
  pub status : ℕ
  pub location : String
  pub body : JobBody

unfoldable pub write_job_json : ℕ → JobBody → JobResponse
write_job_json status body = record { status = status; location = ""; body = body }

unfoldable pub write_job_error : ℕ → String → JobResponse
unfolding write_job_json
write_job_error status msg = write_job_json status (JobBody.error msg)

pub record SubmitJobRequest : Type 0 where
  pub name : String
  pub type : String
  pub command : String
  pub args : List String
  pub timeout_seconds : ℤ
  pub max_retries : ℤ
  pub priority : ℤ

unfoldable pub new_job : Time → SubmitJobRequest → String → Job
new_job now req id = record {
  id = id;
  name = req.name;
  type = req.type;
  command = req.command;
  args = req.args;
  state = JobState.pending;
  priority = req.priority;
  max_retries = req.max_retries;
  retry_count = 0;
  timeout_seconds = req.timeout_seconds;
  run_after = 0;
  created_at = now;
  started_at = none;
  finished_at = none;
  output = "";
  error_message = "";
}

-- How the loop over fresh identifiers ends.
pub data JobAllocation : Type 0 where
  generation_failed no_unique_id : JobAllocation
  allocated : String → JobStore → JobAllocation

-- At most `attempts` rounds of the loop, on the identifiers that `generateID` draws.
unfoldable pub allocate_job :
    Time → SubmitJobRequest → ℕ → List (Option String) → JobStore → JobAllocation
allocate_job now req zero ids s = JobAllocation.no_unique_id
allocate_job now req (suc attempts) [] s = JobAllocation.generation_failed
allocate_job now req (suc attempts) (none ∷ ids) s = JobAllocation.generation_failed
allocate_job now req (suc attempts) (some id ∷ ids) s = elim (create (new_job now req id) s) [
  | ok s' ↦ JobAllocation.allocated id s'
  | err _ ↦ allocate_job now req attempts ids s
]

unfoldable pub answer_submitted : String → JobStore → JobResponse
answer_submitted id s = elim (get id s) [
  | err _ ↦ write_job_error 500 "job vanished after creation"
  | ok job ↦ record (write_job_json 201 (JobBody.submitted job.id job.state job.created_at)) {
    location = text_append "/jobs/" id;
  }
]

unfoldable pub submit_job :
    Time → List (Option String) → Option SubmitJobRequest → JobStore → JobStore × JobResponse
submit_job now ids none s = (s, write_job_error 400 "invalid JSON body")
submit_job now ids (some req) s =
    if str_eq req.name "" || str_eq req.command ""
    then (s, write_job_error 400 "name and command are required")
    else elim (allocate_job now req 5 ids s) [
      | JobAllocation.generation_failed ↦ (s, write_job_error 500 "failed to generate job id")
      | JobAllocation.no_unique_id ↦ (s, write_job_error 500 "failed to allocate a unique job id")
      | JobAllocation.allocated id s' ↦
          if str_eq id ""
          then (s', write_job_error 500 "failed to allocate a unique job id")
          else (s', answer_submitted id s')
    ]

unfoldable pub get_job : String → JobStore → JobResponse
get_job id s = elim (get id s) [
  | err _ ↦ write_job_error 404 "job not found"
  | ok job ↦ write_job_json 200 (JobBody.one_job job)
]

-- `atoi` is `strconv.Atoi`; a limit that it refuses is 0.
unfoldable pub limit_of : (String → Option ℤ) → String → ℤ
limit_of atoi l = if str_eq l "" then pos 0 else elim (atoi l) [ none ↦ pos 0 | some n ↦ n ]

unfoldable pub list_jobs : (String → Option ℤ) → String → String → String → JobStore → JobResponse
unfolding limit_of
list_jobs atoi state type limit s =
    let filter : ListFilter = record { state = state; type = type; limit = limit_of atoi limit } in
    let (jobs, total) = list filter s in write_job_json 200 (JobBody.all_jobs jobs total)

-- The wait for a running job: `seen` are the stores that the polls read until the deadline.
unfoldable pub await_cancelled : String → Job → List JobStore → Job
await_cancelled id job [] = job
await_cancelled id job (t ∷ seen) = elim (get id t) [
  | err _ ↦ await_cancelled id job seen
  | ok current ↦
      if state_eq current.state JobState.cancelled then current else await_cancelled id job seen
]

unfoldable pub job_answer : Job → JobResponse
job_answer job = write_job_json 200 (JobBody.job_state job.id (state_text job.state))

unfoldable pub already_terminal : JobState → JobResponse
already_terminal state =
    write_job_error 409 (text_append "job already in terminal state " (state_text state))

-- The branch of a job that has no subprocess yet; the last read cannot fail.
-- The texts of the three errors of store.go.
unfoldable pub job_error_text : StoreError → String
job_error_text not_found = "job not found"
job_error_text already_exists = "job already exists"
job_error_text invalid_transition = "invalid state transition"

unfoldable pub cancel_waiting : Time → String → JobStore → JobStore × JobResponse
cancel_waiting now id s = elim (transition now id JobState.cancelled "cancelled by user" s) [
  | err e ↦ (s, write_job_error 409 (job_error_text e))
  | ok s' ↦ elim (get id s') [
    | err _ ↦ (s', write_job_json 200 (JobBody.job_state "" ""))
    | ok job ↦ (s', job_answer job)
  ]
]

-- The handler, the store that it leaves, its response, and whether it calls the cancel function of
-- the job, if the executor has registered one.
unfoldable pub cancel_job : Time → String → List JobStore → JobStore → JobStore × JobResponse × Bool
cancel_job now id seen s = elim (get id s) [
  | err _ ↦ (s, write_job_error 404 "job not found", false)
  | ok job ↦ elim job.state [
    | JobState.completed ↦ (s, already_terminal JobState.completed, false)
    | JobState.failed ↦ (s, already_terminal JobState.failed, false)
    | JobState.exhausted ↦ (s, already_terminal JobState.exhausted, false)
    | JobState.cancelled ↦ (s, already_terminal JobState.cancelled, false)
    | JobState.running ↦ (s, job_answer (await_cancelled id job seen), true)
    | JobState.pending ↦ let (s', answer) = cancel_waiting now id s in (s', answer, false)
    | JobState.queued ↦ let (s', answer) = cancel_waiting now id s in (s', answer, false)
  ]
]
