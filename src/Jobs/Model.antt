-- ===== src/Jobs/Model.antt =====
-- ml-job-orchestrator/internal/model/job.go.
use backend_infra_platform.Base.{ℕ, ℤ, String, Bool, true, false, ◌||◌, List, [], ◌∷◌, Option}

-- A point in time, in nanoseconds since Go's zero `time.Time`; 0 is the time that `IsZero`.
abbrev pub Time : Type 0
Time = ℕ

pub data JobState : Type 0 where
  pending queued running completed failed exhausted cancelled : JobState

unfoldable pub state_eq : JobState → JobState → Bool
state_eq JobState.pending JobState.pending = true
state_eq JobState.queued JobState.queued = true
state_eq JobState.running JobState.running = true
state_eq JobState.completed JobState.completed = true
state_eq JobState.failed JobState.failed = true
state_eq JobState.exhausted JobState.exhausted = true
state_eq JobState.cancelled JobState.cancelled = true
state_eq _ _ = false

abbrev pub state_text : JobState → String
state_text JobState.pending = "PENDING"
state_text JobState.queued = "QUEUED"
state_text JobState.running = "RUNNING"
state_text JobState.completed = "COMPLETED"
state_text JobState.failed = "FAILED"
state_text JobState.exhausted = "EXHAUSTED"
state_text JobState.cancelled = "CANCELLED"

unfoldable pub allowed_transitions : JobState → List JobState
allowed_transitions JobState.pending = JobState.queued ∷ JobState.cancelled ∷ []
allowed_transitions JobState.queued = JobState.running ∷ JobState.cancelled ∷ JobState.pending ∷ []
allowed_transitions JobState.running =
    JobState.completed ∷ JobState.failed ∷ JobState.cancelled ∷ []
allowed_transitions JobState.failed = JobState.pending ∷ JobState.exhausted ∷ []
allowed_transitions JobState.completed = []
allowed_transitions JobState.exhausted = []
allowed_transitions JobState.cancelled = []

unfoldable lists_state : JobState → List JobState → Bool
lists_state to [] = false
lists_state to (s ∷ ss) = state_eq s to || lists_state to ss

-- `Transition` of the package model: is the move legal?
unfoldable pub can_transition : JobState → JobState → Bool
unfolding lists_state allowed_transitions state_eq
can_transition from to = lists_state to (allowed_transitions from)

pub record Job : Type 0 where
  pub id : String
  pub name : String
  pub type : String
  pub command : String
  pub args : List String
  pub state : JobState
  pub priority : ℤ
  pub max_retries : ℤ
  pub retry_count : ℕ
  pub timeout_seconds : ℤ
  pub run_after : Time
  pub created_at : Time
  pub started_at : Option Time
  pub finished_at : Option Time
  pub output : String
  pub error_message : String
