-- ===== src/Jobs/Store.antt =====
-- ml-job-orchestrator/internal/store/store.go. Each method that writes holds the mutex, so it is one
-- step from a store to a store; its errors are the three of the control plane's store. The clock is
-- an argument.
use backend_infra_platform.Base.{
  ℕ, ℤ, pos, pos_part, ltb_ℤ, String, Bool, true, false, not, ◌&&◌, List, Option, none, some,
  str_eq, if◌then◌else◌, keep, length, ltb, take,
}
use backend_infra_platform.Base.Sort.{sort_slice}
use backend_infra_platform.Base.SyncMap.{SyncMap, load, store, values}
use backend_infra_platform.Base.SyncMap as Sync_map
use backend_infra_platform.ControlPlane.State.{
  Result, ok, err, not_found, already_exists, invalid_transition,
}
use backend_infra_platform.Jobs.Model.{Time, Job, JobState, state_eq, state_text, can_transition}

-- id -> job.
abbrev pub JobStore : Type 0
JobStore = SyncMap Job

-- `_ = s.Transition(…)`: an error is dropped, and has changed nothing.
abbrev pub or_same : JobStore → Result JobStore → JobStore
or_same s (ok s') = s'
or_same s (err e) = s

unfoldable pub create : Job → JobStore → Result JobStore
create job s = elim (load job.id s) [ some _ ↦ err already_exists | none ↦ ok (store job.id job s) ]

unfoldable pub get : String → JobStore → Result Job
get id s = elim (load id s) [ none ↦ err not_found | some job ↦ ok job ]

-- Overwrites the stored job wholesale, its state included.
unfoldable pub update : Job → JobStore → Result JobStore
update job s = elim (load job.id s) [ none ↦ err not_found | some _ ↦ ok (store job.id job s) ]

unfoldable pub is_terminal : JobState → Bool
is_terminal JobState.completed = true
is_terminal JobState.failed = true
is_terminal JobState.exhausted = true
is_terminal JobState.cancelled = true
is_terminal _ = false

-- `if t == nil { t = &now }`
abbrev pub or_now : Option Time → Time → Option Time
or_now none now = some now
or_now (some t) now = some t

-- What `Transition` writes into the job, once the move is found legal.
unfoldable pub moved_to : Time → JobState → String → Job → Job
unfolding is_terminal state_eq
moved_to now to err_msg job = record job {
  state = to;
  error_message = if str_eq err_msg "" then job.error_message else err_msg;
  started_at = if state_eq to JobState.running then or_now job.started_at now else job.started_at;
  finished_at = if is_terminal to then or_now job.finished_at now else job.finished_at;
}

unfoldable pub transition : Time → String → JobState → String → JobStore → Result JobStore
transition now id to err_msg s = elim (load id s) [
  | none ↦ err not_found
  | some job ↦
      if can_transition job.state to
      then ok (store id (moved_to now to err_msg job) s)
      else err invalid_transition
]

unfoldable pub set_output : String → String → JobStore → Result JobStore
set_output id output s = elim (load id s) [
  | none ↦ err not_found
  | some job ↦ ok (store id (record job { output = output }) s)
]

unfoldable pub delete : String → JobStore → JobStore
unfolding Sync_map.delete
delete id s = Sync_map.delete id s

unfoldable pub list_by_state : JobState → JobStore → List Job
list_by_state state s = keep (λ job. state_eq job.state state) (values s)

pub record ListFilter : Type 0 where
  pub state : String
  pub type : String
  pub limit : ℤ

-- The two tests of the callback of `Range`.
unfoldable pub matches : ListFilter → Job → Bool
matches f job =
    not (not (str_eq f.state "") && not (str_eq (state_text job.state) f.state))
    && not (not (str_eq f.type "") && not (str_eq job.type f.type))

abbrev pub newer_job : Job → Job → Bool
newer_job a b = ltb b.created_at a.created_at

unfoldable pub list : ListFilter → JobStore → List Job × ℕ
list f s =
    let matched = sort_slice newer_job (keep (matches f) (values s)) in
    let total = length matched in
    if ltb_ℤ (pos 0) f.limit && ltb (pos_part f.limit) total
    then (take (pos_part f.limit) matched, total)
    else (matched, total)
