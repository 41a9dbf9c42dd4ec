-- ===== src/Jobs/System/Places.antt =====
-- Where a job is, by its state.
use backend_infra_platform.Base.{
  ℕ, ◌+◌, ◌≤◌, String, Bool, Option, none, some, str_eq, ◌≡◌, refl, ◌⊎◌, inl, inr, arith, true,
  count_if, if◌then◌else◌,
}
use backend_infra_platform.Base.SyncMap.{load}
use backend_infra_platform.Jobs.Model.{Job, JobState, can_transition}
use backend_infra_platform.Jobs.System.{System}

abbrev pub is_job : String → Job → Bool
is_job k j = str_eq j.id k

abbrev pub count_sending : String → Option Job → ℕ
count_sending k none = 0
count_sending k (some j) = if is_job k j then 1 else 0

-- How often a job is on its way from the scheduler to its start by a worker.
abbrev pub waiting : String → System → ℕ
waiting k s = count_if (is_job k) s.queue + count_sending k s.sending + count_if (is_job k) s.taken

-- How many workers run it, or have run it and not yet recorded how that ended.
abbrev pub workers : String → System → ℕ
workers k s = count_if (is_job k) s.running + count_if (is_job k) s.ended

-- How many workers have found it failed and are about to retry it or to give it up.
abbrev pub deciders : String → System → ℕ
deciders k s = count_if (is_job k) s.failing + count_if (is_job k) s.deciding

-- A QUEUED job is on its way once, a RUNNING job is run by one worker, one worker decides on a FAILED
-- job, a CANCELLED job may still be on its way or be run, once, and any other job, or no job, is
-- nowhere.
abbrev pub FitsState : JobState → ℕ → ℕ → ℕ → Type 0
FitsState JobState.queued w r f = (w ≡ 1) × (r ≡ 0) × (f ≡ 0)
FitsState JobState.running w r f = (w ≡ 0) × (r ≡ 1) × (f ≡ 0)
FitsState JobState.failed w r f = (w ≡ 0) × (r ≡ 0) × (f ≡ 1)
FitsState JobState.cancelled w r f = (w + r ≤ 1) × (f ≡ 0)
FitsState _ w r f = (w ≡ 0) × (r ≡ 0) × (f ≡ 0)

-- The place of the job under a key.
abbrev pub Fits : String → Option Job → ℕ → ℕ → ℕ → Type 0
Fits k none w r f = (w ≡ 0) × (r ≡ 0) × (f ≡ 0)
Fits k (some j) w r f = (j.id ≡ k) × FitsState j.state w r f

-- Each job is where its state says it is, and stands under its own identifier.
abbrev pub IsPlaced : System → Type 0
IsPlaced s = (k : String) → Fits k (load k s.jobs) (waiting k s) (workers k s) (deciders k s)

-- The states from which a move is legal.
pub from_pending :
    (st : JobState) → can_transition st JobState.queued ≡ true → st ≡ JobState.pending
unfolding can_transition
from_pending JobState.pending e = refl
from_pending JobState.queued e = absurd (cc)
from_pending JobState.running e = absurd (cc)
from_pending JobState.completed e = absurd (cc)
from_pending JobState.failed e = absurd (cc)
from_pending JobState.exhausted e = absurd (cc)
from_pending JobState.cancelled e = absurd (cc)

pub from_queued : (st : JobState) → can_transition st JobState.running ≡ true → st ≡ JobState.queued
unfolding can_transition
from_queued JobState.queued e = refl
from_queued JobState.pending e = absurd (cc)
from_queued JobState.running e = absurd (cc)
from_queued JobState.completed e = absurd (cc)
from_queued JobState.failed e = absurd (cc)
from_queued JobState.exhausted e = absurd (cc)
from_queued JobState.cancelled e = absurd (cc)

-- A move to CANCELLED is legal where the job waits or runs.
pub may_be_cancelled :
    (st : JobState) (w r f : ℕ)
    → can_transition st JobState.cancelled ≡ true
    → FitsState st w r f
    → (w + r ≤ 1) × (f ≡ 0)
unfolding can_transition
may_be_cancelled JobState.pending w r f e h = (omega (arith, h.0, h.1), h.2)
may_be_cancelled JobState.queued w r f e h = (omega (arith, h.0, h.1), h.2)
may_be_cancelled JobState.running w r f e h = (omega (arith, h.0, h.1), h.2)
may_be_cancelled JobState.completed w r f e h = (omega (arith, h.0, h.1), h.2)
may_be_cancelled JobState.failed w r f e h = absurd (cc)
may_be_cancelled JobState.exhausted w r f e h = (omega (arith, h.0, h.1), h.2)
may_be_cancelled JobState.cancelled w r f e h = h

on_its_way_state :
    (st : JobState) (w r f : ℕ)
    → FitsState st w r f
    → 1 ≤ w
    → ((w ≡ 1) × (r ≡ 0) × (f ≡ 0)) × ((st ≡ JobState.queued) ⊎ (st ≡ JobState.cancelled))
on_its_way_state JobState.pending w r f h one = absurd (omega (arith, h.0, h.1, h.2, one))
on_its_way_state JobState.queued w r f h one = (h, inl refl)
on_its_way_state JobState.running w r f h one = absurd (omega (arith, h.0, h.1, h.2, one))
on_its_way_state JobState.completed w r f h one = absurd (omega (arith, h.0, h.1, h.2, one))
on_its_way_state JobState.failed w r f h one = absurd (omega (arith, h.0, h.1, h.2, one))
on_its_way_state JobState.exhausted w r f h one = absurd (omega (arith, h.0, h.1, h.2, one))
on_its_way_state JobState.cancelled w r f h one =
    ((omega (arith, h.0, one), omega (arith, h.0, one), h.1), inr refl)

at_work_state :
    (st : JobState) (w r f : ℕ)
    → FitsState st w r f
    → 1 ≤ r
    → ((w ≡ 0) × (r ≡ 1) × (f ≡ 0)) × ((st ≡ JobState.running) ⊎ (st ≡ JobState.cancelled))
at_work_state JobState.pending w r f h one = absurd (omega (arith, h.0, h.1, h.2, one))
at_work_state JobState.queued w r f h one = absurd (omega (arith, h.0, h.1, h.2, one))
at_work_state JobState.running w r f h one = (h, inl refl)
at_work_state JobState.completed w r f h one = absurd (omega (arith, h.0, h.1, h.2, one))
at_work_state JobState.failed w r f h one = absurd (omega (arith, h.0, h.1, h.2, one))
at_work_state JobState.exhausted w r f h one = absurd (omega (arith, h.0, h.1, h.2, one))
at_work_state JobState.cancelled w r f h one =
    ((omega (arith, h.0, one), omega (arith, h.0, one), h.1), inr refl)

at_decision_state :
    (st : JobState) (w r f : ℕ)
    → FitsState st w r f
    → 1 ≤ f
    → ((w ≡ 0) × (r ≡ 0) × (f ≡ 1)) × (st ≡ JobState.failed)
at_decision_state JobState.pending w r f h one = absurd (omega (arith, h.0, h.1, h.2, one))
at_decision_state JobState.queued w r f h one = absurd (omega (arith, h.0, h.1, h.2, one))
at_decision_state JobState.running w r f h one = absurd (omega (arith, h.0, h.1, h.2, one))
at_decision_state JobState.completed w r f h one = absurd (omega (arith, h.0, h.1, h.2, one))
at_decision_state JobState.failed w r f h one = (h, refl)
at_decision_state JobState.exhausted w r f h one = absurd (omega (arith, h.0, h.1, h.2, one))
at_decision_state JobState.cancelled w r f h one = absurd (omega (arith, h.0, h.1, one))

-- A job that is on its way is QUEUED, or CANCELLED.
pub on_its_way :
    (k : String) (o : Option Job) (w r f : ℕ)
    → Fits k o w r f
    → 1 ≤ w
    → (v : Job) × (o ≡ some v)
      × (v.id ≡ k)
      × (w ≡ 1)
      × (r ≡ 0)
      × (f ≡ 0)
      × ((v.state ≡ JobState.queued) ⊎ (v.state ≡ JobState.cancelled))
on_its_way k none w r f h one = absurd (omega (arith, h.0, one))
on_its_way k (some v) w r f h one =
    let (place, state) = on_its_way_state v.state w r f h.1 one in
    (v, refl, h.0, place.0, place.1, place.2, state)

-- A job that a worker runs is RUNNING, or CANCELLED.
pub at_work :
    (k : String) (o : Option Job) (w r f : ℕ)
    → Fits k o w r f
    → 1 ≤ r
    → (v : Job) × (o ≡ some v)
      × (v.id ≡ k)
      × (w ≡ 0)
      × (r ≡ 1)
      × (f ≡ 0)
      × ((v.state ≡ JobState.running) ⊎ (v.state ≡ JobState.cancelled))
at_work k none w r f h one = absurd (omega (arith, h.1, one))
at_work k (some v) w r f h one =
    let (place, state) = at_work_state v.state w r f h.1 one in
    (v, refl, h.0, place.0, place.1, place.2, state)

-- A job that a worker decides on is FAILED.
pub at_decision :
    (k : String) (o : Option Job) (w r f : ℕ)
    → Fits k o w r f
    → 1 ≤ f
    → (v : Job) × (o ≡ some v)
      × (v.id ≡ k)
      × (w ≡ 0)
      × (r ≡ 0)
      × (f ≡ 1)
      × (v.state ≡ JobState.failed)
at_decision k none w r f h one = absurd (omega (arith, h.2, one))
at_decision k (some v) w r f h one =
    let (place, state) = at_decision_state v.state w r f h.1 one in
    (v, refl, h.0, place.0, place.1, place.2, state)
