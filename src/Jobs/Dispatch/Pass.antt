-- ===== src/Jobs/Dispatch/Pass.antt =====
-- What a pass of the scheduler puts into the queue and writes into the store.
use backend_infra_platform.Base.{
  ℕ, zero, suc, ◌-◌, String, true, false, List, [], ◌∷◌, ◌++◌, Option, some, str_eq, ◌≡◌, refl, sym,
  ap, subst, ◌∙◌, arith, inl, inr, Bool-cases, if◌then◌else◌, length, length-append, take, All,
  All-keep, keep-All, All-take, ltb, eq_iff,
}
use backend_infra_platform.Base.Sort.{sort_slice-All}
use backend_infra_platform.Base.SyncMap.{load, values, IsKeyed, All-of_load, id_of_load}
use backend_infra_platform.Base.Distinct.{
  Differs, IsDistinct, values-IsDistinct, keep-IsDistinct, sort_slice-IsDistinct,
}
use backend_infra_platform.Jobs.Model.{Time, Job, JobState, can_transition, state_eq}
use backend_infra_platform.Jobs.Store.{JobStore, moved_to, is_terminal, list_by_state}
use backend_infra_platform.Jobs.Holds.{Holds, same-Holds, transition-Holds}
use backend_infra_platform.Jobs.Dispatch.{
  is_due, outranks, ready_jobs, dispatch, dispatch_each, schedule_ready,
}

abbrev pub in_queue : Job → Job
in_queue j = record j { state = JobState.queued }

-- The job under `k` once those of the list are queued.
abbrev pub marked : String → List Job → Option Job → Option Job
marked k [] stored = stored
marked k (j ∷ js) stored =
    let rest = marked k js stored in if str_eq j.id k then some (in_queue j) else rest

-- The list has the job as the store has it, and it waits.
abbrev pub Waits : JobStore → Job → Type 0
Waits s j = (load j.id s ≡ some j) × (j.state ≡ JobState.pending)

abbrev job_id : Job → String
job_id j = j.id

module _ (now : Time) (capacity : ℕ) (j : Job) (s : JobStore) (queue : List Job)
    (w : Waits s j) where
  dispatch_room :
      ltb (length queue) capacity ≡ true
      → (t : JobStore) × (dispatch now capacity j (s, queue) ≡ (t, queue ++ j ∷ []))
        × Holds j.id (in_queue j) s t
  unfolding dispatch moved_to is_terminal state_eq can_transition
  dispatch_room room =
      let (t, queued, h) =
        transition-Holds j.id j s s (same-Holds j.id j s w.0) now JobState.queued ""
          (rw (w.1) refl) in
      (t, rw (queued, dispatch) (rw room refl), h)

  dispatch_full :
      ltb (length queue) capacity ≡ false
      → (t : JobStore) × (dispatch now capacity j (s, queue) ≡ (t, queue)) × Holds j.id j s t
  unfolding dispatch moved_to is_terminal state_eq can_transition
  dispatch_full full =
      let (t, queued, h) =
        transition-Holds j.id j s s (same-Holds j.id j s w.0) now JobState.queued ""
          (rw (w.1) refl) in
      let (u, put_back, h') =
        transition-Holds j.id (in_queue j) s t h now JobState.pending "" refl in
      let unchanged : record j { state = JobState.pending } ≡ j =
        ap (λ state. record j { state = state }) (sym w.1) in
      (
        u,
        rw (queued, dispatch) (rw full (rw put_back refl)),
        subst (λ v. Holds j.id v s u) unchanged h',
      )

append_cons : (q : List Job) (j : Job) (js : List Job) → (q ++ j ∷ []) ++ js ≡ q ++ j ∷ js
append_cons [] j js = refl
append_cons (x ∷ q) j js = ap (λ ys. x ∷ ys) (append_cons q j js)

marked_absent :
    (k : String) (stored : Option Job) (j : Job) (js : List Job)
    → All (Differs job_id j) js
    → str_eq j.id k ≡ true
    → marked k js stored ≡ stored
marked_absent k stored j [] d e = refl
marked_absent k stored j (i ∷ js) d e =
    ground (
      arith,
      marked_absent k stored j js d.1 e,
      eq_iff j.id k,
      eq_iff i.id k,
      eq_iff j.id i.id,
      d.0,
    )

-- Rewriting one job leaves the others waiting.
others_wait :
    (j v : Job) (s t : JobStore) (js : List Job)
    → Holds j.id v s t
    → All (Differs job_id j) js
    → All (Waits s) js
    → All (Waits t) js
others_wait j v s t [] h d w = tt
others_wait j v s t (i ∷ js) h d w =
    ((rw (h i.id, d.0) (w.0.0), w.0.1), others_wait j v s t js h d.1 w.1)

room_after :
    (capacity : ℕ) (j : Job) (queue : List Job)
    → ltb (length queue) capacity ≡ true
    → capacity - length queue ≡ suc (capacity - length (queue ++ j ∷ []))
room_after capacity j queue room = rw length-append (ground arith)

no_room :
    (capacity : ℕ) (queue : List Job)
    → ltb (length queue) capacity ≡ false
    → capacity - length queue ≡ 0
no_room capacity queue full = ground arith

take_nil : (n : ℕ) → take {A = Job} n [] ≡ []
take_nil zero = refl
take_nil (suc n) = refl

append_nil : (q : List Job) → q ++ [] ≡ q
append_nil [] = refl
append_nil (x ∷ q) = ap (λ ys. x ∷ ys) (append_nil q)

mark_first :
    (k : String) (j : Job) (js : List Job) (s t : JobStore)
    → All (Differs job_id j) js
    → Holds j.id (in_queue j) s t
    → marked k js (load k t) ≡ marked k (j ∷ js) (load k s)
mark_first k j js s t d h = elim (Bool-cases (str_eq j.id k)) [
  | inl same ↦ rw (h k, same) (marked_absent k (some (in_queue j)) j js d same)
  | inr other ↦ rw (h k, other) refl
]

load-Holds_same :
    (j : Job) (s t : JobStore) → Waits s j → Holds j.id j s t → (k : String) → load k t ≡ load k s
load-Holds_same j s t w h k = elim (Bool-cases (str_eq j.id k)) [
  | inl same ↦ rw (h k, same, sym ((eq_iff j.id k).0 same), w.0) refl
  | inr other ↦ rw (h k, other) refl
]

module _ (now : Time) (capacity : ℕ) where
  dispatch_each-marked :
      (js : List Job) (s : JobStore) (queue : List Job)
      → All (Waits s) js
      → IsDistinct job_id js
      → ((dispatch_each now capacity js (s, queue)).1 ≡ queue ++ take (capacity - length queue) js)
        × ((k : String)
            → load k (dispatch_each now capacity js (s, queue)).0
              ≡ marked k (take (capacity - length queue) js) (load k s))
  unfolding dispatch_each
  dispatch_each-marked [] s queue w d =
      (rw take_nil (sym (append_nil queue)), λ k. rw take_nil refl)
  dispatch_each-marked (j ∷ js) s queue w d = elim (Bool-cases (ltb (length queue) capacity)) [
    | inl room ↦
        let (t, e, h) = dispatch_room now capacity j s queue w.0 room in
        let (queued, stored) =
          dispatch_each-marked js t (queue ++ j ∷ []) (others_wait j _ s t js h d.0 w.1) d.1 in
        rw (e, dispatch_each)
          (rw (room_after capacity j queue room) (
            queued ∙ append_cons queue j _,
            λ k. stored k ∙ mark_first k j _ s t (All-take _ _ js d.0) h,
          ))
    | inr full ↦
        let (t, e, h) = dispatch_full now capacity j s queue w.0 full in
        let (queued, stored) =
          dispatch_each-marked js t queue (others_wait j _ s t js h d.0 w.1) d.1 in
        rw (e, dispatch_each)
          (rw (no_room capacity queue full) (
            rw (no_room capacity queue full) at queued,
            λ k. (rw (no_room capacity queue full) at (stored k)) ∙ load-Holds_same j s t w.0 h k,
          ))
  ]

state_eq_sound :
    (state : JobState) → state_eq state JobState.pending ≡ true → state ≡ JobState.pending
unfolding state_eq
state_eq_sound JobState.pending e = refl
state_eq_sound JobState.queued e = absurd (cc)
state_eq_sound JobState.running e = absurd (cc)
state_eq_sound JobState.completed e = absurd (cc)
state_eq_sound JobState.failed e = absurd (cc)
state_eq_sound JobState.exhausted e = absurd (cc)
state_eq_sound JobState.cancelled e = absurd (cc)

-- The jobs of a pass: as the store has them, pending, each once.
ready_jobs-Waits : (now : Time) (s : JobStore) → IsKeyed job_id s → All (Waits s) (ready_jobs now s)
unfolding ready_jobs list_by_state state_eq
ready_jobs-Waits now s keyed =
    let stored : All (λ j. load j.id s ≡ some j) (values s) =
      All-of_load _ job_id s keyed
        λ k v e. subst (λ i. load i s ≡ some v) (sym (id_of_load job_id k v s keyed e)) e in
    sort_slice-All outranks (Waits s) _ (
      All-keep (Waits s) (is_due now) _
        (keep-All _ _ _ (λ j. state_eq_sound j.state) (values s) stored))

ready_jobs-IsDistinct :
    (now : Time) (s : JobStore) → IsKeyed job_id s → IsDistinct job_id (ready_jobs now s)
unfolding ready_jobs list_by_state
ready_jobs-IsDistinct now s keyed =
    sort_slice-IsDistinct job_id outranks _
      (keep-IsDistinct job_id _ _ (keep-IsDistinct job_id _ _ (values-IsDistinct job_id s keyed)))

-- A pass takes the pending jobs whose time has come, by priority and then by age. It appends as many
-- of them to the queue as it has room for, in that order. In the store exactly those become QUEUED,
-- with nothing else changed; every other job stays as it is, those that found the queue full
-- included. Each job must stand under its own identifier, once.
pub schedule_ready-marked :
    (now : Time) (capacity : ℕ) (s : JobStore) (queue : List Job)
    → IsKeyed (λ (j : Job). j.id) s
    → ((schedule_ready now capacity (s, queue)).1
        ≡ queue ++ take (capacity - length queue) (ready_jobs now s))
      × ((k : String)
          → load k (schedule_ready now capacity (s, queue)).0
            ≡ marked k (take (capacity - length queue) (ready_jobs now s)) (load k s))
unfolding schedule_ready
schedule_ready-marked now capacity s queue keyed =
    dispatch_each-marked now capacity (ready_jobs now s) s queue (ready_jobs-Waits now s keyed)
      (ready_jobs-IsDistinct now s keyed)
