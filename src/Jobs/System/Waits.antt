-- ===== src/Jobs/System/Waits.antt =====
-- The steps on the way of a job to its start, and those that cancel it.
use backend_infra_platform.Base.{
  ◌≤◌, String, true, List, [], ◌++◌, ◌∷◌, none, some, ◌≡◌, refl, arith, inl, inr, count_if-append,
  eq_refl,
}
use backend_infra_platform.Base.SyncMap.{load}
use backend_infra_platform.ControlPlane.State.{ok, err, StoreError}
use backend_infra_platform.Jobs.Model.{Time, Job, JobState, can_transition}
use backend_infra_platform.Jobs.Store.{JobStore, create, transition, moved_to}
use backend_infra_platform.Jobs.Holds.{same-Holds, transition-Holds}
use backend_infra_platform.Jobs.System.{System}
use backend_infra_platform.Jobs.System.Places.{
  count_sending, waiting, workers, deciders, IsPlaced, from_pending, from_queued, may_be_cancelled,
  on_its_way,
}
use backend_infra_platform.Jobs.System.Moves.{transition-eq-ok, create-eq-ok, count_out, place}

module _ (s : System) (placed : IsPlaced s) where
  pub submits-IsPlaced :
      (job : Job) (t : JobStore)
      → job.state ≡ JobState.pending
      → create job s.jobs ≡ ok t
      → IsPlaced (record s { jobs = t })
  submits-IsPlaced job t state e =
      let (absent, h) = create-eq-ok job s.jobs t e in
      let nowhere = rw absent at (placed job.id) in
      place s (record s { jobs = t }) job.id job h placed (refl, rw state nowhere)
        λ k other. (refl, refl, refl)

  pub queues-IsPlaced :
      (now : Time) (job : Job) (t : JobStore)
      → s.sending ≡ none
      → transition now job.id JobState.queued "" s.jobs ≡ ok t
      → IsPlaced (record s { jobs = t; sending = some job })
  unfolding moved_to
  queues-IsPlaced now job t free e =
      let (v, found, legal, h) = transition-eq-ok now job.id JobState.queued "" s.jobs t e in
      let (id, nowhere) = rw (found, from_pending v.state legal) at (placed job.id) in
      let none_sent : count_sending job.id s.sending ≡ 0 = rw free refl in
      place s (record s { jobs = t; sending = some job }) job.id _ h placed
        (id, (rw (eq_refl job.id) (omega (arith, nowhere.0, none_sent)), nowhere.1, nowhere.2))
        λ k other. (rw (free, other) refl, refl, refl)

  pub sends-IsPlaced :
      (job : Job)
      → s.sending ≡ some job
      → IsPlaced (record s { queue = s.queue ++ job ∷ []; sending = none })
  sends-IsPlaced job e k =
      let same : waiting k (record s { queue = s.queue ++ job ∷ []; sending = none })
          ≡ waiting k s =
        rw (e, count_if-append) (ground arith) in
      rw same (placed k)

  pub puts_back-IsPlaced :
      (now : Time) (job : Job) (t : JobStore)
      → s.sending ≡ some job
      → transition now job.id JobState.pending "" s.jobs ≡ ok t
      → IsPlaced (record s { jobs = t; sending = none })
  unfolding moved_to
  puts_back-IsPlaced now job t held e =
      let (v, found, legal, h) = transition-eq-ok now job.id JobState.pending "" s.jobs t e in
      let sent : count_sending job.id s.sending ≡ 1 = rw (held, eq_refl job.id) refl in
      let (u, _, id, once, idle, undecided, _) =
        on_its_way job.id (some v) _ _ _ (rw found at (placed job.id)) (omega (arith, sent)) in
      place s (record s { jobs = t; sending = none }) job.id _ h placed
        ((rw found at (placed job.id)).0, (omega (arith, once, sent), idle, undecided))
        λ k other. (rw (held, other) refl, refl, refl)

  -- A job on its way that cannot make a move that a QUEUED job can make is CANCELLED.
  refused-cancelled :
      (now : Time) (id : String) (to : JobState) (e : StoreError)
      → transition now id to "" s.jobs ≡ err e
      → can_transition JobState.queued to ≡ true
      → 1 ≤ waiting id s
      → (v : Job) × (load id s.jobs ≡ some v)
        × (v.id ≡ id)
        × (waiting id s ≡ 1)
        × (workers id s ≡ 0)
        × (deciders id s ≡ 0)
        × (v.state ≡ JobState.cancelled)
  refused-cancelled now id to e refused legal w =
      let (v, found, keyed, once, idle, undecided, state) = on_its_way id _ _ _ _ (placed id) w in
      elim state [
        | inl queued ↦
            let (t, moved, h) =
              transition-Holds id v s.jobs s.jobs (same-Holds id v s.jobs found) now to ""
                (rw queued legal) in
            absurd (ground (arith, moved, refused))
        | inr cancelled ↦ (v, found, keyed, once, idle, undecided, cancelled)
      ]

  pub drops-IsPlaced :
      (now : Time) (job : Job) (e : StoreError)
      → s.sending ≡ some job
      → transition now job.id JobState.pending "" s.jobs ≡ err e
      → IsPlaced (record s { sending = none })
  unfolding can_transition
  drops-IsPlaced now job e held refused =
      let sent : count_sending job.id s.sending ≡ 1 = rw (held, eq_refl job.id) refl in
      let (v, found, keyed, once, idle, undecided, state) =
        refused-cancelled now job.id JobState.pending e refused refl (omega (arith, sent)) in
      place s (record s { sending = none }) job.id v (same-Holds job.id v s.jobs found) placed
        (keyed, rw state (omega (arith, once, idle, sent), undecided))
        λ k other. (rw (held, other) refl, refl, refl)

  pub takes-IsPlaced :
      (job : Job) (rest : List Job)
      → s.queue ≡ job ∷ rest
      → IsPlaced (record s { queue = rest; taken = job ∷ s.taken })
  takes-IsPlaced job rest e k =
      let same : waiting k (record s { queue = rest; taken = job ∷ s.taken }) ≡ waiting k s =
        rw e (ground arith) in
      rw same (placed k)

  pub starts-IsPlaced :
      (now : Time) (job : Job) (before after : List Job) (t : JobStore)
      → s.taken ≡ before ++ job ∷ after
      → transition now job.id JobState.running "" s.jobs ≡ ok t
      → IsPlaced (record s { jobs = t; taken = before ++ after; running = job ∷ s.running })
  unfolding moved_to
  starts-IsPlaced now job before after t split e =
      let (v, found, legal, h) = transition-eq-ok now job.id JobState.running "" s.jobs t e in
      let (id, once) = rw (found, from_queued v.state legal) at (placed job.id) in
      let out = count_out job.id s.taken before after job split in
      let mine = eq_refl job.id in
      place s (record s { jobs = t; taken = before ++ after; running = job ∷ s.running }) job.id _ h
        placed (id, (ground (arith, once.0, out, mine), ground (arith, once.1, mine), once.2))
        λ k other.
          let out_k = count_out k s.taken before after job split in
          (ground (arith, out_k, other), rw other refl, refl)

  pub skips-IsPlaced :
      (now : Time) (job : Job) (before after : List Job) (e : StoreError)
      → s.taken ≡ before ++ job ∷ after
      → transition now job.id JobState.running "" s.jobs ≡ err e
      → IsPlaced (record s { taken = before ++ after })
  unfolding can_transition
  skips-IsPlaced now job before after e split refused =
      let out = count_out job.id s.taken before after job split in
      let mine = eq_refl job.id in
      let (v, found, keyed, once, idle, undecided, state) =
        refused-cancelled now job.id JobState.running e refused refl (ground (arith, out, mine)) in
      place s (record s { taken = before ++ after }) job.id v (same-Holds job.id v s.jobs found)
        placed (keyed, rw state (ground (arith, once, idle, out), undecided))
        λ k other.
          let out_k = count_out k s.taken before after job split in
          (ground (arith, out_k, other), refl, refl)

  -- A `CancelJob` at work has no place.
  pub reads_cancel-IsPlaced : (ids : List String) → IsPlaced (record s { cancelling = ids })
  reads_cancel-IsPlaced ids k = placed k

  pub cancels-IsPlaced :
      (now : Time) (id : String) (ids : List String) (t : JobStore)
      → transition now id JobState.cancelled "cancelled by user" s.jobs ≡ ok t
      → IsPlaced (record s { jobs = t; cancelling = ids })
  unfolding moved_to
  cancels-IsPlaced now id ids t e =
      let (v, found, legal, h) =
        transition-eq-ok now id JobState.cancelled "cancelled by user" s.jobs t e in
      let (keyed, there) = rw found at (placed id) in
      place s (record s { jobs = t; cancelling = ids }) id _ h placed
        (keyed, may_be_cancelled v.state _ _ _ legal there) λ k other. (refl, refl, refl)
