-- ===== src/Jobs/System/Works.antt =====
-- The steps of the workers, from the end of a command on.
use backend_infra_platform.Base.{
  ℕ, ◌+◌, ◌≤◌, String, true, List, ◌++◌, ◌∷◌, some, ◌≡◌, refl, arith, ◌⊎◌, inl, inr, count_if,
  eq_refl,
}
use backend_infra_platform.Base.SyncMap.{load}
use backend_infra_platform.ControlPlane.State.{ok, err, StoreError, Result-cases}
use backend_infra_platform.Jobs.Model.{Time, Job, JobState, can_transition}
use backend_infra_platform.Jobs.Store.{JobStore, or_same, transition, set_output, moved_to}
use backend_infra_platform.Jobs.Holds.{same-Holds, transition-Holds, set_output-Holds}
use backend_infra_platform.Jobs.System.{System}
use backend_infra_platform.Jobs.System.Places.{
  is_job, waiting, workers, deciders, FitsState, IsPlaced, at_work,
}
use backend_infra_platform.Jobs.System.Moves.{transition-eq-ok, count_out, place}

-- The two states in which `Run` may leave a job without asking about retries.
abbrev pub IsLast : JobState → String → Type 0
IsLast to msg =
    ((to ≡ JobState.completed) × (msg ≡ ""))
    ⊎ ((to ≡ JobState.cancelled) × (msg ≡ "cancelled by user"))

last_legal :
    (to : JobState) (msg : String) → IsLast to msg → can_transition JobState.running to ≡ true
unfolding can_transition
last_legal to msg (inl (e, _)) = rw e refl
last_legal to msg (inr (e, _)) = rw e refl

last-FitsState :
    (to : JobState) (msg : String) (w r f : ℕ)
    → IsLast to msg
    → w ≡ 0
    → r ≡ 0
    → f ≡ 0
    → FitsState to w r f
last-FitsState to msg w r f (inl (e, _)) a b c = rw e (a, b, c)
last-FitsState to msg w r f (inr (e, _)) a b c = rw e (omega (arith, a, b), c)

module _ (s : System) (placed : IsPlaced s) where
  -- A worker that may not move the job that it runs finds it CANCELLED.
  refused_at_work :
      (now : Time) (id : String) (to : JobState) (msg : String) (e : StoreError)
      → transition now id to msg s.jobs ≡ err e
      → can_transition JobState.running to ≡ true
      → 1 ≤ workers id s
      → (v : Job) × (load id s.jobs ≡ some v)
        × (v.id ≡ id)
        × (waiting id s ≡ 0)
        × (workers id s ≡ 1)
        × (deciders id s ≡ 0)
        × (v.state ≡ JobState.cancelled)
  refused_at_work now id to msg e refused legal one =
      let (v, found, keyed, away, once, undecided, state) = at_work id _ _ _ _ (placed id) one in
      elim state [
        | inl running ↦
            let (t, moved, h) =
              transition-Holds id v s.jobs s.jobs (same-Holds id v s.jobs found) now to msg
                (rw running legal) in
            absurd (ground (arith, moved, refused))
        | inr cancelled ↦ (v, found, keyed, away, once, undecided, cancelled)
      ]

  pub outputs-IsPlaced :
      (job : Job) (before after : List Job) (output : String)
      → s.running ≡ before ++ job ∷ after
      → IsPlaced (record s {
        jobs = or_same s.jobs (set_output job.id output s.jobs);
        running = before ++ after;
        ended = job ∷ s.ended;
      })
  outputs-IsPlaced job before after output split =
      let out = count_out job.id s.running before after job split in
      let mine = eq_refl job.id in
      let (v, found, keyed, _, _, _, _) =
        at_work job.id _ _ _ _ (placed job.id) (ground (arith, out, mine)) in
      let (t, stored, h) =
        set_output-Holds job.id v s.jobs s.jobs (same-Holds job.id v s.jobs found) output in
      let there = (rw found at (placed job.id)).1 in
      let same : (k : String)
          → count_if (is_job k) (before ++ after) + count_if (is_job k) (job ∷ s.ended)
            ≡ workers k s =
        λ k. let out_k = count_out k s.running before after job split in ground (arith, out_k) in
      rw stored (
        place s (record s { jobs = t; running = before ++ after; ended = job ∷ s.ended }) job.id _ h
          placed (keyed, rw (same job.id) there) λ k other. (refl, same k, refl))

  -- The worker is done with the job, which is CANCELLED.
  leaves-IsPlaced :
      (job v : Job) (before after : List Job)
      → s.ended ≡ before ++ job ∷ after
      → load job.id s.jobs ≡ some v
      → v.id ≡ job.id
      → waiting job.id s ≡ 0
      → deciders job.id s ≡ 0
      → workers job.id s ≡ 1
      → v.state ≡ JobState.cancelled
      → IsPlaced (record s { ended = before ++ after })
  leaves-IsPlaced job v before after split found keyed away undecided once state =
      let out = count_out job.id s.ended before after job split in
      let mine = eq_refl job.id in
      place s (record s { ended = before ++ after }) job.id v (same-Holds job.id v s.jobs found)
        placed (keyed, rw state (ground (arith, away, once, out, mine), undecided))
        λ k other.
          let out_k = count_out k s.ended before after job split in
          (refl, ground (arith, out_k, other), refl)

  pub finishes-IsPlaced :
      (now : Time) (job : Job) (before after : List Job) (to : JobState) (msg : String)
      → s.ended ≡ before ++ job ∷ after
      → IsLast to msg
      → IsPlaced (record s {
        jobs = or_same s.jobs (transition now job.id to msg s.jobs);
        ended = before ++ after;
      })
  unfolding moved_to
  finishes-IsPlaced now job before after to msg split last =
      let out = count_out job.id s.ended before after job split in
      let mine = eq_refl job.id in
      let at_least : 1 ≤ workers job.id s = ground (arith, out, mine) in
      elim (Result-cases (transition now job.id to msg s.jobs)) [
        | inl (e, refused) ↦
            let (v, found, keyed, away, once, undecided, state) =
              refused_at_work now job.id to msg e refused (last_legal to msg last) at_least in
            rw refused
              (leaves-IsPlaced job v before after split found keyed away undecided once state)
        | inr (t, e) ↦
            let (v, found, legal, h) = transition-eq-ok now job.id to msg s.jobs t e in
            let (u, _, _, away, once, undecided, _) =
              at_work job.id _ _ _ _ (placed job.id) at_least in
            rw e (
              place s (record s { jobs = t; ended = before ++ after }) job.id _ h placed
                (
                  (rw found at (placed job.id)).0,
                  last-FitsState to msg _ _ _ last away (ground (arith, once, out, mine)) undecided,
                )
                λ k other.
                  let out_k = count_out k s.ended before after job split in
                  (refl, ground (arith, out_k, other), refl))
      ]

  pub fails-IsPlaced :
      (now : Time) (job : Job) (before after : List Job) (msg : String) (t : JobStore)
      → s.ended ≡ before ++ job ∷ after
      → transition now job.id JobState.failed msg s.jobs ≡ ok t
      → IsPlaced (record s { jobs = t; ended = before ++ after; failing = job ∷ s.failing })
  unfolding moved_to
  fails-IsPlaced now job before after msg t split e =
      let out = count_out job.id s.ended before after job split in
      let mine = eq_refl job.id in
      let (v, found, legal, h) = transition-eq-ok now job.id JobState.failed msg s.jobs t e in
      let (u, _, _, away, once, undecided, _) =
        at_work job.id _ _ _ _ (placed job.id) (ground (arith, out, mine)) in
      place s (record s { jobs = t; ended = before ++ after; failing = job ∷ s.failing }) job.id _ h
        placed
        (
          (rw found at (placed job.id)).0,
          (away, ground (arith, once, out, mine), ground (arith, undecided, mine)),
        )
        λ k other.
          let out_k = count_out k s.ended before after job split in
          (refl, ground (arith, out_k, other), rw other refl)

  pub gives_up-IsPlaced :
      (now : Time) (job : Job) (before after : List Job) (msg : String) (e : StoreError)
      → s.ended ≡ before ++ job ∷ after
      → transition now job.id JobState.failed msg s.jobs ≡ err e
      → IsPlaced (record s { ended = before ++ after })
  unfolding can_transition
  gives_up-IsPlaced now job before after msg e split refused =
      let out = count_out job.id s.ended before after job split in
      let mine = eq_refl job.id in
      let (v, found, keyed, away, once, undecided, state) =
        refused_at_work now job.id JobState.failed msg e refused refl (ground (arith, out, mine)) in
      leaves-IsPlaced job v before after split found keyed away undecided once state
