-- ===== src/Jobs/System/Moves.antt =====
-- What the writes of the store do to the places.
use backend_infra_platform.Base.{
  ◌+◌, String, true, false, List, ◌++◌, ◌∷◌, none, some, str_eq, ◌≡◌, refl, sym, subst, ◌∙◌, arith,
  inl, inr, Bool-cases, Option-cases, if◌then◌else◌, count_if, count_if-append, eq_iff,
}
use backend_infra_platform.Base.SyncMap.{load, store, load-store}
use backend_infra_platform.ControlPlane.State.{ok}
use backend_infra_platform.Jobs.Model.{Time, Job, JobState, can_transition}
use backend_infra_platform.Jobs.Store.{JobStore, create, transition, moved_to}
use backend_infra_platform.Jobs.Holds.{Holds, load-Holds, same-Holds, transition-Holds}
use backend_infra_platform.Jobs.System.{System}
use backend_infra_platform.Jobs.System.Places.{is_job, waiting, workers, deciders, Fits, IsPlaced}

-- A transition that succeeds was legal, and rewrites that job only.
pub transition-eq-ok :
    (now : Time) (id : String) (to : JobState) (msg : String) (s t : JobStore)
    → transition now id to msg s ≡ ok t
    → (v : Job) × (load id s ≡ some v)
      × (can_transition v.state to ≡ true)
      × Holds id (moved_to now to msg v) s t
unfolding transition
transition-eq-ok now id to msg s t e = elim (Option-cases (load id s)) [
  | inl none_there ↦ absurd (ground (arith, e))
  | inr (v, found) ↦ elim (Bool-cases (can_transition v.state to)) [
    | inl legal ↦
        let (u, moved, h) = transition-Holds id v s s (same-Holds id v s found) now to msg legal in
        (v, found, legal, subst (Holds id (moved_to now to msg v) s) (cc) h)
    | inr illegal ↦ absurd (ground (arith, e))
  ]
]

pub create-eq-ok :
    (job : Job) (s t : JobStore)
    → create job s ≡ ok t
    → (load job.id s ≡ none) × Holds job.id job s t
unfolding create
create-eq-ok job s t e = elim (Option-cases (load job.id s)) [
  | inl absent ↦
      let stored : store job.id job s ≡ t = ground (arith, e, absent) in
      (absent, λ k. rw (sym stored) (load-store job.id k job s))
  | inr (v, found) ↦ absurd (ground (arith, e))
]

pub count_out :
    (k : String) (jobs before after : List Job) (job : Job)
    → jobs ≡ before ++ job ∷ after
    → count_if (is_job k) jobs
      ≡ count_if (is_job k) (before ++ after) + (if is_job k job then 1 else 0)
count_out k jobs before after job split =
    rw split (rw (count_if-append) (rw count_if-append (ground arith)))

-- A step that rewrites one job and leaves the others where they are.
pub place :
    (s t : System) (id : String) (v : Job)
    → Holds id v s.jobs t.jobs
    → IsPlaced s
    → Fits id (some v) (waiting id t) (workers id t) (deciders id t)
    → ((k : String)
        → str_eq id k ≡ false
        → (waiting k t ≡ waiting k s) × (workers k t ≡ workers k s) × (deciders k t ≡ deciders k s))
    → IsPlaced t
place s t id v h placed here others k = elim (Bool-cases (str_eq id k)) [
  | inl same ↦
      subst (λ i. Fits i (load i t.jobs) (waiting i t) (workers i t) (deciders i t))
        ((eq_iff id k).0 same)
        (subst (λ o. Fits id o (waiting id t) (workers id t) (deciders id t))
          (sym (load-Holds id v s.jobs t.jobs h)) here)
  | inr other ↦
      let (w, r, f) = others k other in
      let stored : load k t.jobs ≡ load k s.jobs = h k ∙ rw other refl in
      rw (w, r, f, stored) (placed k)
]
