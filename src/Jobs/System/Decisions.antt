-- ===== src/Jobs/System/Decisions.antt =====
-- The steps of `failOrRetry` on a job that it has made FAILED.
use backend_infra_platform.Base.{
  ℕ, ◌+◌, String, List, ◌++◌, ◌∷◌, some, ◌≡◌, refl, ap, ◌∙◌, arith, inl, inr, count_if, eq_refl,
  Option-cases,
}
use backend_infra_platform.Base.SyncMap.{load}
use backend_infra_platform.ControlPlane.State.{ok, err, StoreError}
use backend_infra_platform.Jobs.Model.{Time, Job, JobState, can_transition}
use backend_infra_platform.Jobs.Store.{JobStore, or_same, get, update, transition, moved_to}
use backend_infra_platform.Jobs.Executor.{schedule_retry}
use backend_infra_platform.Jobs.Holds.{same-Holds, get-Holds, transition-Holds, update-Holds}
use backend_infra_platform.Jobs.System.{System}
use backend_infra_platform.Jobs.System.Places.{is_job, deciders, IsPlaced, at_decision}
use backend_infra_platform.Jobs.System.Moves.{count_out, place}

get-eq-ok : (id : String) (s : JobStore) (v : Job) → get id s ≡ ok v → load id s ≡ some v
unfolding get
get-eq-ok id s v e = elim (Option-cases (load id s)) [
  | inl absent ↦ absurd (ground (arith, e, absent))
  | inr (w, found) ↦ let same : w ≡ v = ground (arith, e, found) in found ∙ ap some same
]

module _ (s : System) (placed : IsPlaced s) where
  pub looks-IsPlaced :
      (job v : Job) (before after : List Job)
      → s.failing ≡ before ++ job ∷ after
      → get job.id s.jobs ≡ ok v
      → IsPlaced (record s { failing = before ++ after; deciding = v ∷ s.deciding })
  looks-IsPlaced job v before after split e k =
      let found = get-eq-ok job.id s.jobs v e in
      let keyed : v.id ≡ job.id = (rw found at (placed job.id)).0 in
      let out = count_out k s.failing before after job split in
      let same : count_if (is_job k) (before ++ after) + count_if (is_job k) (v ∷ s.deciding)
          ≡ deciders k s =
        rw keyed (ground (arith, out)) in
      rw same (placed k)

  pub vanishes-IsPlaced :
      (job : Job) (before after : List Job) (e : StoreError)
      → s.failing ≡ before ++ job ∷ after
      → get job.id s.jobs ≡ err e
      → IsPlaced (record s { failing = before ++ after })
  vanishes-IsPlaced job before after e split lost =
      let out = count_out job.id s.failing before after job split in
      let mine = eq_refl job.id in
      let (v, found, _, _, _, _, _) =
        at_decision job.id _ _ _ _ (placed job.id) (ground (arith, out, mine)) in
      let here = get-Holds job.id v s.jobs s.jobs (same-Holds job.id v s.jobs found) in
      absurd (ground (arith, here, lost))

  pub retries-IsPlaced :
      (overflowed : ℕ) (now : Time) (v : Job) (before after : List Job)
      → s.deciding ≡ before ++ v ∷ after
      → IsPlaced (record s {
        jobs = or_same s.jobs (update (schedule_retry overflowed now v) s.jobs);
        deciding = before ++ after;
      })
  unfolding schedule_retry
  retries-IsPlaced overflowed now v before after split =
      let out = count_out v.id s.deciding before after v split in
      let mine = eq_refl v.id in
      let (u, found, keyed, away, idle, once, state) =
        at_decision v.id _ _ _ _ (placed v.id) (ground (arith, out, mine)) in
      let (t, stored, h) =
        update-Holds v.id u s.jobs s.jobs (same-Holds v.id u s.jobs found)
          (schedule_retry overflowed now v) refl in
      rw stored (
        place s (record s { jobs = t; deciding = before ++ after }) v.id _ h placed
          (refl, (away, idle, ground (arith, once, out, mine)))
          λ k other.
            let out_k = count_out k s.deciding before after v split in
            (refl, refl, ground (arith, out_k, other)))

  pub exhausts-IsPlaced :
      (now : Time) (v : Job) (before after : List Job)
      → s.deciding ≡ before ++ v ∷ after
      → IsPlaced (record s {
        jobs = or_same s.jobs (transition now v.id JobState.exhausted "" s.jobs);
        deciding = before ++ after;
      })
  unfolding moved_to can_transition
  exhausts-IsPlaced now v before after split =
      let out = count_out v.id s.deciding before after v split in
      let mine = eq_refl v.id in
      let (u, found, keyed, away, idle, once, state) =
        at_decision v.id _ _ _ _ (placed v.id) (ground (arith, out, mine)) in
      let (t, stored, h) =
        transition-Holds v.id u s.jobs s.jobs (same-Holds v.id u s.jobs found) now
          JobState.exhausted "" (rw state refl) in
      rw stored (
        place s (record s { jobs = t; deciding = before ++ after }) v.id _ h placed
          (keyed, (away, idle, ground (arith, once, out, mine)))
          λ k other.
            let out_k = count_out k s.deciding before after v split in
            (refl, refl, ground (arith, out_k, other)))
