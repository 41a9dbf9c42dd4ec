-- ===== src/Jobs/Dispatch/Priority.antt =====
-- The order in which a pass of the scheduler takes the jobs.
use backend_infra_platform.Base.{
  ℕ, true, false, ◌≡◌, arith, take, drop, All, All-map, ◌⊎◌, inl, inr, ◌≤◌, ltb_ℤ, eq_of_parts,
  Bool-cases,
}
use backend_infra_platform.Base.Sort.{sort_slice-IsOrdered, take-IsOrdered}
use backend_infra_platform.Jobs.Model.{Time, Job}
use backend_infra_platform.Jobs.Store.{JobStore}
use backend_infra_platform.Jobs.Dispatch.{outranks, ready_jobs}

outranks_asym : (a b : Job) → outranks a b ≡ true → outranks b a ≡ false
unfolding outranks
outranks_asym a b h = ground arith

outranks_coarse : (a b c : Job) → outranks b a ≡ false → outranks c b ≡ false → outranks c a ≡ false
unfolding outranks
outranks_coarse a b c h k = ground arith

-- `left` has the lower priority, or the same and it is not the older of the two.
abbrev pub Yields : Job → Job → Type 0
Yields queued left =
    (ltb_ℤ left.priority queued.priority ≡ true)
    ⊎ ((left.priority ≡ queued.priority) × (queued.created_at ≤ left.created_at))

yields : (a b : Job) → outranks b a ≡ false → Yields a b
unfolding outranks
yields a b h = elim (Bool-cases (ltb_ℤ b.priority a.priority)) [
  | inl lower ↦ inl lower
  | inr e ↦ inr (eq_of_parts b.priority a.priority (ground arith), ground arith)
]

-- However many of its ready jobs a pass has room for, a job that it leaves behind has a lower
-- priority than every job that it queues, or the same priority and is not older.
pub ready_jobs_ranked :
    (now : Time) (s : JobStore) (room : ℕ)
    → All
        (λ queued. All (Yields queued) (drop room (ready_jobs now s)))
        (take room (ready_jobs now s))
unfolding ready_jobs
ready_jobs_ranked now s room =
    All-map _ _ (λ a. All-map _ _ (yields a) _) _
      (take-IsOrdered outranks room _
        (sort_slice-IsOrdered outranks outranks_asym outranks_coarse _))
