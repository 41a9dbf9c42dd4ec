-- ===== src/Jobs/Budget.antt =====
-- The retries of a job whose command keeps failing.
use Prim.Native.Nat.{min}
use backend_infra_platform.Base.{
  ℕ, ◌+◌, ◌-◌, ◌<◌, ℤ, pos, negsuc, pos_part, ltb_ℤ, String, true, false, List, [], ◌∷◌, some, ◌≡◌,
  refl, arith, inl, inr, Bool-cases, if◌then◌else◌, length, leb,
}
use backend_infra_platform.Base.SyncMap.{load}
use backend_infra_platform.ControlPlane.State.{err, invalid_transition}
use backend_infra_platform.Jobs.Model.{Time, Job, JobState, can_transition, state_eq}
use backend_infra_platform.Jobs.Store.{JobStore, or_same, transition, moved_to, is_terminal}
use backend_infra_platform.Jobs.Executor.{Outcome, run}
use backend_infra_platform.Jobs.Holds.{Holds, load-Holds, transition-Holds, same-Holds}
use backend_infra_platform.Jobs.Outcomes.{after_failure, while_running, run-Holds}

-- One attempt: the scheduler queues the job and a worker runs it, and the command fails.
unfoldable pub fail_once : ℕ → Job → Time → String → JobStore → JobStore
fail_once overflowed job now e s =
    run overflowed now now job (Outcome.failed_with e) ""
      (or_same s (transition now job.id JobState.queued "" s))

-- One attempt after the other, each with its time and its error.
unfoldable pub fail_each : ℕ → Job → List (Time × String) → JobStore → JobStore
fail_each overflowed job [] s = s
fail_each overflowed job ((now, e) ∷ es) s =
    fail_each overflowed job es (fail_once overflowed job now e s)

-- The retries that a job has left.
abbrev pub budget : Job → ℕ
budget j = pos_part j.max_retries - j.retry_count

module _ (overflowed : ℕ) (job : Job) where
  transition_exhausted :
      (now : Time) (to : JobState) (stored : Job) (s : JobStore)
      → load job.id s ≡ some stored
      → stored.state ≡ JobState.exhausted
      → transition now job.id to "" s ≡ err invalid_transition
  unfolding transition can_transition
  transition_exhausted now to stored s found state = rw (found, transition) (rw state refl)

  fail_once_exhausted :
      (now : Time) (e : String) (stored : Job) (s : JobStore)
      → load job.id s ≡ some stored
      → stored.state ≡ JobState.exhausted
      → fail_once overflowed job now e s ≡ s
  unfolding fail_once run
  fail_once_exhausted now e stored s found state =
      rw (transition_exhausted now JobState.queued stored s found state, fail_once)
        (rw (transition_exhausted now JobState.running stored s found state, run) refl)

  fail_each_exhausted :
      (es : List (Time × String)) (stored : Job) (s : JobStore)
      → load job.id s ≡ some stored
      → stored.state ≡ JobState.exhausted
      → fail_each overflowed job es s ≡ s
  unfolding fail_each
  fail_each_exhausted [] stored s found state = refl
  fail_each_exhausted ((now, e) ∷ es) stored s found state =
      rw (fail_once_exhausted now e stored s found state, fail_each)
        (fail_each_exhausted es stored s found state)

  fail_once-Holds :
      (now : Time) (e : String) (stored : Job) (s : JobStore)
      → load job.id s ≡ some stored
      → stored.id ≡ job.id
      → stored.state ≡ JobState.pending
      → Holds job.id
          (after_failure overflowed now e
            (while_running now "" (record stored { state = JobState.queued })))
          s
          (fail_once overflowed job now e s)
  unfolding fail_once moved_to is_terminal state_eq can_transition
  fail_once-Holds now e stored s found keyed state =
      let (t, queued, h) =
        transition-Holds job.id stored s s (same-Holds job.id stored s found) now JobState.queued ""
          (rw state refl) in
      rw queued (
        run-Holds overflowed now now job (record stored { state = JobState.queued })
          (Outcome.failed_with e) "" s t h keyed refl)

budget_left : (r : ℕ) (m : ℤ) → ltb_ℤ (pos r) m ≡ true → r < pos_part m
budget_left r (pos n) e = ground arith
budget_left r (negsuc n) e = ground arith

budget_spent : (r : ℕ) (m : ℤ) → ltb_ℤ (pos r) m ≡ false → pos_part m - r ≡ 0
budget_spent r (pos n) e = ground arith
budget_spent r (negsuc n) e = omega arith

-- A pending job whose attempts all fail: while it has retries left, each attempt leaves it PENDING
-- with one more retry counted; the attempt after its last retry leaves it EXHAUSTED, and further
-- attempts change nothing. The job
-- must stand under its own identifier.
pub fail_each-budget :
    (overflowed : ℕ) (job : Job) (es : List (Time × String)) (stored : Job) (s : JobStore)
    → load job.id s ≡ some stored
    → stored.id ≡ job.id
    → stored.state ≡ JobState.pending
    → (last : Job) × (load job.id (fail_each overflowed job es s) ≡ some last)
      × (last.state
          ≡ (if leb (length es) (budget stored) then JobState.pending else JobState.exhausted))
      × (last.retry_count ≡ stored.retry_count + min (length es) (budget stored))
unfolding fail_each
fail_each-budget overflowed job [] stored s found keyed state =
    (stored, found, rw state (ground arith), omega arith)
fail_each-budget overflowed job ((now, e) ∷ es) stored s found keyed state =
    let s₁ = fail_once overflowed job now e s in
    let h = fail_once-Holds overflowed job now e stored s found keyed state in
    elim (Bool-cases (ltb_ℤ (pos stored.retry_count) stored.max_retries)) [
      | inl left ↦
          let more = budget_left stored.retry_count stored.max_retries left in
          let found₁ = rw left at (load-Holds job.id _ s s₁ h) in
          let (last, e₁, e₂, e₃) = fail_each-budget overflowed job es _ s₁ found₁ keyed refl in
          (last, e₁, rw e₂ (ground arith), omega (arith, e₃, more))
      | inr none_left ↦
          let j₁ : Job =
            after_failure overflowed now e
              (while_running now "" (record stored { state = JobState.queued })) in
          let found₁ : load job.id s₁ ≡ some j₁ = load-Holds job.id j₁ s s₁ h in
          let spent = budget_spent stored.retry_count stored.max_retries none_left in
          let state₁ : j₁.state ≡ JobState.exhausted = rw none_left refl in
          let stays = fail_each_exhausted overflowed job es j₁ s₁ found₁ state₁ in
          (
            j₁,
            rw stays found₁,
            rw (state₁, spent) (ground arith),
            rw (none_left, spent) (omega arith),
          )
    ]
