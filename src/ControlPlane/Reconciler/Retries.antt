-- ===== src/ControlPlane/Reconciler/Retries.antt =====
-- What becomes of a pod whose node was lost.
use backend_infra_platform.Base.{
  ℕ, suc, String, true, false, none, some, ◌≡◌, refl, ◌≢◌, ◌⊎◌, inl, inr, arith, pos, ◌≤ℤ◌, leb_ℤ,
  Bool-cases, eq_refl,
}
use backend_infra_platform.Base.SyncMap.{load, store, load-store}
use backend_infra_platform.ControlPlane.Model.Deployment.{Time}
use backend_infra_platform.ControlPlane.Model.Pod.{Pod, PodStatus, can_transition_pod}
use backend_infra_platform.ControlPlane.State.{MemoryStore, or_keep}
use backend_infra_platform.ControlPlane.State.Pods.{transition_pod, apply_transition}
use backend_infra_platform.ControlPlane.State.Effects.{update_pod-ok, transition_pod-ok}
use backend_infra_platform.ControlPlane.Reconciler.{
  requeue, give_up, send_back, reschedule_pod, max_retries_of, add_duration, backoff,
}

-- Back in the queue, with no node.
pub record IsRequeued (attempt : ℕ) (run_after : Time) (q : Pod) : Type 0 where
  pub status : q.status ≡ PodStatus.pending
  pub node_id : q.node_id ≡ ""
  pub attempt_is : q.attempt ≡ attempt
  pub run_after_is : q.run_after ≡ run_after

-- Out of retries.
pub record IsDeadLettered (attempt : ℕ) (q : Pod) : Type 0 where
  pub status : q.status ≡ PodStatus.dead_letter
  pub attempt_is : q.attempt ≡ attempt
  pub finished : q.finished_at ≢ none

module _ (now : Time) (id : String) where
  moved :
      (to : PodStatus) (msg : String) (s : MemoryStore) (p : Pod)
      → load id s.pods ≡ some p
      → can_transition_pod p.status to ≡ true
      → load id (or_keep s (transition_pod now id to msg s)).pods
        ≡ some (apply_transition now to msg p)
  moved to msg s p found legal =
      rw (transition_pod-ok now id to msg s p found legal) (rw (load-store, eq_refl) refl)

module _ (now : Time) (p : Pod) (s : MemoryStore) (stored : load p.id s.pods ≡ some p) where
  send_back-stored :
      p.status ≡ PodStatus.scheduled
      → (q : Pod) × (load p.id (send_back now p s).pods ≡ some q)
        × IsRequeued p.attempt p.run_after q
  unfolding send_back can_transition_pod apply_transition
  send_back-stored scheduled =
      let p' : Pod = record p { node_id = "" } in
      (
        apply_transition now PodStatus.pending "" p',
        rw (update_pod-ok p' p s stored, send_back)
            (moved now p.id PodStatus.pending "" _ p' (rw (load-store, eq_refl) refl)
              (rw scheduled refl)),
        record { status = refl; node_id = refl; attempt_is = refl; run_after_is = refl },
      )

  give_up-stored :
      p.status ≡ PodStatus.running
      → (q : Pod) × (load p.id (give_up now p s).pods ≡ some q) × IsDeadLettered (suc p.attempt) q
  unfolding give_up can_transition_pod apply_transition
  give_up-stored running =
      let p' : Pod = record p { attempt = suc p.attempt } in
      let lost : String = "node heartbeat timeout" in
      let p₁ = apply_transition now PodStatus.failed lost p' in
      let s₁ : MemoryStore = record s { pods = store p.id p' s.pods } in
      let failed =
        transition_pod-ok now p.id PodStatus.failed lost s₁ p' (rw (load-store, eq_refl) refl)
          (rw running refl) in
      (
        apply_transition now PodStatus.dead_letter "max retries exceeded after node failure" p₁,
        rw (update_pod-ok p' p s stored, give_up)
            (rw failed
              (moved now p.id PodStatus.dead_letter _ _ p₁ (rw (load-store, eq_refl) refl) refl)),
        record { status = refl; attempt_is = refl; finished = ground arith },
      )

  requeue-stored :
      (overflowed : ℕ)
      → p.status ≡ PodStatus.running
      → (q : Pod) × (load p.id (requeue overflowed now p s).pods ≡ some q)
        × IsRequeued (suc p.attempt) (add_duration now (backoff overflowed (suc p.attempt))) q
  unfolding requeue can_transition_pod apply_transition
  requeue-stored overflowed running =
      let p' : Pod = record p {
        attempt = suc p.attempt;
        run_after = add_duration now (backoff overflowed (suc p.attempt));
        node_id = "";
      } in
      let lost : String = "node heartbeat timeout" in
      let p₁ = apply_transition now PodStatus.failed lost p' in
      let p₂ = apply_transition now PodStatus.retrying "" p₁ in
      let s₁ : MemoryStore = record s { pods = store p.id p' s.pods } in
      let failed =
        transition_pod-ok now p.id PodStatus.failed lost s₁ p' (rw (load-store, eq_refl) refl)
          (rw running refl) in
      (
        apply_transition now PodStatus.pending "" p₂,
        rw (update_pod-ok p' p s stored, requeue)
            (rw failed (
              moved now p.id PodStatus.pending "" _ p₂
                (moved now p.id PodStatus.retrying "" _ p₁ (rw (load-store, eq_refl) refl) refl)
                refl)),
        record { status = refl; node_id = refl; attempt_is = refl; run_after_is = refl },
      )

-- Which case `reschedule_pod` takes.
module _ (overflowed : ℕ) (now : Time) (p : Pod) (s : MemoryStore) where
  chooses_requeue :
      p.status ≡ PodStatus.running
      → leb_ℤ (pos (suc p.attempt)) (max_retries_of p s) ≡ true
      → reschedule_pod overflowed now p s ≡ requeue overflowed now p s
  unfolding reschedule_pod
  chooses_requeue running within = ground arith

  chooses_give_up :
      p.status ≡ PodStatus.running
      → leb_ℤ (pos (suc p.attempt)) (max_retries_of p s) ≡ false
      → reschedule_pod overflowed now p s ≡ give_up now p s
  unfolding reschedule_pod
  chooses_give_up running past = ground arith

  chooses_send_back :
      p.status ≡ PodStatus.scheduled → reschedule_pod overflowed now p s ≡ send_back now p s
  unfolding reschedule_pod
  chooses_send_back scheduled = ground arith

-- A pod that ran on a lost node has one attempt more. Within the retries of its deployment it is
-- pending again, with no node and behind its backoff; past them it is dead-lettered and finished.
pub reschedule_pod_running :
    (overflowed : ℕ) (now : Time) (p : Pod) (s : MemoryStore)
    → load p.id s.pods ≡ some p
    → p.status ≡ PodStatus.running
    → (q : Pod) × (load p.id (reschedule_pod overflowed now p s).pods ≡ some q)
      × ((pos (suc p.attempt) ≤ℤ max_retries_of p s)
            × IsRequeued (suc p.attempt) (add_duration now (backoff overflowed (suc p.attempt))) q
          ⊎ (¬ (pos (suc p.attempt) ≤ℤ max_retries_of p s)) × IsDeadLettered (suc p.attempt) q)
reschedule_pod_running overflowed now p s stored running =
    elim (Bool-cases (leb_ℤ (pos (suc p.attempt)) (max_retries_of p s))) [
      | inl within ↦
          let (q, at, r) = requeue-stored now p s stored overflowed running in
          rw (chooses_requeue overflowed now p s running within) (q, at, inl (ground arith, r))
      | inr past ↦
          let (q, at, r) = give_up-stored now p s stored running in
          rw (chooses_give_up overflowed now p s running past) (q, at, inr (ground arith, r))
    ]

-- A pod that was dispatched to a lost node and never ran is pending again, with no node, and keeps
-- its attempts and its gate.
pub reschedule_pod_scheduled :
    (overflowed : ℕ) (now : Time) (p : Pod) (s : MemoryStore)
    → load p.id s.pods ≡ some p
    → p.status ≡ PodStatus.scheduled
    → (q : Pod) × (load p.id (reschedule_pod overflowed now p s).pods ≡ some q)
      × IsRequeued p.attempt p.run_after q
reschedule_pod_scheduled overflowed now p s stored scheduled =
    rw (chooses_send_back overflowed now p s scheduled) (send_back-stored now p s stored scheduled)
