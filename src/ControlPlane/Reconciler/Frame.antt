-- ===== src/ControlPlane/Reconciler/Frame.antt =====
-- What the rescheduling of one pod keeps: whatever its writes to that one entry keep.
use backend_infra_platform.Base.{
  ℕ, suc, String, false, not, ◌≡◌, refl, ◌∙◌, inl, inr, pos, leb_ℤ, Bool-cases, str_eq,
}
use backend_infra_platform.Base.SyncMap.{load, load-store, IsKeyed}
use backend_infra_platform.ControlPlane.Model.Deployment.{Time}
use backend_infra_platform.ControlPlane.Model.Pod.{Pod, PodStatus, pod_status_eq}
use backend_infra_platform.ControlPlane.State.{MemoryStore, ok, or_keep, Result-cases}
use backend_infra_platform.ControlPlane.State.Pods.{update_pod, transition_pod}
use backend_infra_platform.ControlPlane.State.Effects.{
  update_pod-eq-ok, transition_pod-eq-ok, update_pod-nodes, transition_pod-nodes,
  update_pod-IsKeyed, transition_pod-IsKeyed,
}
use backend_infra_platform.ControlPlane.Reconciler.{
  requeue, give_up, send_back, reschedule_pod, max_retries_of, add_duration, backoff,
}

-- `Q` survives an update and a move of the pod `id`.
pub record Closed (id : String) (Q : MemoryStore → Type 0) : Type 0 where
  pub updates : (p : Pod) (s t : MemoryStore) → p.id ≡ id → Q s → update_pod p s ≡ ok t → Q t
  pub moves :
      (now : Time) (to : PodStatus) (msg : String) (s t : MemoryStore)
      → Q s
      → transition_pod now id to msg s ≡ ok t
      → Q t

module _ (now : Time) (p : Pod) {Q : MemoryStore → Type 0} (closed : Closed p.id Q) where
  moves-kept :
      (to : PodStatus) (msg : String) (s : MemoryStore)
      → Q s
      → Q (or_keep s (transition_pod now p.id to msg s))
  moves-kept to msg s h = elim (Result-cases (transition_pod now p.id to msg s)) [
    | inl (_, e) ↦ rw e h
    | inr (t, e) ↦ rw e (closed.moves now to msg s t h e)
  ]

  send_back-kept : (s : MemoryStore) → Q s → Q (send_back now p s)
  unfolding send_back
  send_back-kept s h =
      let p' : Pod = record p { node_id = "" } in
      elim (Result-cases (update_pod p' s)) [
        | inl (_, e) ↦ rw (e, send_back) h
        | inr (s₁, e) ↦
            rw (e, send_back) (moves-kept PodStatus.pending "" s₁ (closed.updates p' s s₁ refl h e))
      ]

  give_up-kept : (s : MemoryStore) → Q s → Q (give_up now p s)
  unfolding give_up
  give_up-kept s h =
      let p' : Pod = record p { attempt = suc p.attempt } in
      elim (Result-cases (update_pod p' s)) [
        | inl (_, e) ↦ rw (e, give_up) h
        | inr (s₁, e) ↦
            rw (e, give_up)
              (let h₁ = closed.updates p' s s₁ refl h e in
                elim (Result-cases
                  (transition_pod now p.id PodStatus.failed "node heartbeat timeout" s₁)) [
                    | inl (_, f) ↦ rw f h₁
                    | inr (s₂, f) ↦
                        rw f
                          (moves-kept PodStatus.dead_letter _ s₂ (closed.moves now _ _ s₁ s₂ h₁ f))
                  ])
      ]

  module _ (overflowed : ℕ) where
    requeue-kept : (s : MemoryStore) → Q s → Q (requeue overflowed now p s)
    unfolding requeue
    requeue-kept s h =
        let p' : Pod = record p {
          attempt = suc p.attempt;
          run_after = add_duration now (backoff overflowed (suc p.attempt));
          node_id = "";
        } in
        elim (Result-cases (update_pod p' s)) [
          | inl (_, e) ↦ rw (e, requeue) h
          | inr (s₁, e) ↦
              rw (e, requeue)
                (let h₁ = closed.updates p' s s₁ refl h e in
                  elim (Result-cases
                    (transition_pod now p.id PodStatus.failed "node heartbeat timeout" s₁)) [
                      | inl (_, f) ↦ rw f h₁
                      | inr (s₂, f) ↦ rw f (
                          moves-kept PodStatus.pending "" _
                            (moves-kept PodStatus.retrying "" s₂ (closed.moves now _ _ s₁ s₂ h₁ f)))
                    ])
        ]

    pub reschedule_pod-kept : (s : MemoryStore) → Q s → Q (reschedule_pod overflowed now p s)
    unfolding reschedule_pod
    reschedule_pod-kept s h = elim (Bool-cases (pod_status_eq p.status PodStatus.scheduled)) [
      | inl a ↦ rw a (send_back-kept s h)
      | inr a ↦ rw a (elim (Bool-cases (not (pod_status_eq p.status PodStatus.running))) [
        | inl b ↦ rw b h
        | inr b ↦ rw b (elim (Bool-cases (leb_ℤ (pos (suc p.attempt)) (max_retries_of p s))) [
          | inl c ↦ rw c (requeue-kept s h)
          | inr c ↦ rw c (give_up-kept s h)
        ])
      ])
    ]

-- The nodes, the entry of another pod, and the keys.
Closed-nodes : (id : String) (s : MemoryStore) → Closed id (λ t. t.nodes ≡ s.nodes)
Closed-nodes id s = record {
  updates = λ p t u _ h e. update_pod-nodes t p e ∙ h;
  moves = λ now to msg t u h e. transition_pod-nodes t now id to msg e ∙ h;
}

Closed-other :
    (id k : String) (s : MemoryStore)
    → str_eq id k ≡ false
    → Closed id (λ t. load k t.pods ≡ load k s.pods)
Closed-other id k s other = record {
  updates = λ p t u same h e. rw (update_pod-eq-ok t p e) (rw same (rw (load-store, other) h));
  moves = λ now to msg t u h e.
      rw ((transition_pod-eq-ok t now id to msg e).3) (rw (load-store, other) h);
}

Closed-IsKeyed : (id : String) → Closed id (λ t. IsKeyed (λ (p : Pod). p.id) t.pods)
Closed-IsKeyed id = record {
  updates = λ p t u _ h e. update_pod-IsKeyed t p h e;
  moves = λ now to msg t u h e. transition_pod-IsKeyed t now id to msg h e;
}

module _ (overflowed : ℕ) (now : Time) (p : Pod) (s : MemoryStore) where
  pub reschedule_pod-nodes : (reschedule_pod overflowed now p s).nodes ≡ s.nodes
  reschedule_pod-nodes = reschedule_pod-kept now p (Closed-nodes p.id s) overflowed s refl

  pub reschedule_pod-other :
      (k : String)
      → str_eq p.id k ≡ false
      → load k (reschedule_pod overflowed now p s).pods ≡ load k s.pods
  reschedule_pod-other k other =
      reschedule_pod-kept now p (Closed-other p.id k s other) overflowed s refl

  pub reschedule_pod-IsKeyed :
      IsKeyed (λ (q : Pod). q.id) s.pods
      → IsKeyed (λ (q : Pod). q.id) (reschedule_pod overflowed now p s).pods
  reschedule_pod-IsKeyed h = reschedule_pod-kept now p (Closed-IsKeyed p.id) overflowed s h
