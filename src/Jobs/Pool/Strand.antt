-- ===== src/Jobs/Pool/Strand.antt =====
-- The workers that leave buffered jobs behind.
use backend_infra_platform.Base.{
  ℕ, suc, true, List, [], ◌∷◌, ◌++◌, ◌≡◌, refl, sym, ap, subst, ◌∙◌, All,
}
use backend_infra_platform.Jobs.Pool.{Worker, Pool, WorkerStep}
use backend_infra_platform.Jobs.Pool.Drain.{Drain}

append_cons :
    (ws : List Worker) (w : Worker) (vs : List Worker) → ws ++ w ∷ vs ≡ (ws ++ w ∷ []) ++ vs
append_cons [] w vs = refl
append_cons (x ∷ ws) w vs = ap (λ us. x ∷ us) (append_cons ws w vs)

All-snoc :
    (P : Worker → Type 0) (ws : List Worker) (w : Worker) → All P ws → P w → All P (ws ++ w ∷ [])
All-snoc P [] w h p = (p, tt)
All-snoc P (x ∷ ws) w h p = (h.0, All-snoc P ws w h.1 p)

append_none : (ws : List Worker) → ws ++ [] ≡ ws
append_none [] = refl
append_none (x ∷ ws) = ap (λ us. x ∷ us) (append_none ws)

-- One waiting worker after the other takes the stop signal.
stop_rest :
    (ws before : List Worker) (p q : Pool) (n : ℕ)
    → Drain p n q
    → q.workers ≡ before ++ ws
    → q.queue ≡ p.queue
    → q.stopped ≡ true
    → All (λ w. w ≡ Worker.exited) before
    → All (λ w. w ≡ Worker.waiting) ws
    → (m : ℕ) × (r : Pool) × Drain p m r
      × (r.queue ≡ p.queue)
      × All (λ w. w ≡ Worker.exited) r.workers
stop_rest [] before p q n d e same stop gone waits =
    (n, q, d, same, subst (All (λ w. w ≡ Worker.exited)) (sym (e ∙ append_none before)) gone)
stop_rest (w ∷ ws) before p q n d e same stop gone waits =
    let at_w : q.workers ≡ before ++ Worker.waiting ∷ ws = e ∙ ap (λ v. before ++ v ∷ ws) waits.0 in
    stop_rest ws (before ++ Worker.exited ∷ []) p
      (record q { workers = before ++ Worker.exited ∷ ws }) (suc n)
      (Drain.then d (WorkerStep.stops before ws at_w stop)) (append_cons before Worker.exited ws)
      same stop (All-snoc (λ v. v ≡ Worker.exited) before Worker.exited gone refl) waits.1

-- Where every worker has found the channel empty and stands at its second `select` when the pool is
-- told to stop, the workers may all take the stop signal and exit, whatever is in the channel by
-- then: a job that was sent after the last worker looked and before the stop is never run.
pub stranded_jobs :
    (p : Pool)
    → p.stopped ≡ true
    → All (λ w. w ≡ Worker.waiting) p.workers
    → (n : ℕ) × (q : Pool) × Drain p n q
      × (q.queue ≡ p.queue)
      × All (λ w. w ≡ Worker.exited) q.workers
stranded_jobs p stop waits = stop_rest p.workers [] p p 0 Drain.done refl refl stop tt waits
