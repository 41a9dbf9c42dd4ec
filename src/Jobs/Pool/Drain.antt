-- ===== src/Jobs/Pool/Drain.antt =====
-- The shutdown of the pool: what its workers do when no job arrives any more.
use backend_infra_platform.Base.{
  ℕ, suc, ◌+◌, ◌*◌, ◌≤◌, Bool, true, false, List, [], ◌∷◌, ◌++◌, ◌≡◌, refl, ap, ◌∙◌, arith, ◌⊎◌,
  inl, inr, All, length, count_if, count_if-append, if◌then◌else◌,
}
use backend_infra_platform.Jobs.Model.{Job}
use backend_infra_platform.Jobs.Pool.{Worker, Pool, WorkerStep}

-- A run of the workers, by its number of steps.
pub data Drain (p : Pool) : ℕ → Pool → Type 0 where
  done : Drain p 0 p
  then : {n : ℕ} {q r : Pool} → Drain p n q → WorkerStep q r → Drain p (suc n) r

-- A worker that will look at the channel again before it can exit.
abbrev pub is_active : Worker → Bool
is_active Worker.polling = true
is_active (Worker.busy job) = true
is_active Worker.waiting = false
is_active Worker.exited = false

-- The steps that a worker has left before the next job, at most.
abbrev pub left : Worker → ℕ
left Worker.exited = 0
left Worker.waiting = 1
left Worker.polling = 2
left (Worker.busy job) = 3

abbrev pub sum_left : List Worker → ℕ
sum_left [] = 0
sum_left (w ∷ ws) = left w + sum_left ws

abbrev pub steps_left : Pool → ℕ
steps_left p = 3 * length p.queue + sum_left p.workers

sum_left-append : (xs ys : List Worker) → sum_left (xs ++ ys) ≡ sum_left xs + sum_left ys
sum_left-append [] ys = omega arith
sum_left-append (x ∷ xs) ys = omega (arith, sum_left-append xs ys)

-- One worker is replaced.
sum_left-swap :
    (before after ws : List Worker) (v w : Worker)
    → ws ≡ before ++ v ∷ after
    → sum_left (before ++ w ∷ after) + left v ≡ sum_left ws + left w
sum_left-swap before after ws v w e =
    rw (e, sum_left-append) (rw (sum_left-append before (v ∷ after)) (omega arith))

WorkerStep-steps_left : (p q : Pool) → WorkerStep p q → suc (steps_left q) ≤ steps_left p
WorkerStep-steps_left p _ (WorkerStep.polls_job before after job rest e f) =
    omega
      (arith, sum_left-swap before after p.workers Worker.polling (Worker.busy job) e, ap length f)
WorkerStep-steps_left p _ (WorkerStep.polls_none before after e f) =
    omega (arith, sum_left-swap before after p.workers Worker.polling Worker.waiting e)
WorkerStep-steps_left p _ (WorkerStep.receives before after job rest e f) =
    omega
      (arith, sum_left-swap before after p.workers Worker.waiting (Worker.busy job) e, ap length f)
WorkerStep-steps_left p _ (WorkerStep.stops before after e f) =
    omega (arith, sum_left-swap before after p.workers Worker.waiting Worker.exited e)
WorkerStep-steps_left p _ (WorkerStep.gives_up before after e f) =
    omega (arith, sum_left-swap before after p.workers Worker.waiting Worker.exited e)
WorkerStep-steps_left p _ (WorkerStep.finishes before after job e) =
    omega (arith, sum_left-swap before after p.workers (Worker.busy job) Worker.polling e)

Drain-steps_left : (p q : Pool) (n : ℕ) → Drain p n q → n + steps_left q ≤ steps_left p
Drain-steps_left p _ _ Drain.done = omega arith
Drain-steps_left p r _ (Drain.then {n = n} {q = q} d step) =
    omega (arith, Drain-steps_left p q n d, WorkerStep-steps_left q r step)

WorkerStep-stopped : (p q : Pool) → WorkerStep p q → q.stopped ≡ p.stopped
WorkerStep-stopped p _ (WorkerStep.polls_job before after job rest e f) = refl
WorkerStep-stopped p _ (WorkerStep.polls_none before after e f) = refl
WorkerStep-stopped p _ (WorkerStep.receives before after job rest e f) = refl
WorkerStep-stopped p _ (WorkerStep.stops before after e f) = refl
WorkerStep-stopped p _ (WorkerStep.gives_up before after e f) = refl
WorkerStep-stopped p _ (WorkerStep.finishes before after job e) = refl

Drain-stopped : (p q : Pool) (n : ℕ) → Drain p n q → q.stopped ≡ p.stopped
Drain-stopped p _ _ Drain.done = refl
Drain-stopped p r _ (Drain.then {n = n} {q = q} d step) =
    WorkerStep-stopped q r step ∙ Drain-stopped p q n d

count_active-swap :
    (before after ws : List Worker) (v w : Worker)
    → ws ≡ before ++ v ∷ after
    → count_if is_active (before ++ w ∷ after) + (if is_active v then 1 else 0)
      ≡ count_if is_active ws + (if is_active w then 1 else 0)
count_active-swap before after ws v w e =
    rw (e, count_if-append) (rw (count_if-append is_active before (v ∷ after)) (ground arith))

-- While the channel has jobs, some worker will look at it again.
abbrev pub IsAttended : Pool → Type 0
IsAttended p = (p.queue ≡ []) ⊎ (1 ≤ count_if is_active p.workers)

still-IsAttended :
    (p : Pool) (before after : List Worker) (v w : Worker)
    → p.workers ≡ before ++ v ∷ after
    → is_active v ≡ false
    → IsAttended p
    → IsAttended (record p { workers = before ++ w ∷ after })
still-IsAttended p before after v w e idle (inl empty) = inl empty
still-IsAttended p before after v w e idle (inr h) =
    inr (ground (arith, count_active-swap before after p.workers v w e, idle, h))

now_active :
    (before after ws : List Worker) (v w : Worker)
    → ws ≡ before ++ v ∷ after
    → is_active w ≡ true
    → 1 ≤ count_if is_active (before ++ w ∷ after)
now_active before after ws v w e active = rw count_if-append (ground (arith, active))

WorkerStep-IsAttended : (p q : Pool) → IsAttended p → WorkerStep p q → IsAttended q
WorkerStep-IsAttended p _ h (WorkerStep.polls_job before after job rest e f) =
    inr (now_active before after p.workers Worker.polling (Worker.busy job) e refl)
WorkerStep-IsAttended p _ h (WorkerStep.polls_none before after e f) = inl f
WorkerStep-IsAttended p _ h (WorkerStep.receives before after job rest e f) =
    inr (now_active before after p.workers Worker.waiting (Worker.busy job) e refl)
WorkerStep-IsAttended p _ h (WorkerStep.stops before after e f) =
    still-IsAttended p before after Worker.waiting Worker.exited e refl h
WorkerStep-IsAttended p _ h (WorkerStep.gives_up before after e f) =
    still-IsAttended p before after Worker.waiting Worker.exited e refl h
WorkerStep-IsAttended p _ h (WorkerStep.finishes before after job e) =
    inr (now_active before after p.workers (Worker.busy job) Worker.polling e refl)

Drain-IsAttended : (p q : Pool) (n : ℕ) → IsAttended p → Drain p n q → IsAttended q
Drain-IsAttended p _ _ h Drain.done = h
Drain-IsAttended p r _ h (Drain.then {n = n} {q = q} d step) =
    WorkerStep-IsAttended q r (Drain-IsAttended p q n h d) step

exited-inactive : (ws : List Worker) → All (λ w. w ≡ Worker.exited) ws → count_if is_active ws ≡ 0
exited-inactive [] h = refl
exited-inactive (w ∷ ws) h = rw h.0 (exited-inactive ws h.1)

-- A worker that has not exited, if there is one.
first_live :
    (ws : List Worker)
    → All (λ w. w ≡ Worker.exited) ws
      ⊎ ((before : List Worker) × (v : Worker) × (after : List Worker) × (ws ≡ before ++ v ∷ after)
          × (1 ≤ left v))
first_live [] = inl tt
first_live (Worker.polling ∷ ws) = inr ([], Worker.polling, ws, refl, omega arith)
first_live (Worker.waiting ∷ ws) = inr ([], Worker.waiting, ws, refl, omega arith)
first_live (Worker.busy job ∷ ws) = inr ([], Worker.busy job, ws, refl, omega arith)
first_live (Worker.exited ∷ ws) = elim (first_live ws) [
  | inl h ↦ inl (refl, h)
  | inr (before, v, after, e, l) ↦
      inr (Worker.exited ∷ before, v, after, ap (λ xs. Worker.exited ∷ xs) e, l)
]

List-cases : (xs : List Job) → (xs ≡ []) ⊎ ((x : Job) × (rest : List Job) × (xs ≡ x ∷ rest))
List-cases [] = inl refl
List-cases (x ∷ xs) = inr (x, xs, refl)

-- Every worker that has not exited can take a step once the pool is stopped.
can_step :
    (p : Pool) (before after : List Worker) (v : Worker)
    → p.stopped ≡ true
    → p.workers ≡ before ++ v ∷ after
    → 1 ≤ left v
    → (q : Pool) × WorkerStep p q
can_step p before after Worker.exited stop e l = absurd (omega (arith, l))
can_step p before after Worker.waiting stop e l = (_, WorkerStep.stops before after e stop)
can_step p before after (Worker.busy job) stop e l = (_, WorkerStep.finishes before after job e)
can_step p before after Worker.polling stop e l = elim (List-cases p.queue) [
  | inl f ↦ (_, WorkerStep.polls_none before after e f)
  | inr (job, rest, f) ↦ (_, WorkerStep.polls_job before after job rest e f)
]

-- Let a pool have been told to stop, let no job be sent to it any more, and let its channel be empty
-- or one of its workers be running a job or about to make its first `select`. However the workers
-- are scheduled and whatever their `select`s choose, they take a bounded number of steps: three for each
-- buffered job and at most three for each worker. At any point some worker can take a step, or they
-- have all exited and the channel is empty.
pub Drain-outcome :
    (p q : Pool) (n : ℕ)
    → p.stopped ≡ true
    → (p.queue ≡ []) ⊎ (1 ≤ count_if is_active p.workers)
    → Drain p n q
    → (n ≤ steps_left p)
      × (((r : Pool) × WorkerStep q r) ⊎ (All (λ w. w ≡ Worker.exited) q.workers × (q.queue ≡ [])))
Drain-outcome p q n stop attended d =
    let bound = Drain-steps_left p q n d in
    (
      omega (arith, bound),
      elim (first_live q.workers) [
        | inl all_exited ↦ inr (
          all_exited,
          elim (Drain-IsAttended p q n attended d) [
            | inl empty ↦ empty
            | inr some_active ↦
                absurd (omega (arith, some_active, exited-inactive q.workers all_exited))
          ],
        )
        | inr (before, v, after, e, l) ↦
            inl (can_step q before after v (Drain-stopped p q n d ∙ stop) e l)
      ],
    )
