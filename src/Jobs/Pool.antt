-- ===== src/Jobs/Pool.antt =====
-- ml-job-orchestrator/internal/worker/pool.go: the loop of the workers and their shutdown. Nobody
-- closes the channel of the jobs, so the branches for a closed channel are left out. What a job does
-- to the store is in Executor; `Shutdown` waits until every worker has exited.
pub mod Drain
pub mod Strand
use backend_infra_platform.Base.{Bool, true, false, List, [], ◌∷◌, ◌++◌, ◌≡◌}
use backend_infra_platform.Jobs.Model.{Job}

-- `polling` is in front of the first `select`, `waiting` at the second, `busy` in `runner.Run`.
pub data Worker : Type 0 where
  polling waiting exited : Worker
  busy : Job → Worker

-- `stopped` once `stopCh` is closed, `cancelled` once the parent context is.
pub record Pool : Type 0 where
  pub queue : List Job
  pub stopped : Bool
  pub cancelled : Bool
  pub workers : List Worker

-- One step of one worker. A `select` whose cases are ready takes any of them; the first one takes its
-- `default` only if the channel is empty.
pub data WorkerStep (p : Pool) : Pool → Type 0 where
  polls_job :
      (before after : List Worker) (job : Job) (rest : List Job)
      → p.workers ≡ before ++ Worker.polling ∷ after
      → p.queue ≡ job ∷ rest
      → WorkerStep p (record p { queue = rest; workers = before ++ Worker.busy job ∷ after })
  polls_none :
      (before after : List Worker)
      → p.workers ≡ before ++ Worker.polling ∷ after
      → p.queue ≡ []
      → WorkerStep p (record p { workers = before ++ Worker.waiting ∷ after })
  receives :
      (before after : List Worker) (job : Job) (rest : List Job)
      → p.workers ≡ before ++ Worker.waiting ∷ after
      → p.queue ≡ job ∷ rest
      → WorkerStep p (record p { queue = rest; workers = before ++ Worker.busy job ∷ after })
  stops :
      (before after : List Worker)
      → p.workers ≡ before ++ Worker.waiting ∷ after
      → p.stopped ≡ true
      → WorkerStep p (record p { workers = before ++ Worker.exited ∷ after })
  gives_up :
      (before after : List Worker)
      → p.workers ≡ before ++ Worker.waiting ∷ after
      → p.cancelled ≡ true
      → WorkerStep p (record p { workers = before ++ Worker.exited ∷ after })
  finishes :
      (before after : List Worker) (job : Job)
      → p.workers ≡ before ++ Worker.busy job ∷ after
      → WorkerStep p (record p { workers = before ++ Worker.polling ∷ after })
