-- ===== src/Jobs/System/Safety.antt =====
-- What holds in every state that the system can reach.
use backend_infra_platform.Base.{ℕ, refl, ◌∷◌, ◌++◌}
use backend_infra_platform.Base.SyncMap.{load}
use backend_infra_platform.Jobs.System.{System, new_system, Step, Reach}
use backend_infra_platform.Jobs.System.Places.{IsPlaced}
use backend_infra_platform.Jobs.System.Waits.{
  submits-IsPlaced, queues-IsPlaced, sends-IsPlaced, puts_back-IsPlaced, drops-IsPlaced,
  takes-IsPlaced, starts-IsPlaced, skips-IsPlaced, reads_cancel-IsPlaced, cancels-IsPlaced,
}
use backend_infra_platform.Jobs.System.Works.{
  outputs-IsPlaced, finishes-IsPlaced, fails-IsPlaced, gives_up-IsPlaced,
}
use backend_infra_platform.Jobs.System.Decisions.{
  looks-IsPlaced, vanishes-IsPlaced, retries-IsPlaced, exhausts-IsPlaced,
}

Step-IsPlaced : (capacity : ℕ) (s t : System) → IsPlaced s → Step capacity s t → IsPlaced t
Step-IsPlaced capacity s _ p (Step.submits job t state e) = submits-IsPlaced s p job t state e
Step-IsPlaced capacity s _ p (Step.queues now job t free e) = queues-IsPlaced s p now job t free e
Step-IsPlaced capacity s _ p (Step.sends job e room) = sends-IsPlaced s p job e
Step-IsPlaced capacity s _ p (Step.puts_back now job t held e) =
    puts_back-IsPlaced s p now job t held e
Step-IsPlaced capacity s _ p (Step.drops now job err held e) = drops-IsPlaced s p now job err held e
Step-IsPlaced capacity s _ p (Step.takes job rest e) = takes-IsPlaced s p job rest e
Step-IsPlaced capacity s _ p (Step.starts now job before after t split e) =
    starts-IsPlaced s p now job before after t split e
Step-IsPlaced capacity s _ p (Step.skips now job before after err split e) =
    skips-IsPlaced s p now job before after err split e
Step-IsPlaced capacity s _ p (Step.outputs job before after output split) =
    outputs-IsPlaced s p job before after output split
Step-IsPlaced capacity s _ p (Step.finishes now job before after to msg split last) =
    finishes-IsPlaced s p now job before after to msg split last
Step-IsPlaced capacity s _ p (Step.fails now job before after msg t split e) =
    fails-IsPlaced s p now job before after msg t split e
Step-IsPlaced capacity s _ p (Step.gives_up now job before after msg err split e) =
    gives_up-IsPlaced s p now job before after msg err split e
Step-IsPlaced capacity s _ p (Step.looks job v before after split e) =
    looks-IsPlaced s p job v before after split e
Step-IsPlaced capacity s _ p (Step.vanishes job before after err split e) =
    vanishes-IsPlaced s p job before after err split e
Step-IsPlaced capacity s _ p (Step.retries overflowed now v before after split e) =
    retries-IsPlaced s p overflowed now v before after split
Step-IsPlaced capacity s _ p (Step.exhausts now v before after split e) =
    exhausts-IsPlaced s p now v before after split
Step-IsPlaced capacity s _ p (Step.reads_cancel id job e waits) =
    reads_cancel-IsPlaced s p (id ∷ s.cancelling)
Step-IsPlaced capacity s _ p (Step.cancels now id before after t split e) =
    cancels-IsPlaced s p now id (before ++ after) t e
Step-IsPlaced capacity s _ p (Step.cancel_refused now id before after err split e) =
    reads_cancel-IsPlaced s p (before ++ after)

new_system-IsPlaced : IsPlaced new_system
unfolding new_system load
new_system-IsPlaced k = (refl, refl, refl)

-- Whatever the order in which handlers, scheduler and workers take their steps: a QUEUED job is on
-- its way to a worker exactly once, in the channel or at either end of it, so it is neither lost nor
-- doubled, and nobody runs it; a RUNNING job is run by exactly one worker, which may be about to record
-- how it ended, and is not on its way; exactly one worker is about to retry or to exhaust a FAILED job,
-- which is not on its way nor run; a CANCELLED job may still be on its way once or be run by one worker,
-- not both, and no worker is about to retry it; a job in any other state, and an identifier without a
-- job, is nowhere. Each job stands under its own identifier.
pub Reach-IsPlaced : (capacity : ℕ) (s : System) → Reach capacity s → IsPlaced s
Reach-IsPlaced capacity _ Reach.start = new_system-IsPlaced
Reach-IsPlaced capacity t (Reach.next {s = s} r step) =
    Step-IsPlaced capacity s t (Reach-IsPlaced capacity s r) step
