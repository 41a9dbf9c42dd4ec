-- ===== src/Lib.antt =====
-- A model of the platform's three cores and of what they promise: the control plane, which keeps
-- deployments, pods, nodes and services and places the pods on the nodes; the reverse proxy, which
-- forwards requests to the nodes that the control plane reports as healthy; and the job orchestrator,
-- which queues jobs, runs them on a pool of workers and retries them.
--
-- The parts and their files:
-- - control-plane/internal/model is ControlPlane/Model: a record for each struct, a data type for
--   each status, and the tables of allowed transitions (`TransitionPod` is `can_transition_pod`).
-- - control-plane/internal/state (store.go, labels.go, memory_store.go) is ControlPlane/State: the
--   store is a record of four maps and each method a function of the same name in snake case, from a
--   store to a result. State/Invariant holds the steps of the store and their interleavings.
-- - control-plane/internal/state/bolt_store.go, the durable store, is State/Bolt: the same names over
--   four buckets, in the modules Deployments, Pods, Nodes and Services. The record `Database` holds
--   what it uses of bbolt and encoding/json, and `IsDatabase` what those document. Bolt/Calls makes the
--   same call on either store.
-- - control-plane/internal/scheduler is ControlPlane/Scheduler: `SelectNode` is `select_node`, the pass
--   is `tick`. The pass works on copies of the nodes that it keeps apart from the store, as in the code.
-- - control-plane/internal/reconciler is ControlPlane/Reconciler: `tick` is the whole pass,
--   `reconcile_deployments` and, in Reconciler/Loss, `detect_unhealthy_nodes` its halves; backoff.go is
--   Reconciler/Delay.
-- - control-plane/internal/api is ControlPlane/Api: a handler is a function from the store and the
--   decoded request to the store and the response. Where its Go name is that of a store method, the
--   name here ends in `_handler`.
-- - control-plane/internal/worker, the agent on a node, is ControlPlane/Agent: `runPod` is `run_pod`, and
--   its reports go to the handler of the control plane.
-- - reverse-proxy-load-balancer/internal/backend is Proxy (backend.go, pool.go) and Proxy/Provider
--   (config_provider.go); internal/balancer is Proxy/Balancer, internal/health is Proxy/Checker, and
--   internal/proxy/handler.go is Proxy/Forward; internal/config/config.go is Proxy/Config.
-- - ml-job-orchestrator/internal is Jobs: model/job.go is Jobs/Model, store/store.go Jobs/Store (the
--   names of the methods in snake case), executor/executor.go and retry/retry.go Jobs/Executor (`Run` is
--   `run`, and `conclude` from the end of the command on), scheduler/scheduler.go Jobs/Dispatch
--   (`schedule_ready`), api/handlers.go Jobs/Api. Jobs/System puts them together: its steps are
--   the single store calls of handlers, scheduler and workers, in any order. worker/pool.go is Jobs/Pool: the loop
--   of the workers with its two selects, each case of a select a step.
-- - Base holds what they share: numbers, lists, Go's maps, sort.Slice.
--
-- How they interact: the API and the reconciler create and move pods, the scheduler dispatches them,
-- workers report through the API; all of them only through the operations of the store, which are
-- atomic. The proxy reads the backends that `resolve_service_backends` gives.
--
-- What is chosen:
-- - A map is an association list; the order of an iteration over it is that of the list, and the
--   theorems hold for every list, so for every order that Go may take.
-- - sort.Slice is a stable insertion sort; no theorem depends on the order among equal elements.
-- - int is an unbounded integer, except in the two backoffs, where time.Duration is the bit pattern of an
--   int64, and in the balancers, whose uint64 counters wrap. A count of attempts or retries
--   is a natural number.
-- - CPU quantities, which are float64 in the code, are whole multiples of 2^-1074, as every finite
--   float64 is. A sum of them is rounded to the nearest float64, ties to even, in Base/Float; infinities
--   and NaN are left out.
-- - A time is a number of nanoseconds, 0 being the zero time. A pass reads the clock once.
-- - Random identifiers are a list of draws, where a draw may fail. url.Parse, strings.Cut, the JSON
--   decoder, and what a backend or a probe answers are arguments.
-- - A deep copy is the value itself, since values are immutable. The proxy's backends, which are shared
--   by pointer, are on a heap.
-- - The operations of the memory store that list or read never fail, so the branches of the callers on
--   their errors are left out where the code could not take them with this store.
-- - Loops are recursive over the list that they range over; the retry loop of the proxy and the loops
--   over fresh identifiers over the number of rounds left. No function needs other fuel.
-- - A bbolt transaction that fails is rolled back. One that does not fail is committed: an error of the
--   disk is outside the model. `IsDatabase` holds for the keys that bbolt takes, and supposes values
--   within its limit of size, that are read back from JSON as they were written.
-- - In Jobs/System each call of a method of the store is a step of its own, also within one handler or
--   one run, and so is each operation on the channel. How a command ends, and what it writes, is an
--   argument.
-- - The proxy serves many requests at once. What the other requests and the health checker do to the
--   backends and to the counter of the balancer before each round of a request's retry loop is an
--   argument of `serve_http`, any two functions. newOutboundRequest does not fail.
-- - The timeout after which a node counts as lost is a natural number of nanoseconds.
--
-- Not modelled: logging, metrics, HTTP and process plumbing, tickers, the registration and the shutdown
-- of the agent on a node, and the command-line tools.
pub mod Base
pub mod ControlPlane
pub mod Proxy
pub mod Jobs
