-- ===== src/Lib.antt =====
-- HelixRouter: an adaptive async compute router.
--
-- The router decides for each job whether it runs on the calling task, on a task of its own, on a
-- bounded pool of CPU workers, in a batch, or not at all. `Router::submit` counts the call, checks
-- the deadline and the result cache, takes the heuristic's choice (`choose_strategy`), lets a warm
-- neural router override it, logs the decision, and runs, enqueues or drops the job.
-- `cpu_dispatch_loop` serves the pool's queue, `flush_batch_kind` the batch buffers,
-- `maybe_adapt_threshold` moves the spawn threshold with the latency of the pool, and
-- `patch_config`, `set_config` and `autoscale_tick` change the live configuration. Beside the
-- router the crate has independent components, of which the registry of circuit breakers, the
-- compression engine, the connection pool, the fair queuing scheduler, the SLA queue, the bulkhead,
-- the retries, the deadline scheduler, a rate limiter, the result cache, the deduplication,
-- the graph of jobs and the graph of services are modelled.
--
-- The files, and the sources that they model:
--   Common, Common/*      shared names: numbers, lists, association lists for hash maps
--   Words                 `u64` and `u32` arithmetic with its wrap-around
--   Floats                `f32` and `f64`, which the code uses and does not define: a record of the
--                         operations it applies, an argument of what uses it
--   Types                 src/types.rs: `JobKind`, `Strategy`, `Job`, `Output`
--   Config, Config/*      src/config.rs: `RouterConfig`, its patch, `validate`
--   Strategies, /*        src/strategies.rs: the kernels of `execute_job`
--   Router/State          src/router.rs: `Inner`, its counters and its log of decisions
--   Router/Choose         `choose_strategy`, and the neural override of `submit`
--   Router/Submit         `submit`: `start` runs to the first `await` on a task, a worker or a batch,
--                         `resume` from its reply to the end
--   Router/Run            `run`, the same for a closure of the caller
--   Router/Batch          `flush_batch_kind`
--   Router/CpuPool        one round of `cpu_dispatch_loop`
--   Router/Settings       `set_config`, `patch_config`, `update_config_field`, and what
--                         `autoscale_tick` does with a recommendation
--   Router/Adapt          `maybe_adapt_threshold`
--   Router/World          the router and its waiting calls as a step relation: each step is one of
--                         the operations above, in any order
--   CircuitBreaker, /*    src/circuit_breaker_registry.rs
--   Compression, /*       src/compression.rs
--   ConnectionPool, /*    src/connection_pool.rs
--   SlaQueue, /Laws       src/sla_queue.rs; the standard binary heap is a parameter, with the
--                         documented behaviour of its `pop` as the hypotheses `HeapLaws`
--   Wfq, Wfq/*            src/wfq.rs
--   Bulkhead, Bulkhead/*  src/bulkhead.rs: `Bulkhead` as a step relation, one step for each access of
--                         a shared counter by one of its callers, and `BulkheadRegistry`;
--                         Bulkhead/Service has `ServiceBulkheadManager`
--   Retry, Retry/Laws     src/retry.rs; the executor is a function of the number of the call
--   Deadline, /Laws       src/deadline.rs; its heap is a parameter under `Common.Heaps.PopLaws`
--   RateLimiter, /*       src/rate_limiter_v2.rs
--   ResultCache, /*       src/result_cache.rs
--   Dedup, Dedup/*        src/dedup.rs; the derived text of a job is a parameter
--   Kahn, Kahn/*          the loop of Kahn's algorithm, which the two graphs share
--   Dag, Dag/*            src/dag.rs: `JobDag` and its search for cycles; Dag/Execute has
--                         `DagExecutor::execute`, where the outcome of a task is a parameter
--   DependencyGraph, /*   src/dependency_graph.rs: Search has the loops of `propagate_failures` and
--                         `impact_radius`, Failures these two, Recovery has `recovery_order`
--   Tests, Tests/*        concrete data, and the theorems at concrete inputs
--
-- How state is modelled: the fields of a struct are those of a record, an operation takes the old
-- record and returns the new one, and a lock or an atomic is a field. What a call asks of the clock,
-- the metrics, the caches, the neural router and the channels is the record `Env` of its answers;
-- what it tells the components outside the model is the list `calls` of the state. A hash map is an
-- association list; where the code walks one in its unspecified order, that order is the order of the
-- list or a parameter.
--
-- Loops that do not recurse on a list run on fuel: the codecs take the length of the input, of which
-- every round consumes at least a byte, and the round trips show that it is enough; the sieve takes
-- `n`, which bounds the square root that its loop climbs to; `run` of the retries takes the number of
-- calls that the policy allows; a drain of the deadline heap takes the heap's length; a number is
-- printed with 20 digits, which hold 64 bits; and `next_job` takes a number of rounds, for which the
-- credit that the first job of a class lacks is enough. A search of the services takes the number of
-- edges and of services it starts from, since it visits each source of an edge once; the loop of
-- Kahn's algorithm takes one round for each key, the waves of `execute` one for each node, and the
-- recursion of the search for cycles as many.
--
-- Not modelled: the web interface, `main`, logging and metrics, the neural router's learning,
-- `Router::new` and its background timers, the router's own use of the result cache's contents, the
-- locks of shared maps, `critical_path` of the services and the payload
-- that shows a graph of jobs, the entropy estimate and the compression ratio of the engine, and the crate's
-- other stand-alone components.
pub mod Common
pub mod Words
pub mod Floats
pub mod Types
pub mod Config
pub mod Strategies
pub mod Router
pub mod CircuitBreaker
pub mod Compression
pub mod ConnectionPool
pub mod Bulkhead
pub mod Deadline
pub mod Dedup
pub mod RateLimiter
pub mod ResultCache
pub mod Retry
pub mod SlaQueue
pub mod Wfq
pub mod Kahn
pub mod Dag
pub mod DependencyGraph
pub mod Tests
