-- ===== src/Router/CpuPool.antt =====
-- src/router.rs: `cpu_dispatch_loop`, one round of the loop and the end of the task that it spawns.
use helix_router_adaptive_as.Common.{
  ℕ, zero, suc, Bool, List, [], ◌∷◌, Option, none, some, if◌then◌else◌,
}
use helix_router_adaptive_as.Words.{add_u64, sub_u64}
use helix_router_adaptive_as.Floats.{Floats}
use helix_router_adaptive_as.Types.{Job, Strategy, Output}
use helix_router_adaptive_as.Strategies.{execute_job}
use helix_router_adaptive_as.Router.State.{Inner, Call, call}

module _ {fl : Floats} where
  -- `rx.recv()` and `acquire_owned()` as one step: the oldest job, once a permit is free; `none` while
  -- the loop waits for either, where the code may hold one job outside of the channel already.
  unfoldable pub take_work : Inner fl → Option (Job fl × Inner fl)
  take_work s = elim s.cpu_queue [
    | [] ↦ none
    | job ∷ rest ↦ elim s.available_permits [
      | zero ↦ none
      | suc permits ↦ some (
        job,
        record s {
          cpu_queue = rest;
          available_permits = permits;
          cpu_queue_depth = sub_u64 s.cpu_queue_depth 1;
        },
      )
    ]
  ]

  -- The reply of the worker: empty for a cancelled job, and for one that panicked.
  unfoldable pub work_output : Job fl → Bool → Bool → List (Output fl)
  work_output job cancelled panicked =
      if cancelled then [] else if panicked then [] else execute_job fl job

  -- Around the reply: a panic is counted, then the latency, and the permit comes back.
  unfoldable pub finish_work : Inner fl → Bool → ℕ → Inner fl
  finish_work s panicked ms =
      call
        (record s {
          available_permits = suc s.available_permits;
          blocking_panics = if panicked then add_u64 s.blocking_panics 1 else s.blocking_panics;
        })
        (Call.record_latency Strategy.cpu_pool ms)
