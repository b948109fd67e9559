-- ===== src/Router/Run.antt =====
-- src/router.rs: `Router::run`, which routes a closure of the caller, cut at its `await` points.
pub mod Laws
use helix_router_adaptive_as.Common.{
  ℕ, zero, suc, ◌-◌, ◌+◌, max, Bool, true, false, ◌&&◌, List, [], Option, none, some, leb, ltb,
  if◌then◌else◌,
}
use helix_router_adaptive_as.Words.{add_u64}
use helix_router_adaptive_as.Floats.{Floats}
use helix_router_adaptive_as.Types.{Job, JobKind, Strategy}
use helix_router_adaptive_as.Config.{RouterConfig, Result, ok, err}
use helix_router_adaptive_as.Router.Choose.{choose_strategy, Source}
use helix_router_adaptive_as.Router.State.{
  Inner, RoutingDecision, Call, call, route, complete, count_drop, log_decision,
}
use helix_router_adaptive_as.Router.Submit.{busy, effective_cfg, latency_frac}

pub record WorkHint (fl : Floats) : Type 0 where
  pub id : ℕ
  pub compute_cost : ℕ
  pub scaling_potential : fl.F32
  pub latency_budget_ms : ℕ
  pub deadline_ms : ℕ

pub data Rejected : Type 0 where
  overloaded deadline_exceeded panicked : Rejected

-- A call whose work is on a task of its own, or waits for a permit of the pool.
pub record Running (fl : Floats) : Type 0 where
  pub hint : WorkHint fl
  pub strategy : Strategy
  pub queue_frac : fl.F64

-- `unwinds`: the work ran on the calling task and its panic leaves `run`.
pub data RunStep (fl : Floats) (T : Type 0) : Type 0 where
  finished : Result Rejected T → RunStep fl T
  unwinds : RunStep fl T
  needs_permit : Running fl → RunStep fl T
  spawned : Running fl → RunStep fl T

module _ {fl : Floats} where
  -- The job that stands for the hint; only its cost and its scaling are read.
  abbrev pub probe : WorkHint fl → Job fl
  probe hint = record {
    id = 0;
    kind = JobKind.hash_mix;
    inputs = [];
    compute_cost = hint.compute_cost;
    scaling_potential = hint.scaling_potential;
    latency_budget_ms = 0;
    deadline_ms = 0;
  }

  unfoldable pub run_strategy : Inner fl → WorkHint fl → Strategy
  run_strategy s hint = choose_strategy fl (effective_cfg s) (probe hint) (busy s)

  abbrev pub run_queue_frac : Inner fl → fl.F64
  run_queue_frac s =
      fl.sub64 (fl.lit64 100)
        (fl.div64 (fl.of_ℕ s.available_permits) (fl.of_ℕ (max s.cfg_arc.cpu_parallelism 1)))

  abbrev pub run_decision : Inner fl → WorkHint fl → RoutingDecision fl
  run_decision s hint = record {
    job_id = hint.id;
    strategy = run_strategy s hint;
    compute_cost = hint.compute_cost;
    cpu_busy = busy s;
    pressure = run_queue_frac s;
    decision_source = Source.run;
  }

  abbrev pub running_of : Inner fl → WorkHint fl → Running fl
  running_of s hint = record {
    hint = hint;
    strategy = run_strategy s hint;
    queue_frac = run_queue_frac s;
  }

  -- The permit of pooled work comes back when the work ends, by a panic too.
  unfoldable pub release_permit : Inner fl → Strategy → Inner fl
  release_permit s Strategy.cpu_pool = record s { available_permits = suc s.available_permits }
  release_permit s Strategy.batch = record s { available_permits = suc s.available_permits }
  release_permit s _ = s

  -- `Ok(_)`: completed, with its latency and pressure. `Err(_)`: dropped.
  unfoldable pub settle :
      {T : Type 0} → Inner fl → Running fl → Option T → ℕ → Inner fl × Result Rejected T
  settle s r none ms = (count_drop s, err Rejected.panicked)
  settle s r (some a) ms = (
    call (call (complete s) (Call.record_latency r.strategy ms))
        (Call.record_pressure r.queue_frac false (latency_frac fl ms r.hint.latency_budget_ms)),
    ok a,
  )

  unfoldable pub run_finish :
      {T : Type 0} → Inner fl → Running fl → Option T → ℕ → Inner fl × Result Rejected T
  run_finish s r work ms = settle (release_permit s r.strategy) r work ms

  -- `acquire_owned` of the pool's semaphore: an error once it is closed, else a permit, or `none`
  -- while there is no free one.
  unfoldable pub run_acquire :
      {T : Type 0} → Inner fl → Running fl → Bool → Option (Inner fl × RunStep fl T)
  run_acquire s r true = some (count_drop s, RunStep.finished (err Rejected.overloaded))
  run_acquire s r false = elim s.available_permits [
    | zero ↦ none
    | suc permits ↦ some (record s { available_permits = permits }, RunStep.spawned r)
  ]

  run_inline : {T : Type 0} → Inner fl → Running fl → Option T → ℕ → Inner fl × RunStep fl T
  run_inline s r none ms = (s, RunStep.unwinds)
  run_inline s r (some a) ms =
      let (t, result) = settle s r (some a) ms in (t, RunStep.finished result)

  unfoldable pub run_dispatch :
      {T : Type 0} → Inner fl → Running fl → Strategy → Option T → ℕ → Inner fl × RunStep fl T
  unfolding run_inline
  run_dispatch s r Strategy.drop work ms = (
    call (count_drop s) (Call.record_pressure r.queue_frac true (fl.lit64 100)),
    RunStep.finished (err Rejected.overloaded),
  )
  run_dispatch s r Strategy.inline work ms = run_inline s r work ms
  run_dispatch s r Strategy.spawn work ms = (s, RunStep.spawned r)
  run_dispatch s r Strategy.cpu_pool work ms = (s, RunStep.needs_permit r)
  run_dispatch s r Strategy.batch work ms = (s, RunStep.needs_permit r)

  -- `work` is what the closure would return on the calling task, `none` for a panic.
  unfoldable pub run_start :
      {T : Type 0} → ℕ → Option T → ℕ → Inner fl → WorkHint fl → Inner fl × RunStep fl T
  run_start now_ms work ms s hint =
      if ltb 0 hint.deadline_ms && leb hint.deadline_ms now_ms
      then (
        route (count_drop (record s { deadline_exceeded = add_u64 s.deadline_exceeded 1 }))
            Strategy.drop,
        RunStep.finished (err Rejected.deadline_exceeded),
      )
      else run_dispatch (route (log_decision s (run_decision s hint)) (run_strategy s hint))
          (running_of s hint) (run_strategy s hint) work ms

-- What a whole call sees: the time, the outcome of the work, how long it took, and whether the
-- semaphore is closed.
pub record RunEnv (T : Type 0) : Type 0 where
  pub now_ms : ℕ
  pub work : Option T
  pub elapsed_ms : ℕ
  pub closed : Bool

pub data RunEnd (T : Type 0) : Type 0 where
  returned : Result Rejected T → RunEnd T
  unwound : RunEnd T
  blocked : RunEnd T

module _ {fl : Floats} {T : Type 0} where
  run_rest : RunEnv T → Inner fl × RunStep fl T → Inner fl × RunEnd T
  run_rest env (t, RunStep.finished result) = (t, RunEnd.returned result)
  run_rest env (t, RunStep.unwinds) = (t, RunEnd.unwound)
  run_rest env (t, RunStep.spawned r) =
      let (u, result) = run_finish t r env.work env.elapsed_ms in (u, RunEnd.returned result)
  run_rest env (t, RunStep.needs_permit r) = (t, RunEnd.blocked)

  run_pooled : RunEnv T → Inner fl × RunStep fl T → Inner fl × RunEnd T
  unfolding run_rest
  run_pooled env (t, RunStep.needs_permit r) = elim (run_acquire {T = T} t r env.closed) [
    | none ↦ (t, RunEnd.blocked)
    | some next ↦ run_rest env next
  ]
  run_pooled env next = run_rest env next

  -- The steps one after the other, with nothing between them.
  unfoldable pub run : RunEnv T → Inner fl → WorkHint fl → Inner fl × RunEnd T
  unfolding run_pooled
  run env s hint = run_pooled env (run_start env.now_ms env.work env.elapsed_ms s hint)
