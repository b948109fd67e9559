-- ===== src/Router/Submit.antt =====
-- src/router.rs: `Router::submit`, cut at its `await` points. `start` runs from the call to the
-- first suspension, and `resume` from the reply to the end.
pub mod Laws
pub mod Log
use helix_router_adaptive_as.Common.{
  ℕ, ◌-◌, ◌+◌, max, Bool, true, false, ◌&&◌, List, [], ◌∷◌, ◌++◌, Option, none, some, leb, ltb, eqb,
  if◌then◌else◌, length,
}
use helix_router_adaptive_as.Words.{add_u64}
use helix_router_adaptive_as.Floats.{Floats}
use helix_router_adaptive_as.Types.{Job, JobKind, Strategy, Output, kind_to_string}
use helix_router_adaptive_as.Config.{RouterConfig, SlaConfig, sla_get}
use helix_router_adaptive_as.Strategies.{execute_job}
use helix_router_adaptive_as.Router.Choose.{choose_strategy, decide, NeuralAnswer, Source}
use helix_router_adaptive_as.Router.State.{
  Inner, RoutingDecision, BatchEntry, Call, at_kind, put_kind, bump_kind, call, route, route_kind,
  complete, count_drop, log_decision,
}
use helix_router_adaptive_as.Router.Batch.{flush_batch_kind}

-- What the clock, the metrics, the caches, the neural router and the channels answer in one call.
pub record Env (fl : Floats) : Type 0 where
  pub now_ms : ℕ
  pub cached : List (Output fl)
  pub cached_pressure : fl.F64
  pub live_pressure : fl.F64
  pub neural : NeuralAnswer
  pub elapsed_ms : ℕ
  pub send_accepted : Bool
  pub batch_age : ℕ → ℕ

-- A call that waits for a task, a worker or a batch.
pub record Waiting (fl : Floats) : Type 0 where
  pub job : Job fl
  pub pressure : fl.F64
  pub queue_frac : fl.F64
  pub strategy : Strategy
  pub seq : ℕ

pub data Progress (fl : Floats) : Type 0 where
  done : Option (List (Output fl)) → Progress fl
  waits : Waiting fl → Progress fl

abbrev pub exceeds : ℕ → Option SlaConfig → Bool
exceeds ms none = false
exceeds ms (some c) = ltb c.max_latency_ms ms

-- `ms as f64 / budget_ms.max(1) as f64`
abbrev pub latency_frac : (fl : Floats) → ℕ → ℕ → fl.F64
latency_frac fl ms budget = fl.div64 (fl.of_ℕ ms) (fl.of_ℕ (max budget 1))

module _ {fl : Floats} where
  unfoldable pub check_sla_violation : Inner fl → JobKind → ℕ → Inner fl
  check_sla_violation s kind ms =
      if exceeds ms (sla_get s.cfg.sla (kind_to_string kind))
      then record s { sla_violations = bump_kind s.sla_violations kind 1 }
      else s

  unfoldable pub expired : Inner fl → Job fl → Inner fl
  expired s job =
      call
        (route (count_drop (record s { deadline_exceeded = add_u64 s.deadline_exceeded 1 }))
          Strategy.drop)
        (Call.send_decision (record {
          job_id = job.id;
          strategy = Strategy.drop;
          compute_cost = job.compute_cost;
          cpu_busy = 0;
          pressure = fl.lit64 0;
          decision_source = Source.deadline;
        }))

  -- A job of cost 0 runs inline, whatever the load.
  unfoldable pub run_free : Env fl → Inner fl → Job fl → Inner fl
  run_free env s job =
      complete (call (route s Strategy.inline) (Call.record_latency Strategy.inline env.elapsed_ms))

  unfoldable pub run_inline : Env fl → Inner fl → Waiting fl → Inner fl × Progress fl
  run_inline env s w =
      let out = execute_job fl w.job in
      let ms = env.elapsed_ms in
      let s1 =
        call (route_kind (route s Strategy.inline) w.job.kind)
          (Call.record_latency Strategy.inline ms) in
      let s2 = complete (
        call s1
          (Call.record_pressure w.queue_frac false (latency_frac fl ms w.job.latency_budget_ms))) in
      let s3 = call s2 (Call.record_outcome w.job w.pressure w.strategy ms false) in
      let s4 = call (check_sla_violation s3 w.job.kind ms) (Call.observe_timeout w.job.kind ms) in
      (call s4 (Call.cache_insert w.job out), Progress.done (some out))

  -- A job that is lost: the pressure tracker and the neural router hear of it.
  unfoldable pub lose : Inner fl → Waiting fl → Inner fl
  lose s w =
      call (call (count_drop s) (Call.record_pressure w.queue_frac true (fl.lit64 100)))
        (Call.record_outcome w.job w.pressure w.strategy 0 true)

  unfoldable pub enqueue_cpu : Env fl → Inner fl → Waiting fl → Inner fl × Progress fl
  enqueue_cpu env s w =
      let s1 = route_kind (route s Strategy.cpu_pool) w.job.kind in
      if env.send_accepted
      then (
        record s1 {
          cpu_queue = s1.cpu_queue ++ (w.job ∷ []);
          cpu_queue_depth = add_u64 s1.cpu_queue_depth 1;
        },
        Progress.waits w,
      )
      else (lose s1 w, Progress.done none)

  -- Count the route, and append the numbered job to the buffer of its kind.
  unfoldable pub push_entry : Inner fl → Waiting fl → Inner fl
  push_entry s w =
      let kind = w.job.kind in
      let counted = route_kind (route s Strategy.batch) kind in
      let q = at_kind s.batches kind ++ (record { job = w.job; seq = s.batch_seq } ∷ []) in
      record counted {
        batches = put_kind s.batches kind q;
        batch_seq = add_u64 s.batch_seq 1;
        batch_enqueued = bump_kind s.batch_enqueued kind 1;
      }

  -- A full buffer is flushed at once; the background flusher sees to the others.
  unfoldable pub flush_if_full : Env fl → Inner fl → JobKind → Inner fl
  flush_if_full env s kind =
      if leb s.cfg_arc.batch_max_size (length (at_kind s.batches kind))
      then flush_batch_kind env.batch_age kind s
      else s

  unfoldable pub enqueue_batch : Env fl → Inner fl → Waiting fl → Inner fl × Progress fl
  enqueue_batch env s w = (
    flush_if_full env (push_entry s w) w.job.kind,
    Progress.waits (record w { seq = s.batch_seq }),
  )

  unfoldable pub dispatch : Env fl → Inner fl → Waiting fl → Strategy → Inner fl × Progress fl
  dispatch env s w Strategy.drop = (lose (route s Strategy.drop) w, Progress.done none)
  dispatch env s w Strategy.inline = run_inline env s w
  dispatch env s w Strategy.spawn =
      (route_kind (route s Strategy.spawn) w.job.kind, Progress.waits w)
  dispatch env s w Strategy.cpu_pool = enqueue_cpu env s w
  dispatch env s w Strategy.batch = enqueue_batch env s w

  -- The pressure of the 100 ms cache, or the live one while the cache is empty.
  abbrev pub pressure_of : Env fl → fl.F64
  pressure_of env =
      if fl.lt64 (fl.lit64 0) env.cached_pressure then env.cached_pressure else env.live_pressure

  abbrev pub busy : Inner fl → ℕ
  busy s = s.cfg_arc.cpu_parallelism - s.available_permits

  -- The configuration as `submit` reads it: the snapshot, under the adaptive spawn threshold.
  abbrev pub effective_cfg : Inner fl → RouterConfig fl
  effective_cfg s = record s.cfg_arc { spawn_threshold = s.adaptive_spawn_threshold }

  unfoldable pub verdict : Env fl → Inner fl → Job fl → Strategy × Source × Bool
  verdict env s job = decide (choose_strategy fl (effective_cfg s) job (busy s)) env.neural

  abbrev pub decision_of : Env fl → Inner fl → Job fl → RoutingDecision fl
  decision_of env s job = record {
    job_id = job.id;
    strategy = (verdict env s job).0;
    compute_cost = job.compute_cost;
    cpu_busy = busy s;
    pressure = pressure_of env;
    decision_source = (verdict env s job).1;
  }

  abbrev pub waiting_of : Env fl → Inner fl → Job fl → Waiting fl
  waiting_of env s job = record {
    job = job;
    pressure = pressure_of env;
    queue_frac =
        fl.sub64 (fl.lit64 100)
          (fl.div64 (fl.of_ℕ s.available_permits) (fl.of_ℕ s.cfg_arc.cpu_parallelism));
    strategy = (verdict env s job).0;
    seq = 0;
  }

  -- From the heuristic to the logged decision, and on to its execution.
  unfoldable pub routed_start : Env fl → Inner fl → Job fl → Inner fl × Progress fl
  routed_start env s job =
      dispatch env (log_decision s (decision_of env s job)) (waiting_of env s job)
        (verdict env s job).0

  abbrev pub counted : Inner fl → Inner fl
  counted s = record s { submit_counter = add_u64 s.submit_counter 1 }

  abbrev pub looked_up : Inner fl → Job fl → Inner fl
  looked_up s job = call (counted s) (Call.cache_get job)

  unfoldable pub start : Env fl → Inner fl → Job fl → Inner fl × Progress fl
  start env s job =
      if ltb 0 job.deadline_ms && leb job.deadline_ms env.now_ms
      then (expired (counted s) job, Progress.done none)
      else if eqb job.compute_cost 0
      then (run_free env (counted s) job, Progress.done (some (execute_job fl job)))
      else elim env.cached [
        | [] ↦ routed_start env (looked_up s job) job
        | o ∷ os ↦ (complete (looked_up s job), Progress.done (some (o ∷ os)))
      ]

  -- What a panicked spawn records beside the lost job: its pressure, which the other two do not.
  unfoldable pub fail : Inner fl → Waiting fl → Inner fl
  fail s w = elim w.strategy [
    | Strategy.spawn ↦ lose s w
    | _ ↦ call (count_drop s) (Call.record_outcome w.job w.pressure w.strategy 0 true)
  ]

  unfoldable pub succeed : Inner fl → Waiting fl → ℕ → Inner fl
  succeed s w ms = elim w.strategy [
    | Strategy.spawn ↦
        (let s1 = call (call s (Call.record_latency Strategy.spawn ms)) (
            Call.record_pressure w.queue_frac false (latency_frac fl ms w.job.latency_budget_ms)) in
          check_sla_violation
            (call (complete s1) (Call.record_outcome w.job w.pressure w.strategy ms false))
            w.job.kind ms)
    | _ ↦
        check_sla_violation
          (call (complete s) (Call.record_outcome w.job w.pressure w.strategy ms false)) w.job.kind
          ms
  ]

  -- The reply, or `none` where the sender was dropped or the task panicked.
  unfoldable pub resume :
      Inner fl → Waiting fl → Option (List (Output fl)) → ℕ → Inner fl × Option (List (Output fl))
  resume s w none ms = (fail s w, none)
  resume s w (some out) ms = (succeed s w ms, some out)
