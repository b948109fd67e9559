-- ===== src/Router/Submit/Laws.antt =====
-- `submit` settles every job once: a call that ends counts it completed or dropped, as its result
-- says, and a call that waits counts nothing yet.
use helix_router_adaptive_as.Common.{
  ℕ, ◌+◌, ◌%◌, ◌≡◌, List, Option, none, some, arith, length, leb, if_cases,
}
use helix_router_adaptive_as.Words.{u64_mod}
use helix_router_adaptive_as.Floats.{Floats}
use helix_router_adaptive_as.Types.{Job, JobKind, Strategy, Output}
use helix_router_adaptive_as.Router.State.{Inner, at_kind, log_decision}
use helix_router_adaptive_as.Router.Batch.Laws.{flush_cases, flushed}
use helix_router_adaptive_as.Router.Submit.{
  Env, Waiting, Progress, check_sla_violation, expired, run_free, run_inline, lose, enqueue_cpu,
  enqueue_batch, push_entry, flush_if_full, dispatch, routed_start, start, decision_of, waiting_of,
  verdict, looked_up, fail, succeed, resume,
}

module _ {fl : Floats} where
  abbrev pub won : Option (List (Output fl)) → ℕ
  won none = 0
  won (some _) = 1

  abbrev pub lost : Option (List (Output fl)) → ℕ
  lost none = 1
  lost (some _) = 0

  abbrev pub won_now : Progress fl → ℕ
  won_now (Progress.done o) = won o
  won_now (Progress.waits w) = 0

  abbrev pub lost_now : Progress fl → ℕ
  lost_now (Progress.done o) = lost o
  lost_now (Progress.waits w) = 0

  -- From `s` to `t` the counters of completed and dropped jobs grow by `c` and `d`.
  pub record Counts (s t : Inner fl) (c d : ℕ) : Type 0 where
    pub completed_by : t.completed % u64_mod ≡ (s.completed + c) % u64_mod
    pub dropped_by : t.dropped % u64_mod ≡ (s.dropped + d) % u64_mod
    pub submitted : t.submit_counter ≡ s.submit_counter

  abbrev pub Settles : Inner fl → Inner fl × Progress fl → Type 0
  Settles s r = Counts s r.0 (won_now r.1) (lost_now r.1)

  pub flush_if_full_cases {ℓ} :
      (P : Inner fl → Type ℓ) (env : Env fl) (s : Inner fl) (kind : JobKind)
      → P s
      → P (flushed env.batch_age kind s)
      → P (flush_if_full env s kind)
  unfolding flush_if_full
  flush_if_full_cases P env s kind idle full =
      if_cases P (leb s.cfg_arc.batch_max_size (length (at_kind s.batches kind)))
        (flush_cases P env.batch_age kind s idle full) idle

  enqueue_batch-Settles :
      (env : Env fl) (s : Inner fl) (w : Waiting fl) → Settles s (enqueue_batch env s w)
  unfolding enqueue_batch push_entry
  enqueue_batch-Settles env s w =
      flush_if_full_cases (λ t. Counts s t 0 0) env (push_entry s w) w.job.kind (omega arith)
        (omega arith)

  dispatch-Settles :
      (env : Env fl) (s : Inner fl) (w : Waiting fl) (t : Strategy) → Settles s (dispatch env s w t)
  unfolding dispatch lose run_inline check_sla_violation enqueue_cpu
  dispatch-Settles env s w Strategy.drop = ground arith
  dispatch-Settles env s w Strategy.inline = ground arith
  dispatch-Settles env s w Strategy.spawn = ground arith
  dispatch-Settles env s w Strategy.cpu_pool = ground arith
  dispatch-Settles env s w Strategy.batch = enqueue_batch-Settles env s w

  routed_start-Settles :
      (env : Env fl) (s : Inner fl) (job : Job fl) → Settles s (routed_start env s job)
  unfolding routed_start log_decision
  routed_start-Settles env s job =
      let h =
        dispatch-Settles env (log_decision s (decision_of env s job)) (waiting_of env s job)
          (verdict env s job).0 in
      record { completed_by = h.completed_by; dropped_by = h.dropped_by; submitted = h.submitted }

  -- One call of `submit` up to its first wait: it is counted as submitted, and as completed or
  -- dropped exactly if it ends with a result or with none.
  pub start_counts :
      (env : Env fl) (s : Inner fl) (job : Job fl)
      → let (t, p) = start env s job in
        (t.completed % u64_mod ≡ (s.completed + won_now p) % u64_mod)
        × (t.dropped % u64_mod ≡ (s.dropped + lost_now p) % u64_mod)
        × (t.submit_counter ≡ (s.submit_counter + 1) % u64_mod)
  unfolding start expired run_free
  start_counts env s job = ground (arith, routed_start-Settles env (looked_up s job) job)

  -- The end of a call that waited: it returns the reply, and is counted as completed exactly if there
  -- is one and as dropped exactly if there is none, and not submitted again.
  pub resume-Counts :
      (s : Inner fl) (w : Waiting fl) (reply : Option (List (Output fl))) (ms : ℕ)
      → let (t, o) = resume s w reply ms in (o ≡ reply) × Counts s t (won reply) (lost reply)
  unfolding resume fail succeed lose check_sla_violation
  resume-Counts s w none ms = ground arith
  resume-Counts s w (some out) ms = ground arith
