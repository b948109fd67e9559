-- ===== src/Router/Submit/Log.antt =====
-- The routing log: its length, and which calls write to it.
use helix_router_adaptive_as.Common.{
  ℕ, ◌≤◌, ◌≡◌, refl, List, [], ◌∷◌, ◌++◌, Option, none, some, arith, length, length-append,
  length-drop,
}
use helix_router_adaptive_as.Floats.{Floats}
use helix_router_adaptive_as.Types.{Job, Strategy, Output}
use helix_router_adaptive_as.Router.State.{Inner, RoutingDecision, log_decision}
use helix_router_adaptive_as.Router.Submit.Laws.{flush_if_full_cases}
use helix_router_adaptive_as.Router.Submit.{
  Env, Waiting, check_sla_violation, expired, run_free, run_inline, lose, enqueue_cpu,
  enqueue_batch, push_entry, dispatch, routed_start, start, decision_of, waiting_of, verdict,
  looked_up, fail, succeed, resume,
}

module _ {fl : Floats} where
  length-log_decision :
      (s : Inner fl) (d : RoutingDecision fl)
      → length s.routing_log ≤ 50
      → length (log_decision s d).routing_log ≤ 50
  unfolding log_decision
  length-log_decision s d h =
      ground
        (arith, length-append s.routing_log (d ∷ []), length-drop 1 (s.routing_log ++ (d ∷ [])))

  log-enqueue_batch :
      (env : Env fl) (s : Inner fl) (w : Waiting fl)
      → (enqueue_batch env s w).0.routing_log ≡ s.routing_log
  unfolding enqueue_batch push_entry
  log-enqueue_batch env s w =
      flush_if_full_cases (λ t. t.routing_log ≡ s.routing_log) env (push_entry s w) w.job.kind refl
        refl

  log-dispatch :
      (env : Env fl) (s : Inner fl) (w : Waiting fl) (t : Strategy)
      → (dispatch env s w t).0.routing_log ≡ s.routing_log
  unfolding dispatch lose run_inline check_sla_violation enqueue_cpu
  log-dispatch env s w Strategy.drop = refl
  log-dispatch env s w Strategy.inline = ground arith
  log-dispatch env s w Strategy.spawn = refl
  log-dispatch env s w Strategy.cpu_pool = ground arith
  log-dispatch env s w Strategy.batch = log-enqueue_batch env s w

  length-log-routed :
      (env : Env fl) (s : Inner fl) (job : Job fl)
      → length s.routing_log ≤ 50
      → length (routed_start env s job).0.routing_log ≤ 50
  unfolding routed_start
  length-log-routed env s job h =
      rw
        (log-dispatch env (log_decision s (decision_of env s job)) (waiting_of env s job)
          (verdict env s job).0)
        (length-log_decision s (decision_of env s job) h)

  -- A log of at most 50 decisions keeps that bound over a call of `submit`.
  pub length-log-start :
      (env : Env fl) (s : Inner fl) (job : Job fl)
      → length s.routing_log ≤ 50
      → length (start env s job).0.routing_log ≤ 50
  unfolding start expired run_free
  length-log-start env s job h = ground (arith, length-log-routed env (looked_up s job) job h)

  pub log-resume :
      (s : Inner fl) (w : Waiting fl) (reply : Option (List (Output fl))) (ms : ℕ)
      → (resume s w reply ms).0.routing_log ≡ s.routing_log
  unfolding resume fail succeed lose check_sla_violation
  log-resume s w none ms = ground arith
  log-resume s w (some out) ms = ground arith
