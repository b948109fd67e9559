-- ===== src/Router/State.antt =====
-- src/router.rs: the shared state `Inner`, its counters, and the routing log.
use helix_router_adaptive_as.Common.{ℕ, Bool, List, [], ◌∷◌, ◌++◌, ltb, if◌then◌else◌, length, drop}
use helix_router_adaptive_as.Words.{add_u64}
use helix_router_adaptive_as.Floats.{Floats}
use helix_router_adaptive_as.Types.{Job, JobKind, Strategy, Output}
use helix_router_adaptive_as.Config.{RouterConfig}
use helix_router_adaptive_as.Router.Choose.{Source}

-- Three fields of `Inner` that differ in the job kind.
pub record PerKind {ℓ} (A : Type ℓ) : Type ℓ where
  pub hash_mix : A
  pub prime_count : A
  pub monte_carlo_risk : A

abbrev pub at_kind {ℓ} : {A : Type ℓ} → PerKind A → JobKind → A
at_kind p JobKind.hash_mix = p.hash_mix
at_kind p JobKind.prime_count = p.prime_count
at_kind p JobKind.monte_carlo_risk = p.monte_carlo_risk

abbrev pub put_kind {ℓ} : {A : Type ℓ} → PerKind A → JobKind → A → PerKind A
put_kind p JobKind.hash_mix a = record p { hash_mix = a }
put_kind p JobKind.prime_count a = record p { prime_count = a }
put_kind p JobKind.monte_carlo_risk a = record p { monte_carlo_risk = a }

abbrev pub bump_kind : PerKind ℕ → JobKind → ℕ → PerKind ℕ
bump_kind p k n = put_kind p k (add_u64 (at_kind p k) n)

-- `routed: HashMap<Strategy, u64>`; a key that is missing counts 0.
pub record Routed : Type 0 where
  pub inline : ℕ
  pub spawn : ℕ
  pub cpu_pool : ℕ
  pub batch : ℕ
  pub drop : ℕ

abbrev pub bump_route : Routed → Strategy → Routed
bump_route r Strategy.inline = record r { inline = add_u64 r.inline 1 }
bump_route r Strategy.spawn = record r { spawn = add_u64 r.spawn 1 }
bump_route r Strategy.cpu_pool = record r { cpu_pool = add_u64 r.cpu_pool 1 }
bump_route r Strategy.batch = record r { batch = add_u64 r.batch 1 }
bump_route r Strategy.drop = record r { drop = add_u64 r.drop 1 }

pub record RoutingDecision (fl : Floats) : Type 0 where
  pub job_id : ℕ
  pub strategy : Strategy
  pub compute_cost : ℕ
  pub cpu_busy : ℕ
  pub pressure : fl.F64
  pub decision_source : Source

pub record BatchEntry (fl : Floats) : Type 0 where
  pub job : Job fl
  pub seq : ℕ

-- A call into a component that is not part of this state, with its arguments.
pub data Call (fl : Floats) : Type 0 where
  record_latency : Strategy → ℕ → Call fl
  record_pressure : fl.F64 → Bool → fl.F64 → Call fl
  record_outcome : Job fl → fl.F64 → Strategy → ℕ → Bool → Call fl
  observe_timeout : JobKind → ℕ → Call fl
  cache_get : Job fl → Call fl
  cache_insert : Job fl → List (Output fl) → Call fl
  send_decision : RoutingDecision fl → Call fl

pub record Inner (fl : Floats) : Type 0 where
  pub cfg : RouterConfig fl
  pub cfg_arc : RouterConfig fl
  pub cpu_queue : List (Job fl)
  pub available_permits : ℕ
  pub batches : PerKind (List (BatchEntry fl))
  pub replies : List (ℕ × List (Output fl))
  pub routed : Routed
  pub dropped : ℕ
  pub completed : ℕ
  pub adaptive_spawn_threshold : ℕ
  pub routing_log : List (RoutingDecision fl)
  pub batch_seq : ℕ
  pub submit_counter : ℕ
  pub consecutive_raises : ℕ
  pub blocking_panics : ℕ
  pub cpu_queue_depth : ℕ
  pub adaptive_decay_count : ℕ
  pub batch_enqueued : PerKind ℕ
  pub batch_flushed : PerKind ℕ
  pub sla_violations : PerKind ℕ
  pub routed_kind : PerKind ℕ
  pub deadline_exceeded : ℕ
  pub calls : List (Call fl)

module _ {fl : Floats} where
  abbrev pub call : Inner fl → Call fl → Inner fl
  call s c = record s { calls = s.calls ++ (c ∷ []) }

  abbrev pub route : Inner fl → Strategy → Inner fl
  route s t = record s { routed = bump_route s.routed t }

  abbrev pub route_kind : Inner fl → JobKind → Inner fl
  route_kind s k = record s { routed_kind = bump_kind s.routed_kind k 1 }

  abbrev pub complete : Inner fl → Inner fl
  complete s = record s { completed = add_u64 s.completed 1 }

  abbrev pub count_drop : Inner fl → Inner fl
  count_drop s = record s { dropped = add_u64 s.dropped 1 }

  -- Broadcast the decision and append it to the log of the last 50.
  unfoldable pub log_decision : Inner fl → RoutingDecision fl → Inner fl
  log_decision s d =
      let log = s.routing_log ++ (d ∷ []) in
      call (record s { routing_log = if ltb 50 (length log) then drop 1 log else log })
        (Call.send_decision d)
