-- ===== src/Router/Choose.antt =====
-- src/router.rs: `choose_strategy`, and the choice between it and the neural router in `submit`.
pub mod Laws
use helix_router_adaptive_as.Common.{ℕ, Bool, true, false, leb, ltb, if◌then◌else◌}
use helix_router_adaptive_as.Floats.{Floats}
use helix_router_adaptive_as.Types.{Job, Strategy}
use helix_router_adaptive_as.Config.{RouterConfig}

-- The `decision_source` of a routing decision.
pub data Source : Type 0 where
  deadline heuristic neural drop run : Source

abbrev pub is_drop : Strategy → Bool
is_drop Strategy.drop = true
is_drop _ = false

module _ (fl : Floats) where
  unfoldable pub choose_strategy : RouterConfig fl → Job fl → ℕ → Strategy
  choose_strategy cfg job cpu_busy =
      if leb cfg.backpressure_busy_threshold cpu_busy
      then (if fl.le32 (fl.lit32 65) job.scaling_potential then Strategy.batch else Strategy.drop)
      else if leb job.compute_cost cfg.inline_threshold
      then Strategy.inline
      else if ltb job.compute_cost cfg.spawn_threshold
      then Strategy.spawn
      else if fl.le32 (fl.lit32 70) job.scaling_potential
      then Strategy.batch
      else Strategy.cpu_pool

-- What the neural router answers when `submit` consults it.
pub record NeuralAnswer : Type 0 where
  pub warmed : Bool
  pub choice : Strategy

-- The final strategy, who decided it, and whether the neural router was consulted warm.
unfoldable pub decide : Strategy → NeuralAnswer → Strategy × Source × Bool
decide base n =
    if is_drop base
    then (Strategy.drop, Source.drop, false)
    else if n.warmed
    then (if is_drop n.choice
        then (base, Source.heuristic, true)
        else (n.choice, Source.neural, true))
    else (base, Source.heuristic, false)
