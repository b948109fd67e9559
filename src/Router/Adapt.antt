-- ===== src/Router/Adapt.antt =====
-- src/router.rs: `maybe_adapt_threshold`.
pub mod Laws
use helix_router_adaptive_as.Common.{ℕ, min, max, Option, none, some, Bool, ltb, if◌then◌else◌}
use helix_router_adaptive_as.Words.{add_u64, saturating_mul}
use helix_router_adaptive_as.Floats.{Floats}
use helix_router_adaptive_as.Config.{RouterConfig}
use helix_router_adaptive_as.Router.State.{Inner}

-- The latency aggregate of the CPU pool: how many samples, and their 95th percentile.
pub record PoolLatency : Type 0 where
  pub count : ℕ
  pub p95_ms : ℕ

module _ {fl : Floats} where
  -- `(cfg.cpu_p95_budget_ms as f64 * factor) as u64`
  abbrev pub scaled_budget : RouterConfig fl → fl.F64 → ℕ
  scaled_budget c factor = fl.to_u64 (fl.mul64 (fl.of_ℕ c.cpu_p95_budget_ms) factor)

  abbrev pub raise_step : RouterConfig fl → ℕ → fl.F64
  raise_step c raises =
      fl.mul64 (fl.clamp_unit c.adaptive_step) (if ltb raises 5 then fl.lit64 200 else fl.lit64 50)

  unfoldable pub raise : Inner fl → Inner fl
  raise s = record s {
    consecutive_raises = add_u64 s.consecutive_raises 1;
    adaptive_spawn_threshold =
        min
          (fl.to_u64 (
            fl.mul64 (fl.of_ℕ s.adaptive_spawn_threshold)
              (fl.add64 (fl.lit64 100) (raise_step s.cfg s.consecutive_raises))))
          (saturating_mul s.cfg.spawn_threshold 10);
  }

  -- `ADAPTIVE_DECAY_RATE` is 0.10.
  abbrev pub decayed : Inner fl → ℕ
  decayed s = fl.to_u64 (
      fl.mul64 (fl.of_ℕ s.adaptive_spawn_threshold)
        (fl.sub64 (fl.lit64 100) (fl.mul64 (fl.clamp_unit s.cfg.adaptive_step) (fl.lit64 10))))

  unfoldable pub decay : Inner fl → Inner fl
  decay s =
      let calm = record s { consecutive_raises = 0 } in
      if ltb s.cfg.spawn_threshold s.adaptive_spawn_threshold
      then record calm {
        adaptive_spawn_threshold = max (decayed s) s.cfg.spawn_threshold;
        adaptive_decay_count = add_u64 s.adaptive_decay_count 1;
      }
      else calm

  unfoldable pub adapt : Inner fl → PoolLatency → Inner fl
  adapt s l =
      if ltb l.count 10
      then s
      else if ltb (scaled_budget s.cfg s.cfg.adaptive_p95_threshold_factor) l.p95_ms
      then raise s
      else if ltb l.p95_ms (scaled_budget s.cfg (fl.lit64 110))
      then decay s
      else s

  unfoldable pub maybe_adapt_threshold : Inner fl → Option PoolLatency → Inner fl
  maybe_adapt_threshold s latency = elim latency [
    | none ↦ s
    | some l ↦ if s.cfg.enable_adaptive_threshold then adapt s l else s
  ]
