-- ===== src/Router/Adapt/Laws.antt =====
-- The adaptive spawn threshold stays between the configured one and ten times that.
use helix_router_adaptive_as.Common.{ℕ, ◌*◌, ◌^◌, ◌≤◌, ◌<◌, ◌≡◌, true, Option, none, some, arith}
use helix_router_adaptive_as.Floats.{Floats}
use helix_router_adaptive_as.Config.{in_unit}
use helix_router_adaptive_as.Router.State.{Inner}
use helix_router_adaptive_as.Router.Adapt.{PoolLatency, raise, decay, adapt, maybe_adapt_threshold}

-- IEEE 754: an integer below 2^53 is exact, so its product with `1.0 + step` rounds to no less
-- than itself, and its product with `1.0 - step * 0.10` to no more, for a step in (0, 1].
pub record RoundingLaws (fl : Floats) : Type 0 where
  pub raise_grows :
      (t k : ℕ) (c : fl.F64)
      → t < 2 ^ 53
      → in_unit fl c ≡ true
      → t
        ≤ fl.to_u64 (
            fl.mul64
              (fl.of_ℕ t)
              (fl.add64 (fl.lit64 100) (fl.mul64 (fl.clamp_unit c) (fl.lit64 k))))
  pub decay_shrinks :
      (t : ℕ) (c : fl.F64)
      → t < 2 ^ 53
      → in_unit fl c ≡ true
      → fl.to_u64 (
          fl.mul64 (fl.of_ℕ t) (fl.sub64 (fl.lit64 100) (fl.mul64 (fl.clamp_unit c) (fl.lit64 10))))
        ≤ t

module _ {fl : Floats} where
  abbrev pub IsWithin : Inner fl → Type 0
  IsWithin s =
      (s.cfg.spawn_threshold ≤ s.adaptive_spawn_threshold)
      × (s.adaptive_spawn_threshold ≤ 10 * s.cfg.spawn_threshold)

  raise-IsWithin :
      (s : Inner fl)
      → RoundingLaws fl
      → in_unit fl s.cfg.adaptive_step ≡ true
      → 10 * s.cfg.spawn_threshold < 2 ^ 53
      → IsWithin s
      → IsWithin (raise s)
  unfolding raise
  raise-IsWithin s g u small w = ground (
    arith,
    g.raise_grows s.adaptive_spawn_threshold 200 s.cfg.adaptive_step,
    g.raise_grows s.adaptive_spawn_threshold 50 s.cfg.adaptive_step,
  )

  decay-IsWithin :
      (s : Inner fl)
      → RoundingLaws fl
      → in_unit fl s.cfg.adaptive_step ≡ true
      → 10 * s.cfg.spawn_threshold < 2 ^ 53
      → IsWithin s
      → IsWithin (decay s)
  unfolding decay
  decay-IsWithin s g u small w =
      ground (arith, g.decay_shrinks s.adaptive_spawn_threshold s.cfg.adaptive_step)

  -- With a valid step and thresholds that a double holds exactly, an adaptation keeps the spawn
  -- threshold between the configured one and ten times that, whatever latency it sees.
  pub maybe_adapt-IsWithin :
      (s : Inner fl) (l : Option PoolLatency)
      → RoundingLaws fl
      → in_unit fl s.cfg.adaptive_step ≡ true
      → 10 * s.cfg.spawn_threshold < 2 ^ 53
      → IsWithin s
      → IsWithin (maybe_adapt_threshold s l)
  unfolding maybe_adapt_threshold adapt
  maybe_adapt-IsWithin s none g u small w = w
  maybe_adapt-IsWithin s (some l) g u small w =
      ground (arith, raise-IsWithin s g u small w, decay-IsWithin s g u small w)
