-- ===== src/Router/Settings.antt =====
-- src/router.rs: the operations on the live configuration, and the step of `autoscale_tick` that
-- applies a recommendation to it.
pub mod Laws
use helix_router_adaptive_as.Common.{
  ℕ, min, max, Bool, true, false, String, Option, none, some, ltb, if◌then◌else◌, ◌==◌, string_key,
}
use helix_router_adaptive_as.Floats.{Floats}
use helix_router_adaptive_as.Config.{
  RouterConfig, RouterConfigPatch, ConfigError, Result, ok, err, validate, merge,
}
use helix_router_adaptive_as.Router.State.{Inner}

pub data ScaleDirection : Type 0 where
  up down hold : ScaleDirection

pub record Recommendation : Type 0 where
  pub direction : ScaleDirection
  pub recommended_queue_cap : ℕ

module _ {fl : Floats} where
  unfoldable pub set_config : Inner fl → RouterConfig fl → Inner fl
  set_config s c = record s { cfg = c; cfg_arc = c }

  commit :
      Inner fl
      → RouterConfig fl
      → Result ConfigError (Unit {0})
      → Inner fl × Result ConfigError (RouterConfig fl)
  commit s candidate (ok _) = (record s { cfg = candidate; cfg_arc = candidate }, ok candidate)
  commit s candidate (err e) = (s, err e)

  unfoldable pub patch_config :
      Inner fl → RouterConfigPatch fl → Inner fl × Result ConfigError (RouterConfig fl)
  unfolding commit
  patch_config s p = commit s (merge fl p s.cfg) (validate fl (merge fl p s.cfg))

  -- The field that a key names, set; `none` for an unknown key.
  unfoldable pub with_field : RouterConfig fl → String → ℕ → Option (RouterConfig fl)
  with_field c field value =
      if field == "inline_threshold"
      then some (record c { inline_threshold = value })
      else if field == "spawn_threshold"
      then some (record c { spawn_threshold = value })
      else if field == "backpressure_busy_threshold"
      then some (record c { backpressure_busy_threshold = value })
      else if field == "batch_max_size"
      then some (record c { batch_max_size = value })
      else if field == "batch_max_delay_ms"
      then some (record c { batch_max_delay_ms = value })
      else if field == "cpu_queue_cap"
      then some (record c { cpu_queue_cap = value })
      else if field == "cpu_parallelism"
      then some (record c { cpu_parallelism = value })
      else none

  -- The assertion on the result is a `debug_assert!`: a release build goes on.
  unfoldable pub update_config_field : Inner fl → String → ℕ → Inner fl × Bool
  update_config_field s field value = elim (with_field s.cfg field value) [
    | none ↦ (s, false)
    | some c ↦ (record s { cfg = c; cfg_arc = c }, true)
  ]

  abbrev with_cap : Inner fl → ℕ → Inner fl
  with_cap s cap = record s { cfg = record (s.cfg) { cpu_queue_cap = cap } }

  scale : Inner fl → ScaleDirection → ℕ → Inner fl
  scale s ScaleDirection.up cap =
      let new_cap = min cap 4096 in
      if ltb s.cfg.cpu_queue_cap new_cap then with_cap s new_cap else s
  scale s ScaleDirection.down cap =
      let new_cap = max cap 16 in if ltb new_cap s.cfg.cpu_queue_cap then with_cap s new_cap else s
  scale s ScaleDirection.hold cap = s

  -- `cfg` alone is written: the snapshot `cfg_arc` stays as it was.
  unfoldable pub apply_recommendation : Inner fl → Option Recommendation → Inner fl
  unfolding scale
  apply_recommendation s none = s
  apply_recommendation s (some r) = scale s r.direction r.recommended_queue_cap
