-- ===== src/Config/Valid.antt =====
-- What `RouterConfig::validate` (src/config.rs) accepts, beside the rules in the documentation of
-- `RouterConfig`.
use helix_router_adaptive_as.Common.{◌≤◌, ◌<◌, ◌≡◌, ◌↔◌, true, arith}
use helix_router_adaptive_as.Floats.{Floats}
use helix_router_adaptive_as.Config.{RouterConfig, ok, validate, in_unit}

-- What `validate` asks of the fields.
pub record IsValid (fl : Floats) (c : RouterConfig fl) : Type 0 where
  pub inline_pos : 0 < c.inline_threshold
  pub inline_lt_spawn : c.inline_threshold < c.spawn_threshold
  pub parallelism_pos : 0 < c.cpu_parallelism
  pub queue_holds : c.cpu_parallelism ≤ c.cpu_queue_cap
  pub batch_size : 2 ≤ c.batch_max_size
  pub ema_alpha_unit : in_unit fl c.ema_alpha ≡ true
  pub adaptive_step_unit : in_unit fl c.adaptive_step ≡ true

module _ (fl : Floats) where
  validate_sound : (c : RouterConfig fl) → validate fl c ≡ ok tt → IsValid fl c
  unfolding validate
  validate_sound c h = ground arith

  validate_complete : (c : RouterConfig fl) → IsValid fl c → validate fl c ≡ ok tt
  unfolding validate
  validate_complete c v = ground arith

  pub validate-iff-IsValid : (c : RouterConfig fl) → (validate fl c ≡ ok tt) ↔ IsValid fl c
  validate-iff-IsValid c = (validate_sound c, validate_complete c)

  -- The rules in the documentation: the five items of the list above `RouterConfig`, of which the last
  -- is that all numeric fields but two are above 0, and the bound of the field `batch_max_size`.
  pub record MeetsRules (c : RouterConfig fl) : Type 0 where
    pub inline_lt_spawn : c.inline_threshold < c.spawn_threshold
    pub queue_holds : c.cpu_parallelism ≤ c.cpu_queue_cap
    pub ema_alpha_unit : in_unit fl c.ema_alpha ≡ true
    pub adaptive_step_unit : in_unit fl c.adaptive_step ≡ true
    pub version_pos : 0 < c.version
    pub inline_pos : 0 < c.inline_threshold
    pub spawn_pos : 0 < c.spawn_threshold
    pub queue_pos : 0 < c.cpu_queue_cap
    pub parallelism_pos : 0 < c.cpu_parallelism
    pub busy_pos : 0 < c.backpressure_busy_threshold
    pub batch_pos : 1 ≤ c.batch_max_size
    pub p95_pos : 0 < c.cpu_p95_budget_ms
    pub warmup_pos : 0 < c.warmup_steps

  -- The rules that `validate` does not test.
  abbrev pub MeetsUntested : RouterConfig fl → Type 0
  MeetsUntested c =
      (0 < c.version)
      × (0 < c.backpressure_busy_threshold)
      × (0 < c.cpu_p95_budget_ms)
      × (0 < c.warmup_steps)
