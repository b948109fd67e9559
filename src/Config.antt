-- ===== src/Config.antt =====
-- src/config.rs: the routing configuration, its validation, and sparse patches
-- (`Router::patch_config` of src/router.rs merges them).
pub mod Valid
use helix_router_adaptive_as.Common.{
  ℕ, zero, suc, String, Bool, true, false, ◌&&◌, List, [], ◌∷◌, Option, none, some, ltb, leb, eqb,
  if◌then◌else◌,
}
use helix_router_adaptive_as.Common.Maps.{Map, get}
use helix_router_adaptive_as.Common.{string_key}
use helix_router_adaptive_as.Floats.{Floats}

pub data SlaPriority : Type 0 where
  high normal low : SlaPriority

pub record SlaConfig : Type 0 where
  pub max_latency_ms : ℕ
  pub priority : SlaPriority

abbrev pub SlaMap : Type 0
SlaMap = Map String SlaConfig

-- `SLAMap::get`
unfoldable pub sla_get : SlaMap → String → Option SlaConfig
sla_get m kind = get kind m

abbrev pub sla_defaults : SlaMap
sla_defaults =
    ("hash_mix", record { max_latency_ms = 100; priority = SlaPriority.high })
    ∷ ("prime_count", record { max_latency_ms = 300; priority = SlaPriority.normal })
    ∷ ("monte_carlo_risk", record { max_latency_ms = 500; priority = SlaPriority.normal })
    ∷ []

pub record RouterConfig (fl : Floats) : Type 0 where
  pub version : ℕ
  pub inline_threshold : ℕ
  pub spawn_threshold : ℕ
  pub cpu_queue_cap : ℕ
  pub cpu_parallelism : ℕ
  pub backpressure_busy_threshold : ℕ
  pub batch_max_size : ℕ
  pub batch_max_delay_ms : ℕ
  pub ema_alpha : fl.F64
  pub adaptive_step : fl.F64
  pub cpu_p95_budget_ms : ℕ
  pub adaptive_p95_threshold_factor : fl.F64
  pub enable_adaptive_threshold : Bool
  pub sla : SlaMap
  pub warmup_steps : ℕ

pub record RouterConfigPatch (fl : Floats) : Type 0 where
  pub inline_threshold : Option ℕ
  pub spawn_threshold : Option ℕ
  pub cpu_queue_cap : Option ℕ
  pub cpu_parallelism : Option ℕ
  pub backpressure_busy_threshold : Option ℕ
  pub batch_max_size : Option ℕ
  pub batch_max_delay_ms : Option ℕ
  pub ema_alpha : Option fl.F64
  pub adaptive_step : Option fl.F64
  pub cpu_p95_budget_ms : Option ℕ
  pub adaptive_p95_threshold_factor : Option fl.F64
  pub version : Option ℕ
  pub enable_adaptive_threshold : Option Bool
  pub sla : Option SlaMap
  pub warmup_steps : Option ℕ

-- One constructor for each message of `validate`, with the numbers that the message shows.
pub data ConfigError : Type 0 where
  inline_zero spawn_zero : ConfigError
  inline_ge_spawn : ℕ → ℕ → ConfigError
  no_parallelism no_queue small_batch bad_ema_alpha bad_adaptive_step : ConfigError
  queue_below_parallelism : ℕ → ℕ → ConfigError

pub data Result (E : Type 0) (A : Type 0) : Type 0 where
  ok : A → Result E A
  err : E → Result E A

-- `if let Some(v) = patch.f { candidate.f = v; }`
abbrev pub override {ℓ} : {A : Type ℓ} → Option A → A → A
override none old = old
override (some v) old = v

module _ (fl : Floats) where
  abbrev pub default : RouterConfig fl
  default = record {
    version = 1;
    inline_threshold = 8_000;
    spawn_threshold = 60_000;
    cpu_queue_cap = 512;
    cpu_parallelism = 8;
    backpressure_busy_threshold = 7;
    batch_max_size = 8;
    batch_max_delay_ms = 10;
    ema_alpha = fl.lit64 15;
    adaptive_step = fl.lit64 10;
    cpu_p95_budget_ms = 200;
    adaptive_p95_threshold_factor = fl.lit64 150;
    enable_adaptive_threshold = true;
    sla = sla_defaults;
    warmup_steps = 10;
  }

  -- `0.0 < x && x <= 1.0`
  abbrev pub in_unit : fl.F64 → Bool
  in_unit x = fl.lt64 (fl.lit64 0) x && fl.le64 x (fl.lit64 100)

  unfoldable pub validate : RouterConfig fl → Result ConfigError (Unit {0})
  validate c =
      if eqb c.inline_threshold 0
      then err ConfigError.inline_zero
      else if eqb c.spawn_threshold 0
      then err ConfigError.spawn_zero
      else if leb c.spawn_threshold c.inline_threshold
      then err (ConfigError.inline_ge_spawn c.inline_threshold c.spawn_threshold)
      else if eqb c.cpu_parallelism 0
      then err ConfigError.no_parallelism
      else if eqb c.cpu_queue_cap 0
      then err ConfigError.no_queue
      else if ltb c.batch_max_size 2
      then err ConfigError.small_batch
      else if in_unit c.ema_alpha
      then (if in_unit c.adaptive_step
          then (if ltb c.cpu_queue_cap c.cpu_parallelism
              then err (ConfigError.queue_below_parallelism c.cpu_queue_cap c.cpu_parallelism)
              else ok tt)
          else err ConfigError.bad_adaptive_step)
      else err ConfigError.bad_ema_alpha

  -- The candidate that `patch_config` builds: every field of the patch but `version`.
  unfoldable pub merge : RouterConfigPatch fl → RouterConfig fl → RouterConfig fl
  merge p c = record c {
    inline_threshold = override p.inline_threshold c.inline_threshold;
    spawn_threshold = override p.spawn_threshold c.spawn_threshold;
    cpu_queue_cap = override p.cpu_queue_cap c.cpu_queue_cap;
    cpu_parallelism = override p.cpu_parallelism c.cpu_parallelism;
    backpressure_busy_threshold =
        override p.backpressure_busy_threshold c.backpressure_busy_threshold;
    batch_max_size = override p.batch_max_size c.batch_max_size;
    batch_max_delay_ms = override p.batch_max_delay_ms c.batch_max_delay_ms;
    ema_alpha = override p.ema_alpha c.ema_alpha;
    adaptive_step = override p.adaptive_step c.adaptive_step;
    cpu_p95_budget_ms = override p.cpu_p95_budget_ms c.cpu_p95_budget_ms;
    adaptive_p95_threshold_factor =
        override p.adaptive_p95_threshold_factor c.adaptive_p95_threshold_factor;
    enable_adaptive_threshold = override p.enable_adaptive_threshold c.enable_adaptive_threshold;
    sla = override p.sla c.sla;
    warmup_steps = override p.warmup_steps c.warmup_steps;
  }
