-- ===== src/Types.antt =====
-- src/types.rs: the data that every module shares.
use helix_router_adaptive_as.Common.{ℕ, String, List}
use helix_router_adaptive_as.Floats.{Floats}

pub data JobKind : Type 0 where
  hash_mix prime_count monte_carlo_risk : JobKind

-- `Display for JobKind`
unfoldable pub kind_to_string : JobKind → String
kind_to_string JobKind.hash_mix = "hash_mix"
kind_to_string JobKind.prime_count = "prime_count"
kind_to_string JobKind.monte_carlo_risk = "monte_carlo_risk"

pub data Strategy : Type 0 where
  inline spawn cpu_pool batch drop : Strategy

pub record Job (fl : Floats) : Type 0 where
  pub id : ℕ
  pub kind : JobKind
  pub inputs : List ℕ
  pub compute_cost : ℕ
  pub scaling_potential : fl.F32
  pub latency_budget_ms : ℕ
  pub deadline_ms : ℕ

pub data Output (fl : Floats) : Type 0 where
  u64 : ℕ → Output fl
  f64 : fl.F64 → Output fl
