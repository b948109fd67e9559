-- ===== src/Tests/Data.antt =====
-- Concrete data of the tests: fixed-point numbers in place of floats, and small states.
use helix_router_adaptive_as.Common.{
  ℕ, zero, suc, ◌+◌, ◌-◌, ◌*◌, ◌/◌, ◌≤◌, true, false, [], ◌∷◌, some, min, max, arith, leb, ltb,
}
use helix_router_adaptive_as.Floats.{Floats}
use helix_router_adaptive_as.Types.{Job, JobKind, Strategy}
use helix_router_adaptive_as.Config.{default}
use helix_router_adaptive_as.Router.State.{Inner, PerKind}
use helix_router_adaptive_as.Router.Choose.{NeuralAnswer}
use helix_router_adaptive_as.Router.Submit.{Env, Waiting}
use helix_router_adaptive_as.Router.Run.{WorkHint, RunEnv}
use helix_router_adaptive_as.Router.Adapt.Laws.{RoundingLaws}

-- Numbers in ten-thousandths.
abbrev pub fixed : Floats
fixed = record {
  F32 = ℕ;
  F64 = ℕ;
  lit32 = λ n. n;
  le32 = leb;
  lit64 = λ n. n * 100;
  basis_point = 1;
  lt64 = ltb;
  le64 = leb;
  add64 = λ a b. a + b;
  sub64 = λ a b. a - b;
  mul64 = λ a b. a * b / 10000;
  div64 = λ a b. a * 10000 / b;
  max64 = max;
  min64 = min;
  ceil64 = λ a. (a + 9999) / 10000 * 10000;
  round64 = λ a. (a + 5000) / 10000 * 10000;
  clamp_unit = λ a. min a 10000;
  of_ℕ = λ n. n * 10000;
  to_u64 = λ a. a / 10000;
}

grows : (t x : ℕ) → t ≤ t * 10000 * (10000 + x) / 10000 / 10000
grows t x = omega arith

product_le : (a y : ℕ) → y ≤ 10000 → a * y ≤ a * 10000
product_le zero y h = omega arith
product_le (suc a) y h = omega (arith, product_le a y h)

shrinks : (t x : ℕ) → t * 10000 * (10000 - x) / 10000 / 10000 ≤ t
shrinks t x = omega (arith, product_le (t * 10000) (10000 - x) (omega arith))

pub fixed-RoundingLaws : RoundingLaws fixed
fixed-RoundingLaws = record {
  raise_grows = λ t k c small u. grows t (min c 10000 * (k * 100) / 10000);
  decay_shrinks = λ t c small u. shrinks t (min c 10000 * 1000 / 10000);
}

abbrev pub zeros : PerKind ℕ
zeros = record { hash_mix = 0; prime_count = 0; monte_carlo_risk = 0 }

-- A router after its construction with the default configuration.
abbrev pub fresh : Inner fixed
fresh = record {
  cfg = default fixed;
  cfg_arc = default fixed;
  cpu_queue = [];
  available_permits = 8;
  batches = record { hash_mix = []; prime_count = []; monte_carlo_risk = [] };
  replies = [];
  routed = record { inline = 0; spawn = 0; cpu_pool = 0; batch = 0; drop = 0 };
  dropped = 0;
  completed = 0;
  adaptive_spawn_threshold = 60_000;
  routing_log = [];
  batch_seq = 0;
  submit_counter = 0;
  consecutive_raises = 0;
  blocking_panics = 0;
  cpu_queue_depth = 0;
  adaptive_decay_count = 0;
  batch_enqueued = zeros;
  batch_flushed = zeros;
  sla_violations = zeros;
  routed_kind = zeros;
  deadline_exceeded = 0;
  calls = [];
}

abbrev pub job_of : ℕ → ℕ → Job fixed
job_of cost scaling = record {
  id = 1;
  kind = JobKind.hash_mix;
  inputs = 1 ∷ 2 ∷ [];
  compute_cost = cost;
  scaling_potential = scaling;
  latency_budget_ms = 50;
  deadline_ms = 0;
}

abbrev pub cold : NeuralAnswer
cold = record { warmed = false; choice = Strategy.spawn }

abbrev pub env : Env fixed
env = record {
  now_ms = 1000;
  cached = [];
  cached_pressure = 0;
  live_pressure = 0;
  neural = cold;
  elapsed_ms = 3;
  send_accepted = true;
  batch_age = λ n. 0;
}

abbrev pub hint : WorkHint fixed
hint = record {
  id = 1;
  compute_cost = 70_000;
  scaling_potential = 10;
  latency_budget_ms = 50;
  deadline_ms = 0;
}

abbrev pub run_env : RunEnv ℕ
run_env = record { now_ms = 1000; work = some 7; elapsed_ms = 3; closed = false }

abbrev pub waiting : Waiting fixed
waiting = record {
  job = job_of 70_000 10;
  pressure = 0;
  queue_frac = 0;
  strategy = Strategy.cpu_pool;
  seq = 0;
}
