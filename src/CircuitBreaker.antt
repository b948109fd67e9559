-- ===== src/CircuitBreaker.antt =====
-- src/circuit_breaker_registry.rs: one breaker, a state machine driven by calls and their outcomes.
pub mod Machine
pub mod Runs
pub mod Probes
pub mod Registry
use helix_router_adaptive_as.Common.{ℕ, ◌+◌, Bool, true, false, leb, ltb, if◌then◌else◌}
use helix_router_adaptive_as.Words.{add_u32, saturating_add}

pub data CircuitState : Type 0 where
  closed : ℕ → CircuitState
  opened : ℕ → CircuitState
  half_open : ℕ → CircuitState

pub record CircuitConfig : Type 0 where
  pub failure_threshold : ℕ
  pub success_threshold : ℕ
  pub timeout_ms : ℕ
  pub half_open_max_calls : ℕ

abbrev pub default_config : CircuitConfig
default_config = record {
  failure_threshold = 5;
  success_threshold = 2;
  timeout_ms = 30_000;
  half_open_max_calls = 3;
}

pub record CircuitBreaker : Type 0 where
  pub config : CircuitConfig
  pub open config use *
  pub state : CircuitState
  pub half_open_successes : ℕ

unfoldable pub new : CircuitConfig → CircuitBreaker
new c = record { config = c; state = closed 0; half_open_successes = 0 }

succeed_in : CircuitBreaker → CircuitState → CircuitBreaker
succeed_in cb (closed failures) = record cb { state = closed 0 }
succeed_in cb (half_open tests) =
    let successes = add_u32 cb.half_open_successes 1 in
    if leb cb.success_threshold successes
    then record cb { half_open_successes = 0; state = closed 0 }
    else record cb { half_open_successes = successes; state = half_open tests }
succeed_in cb (opened at) = cb

unfoldable pub record_success : CircuitBreaker → ℕ → CircuitBreaker
unfolding succeed_in
record_success cb now = succeed_in cb cb.state

fail_in : CircuitBreaker → ℕ → CircuitState → CircuitBreaker
fail_in cb now (closed failures) =
    let count = add_u32 failures 1 in
    if leb cb.failure_threshold count
    then record cb { state = opened now }
    else record cb { state = closed count }
fail_in cb now (half_open tests) = record cb { half_open_successes = 0; state = opened now }
fail_in cb now (opened at) = record cb { state = opened at }

unfoldable pub record_failure : CircuitBreaker → ℕ → CircuitBreaker
unfolding fail_in
record_failure cb now = fail_in cb now cb.state

pass_in : CircuitBreaker → ℕ → CircuitState → CircuitBreaker × Bool
pass_in cb now (closed failures) = (cb, true)
pass_in cb now (opened at) =
    if leb (saturating_add at cb.timeout_ms) now
    then (record cb { half_open_successes = 0; state = half_open 1 }, true)
    else (cb, false)
pass_in cb now (half_open tests) =
    if ltb tests cb.half_open_max_calls
    then (record cb { state = half_open (add_u32 tests 1) }, true)
    else (cb, false)

-- Whether a call may go through, which may start or count a probe.
unfoldable pub can_pass : CircuitBreaker → ℕ → CircuitBreaker × Bool
unfolding pass_in
can_pass cb now = pass_in cb now cb.state

unfoldable pub force_open : CircuitBreaker → ℕ → CircuitBreaker
force_open cb now = record cb { half_open_successes = 0; state = opened now }

unfoldable pub force_close : CircuitBreaker → CircuitBreaker
force_close cb = record cb { half_open_successes = 0; state = closed 0 }
