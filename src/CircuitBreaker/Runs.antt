-- ===== src/CircuitBreaker/Runs.antt =====
-- src/circuit_breaker_registry.rs: a breaker under any sequence of calls and outcomes.
use helix_router_adaptive_as.Common.{ℕ, Bool, List, [], ◌∷◌, Option, subst}
use helix_router_adaptive_as.CircuitBreaker.{CircuitState, CircuitConfig, CircuitBreaker}
use helix_router_adaptive_as.CircuitBreaker.Machine.{Event, step, point, Edge, Inv, step-Moves}

-- Events one after the other: the breaker afterwards, and the answers to the calls.
unfoldable pub run : CircuitBreaker → List Event → CircuitBreaker × List (Option Bool)
run cb [] = (cb, [])
run cb (e ∷ es) =
    let (next, answer) = step cb e in let (last, answers) = run next es in (last, answer ∷ answers)

-- A path of the state machine over unbounded counters, along these events and with these answers, from
-- a state and a number of successful probes to others.
pub data Follows (c : CircuitConfig)
    : List Event → CircuitState → ℕ → List (Option Bool) → CircuitState → ℕ → Type 0 where
  stop : {s : CircuitState} {k : ℕ} → Follows c [] s k [] s k
  go :
      {e : Event} {es : List Event} {s s1 s2 : CircuitState} {k k1 k2 : ℕ} {answer : Option Bool}
      {answers : List (Option Bool)}
      → Edge c e s k (point s1 k1 answer)
      → Follows c es s1 k1 answers s2 k2
      → Follows c (e ∷ es) s k (answer ∷ answers) s2 k2

-- Under any sequence of calls and outcomes, at any times, a breaker whose thresholds fit 32 bits and
-- whose counters have not passed them follows the state machine with unbounded counters, event by
-- event, and gives its answers to the calls: an open circuit refuses calls until its timeout has passed
-- and then becomes half-open with one probe, a closed one opens at the failure that reaches the
-- threshold and forgets failures at a success, and a half-open one opens at any failure, closes at the
-- success that reaches its threshold, and lets a further probe through while fewer than configured have
-- gone. The counters do not pass the thresholds (one probe may go where none is configured), so that no
-- addition wraps.
pub run-Follows :
    (cb : CircuitBreaker) (es : List Event)
    → Inv cb
    → let (last, answers) = run cb es in
      Follows cb.config es cb.state cb.half_open_successes answers last.state
        last.half_open_successes
      × Inv last
unfolding run
run-Follows cb [] i = (stop, i)
run-Follows cb (e ∷ es) i =
    let (next, answer) = step cb e in
    let (edge, same, inv) = step-Moves cb e i in
    let (rest, kept) = run-Follows next es inv in
    (
      go edge (
          subst
            (λ c.
              Follows c es next.state next.half_open_successes (run next es).1 (run next es).0.state
                (run next es).0.half_open_successes)
            same rest),
      kept,
    )
