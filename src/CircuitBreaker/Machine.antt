-- ===== src/CircuitBreaker/Machine.antt =====
-- The transitions of a breaker, its invariant, and when it trips.
use helix_router_adaptive_as.Common.{
  ℕ, ◌-◌, min, Bool, true, false, Option, none, some, ◌+◌, ◌^◌, ◌≤◌, ◌<◌, ◌≡◌, ◌∙◌, ap, ◌≡⟨◌⟩◌, ◌∎,
  ◌⊎◌, List, [], ◌∷◌, arith, length, max,
}
use helix_router_adaptive_as.CircuitBreaker.{
  CircuitState, closed, opened, half_open, CircuitConfig, CircuitBreaker, new, record_success,
  record_failure, can_pass,
}

pub data Event : Type 0 where
  success failure pass : ℕ → Event

-- What an event leaves, and the answer to a call that asks to pass.
unfoldable pub step : CircuitBreaker → Event → CircuitBreaker × Option Bool
step cb (Event.success now) = (record_success cb now, none)
step cb (Event.failure now) = (record_failure cb now, none)
step cb (Event.pass now) = let (next, passes) = can_pass cb now in (next, some passes)

-- The state, the successful probes, and the answer to a call.
pub record Point : Type 0 where
  pub state : CircuitState
  pub successes : ℕ
  pub answer : Option Bool

abbrev pub point : CircuitState → ℕ → Option Bool → Point
point s k answer = record { state = s; successes = k; answer = answer }

-- When an open circuit may be probed; the sum stops at the largest u64.
abbrev pub retry_at : CircuitConfig → ℕ → ℕ
retry_at c at = min (at + c.timeout_ms) (2 ^ 64 - 1)

-- The state machine over unbounded counters: which point an event leads to, at the event's time.
abbrev pub Edge : CircuitConfig → Event → CircuitState → ℕ → Point → Type 0
Edge c (Event.success now) (closed n) k p = p ≡ point (closed 0) k none
Edge c (Event.success now) (opened at) k p = p ≡ point (opened at) k none
Edge c (Event.success now) (half_open n) k p =
    ((c.success_threshold ≤ k + 1) × (p ≡ point (closed 0) 0 none))
    ⊎ ((k + 1 < c.success_threshold) × (p ≡ point (half_open n) (k + 1) none))
Edge c (Event.failure now) (closed n) k p =
    ((c.failure_threshold ≤ n + 1) × (p ≡ point (opened now) k none))
    ⊎ ((n + 1 < c.failure_threshold) × (p ≡ point (closed (n + 1)) k none))
Edge c (Event.failure now) (opened at) k p = p ≡ point (opened at) k none
Edge c (Event.failure now) (half_open n) k p = p ≡ point (opened now) 0 none
Edge c (Event.pass now) (closed n) k p = p ≡ point (closed n) k (some true)
Edge c (Event.pass now) (opened at) k p =
    ((retry_at c at ≤ now) × (p ≡ point (half_open 1) 0 (some true)))
    ⊎ ((now < retry_at c at) × (p ≡ point (opened at) k (some false)))
Edge c (Event.pass now) (half_open n) k p =
    ((n < c.half_open_max_calls) × (p ≡ point (half_open (n + 1)) k (some true)))
    ⊎ ((c.half_open_max_calls ≤ n) × (p ≡ point (half_open n) k (some false)))

-- The counters stay below their thresholds, so that they never wrap.
abbrev pub InRange : CircuitConfig → CircuitState → ℕ → Type 0
InRange c (closed n) s = (n ≡ 0) ⊎ (n < c.failure_threshold)
InRange c (opened t) s = Unit {0}
InRange c (half_open n) s =
    (n ≤ max 1 c.half_open_max_calls) × ((s ≡ 0) ⊎ (s < c.success_threshold))

pub record Inv (cb : CircuitBreaker) : Type 0 where
  pub thresholds :
      (cb.failure_threshold < 2 ^ 32)
      × (cb.success_threshold < 2 ^ 32)
      × (cb.half_open_max_calls < 2 ^ 32)
  pub in_range : InRange cb.config cb.state cb.half_open_successes

abbrev breaker : CircuitConfig → CircuitState → ℕ → CircuitBreaker
breaker c s k = record { config = c; state = s; half_open_successes = k }

-- A step that takes an edge to `next` with this answer.
abbrev Moves : Event → CircuitBreaker → CircuitBreaker → Option Bool → Type 0
Moves e cb next answer =
    Edge cb.config e cb.state cb.half_open_successes
      (point next.state next.half_open_successes answer)
    × (next.config ≡ cb.config)
    × Inv next

success-Moves :
    (c : CircuitConfig) (s : CircuitState) (k now : ℕ)
    → Inv (breaker c s k)
    → Moves (Event.success now) (breaker c s k) (record_success (breaker c s k) now) none
unfolding record_success
success-Moves c (closed n) k now i = ground arith
success-Moves c (opened t) k now i = ground arith
success-Moves c (half_open n) k now i = ground arith

failure-Moves :
    (c : CircuitConfig) (s : CircuitState) (k now : ℕ)
    → Inv (breaker c s k)
    → Moves (Event.failure now) (breaker c s k) (record_failure (breaker c s k) now) none
unfolding record_failure
failure-Moves c (closed n) k now i = ground arith
failure-Moves c (opened t) k now i = ground arith
failure-Moves c (half_open n) k now i = ground arith

pass-Moves :
    (c : CircuitConfig) (s : CircuitState) (k now : ℕ)
    → Inv (breaker c s k)
    → let (next, passes) = can_pass (breaker c s k) now in
      Moves (Event.pass now) (breaker c s k) next (some passes)
unfolding can_pass
pass-Moves c (closed n) k now i = ground arith
pass-Moves c (opened t) k now i = ground arith
pass-Moves c (half_open n) k now i = ground arith

-- Every event takes the edge of the state machine for that event, its time and the state.
pub step-Moves :
    (cb : CircuitBreaker) (e : Event)
    → Inv cb
    → let (next, answer) = step cb e in
      Edge cb.config e cb.state cb.half_open_successes
        (point next.state next.half_open_successes answer)
      × (next.config ≡ cb.config)
      × Inv next
unfolding step
step-Moves cb (Event.success now) i = success-Moves cb.config cb.state cb.half_open_successes now i
step-Moves cb (Event.failure now) i = failure-Moves cb.config cb.state cb.half_open_successes now i
step-Moves cb (Event.pass now) i = pass-Moves cb.config cb.state cb.half_open_successes now i

-- Failures one after the other, at the given times.
unfoldable pub fail_all : CircuitBreaker → List ℕ → CircuitBreaker
fail_all cb [] = cb
fail_all cb (t ∷ ts) = fail_all (record_failure cb t) ts

failure-below :
    (c : CircuitConfig) (n t : ℕ)
    → c.failure_threshold < 2 ^ 32
    → n + 1 < c.failure_threshold
    → record_failure (breaker c (closed n) 0) t ≡ breaker c (closed (n + 1)) 0
unfolding record_failure
failure-below c n t small h = ground arith

failure-at :
    (c : CircuitConfig) (n t : ℕ)
    → c.failure_threshold < 2 ^ 32
    → n + 1 ≡ c.failure_threshold
    → (record_failure (breaker c (closed n) 0) t).state ≡ opened t
unfolding record_failure
failure-at c n t small h = ground arith

fail_all-below :
    (c : CircuitConfig) (n : ℕ) (ts : List ℕ)
    → c.failure_threshold < 2 ^ 32
    → n + length ts < c.failure_threshold
    → fail_all (breaker c (closed n) 0) ts ≡ breaker c (closed (n + length ts)) 0
unfolding fail_all
fail_all-below c n [] small h = ap (λ k. breaker c (closed k) 0) (omega arith)
fail_all-below c n (t ∷ ts) small h =
    fail_all (record_failure (breaker c (closed n) 0) t) ts
    ≡⟨ ap (λ b. fail_all b ts) (failure-below c n t small (omega arith)) ⟩
      fail_all (breaker c (closed (n + 1)) 0) ts
    ≡⟨ fail_all-below c (n + 1) ts small (omega arith) ⟩ breaker c (closed (n + 1 + length ts)) 0
    ≡⟨ ap (λ k. breaker c (closed k) 0) (omega arith) ⟩ breaker c (closed (n + length (t ∷ ts))) 0 ∎

-- A new breaker is closed after fewer failures in a row than its threshold, and the failure that
-- reaches the threshold opens it, at the time of that failure.
pub fail_all-new :
    (c : CircuitConfig) (ts : List ℕ) (t : ℕ)
    → c.failure_threshold < 2 ^ 32
    → length ts + 1 ≡ c.failure_threshold
    → ((fail_all (new c) ts).state ≡ closed (length ts))
      × ((record_failure (fail_all (new c) ts) t).state ≡ opened t)
unfolding new
fail_all-new c ts t small h =
    let before : fail_all (breaker c (closed 0) 0) ts ≡ breaker c (closed (length ts)) 0 =
      fail_all-below c 0 ts small (omega arith) ∙ ap (λ k. breaker c (closed k) 0) (omega arith) in
    (
      ap (λ (b : CircuitBreaker). b.state) before,
      ap (λ (b : CircuitBreaker). (record_failure b t).state) before
          ∙ failure-at c (length ts) t small h,
    )
