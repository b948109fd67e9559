-- ===== src/CircuitBreaker/Probes.antt =====
-- An open breaker and its probes: when it lets calls through, how many, and where it gets stuck.
use helix_router_adaptive_as.Common.{
  ℕ, ◌+◌, ◌-◌, ◌^◌, ◌≤◌, ◌<◌, ◌≡◌, refl, sym, subst, ◌∙◌, ap, Bool, List, [], ◌∷◌, arith, length,
  max, if◌then◌else◌,
}
use helix_router_adaptive_as.Words.{saturating_add}
use helix_router_adaptive_as.CircuitBreaker.{
  CircuitState, opened, half_open, CircuitConfig, CircuitBreaker, record_success, can_pass,
}

-- The answers to calls that arrive at the given times, with no outcome in between.
unfoldable pub admit : CircuitBreaker → List ℕ → List Bool
admit cb [] = []
admit cb (t ∷ ts) = let (next, passed) = can_pass cb t in passed ∷ admit next ts

abbrev pub passed_of : List Bool → ℕ
passed_of [] = 0
passed_of (b ∷ bs) = (if b then 1 else 0) + passed_of bs

abbrev in_state : CircuitConfig → CircuitState → ℕ → CircuitBreaker
in_state c s k = record { config = c; state = s; half_open_successes = k }

probes-half_open :
    (c : CircuitConfig) (n k : ℕ) (ts : List ℕ)
    → c.half_open_max_calls < 2 ^ 32
    → passed_of (admit (in_state c (half_open n) k) ts) ≤ c.half_open_max_calls - n
unfolding admit can_pass
probes-half_open c n k [] small = omega arith
probes-half_open c n k (t ∷ ts) small =
    ground (arith, probes-half_open c n k ts small, probes-half_open c (n + 1) k ts small)

-- Before its timeout an open breaker lets nothing through and stays as it is; afterwards, until an
-- outcome is recorded, it lets through at most its number of probes, and at least one call.
probes-opened :
    (c : CircuitConfig) (at k : ℕ) (ts : List ℕ)
    → c.half_open_max_calls < 2 ^ 32
    → passed_of (admit (in_state c (opened at) k) ts) ≤ max 1 c.half_open_max_calls
unfolding admit can_pass
probes-opened c at k [] small = omega arith
probes-opened c at k (t ∷ ts) small =
    ground (arith, probes-half_open c 1 0 ts small, probes-opened c at k ts small)

-- Between its opening and the next recorded outcome, an open breaker lets through at most as many
-- calls as it allows probes, and never more than one where it allows none.
pub probes_bounded :
    (cb : CircuitBreaker) (at : ℕ) (ts : List ℕ)
    → cb.state ≡ opened at
    → cb.half_open_max_calls < 2 ^ 32
    → passed_of (admit cb ts) ≤ max 1 cb.half_open_max_calls
probes_bounded cb at ts e small =
    subst
      (λ s.
        passed_of (admit (in_state cb.config s cb.half_open_successes) ts)
        ≤ max 1 cb.half_open_max_calls)
      (sym e) (probes-opened cb.config at cb.half_open_successes ts small)

exhausted :
    (c : CircuitConfig) (n k : ℕ) (ts : List ℕ)
    → c.half_open_max_calls ≤ n
    → passed_of (admit (in_state c (half_open n) k) ts) ≡ 0
unfolding admit can_pass
exhausted c n k [] h = refl
exhausted c n k (t ∷ ts) h = ground (arith, exhausted c n k ts h)

-- A call at the given time, and its success.
unfoldable pub probe : CircuitBreaker → ℕ → CircuitBreaker
probe cb t = record_success (can_pass cb t).0 t

unfoldable pub probe_all : CircuitBreaker → List ℕ → CircuitBreaker
probe_all cb [] = cb
probe_all cb (t ∷ ts) = probe_all (probe cb t) ts

probe-half_open :
    (c : CircuitConfig) (n t : ℕ)
    → c.success_threshold < 2 ^ 32
    → n < c.half_open_max_calls
    → c.half_open_max_calls < c.success_threshold
    → probe (in_state c (half_open n) n) t ≡ in_state c (half_open (n + 1)) (n + 1)
unfolding probe can_pass record_success
probe-half_open c n t small h few = ground arith

probe-opened :
    (c : CircuitConfig) (at k t : ℕ)
    → c.success_threshold < 2 ^ 32
    → 1 < c.success_threshold
    → saturating_add at c.timeout_ms ≤ t
    → probe (in_state c (opened at) k) t ≡ in_state c (half_open 1) 1
unfolding probe can_pass record_success
probe-opened c at k t small h late = ground arith

probe_all-half_open :
    (c : CircuitConfig) (n : ℕ) (ts : List ℕ)
    → c.success_threshold < 2 ^ 32
    → n + length ts ≤ c.half_open_max_calls
    → c.half_open_max_calls < c.success_threshold
    → probe_all (in_state c (half_open n) n) ts
      ≡ in_state c (half_open (n + length ts)) (n + length ts)
unfolding probe_all
probe_all-half_open c n [] small h few = ap (λ k. in_state c (half_open k) k) (omega arith)
probe_all-half_open c n (t ∷ ts) small h few =
    ap (λ b. probe_all b ts) (probe-half_open c n t small (omega arith) few)
    ∙ probe_all-half_open c (n + 1) ts small (omega arith) few
    ∙ ap (λ k. in_state c (half_open k) k) (omega arith)

-- A breaker that wants more successes than it allows probes never closes by itself: once every
-- probe that it allows has succeeded, it lets no call through, at any later time.
pub probes_stuck :
    (c : CircuitConfig) (at k t : ℕ) (ts us : List ℕ)
    → c.success_threshold < 2 ^ 32
    → length ts + 1 ≡ c.half_open_max_calls
    → c.half_open_max_calls < c.success_threshold
    → saturating_add at c.timeout_ms ≤ t
    → let cb : CircuitBreaker = record { config = c; state = opened at; half_open_successes = k } in
      passed_of (admit (probe_all cb (t ∷ ts)) us) ≡ 0
unfolding probe_all
probes_stuck c at k t ts us small h few late =
    ap (λ b. passed_of (admit (probe_all b ts) us)) (probe-opened c at k t small (omega arith) late)
    ∙ ap (λ b. passed_of (admit b us)) (probe_all-half_open c 1 ts small (omega arith) few)
    ∙ exhausted c (1 + length ts) (1 + length ts) us (omega arith)
