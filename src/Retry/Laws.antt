-- ===== src/Retry/Laws.antt =====
-- What a run of retries answers, and how long it sleeps.
use helix_router_adaptive_as.Common.{
  ℕ, zero, suc, ◌+◌, ◌^◌, ◌≤◌, ◌<◌, ◌≡◌, refl, sym, min, max, true, false, List, ◌∷◌, Option, some,
  String, leb, All, length, arith,
}
use helix_router_adaptive_as.Floats.{Floats}
use helix_router_adaptive_as.Retry.{
  RetryPolicy, RetryState, RetryManager, Attempt, success, failure, Answer, ok, err,
  max_attempts_exceeded, Run, run_loop, run, advance, initial_state, after_call, after_failure,
  or_default, after_sleep,
}

abbrev pub tried : Attempt → (String → Answer) → Answer
tried (success output) more = ok output
tried (failure error) more = more error

-- At most `left` calls from the `n`-th on, where the last error was `last`: the first success, or
-- the last error of all.
unfoldable pub tries : (ℕ → Attempt) → ℕ → ℕ → String → Answer
tries executor n zero last = err (max_attempts_exceeded n last)
tries executor n (suc left) last = tried (executor n) (tries executor (suc n) left)

abbrev pub failed_first : Attempt → ℕ → ℕ
failed_first (success output) more = 0
failed_first (failure error) more = suc more

-- How many of those calls fail before a success.
unfoldable pub failures : (ℕ → Attempt) → ℕ → ℕ → ℕ
failures executor n zero = 0
failures executor n (suc left) = failed_first (executor n) (failures executor (suc n) left)

min-suc : (a b : ℕ) → min (suc a) (suc b) ≡ suc (min a b)
min-suc a b = omega arith

module _ {fl : Floats} where
  -- A run that ends with the answer of `tries`, and sleeps after each failure but the last of all,
  -- never for longer than `max_backoff`.
  pub record Ends (policy : RetryPolicy fl) (answer : Answer) (sleeps : ℕ) (r : Option (Run fl))
      : Type 0 where
    pub outcome : Run fl
    pub ended : r ≡ some outcome
    pub answered : outcome.answer ≡ answer
    pub slept : length outcome.slept ≡ sleeps
    pub capped : All (λ d. d ≤ policy.max_backoff) outcome.slept

  advance-capped :
      (policy : RetryPolicy fl) (st : RetryState) (error : String) (lcg : ℕ)
      → (advance policy st error lcg).0.next_backoff ≤ policy.max_backoff
  unfolding advance
  advance-capped policy st error lcg = omega arith

  advance-attempts :
      (policy : RetryPolicy fl) (st : RetryState) (error : String) (lcg n : ℕ)
      → st.attempts ≡ n
      → suc n < 2 ^ 32
      → (advance policy st error lcg).0.attempts ≡ suc n
  unfolding advance
  advance-attempts policy st error lcg n e h = omega arith

  advance-last_error :
      (policy : RetryPolicy fl) (st : RetryState) (error : String) (lcg : ℕ)
      → or_default (advance policy st error lcg).0.last_error ≡ error
  unfolding advance
  advance-last_error policy st error lcg = refl

  after_sleep-Ends :
      (policy : RetryPolicy fl) (answer : Answer) (sleeps d : ℕ) (r : Option (Run fl))
      → d ≤ policy.max_backoff
      → Ends policy answer sleeps r
      → Ends policy answer (suc sleeps) (after_sleep d r)
  after_sleep-Ends policy answer sleeps d r cap h = record {
    outcome = record h.outcome { slept = d ∷ h.outcome.slept };
    ended = rw h.ended refl;
    answered = h.answered;
    slept = omega (arith, h.slept);
    capped = (cap, h.capped);
  }

  -- One call, and the calls that follow
  after_call-Ends :
      (policy : RetryPolicy fl) (n lcg : ℕ) (st : RetryState) (m : RetryManager fl) (left : ℕ)
      (more : ℕ → RetryState → Option (Run fl)) (rest : String → Answer) (fails : ℕ) (a : Attempt)
      → st.attempts ≡ n
      → suc n < 2 ^ 32
      → n + suc left ≡ max 1 policy.max_attempts
      → (left ≡ 0 → (e : String) → rest e ≡ err (max_attempts_exceeded (suc n) e))
      → ((l : ℕ)
          → left ≡ suc l
          → (lcg' : ℕ) (st' : RetryState) → st'.attempts ≡ suc n
          → Ends policy (rest (or_default st'.last_error)) (min fails l) (more lcg' st'))
      → Ends policy
          (tried a rest)
          (min (failed_first a fails) left)
          (after_call policy lcg st m more a)
  unfolding after_failure
  after_call-Ends policy n lcg st m left more rest fails (success o) e word total last later =
      record { outcome = _; ended = refl; answered = refl; slept = omega arith; capped = tt }
  after_call-Ends policy n lcg st m zero more rest fails (failure x) e word total last later =
      let st' = (advance policy st x lcg).0 in
      let made = advance-attempts policy st x lcg n e word in
      let over : leb policy.max_attempts st'.attempts ≡ true = ground arith in
      rw over record {
        outcome = _;
        ended = refl;
        answered = rw (made, advance-last_error policy st x lcg) (sym (last refl x));
        slept = omega arith;
        capped = tt;
      }
  after_call-Ends policy n lcg st m (suc left) more rest fails (failure x) e word total last later =
      let (st', lcg') = advance policy st x lcg in
      let made = advance-attempts policy st x lcg n e word in
      let under : leb policy.max_attempts st'.attempts ≡ false = ground arith in
      let next = later left refl lcg' st' made in
      rw (under, min-suc fails left)
        (after_sleep-Ends policy (rest x) (min fails left) st'.next_backoff (more lcg' st')
          (advance-capped policy st x lcg) (rw (advance-last_error policy st x lcg) at next))

  run_loop-Ends :
      (fuel : ℕ) (policy : RetryPolicy fl) (executor : ℕ → Attempt) (n lcg : ℕ) (st : RetryState)
      (m : RetryManager fl) (left : ℕ)
      → n + suc left < 2 ^ 32
      → st.attempts ≡ n
      → n + suc left ≡ max 1 policy.max_attempts
      → suc left ≤ fuel
      → Ends policy
          (tries executor n (suc left) (or_default st.last_error))
          (min (failures executor n (suc left)) left)
          (run_loop fuel policy executor n lcg st m)
  unfolding run_loop tries failures
  run_loop-Ends zero policy executor n lcg st m left word e total enough = absurd (omega arith)
  run_loop-Ends (suc fuel) policy executor n lcg st m left word e total enough =
      after_call-Ends policy n lcg st m left
        (λ lcg' st'. run_loop fuel policy executor (suc n) lcg' st' m) (tries executor (suc n) left)
        (failures executor (suc n) left) (executor n) e (omega arith) total (λ z x. rw z refl)
        (λ l z lcg' st' made. rw z (
          run_loop-Ends fuel policy executor (suc n) lcg' st' m l (omega arith) made (omega arith)
            (omega arith)))

  -- A run makes at most `max_attempts` calls, and one where that is 0, and ends: it answers the output
  -- of the first call that succeeds, or `MaxAttemptsExceeded` with the number of the calls and the
  -- error of the last one. It sleeps once after each failed call that another call follows, and
  -- never for longer than `max_backoff`.
  pub run_lem :
      (policy : RetryPolicy fl) (executor : ℕ → Attempt) (job : List ℕ) (m : RetryManager fl)
      (fuel calls : ℕ)
      → suc calls ≡ max 1 policy.max_attempts
      → policy.max_attempts < 2 ^ 32
      → suc calls ≤ fuel
      → Ends policy
          (tries executor 0 (suc calls) "")
          (min (failures executor 0 (suc calls)) calls)
          (run fuel job policy executor m)
  unfolding run
  run_lem policy executor job m fuel calls e word enough =
      run_loop-Ends fuel policy executor 0 _ (initial_state policy) _ calls (omega arith) refl
        (omega arith) enough
