-- ===== src/Retry.antt =====
-- src/retry.rs: retries with an exponential, jittered backoff. The executor is the function of its
-- calls to what they answer, and a duration is a number of nanoseconds.
pub mod Laws
use helix_router_adaptive_as.Common.{
  ℕ, zero, suc, ◌+◌, ◌-◌, ◌*◌, ◌/◌, ◌%◌, min, Bool, true, false, List, [], ◌∷◌, Option, none, some,
  String, leb, if◌then◌else◌,
}
use helix_router_adaptive_as.Words.{add_u32, add_u64, wrapping_mul, shr, u64_mod}
use helix_router_adaptive_as.Floats.{Floats}

pub record RetryPolicy (fl : Floats) : Type 0 where
  pub max_attempts : ℕ
  pub initial_backoff : ℕ
  pub max_backoff : ℕ
  pub backoff_multiplier : fl.F64
  pub jitter : Bool

abbrev pub default_policy : (fl : Floats) → RetryPolicy fl
default_policy fl = record {
  max_attempts = 3;
  initial_backoff = 100_000_000;
  max_backoff = 30_000_000_000;
  backoff_multiplier = fl.lit64 200;
  jitter = true;
}

pub record RetryState : Type 0 where
  pub attempts : ℕ
  pub next_backoff : ℕ
  pub last_error : Option String

pub data RetryError : Type 0 where
  max_attempts_exceeded : (attempts : ℕ) → (last_error : String) → RetryError
  non_retryable : RetryError

pub record RetryStats (fl : Floats) : Type 0 where
  pub total_attempts : ℕ
  pub total_successes : ℕ
  pub total_failures : ℕ
  pub avg_attempts_per_job : fl.F64

pub record RetryManager (fl : Floats) : Type 0 where
  pub stats : RetryStats fl
  pub lcg_seed : ℕ

-- What a call of the executor answers: `Result<String, String>`.
pub data Attempt : Type 0 where
  success : (output : String) → Attempt
  failure : (error : String) → Attempt

-- `Result<String, RetryError>`
pub data Answer : Type 0 where
  ok : (output : String) → Answer
  err : (error : RetryError) → Answer

-- A call of `run`: its answer, the manager afterwards, and the durations that it slept for.
pub record Run (fl : Floats) : Type 0 where
  pub answer : Answer
  pub manager : RetryManager fl
  pub slept : List ℕ

abbrev pub as_millis : ℕ → ℕ
as_millis d = d / 1_000_000

abbrev pub from_millis : ℕ → ℕ
from_millis ms = ms * 1_000_000

-- `Lcg::next_u64`
unfoldable pub next_u64 : ℕ → ℕ
next_u64 state = add_u64 (wrapping_mul state 6_364_136_223_846_793_005) 1_442_695_040_888_963_407

unfoldable pub string_hash : ℕ → List ℕ → ℕ
string_hash acc [] = acc
string_hash acc (b ∷ bs) = string_hash (add_u64 (wrapping_mul acc 31) b) bs

-- `next_f64_range(lo, hi)` of the state after `next_u64`
abbrev pub range_of : (fl : Floats) → ℕ → fl.F64 → fl.F64 → fl.F64
range_of fl state lo hi =
    let raw = fl.div64 (fl.of_ℕ (shr state 11)) (fl.of_ℕ (shr (u64_mod - 1) 11)) in
    fl.add64 lo (fl.mul64 raw (fl.sub64 hi lo))

-- `unwrap_or_default`
abbrev pub or_default : Option String → String
or_default none = ""
or_default (some e) = e

module _ {fl : Floats} where
  abbrev pub initial_state : RetryPolicy fl → RetryState
  initial_state policy = record {
    attempts = 0;
    next_backoff = policy.initial_backoff;
    last_error = none;
  }

  -- The backoff before its cap, with the generator's state behind it
  abbrev pub raw_backoff : RetryPolicy fl → ℕ → fl.F64
  raw_backoff policy backoff =
      fl.min64 (fl.mul64 (fl.of_ℕ (as_millis backoff)) policy.backoff_multiplier)
        (fl.of_ℕ (as_millis policy.max_backoff))

  abbrev pub jittered : RetryPolicy fl → ℕ → ℕ → fl.F64 × ℕ
  jittered policy backoff lcg =
      if policy.jitter
      then (
        fl.round64 (
            fl.mul64 (raw_backoff policy backoff)
              (range_of fl (next_u64 lcg) (fl.lit64 50) (fl.lit64 150))),
        next_u64 lcg,
      )
      else (fl.ceil64 (raw_backoff policy backoff), lcg)

  unfoldable pub advance : RetryPolicy fl → RetryState → String → ℕ → RetryState × ℕ
  advance policy st error lcg =
      let (ms, lcg') = jittered policy st.next_backoff lcg in
      (
        record {
          attempts = add_u32 st.attempts 1;
          next_backoff = from_millis (min (fl.to_u64 ms) (as_millis policy.max_backoff % u64_mod));
          last_error = some error;
        },
        lcg',
      )

  abbrev pub average : RetryStats fl → RetryStats fl
  average s = record s {
    avg_attempts_per_job =
        fl.div64 (fl.of_ℕ s.total_attempts) (fl.of_ℕ (add_u64 s.total_successes s.total_failures));
  }

  abbrev pub note_success : ℕ → RetryManager fl → RetryManager fl
  note_success attempts m = record m {
    stats = average (record m.stats {
      total_attempts = add_u64 m.stats.total_attempts (attempts + 1);
      total_successes = add_u64 m.stats.total_successes 1;
    });
  }

  abbrev pub note_failure : ℕ → RetryManager fl → RetryManager fl
  note_failure attempts m = record m {
    stats = average (record m.stats {
      total_attempts = add_u64 m.stats.total_attempts attempts;
      total_failures = add_u64 m.stats.total_failures 1;
    });
  }

  abbrev pub give_up : RetryState → RetryManager fl → Run fl
  give_up st m = record {
    answer = err (max_attempts_exceeded st.attempts (or_default st.last_error));
    manager = note_failure st.attempts m;
    slept = [];
  }

  abbrev pub after_sleep : ℕ → Option (Run fl) → Option (Run fl)
  after_sleep backoff none = none
  after_sleep backoff (some r) = some (record r { slept = backoff ∷ r.slept })

  -- After a failed call: `more` makes the calls that follow.
  unfoldable pub after_failure :
      RetryPolicy fl
      → RetryManager fl
      → (ℕ → RetryState → Option (Run fl))
      → RetryState
      → ℕ
      → Option (Run fl)
  after_failure policy m more st lcg =
      let next = after_sleep st.next_backoff (more lcg st) in
      if leb policy.max_attempts st.attempts then some (give_up st m) else next

  abbrev pub after_call :
      RetryPolicy fl
      → ℕ
      → RetryState
      → RetryManager fl
      → (ℕ → RetryState → Option (Run fl))
      → Attempt
      → Option (Run fl)
  after_call policy lcg st m more (success output) =
      some (record { answer = ok output; manager = note_success st.attempts m; slept = [] })
  after_call policy lcg st m more (failure error) =
      after_failure policy m more (advance policy st error lcg).0 (advance policy st error lcg).1

  -- The loop of `run`: `n` calls were made, and `none` says that the fuel of calls ran out.
  unfoldable pub run_loop :
      ℕ → RetryPolicy fl → (ℕ → Attempt) → ℕ → ℕ → RetryState → RetryManager fl → Option (Run fl)
  run_loop zero policy executor n lcg st m = none
  run_loop (suc fuel) policy executor n lcg st m =
      after_call policy lcg st m (λ lcg' st'. run_loop fuel policy executor (suc n) lcg' st' m)
        (executor n)

  unfoldable pub run :
      ℕ → List ℕ → RetryPolicy fl → (ℕ → Attempt) → RetryManager fl → Option (Run fl)
  run fuel job policy executor m =
      run_loop fuel policy executor 0 (add_u64 m.lcg_seed (string_hash 0 job))
        (initial_state policy) (record m { lcg_seed = add_u64 m.lcg_seed 1 })

  abbrev pub new_manager : RetryManager fl
  new_manager = record {
    stats = record {
      total_attempts = 0;
      total_successes = 0;
      total_failures = 0;
      avg_attempts_per_job = fl.lit64 0;
    };
    lcg_seed = 0;
  }

  -- `RetryManager::execute`
  unfoldable pub execute : ℕ → List ℕ → RetryPolicy fl → (ℕ → Attempt) → Option Answer
  execute fuel job policy executor = elim (run fuel job policy executor new_manager) [
    | none ↦ none
    | some r ↦ some r.answer
  ]
