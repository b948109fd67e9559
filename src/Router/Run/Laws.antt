-- ===== src/Router/Run/Laws.antt =====
-- `run` settles each call once, and returns the permits that it takes.
use helix_router_adaptive_as.Common.{ℕ, ◌+◌, ◌%◌, ◌≡◌, arith}
use helix_router_adaptive_as.Words.{u64_mod}
use helix_router_adaptive_as.Floats.{Floats}
use helix_router_adaptive_as.Config.{ok, err}
use helix_router_adaptive_as.Router.State.{Inner, log_decision}
use helix_router_adaptive_as.Router.Run.{
  WorkHint, RunEnv, RunEnd, run, run_start, run_dispatch, run_acquire, run_finish, settle,
  release_permit,
}

abbrev pub completed_in : {T : Type 0} → RunEnd T → ℕ
completed_in (RunEnd.returned (ok a)) = 1
completed_in _ = 0

abbrev pub dropped_in : {T : Type 0} → RunEnd T → ℕ
dropped_in (RunEnd.returned (err e)) = 1
dropped_in _ = 0

module _ {fl : Floats} {T : Type 0} where
  -- A call of `run` counts one completed job if it returns a value, one dropped job if it returns
  -- an error, and nothing while it waits for a permit or where the work's panic unwinds through it;
  -- the pool has as many free permits after it as before.
  pub run_counts :
      (env : RunEnv T) (s : Inner fl) (hint : WorkHint fl)
      → let (t, end) = run env s hint in
        (t.completed % u64_mod ≡ (s.completed + completed_in end) % u64_mod)
        × (t.dropped % u64_mod ≡ (s.dropped + dropped_in end) % u64_mod)
        × (t.available_permits ≡ s.available_permits)
  unfolding run run_start run_dispatch run_acquire run_finish settle release_permit log_decision
  run_counts env s hint = ground arith
