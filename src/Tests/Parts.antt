-- ===== src/Tests/Parts.antt =====
-- The theorems on the stand-alone components at concrete inputs.
use helix_router_adaptive_as.Common.{
  ℕ, String, none, false, Bool, count_if, ◌+◌, ◌%◌, ◌≤◌, ◌≡◌, refl, true, List, [], ◌∷◌, some,
  string_key, length, max, arith,
}
use helix_router_adaptive_as.CircuitBreaker.{
  closed, opened, CircuitConfig, can_pass, record_failure, CircuitBreaker, default_config,
}
use helix_router_adaptive_as.CircuitBreaker.Machine.{Event, step, Inv}
use helix_router_adaptive_as.CircuitBreaker.Runs.{run, Follows, run-Follows}
use helix_router_adaptive_as.CircuitBreaker.Probes.{
  admit, passed_of, probe_all, probes_bounded, probes_stuck,
}
use helix_router_adaptive_as.CircuitBreaker.Registry.{Registry}
use helix_router_adaptive_as.Compression.Lz77.{lz77_compress, lz77_decompress}
use helix_router_adaptive_as.Compression.Lz77.Laws.{lz77_decompress-compress}
use helix_router_adaptive_as.Compression.Engine.{lz77, compress, decompress, engine_roundtrip}
use helix_router_adaptive_as.ConnectionPool.{
  ConnectionPool, PooledConnection, default, new as new_pool, acquire, release, evict_stale,
  health_check_all, in_use_count, in_use, idle,
}
use helix_router_adaptive_as.ConnectionPool.Invariant.{Inv as PoolInv, operations-Inv}
use helix_router_adaptive_as.ConnectionPool.Leases.{holders, acquire_exclusive}
use helix_router_adaptive_as.Words.{u64_mod}
use helix_router_adaptive_as.Types.{Job}
use helix_router_adaptive_as.Wfq.{WfqScheduler, QueueEntry, drain_round, len, entry_of}
use helix_router_adaptive_as.Wfq.Laws.{count_waiting, drain_round_conserves}
use helix_router_adaptive_as.Tests.Data.{fixed, job_of}

abbrev fresh_breaker : CircuitBreaker
fresh_breaker = record { config = default_config; state = closed 0; half_open_successes = 0 }

abbrev open_breaker : CircuitBreaker
open_breaker = record fresh_breaker { state = opened 100 }

open-Inv : Inv open_breaker
open-Inv = record { thresholds = (omega arith, omega arith, omega arith); in_range = tt }

-- A call within the timeout of an open circuit, one after it, and the outcome of that
abbrev probed_late : List Event
probed_late = Event.pass 105 ∷ Event.pass 30_100 ∷ Event.failure 30_105 ∷ []

run-probed_late :
    run open_breaker probed_late
    ≡ (record open_breaker { state = opened 30_105 }, some false ∷ some true ∷ none ∷ [])
unfolding run step can_pass record_failure
run-probed_late = refl

run-Follows_example :
    let (last, answers) = run open_breaker probed_late in
    Follows default_config probed_late (opened 100) 0 answers last.state last.half_open_successes
    × Inv last
run-Follows_example = run-Follows open_breaker probed_late open-Inv

probes_bounded_example : passed_of (admit open_breaker (40_000 ∷ 40_001 ∷ [])) ≤ max 1 3
probes_bounded_example = probes_bounded open_breaker 100 (40_000 ∷ 40_001 ∷ []) refl (omega arith)

abbrev greedy : CircuitConfig
greedy = record default_config { success_threshold = 4 }

probes_stuck_example :
    passed_of (
      admit
        (probe_all
          (record { config = greedy; state = opened 100; half_open_successes = 0 })
          (40_000 ∷ 40_001 ∷ 40_002 ∷ []))
        (90_000 ∷ []))
    ≡ 0
probes_stuck_example =
    probes_stuck greedy 100 0 40_000 (40_001 ∷ 40_002 ∷ []) (90_000 ∷ []) (omega arith) refl
      (omega arith) (omega arith)

abbrev auth : String
auth = "auth"

abbrev mail : String
mail = "mail"

abbrev registry : Registry
registry = (auth, fresh_breaker) ∷ (mail, open_breaker) ∷ []

abbrev bytes : List ℕ
bytes = 7 ∷ 7 ∷ 7 ∷ 1 ∷ 2 ∷ 7 ∷ 7 ∷ 7 ∷ 1 ∷ 254 ∷ []

engine_roundtrip_example : decompress (compress (λ m. m) bytes lz77) ≡ some bytes
engine_roundtrip_example = engine_roundtrip (λ m. m) bytes lz77

lz77_decompress-compress_example : lz77_decompress (lz77_compress bytes 255 16) ≡ some bytes
lz77_decompress-compress_example = lz77_decompress-compress bytes 255 16 (omega arith) (omega arith)

abbrev connection : ℕ → PooledConnection
connection id = record {
  id = id;
  backend = "db";
  state = idle;
  created_at_ms = 10;
  last_used_ms = 10;
  use_count = 1;
  error_count = 0;
}

abbrev pool : ConnectionPool
pool = record (new_pool "db" default) {
  connections = record (connection 1) { state = in_use } ∷ connection 2 ∷ [];
  next_id = 3;
}

pool-Inv : PoolInv pool
pool-Inv = record {
  bounded = omega arith;
  issued = (omega arith, (omega arith, tt));
  distinct = (((λ e. omega (arith, e)), tt), (tt, tt));
}

acquire_exclusive_example :
    let pool' = (acquire pool 20).1 in
    (holders 2 pool.connections ≡ 0)
    × (holders 2 pool'.connections ≡ 1)
    × (in_use_count pool' ≡ in_use_count pool + 1)
acquire_exclusive_example = acquire_exclusive pool 20 2 pool-Inv (unfold acquire in refl)

operations-Inv_example :
    PoolInv (acquire pool 20).1
    × PoolInv (release pool 1 20 true)
    × PoolInv (evict_stale pool 20).1
    × PoolInv (health_check_all pool 20).1
operations-Inv_example = operations-Inv pool 20 1 true (omega arith) pool-Inv

-- A scheduler with two jobs of one class, of which the first round can pay for one.
abbrev scheduler : WfqScheduler fixed
scheduler = record {
  class_order = "hash_mix" ∷ [];
  queues =
      (
        "hash_mix",
        record {
          weight = 3;
          deficit = 100;
          queue = entry_of (job_of 2_500 10) 5 ∷ entry_of (job_of 1_000 10) 6 ∷ [];
        },
      )
      ∷ [];
  quantum = 1_000;
  stats = [];
  total_enqueued = 2;
  total_dequeued = 0;
}

abbrev entries_due : List (QueueEntry fixed)
entries_due = entry_of (job_of 2_500 10) 5 ∷ entry_of (job_of 1_000 10) 6 ∷ []

drain_round_conserves_example :
    let (t, jobs) = drain_round (λ n. n) scheduler in
    ((p : Job fixed → Bool)
      → count_waiting p t.queues + count_if p jobs ≡ count_waiting p scheduler.queues)
    × (len t + length jobs ≡ 2)
    × (t.total_dequeued % u64_mod ≡ (0 + length jobs) % u64_mod)
drain_round_conserves_example = drain_round_conserves (λ n. n) scheduler
