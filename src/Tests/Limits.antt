-- ===== src/Tests/Limits.antt =====
-- The theorems on limiters, queues, retries and the result cache at concrete inputs.
use helix_router_adaptive_as.Common.{
  ℕ, zero, suc, ◌+◌, ◌≤◌, ◌≡◌, refl, inl, true, List, [], ◌∷◌, Option, none, some, string_key,
  nat_key, if◌then◌else◌, min, arith, All,
}
use helix_router_adaptive_as.Common.Maps.{get}
use helix_router_adaptive_as.Types.{u64}
use helix_router_adaptive_as.Strategies.{primecount, clamp}
use helix_router_adaptive_as.Strategies.Primes.{count_range, is_prime, primecount_lem}
use helix_router_adaptive_as.Wfq.{WfqScheduler, next_job, no_queue, entry_of}
use helix_router_adaptive_as.Wfq.Next.{Found, next_job_lem}
use helix_router_adaptive_as.Retry.{default_policy, new_manager, Attempt, success, failure, run}
use helix_router_adaptive_as.Retry.Laws.{tries, failures, Ends, run_lem}
use helix_router_adaptive_as.Deadline.{DeadlineJob, Scheduler, Dispatch, runs_first, new_scheduler}
use helix_router_adaptive_as.RateLimiter.{WindowEntry, new_window}
use helix_router_adaptive_as.RateLimiter.Window.{spent, serve, allowed_bounded}
use helix_router_adaptive_as.ResultCache.{
  new_cache, ResultCache, get_result, insert_result, evict_expired,
}
use helix_router_adaptive_as.ResultCache.Laws.{
  look_up_all, Inv, cache_operations-Inv, get-insert_result,
}
use helix_router_adaptive_as.Dedup.{
  DedupeEntry, JobDeduplicator, new_deduplicator, submit_key, complete,
  evict_expired as evict_expired_jobs,
}
use helix_router_adaptive_as.Common.Sets.{contains, distinct}
use helix_router_adaptive_as.Dedup.Links.{Linked}
use helix_router_adaptive_as.Dedup.Laws.{Evicts, Submits, Completes, dedup_operations-Linked}
use helix_router_adaptive_as.Tests.Data.{fixed, job_of}

primecount_lem_example :
    primecount fixed (job_of 20_000 10)
    ≡ u64 (count_range is_prime 0 (clamp 20_000 10_000 250_000 + 1))
primecount_lem_example = primecount_lem fixed (job_of 20_000 10)

-- A class of weight 3 whose first job costs more than its share of two rounds
abbrev scheduler : WfqScheduler fixed
scheduler = record {
  class_order = "hash_mix" ∷ [];
  queues = ("hash_mix", record (no_queue 3) { queue = entry_of (job_of 7 10) 0 ∷ [] }) ∷ [];
  quantum = 1;
  stats = [];
  total_enqueued = 1;
  total_dequeued = 0;
}

next_job_lem_example : Found (next_job 8 (λ t. 0) 5 scheduler)
unfolding get
next_job_lem_example =
    next_job_lem (λ t. 0) 5 scheduler "hash_mix" 3 0 (entry_of (job_of 7 10) 0) [] 8 (inl refl) refl
      (omega arith) (omega arith) (omega arith)

abbrev third_time : ℕ → Attempt
third_time zero = failure "busy"
third_time (suc zero) = failure "slow"
third_time (suc (suc n)) = success "done"

run_lem_example :
    Ends
      (default_policy fixed)
      (tries third_time 0 3 "")
      (min (failures third_time 0 3) 2)
      (run 3 (106 ∷ []) (default_policy fixed) third_time new_manager)
run_lem_example =
    run_lem (default_policy fixed) third_time (106 ∷ []) new_manager 3 2 (omega arith) (omega arith)
      (omega arith)

abbrev Due : Type 0
Due = List (DeadlineJob fixed)

abbrev select : DeadlineJob fixed → Due → DeadlineJob fixed × Due
select x [] = (x, [])
select x (y ∷ ys) =
    let up = select y ys in
    let stay = select x ys in if runs_first x y then (stay.0, y ∷ stay.1) else (up.0, x ∷ up.1)

abbrev pop : Due → Option (DeadlineJob fixed × Due)
pop [] = none
pop (x ∷ xs) = some (select x xs)

abbrev Beats : DeadlineJob fixed → Due → Type 0
Beats d = All (λ e. runs_first d e ≡ true)

abbrev due_at : ℕ → DeadlineJob fixed
due_at t = record { job = job_of 10 10; deadline = t; priority = 1 }

abbrev busy : Scheduler fixed
busy = record new_scheduler { queue = due_at 900 ∷ due_at 100 ∷ due_at 500 ∷ [] }

abbrev answers : ℕ → Dispatch fixed
answers n = record { dispatched_at = 300; answered_at = 400; reply = some [] }

abbrev asked : ℕ → ℕ → WindowEntry
asked t n = record { timestamp_ms = t; count = n }

allowed_bounded_example :
    spent 1_000 2_000
      (serve (new_window 1_000 5) (asked 900 5 ∷ asked 1_500 4 ∷ asked 1_600 3 ∷ [])).1
    ≤ 5
allowed_bounded_example =
    allowed_bounded 1_000 5 2_000 (asked 900 5 ∷ asked 1_500 4 ∷ asked 1_600 3 ∷ []) (omega arith)
      (omega arith) (omega arith)

abbrev small_cache : ResultCache
small_cache = new_cache (record { max_entries = 1; ttl = 100 })

small_cache-Inv : Inv small_cache
small_cache-Inv = record { matched = λ k. (refl, omega arith); bounded = omega arith }

cache_operations-Inv_example :
    Inv (get_result small_cache (job_of 10 10) 5).0
    × Inv (insert_result small_cache (job_of 10 10) "seven" 5)
    × Inv (evict_expired small_cache 5).0
cache_operations-Inv_example =
    cache_operations-Inv small_cache (job_of 10 10) "seven" 5 (omega arith) small_cache-Inv

get-insert_result_example :
    (get_result
      (look_up_all
        ((job_of 10 10, 20) ∷ (job_of 10 30, 50) ∷ [])
        (insert_result small_cache (job_of 10 10) "seven" 5))
      (job_of 10 70)
      60).1
    ≡ some (record { result = "seven"; age = 55 })
get-insert_result_example =
    get-insert_result small_cache (job_of 10 10) (job_of 10 70) "seven" 5 60
      ((job_of 10 10, 20) ∷ (job_of 10 30, 50) ∷ []) refl refl refl

abbrev first_job : DedupeEntry
first_job = record { original_job_id = 4; submitted_at = 10; waiters = 21 ∷ 22 ∷ [] }

abbrev in_flight : JobDeduplicator
in_flight = record (new_deduplicator 100) {
  entries = (70, first_job) ∷ [];
  id_to_key = (4, 70) ∷ [];
}

in_flight-Linked : Linked in_flight.entries in_flight.id_to_key
unfolding get distinct contains
in_flight-Linked = record {
  once = refl;
  to_key = λ k e h. ground arith;
  to_entry = λ id k h. (first_job, ground arith, ground arith);
}

-- Job 20 comes while job 4, which is equal to it, is in flight, and job 4 is completed
dedup_operations-Linked_example :
    let (t, decision) = submit_key in_flight 70 20 50 23 in
    let (u, sent) = complete in_flight 4 in
    Evicts in_flight 50 (evict_expired_jobs in_flight 50)
    × Submits in_flight 70 20 50 23 t decision
    × Completes in_flight 70 first_job u sent
unfolding get
dedup_operations-Linked_example =
    dedup_operations-Linked in_flight 70 20 50 23 70 first_job in_flight-Linked (inl refl) refl
