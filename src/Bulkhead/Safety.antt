-- ===== src/Bulkhead/Safety.antt =====
-- What holds of a bulkhead in every reachable state, and how callers that are dropped shut it.
use helix_router_adaptive_as.Common.{
  ℕ, ◌+◌, ◌%◌, ◌≤◌, ◌<◌, ◌≡◌, refl, ◌∙◌, subst, true, List, [], ◌∷◌, ◌++◌, length, arith,
}
use helix_router_adaptive_as.Words.{u64_mod}
use helix_router_adaptive_as.Bulkhead.{
  BulkheadConfig, Bulkhead, BulkheadError, Caller, refused, dropped_acquiring, dropped_running,
  checked, World, Step, arrive, move, Reach, here, next,
}
use helix_router_adaptive_as.Bulkhead.Slots.{
  total, total-middle, holds, in_queue, flies, was_rejected, has_completed, Balance, Move-Balance,
}

-- The semaphore's permits and their holders add up to the limit, and each counter is the number of
-- the callers that it counts, modulo 2^64.
pub record Counted (config : BulkheadConfig) (w : World) : Type 0 where
  pub config_kept : w.bulkhead.config ≡ config
  pub permits : w.bulkhead.permits + total holds w.callers ≡ config.max_concurrent
  pub queued : w.bulkhead.queued ≡ total in_queue w.callers % u64_mod
  pub in_flight : w.bulkhead.in_flight ≡ total flies w.callers % u64_mod
  pub rejected : w.bulkhead.total_rejected % u64_mod ≡ total was_rejected w.callers % u64_mod
  pub completed : w.bulkhead.total_completed % u64_mod ≡ total has_completed w.callers % u64_mod

move-Counted :
    (config : BulkheadConfig) (b b' : Bulkhead) (xs ys : List Caller) (p p' : Caller)
    → Balance b b' p p'
    → Counted config (record { bulkhead = b; callers = xs ++ (p ∷ ys) })
    → Counted config (record { bulkhead = b'; callers = xs ++ (p' ∷ ys) })
move-Counted config b b' xs ys p p' m i = record {
  config_kept = m.config ∙ i.config_kept;
  permits = omega (arith, m.permits, i.permits, total-middle holds xs ys p p');
  queued = omega (arith, m.queued, m.queued_word, i.queued, total-middle in_queue xs ys p p');
  in_flight = omega (arith, m.in_flight, m.flight_word, i.in_flight, total-middle flies xs ys p p');
  rejected = omega (arith, m.rejected, i.rejected, total-middle was_rejected xs ys p p');
  completed = omega (arith, m.completed, i.completed, total-middle has_completed xs ys p p');
}

Step-Counted :
    (config : BulkheadConfig) (v w : World) → Step v w → Counted config v → Counted config w
Step-Counted config v w arrive i = ground arith
Step-Counted config v w (move xs ys p p' b e m) i =
    move-Counted config v.bulkhead b xs ys p p' (Move-Balance v.bulkhead b p p' m)
      (subst (λ ps. Counted config (record { bulkhead = v.bulkhead; callers = ps })) e i)

-- In every reachable state the permits and their holders add up to `max_concurrent`, so that no more
-- than `max_concurrent` callers run, and `queued`, `in_flight` and the two totals count the callers,
-- modulo 2^64, where `queued` and `in_flight` count those that were dropped in them too.
pub Reach-Counted : (config : BulkheadConfig) (w : World) → Reach config w → Counted config w
Reach-Counted config w here = record {
  config_kept = refl;
  permits = omega arith;
  queued = refl;
  in_flight = refl;
  rejected = refl;
  completed = refl;
}
Reach-Counted config w (next {v} r st) = Step-Counted config v w st (Reach-Counted config v r)

-- Dropped callers
abbrev pub dropped_in_flight : Caller → ℕ
dropped_in_flight dropped_running = 1
dropped_in_flight _ = 0

abbrev pub dropped_in_queue : Caller → ℕ
dropped_in_queue (dropped_acquiring true) = 1
dropped_in_queue _ = 0

abbrev Weights : Caller → Type 0
Weights p =
    (dropped_in_flight p ≤ flies p)
    × (dropped_in_queue p ≤ in_queue p)
    × (flies p ≤ 1)
    × (in_queue p ≤ 1)

weights : (p : Caller) → Weights p
weights p = grind arith

total-le :
    (f g : Caller → ℕ) → ((p : Caller) → f p ≤ g p) → (ps : List Caller) → total f ps ≤ total g ps
total-le f g h [] = omega arith
total-le f g h (p ∷ ps) = omega (arith, h p, total-le f g h ps)

total-length :
    (f : Caller → ℕ) → ((p : Caller) → f p ≤ 1) → (ps : List Caller) → total f ps ≤ length ps
total-length f h [] = omega arith
total-length f h (p ∷ ps) = omega (arith, h p, total-length f h ps)

-- Once as many callers were dropped while they ran as may run, and as many while they queued as may
-- queue, every caller that loads the counters is refused, whatever permits are free; fewer than 2^64
-- callers came.
pub dropped_shut :
    (config : BulkheadConfig) (w : World)
    → Reach config w
    → length w.callers < u64_mod
    → config.max_concurrent ≤ total dropped_in_flight w.callers
    → config.max_queue_size ≤ total dropped_in_queue w.callers
    → checked w.bulkhead.config w.bulkhead.in_flight w.bulkhead.queued
      ≡ refused (BulkheadError.rejected "concurrency and queue limits both reached")
unfolding checked
dropped_shut config w r few running waiting =
    let ps = w.callers in
    let i = Reach-Counted config w r in
    ground (
      arith,
      i.config_kept,
      i.queued,
      i.in_flight,
      total-le dropped_in_flight flies (λ p. (weights p).0) ps,
      total-le dropped_in_queue in_queue (λ p. (weights p).1) ps,
      total-length flies (λ p. (weights p).2) ps,
      total-length in_queue (λ p. (weights p).3) ps,
    )
