-- ===== src/Bulkhead/Slots.antt =====
-- The counts of callers at each place, and that each move accounts for its change of a counter.
use helix_router_adaptive_as.Common.{
  ℕ, ◌+◌, ◌%◌, ◌<◌, ◌≡◌, true, false, List, [], ◌∷◌, ◌++◌, none, some, arith,
}
use helix_router_adaptive_as.Words.{u64_mod}
use helix_router_adaptive_as.Bulkhead.{
  Bulkhead, output, failed, Caller, acquiring, unqueueing, admitted, running, finished, counting,
  leaving, answered, dropped_acquiring, dropped_running, checked, Move, load_in_flight, load_queued,
  count_refusal, enter_queue, acquire, find_closed, wait_too_long, leave_queue, count_in, run,
  count_out, count_completed, count_timeout, release, drop_acquiring, drop_running,
}

abbrev pub total : {A : Type 0} → (A → ℕ) → List A → ℕ
total w [] = 0
total w (p ∷ ps) = w p + total w ps

pub total-middle :
    {A : Type 0} (w : A → ℕ) (xs ys : List A) (p q : A)
    → total w (xs ++ (p ∷ ys)) + w q ≡ total w (xs ++ (q ∷ ys)) + w p
total-middle w [] ys p q = omega arith
total-middle w (x ∷ xs) ys p q = omega (arith, total-middle w xs ys p q)

-- The callers that hold a permit
abbrev pub holds : Caller → ℕ
holds (unqueueing none) = 1
holds admitted = 1
holds running = 1
holds (finished b) = 1
holds (counting b) = 1
holds (leaving b) = 1
holds _ = 0

-- Those that the counter `queued` counts, dropped ones too
abbrev pub in_queue : Caller → ℕ
in_queue (acquiring true) = 1
in_queue (unqueueing r) = 1
in_queue (dropped_acquiring true) = 1
in_queue _ = 0

-- Those that the counter `in_flight` counts, dropped ones too
abbrev pub flies : Caller → ℕ
flies running = 1
flies (finished b) = 1
flies dropped_running = 1
flies _ = 0

abbrev pub was_rejected : Caller → ℕ
was_rejected (leaving false) = 1
was_rejected (answered (failed e)) = 1
was_rejected _ = 0

abbrev pub has_completed : Caller → ℕ
has_completed (leaving true) = 1
has_completed (answered output) = 1
has_completed _ = 0

-- What the counters have to do with the counts.
pub record Balance (b b' : Bulkhead) (p p' : Caller) : Type 0 where
  pub permits : b'.permits + holds p' ≡ b.permits + holds p
  pub queued : (b'.queued + in_queue p) % u64_mod ≡ (b.queued + in_queue p') % u64_mod
  pub in_flight : (b'.in_flight + flies p) % u64_mod ≡ (b.in_flight + flies p') % u64_mod
  pub rejected :
      (b'.total_rejected + was_rejected p) % u64_mod
      ≡ (b.total_rejected + was_rejected p') % u64_mod
  pub completed :
      (b'.total_completed + has_completed p) % u64_mod
      ≡ (b.total_completed + has_completed p') % u64_mod
  pub config : b'.config ≡ b.config
  pub queued_word : b.queued < u64_mod → b'.queued < u64_mod
  pub flight_word : b.in_flight < u64_mod → b'.in_flight < u64_mod

pub Move-Balance : (b b' : Bulkhead) (p p' : Caller) → Move b p b' p' → Balance b b' p p'
unfolding checked
Move-Balance b b' p p' load_in_flight = ground arith
Move-Balance b b' p p' (load_queued {n}) = ground arith
Move-Balance b b' p p' count_refusal = ground arith
Move-Balance b b' p p' enter_queue = ground arith
Move-Balance b b' p p' (acquire {needs = true} permits e) = ground arith
Move-Balance b b' p p' (acquire {needs = false} permits e) = ground arith
Move-Balance b b' p p' (find_closed {needs = true} e) = ground arith
Move-Balance b b' p p' (find_closed {needs = false} e) = ground arith
Move-Balance b b' p p' (wait_too_long {needs = true}) = ground arith
Move-Balance b b' p p' (wait_too_long {needs = false}) = ground arith
Move-Balance b b' p p' (leave_queue {result = none}) = ground arith
Move-Balance b b' p p' (leave_queue {result = some e}) = ground arith
Move-Balance b b' p p' count_in = ground arith
Move-Balance b b' p p' (run t) = ground arith
Move-Balance b b' p p' count_out = ground arith
Move-Balance b b' p p' count_completed = ground arith
Move-Balance b b' p p' count_timeout = ground arith
Move-Balance b b' p p' (release {in_time = true}) = ground arith
Move-Balance b b' p p' (release {in_time = false}) = ground arith
Move-Balance b b' p p' (drop_acquiring {needs = true}) = ground arith
Move-Balance b b' p p' (drop_acquiring {needs = false}) = ground arith
Move-Balance b b' p p' drop_running = ground arith
