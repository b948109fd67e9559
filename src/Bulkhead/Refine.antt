-- ===== src/Bulkhead/Refine.antt =====
-- The bulkhead as a counting semaphore that answers its callers.
use helix_router_adaptive_as.Common.{
  ℕ, suc, ◌≡◌, refl, true, false, List, ◌∷◌, ◌++◌, none, some, arith, subst, sym,
}
use helix_router_adaptive_as.Bulkhead.{
  BulkheadConfig, Bulkhead, Caller, output, failed, answered, checked, Move, World, Step, arrive,
  move, Reach, here, next, load_in_flight, load_queued, count_refusal, enter_queue, acquire,
  find_closed, wait_too_long, leave_queue, count_in, run, count_out, count_completed, count_timeout,
  release, drop_acquiring, drop_running,
}
use helix_router_adaptive_as.Bulkhead.Slots.{total, total-middle, holds}

abbrev pub has_output : Caller → ℕ
has_output (answered output) = 1
has_output _ = 0

abbrev pub has_error : Caller → ℕ
has_error (answered (failed e)) = 1
has_error _ = 0

-- Free slots, slots taken, and the answers so far.
pub record Slots : Type 0 where
  pub free : ℕ
  pub taken : ℕ
  pub outputs : ℕ
  pub errors : ℕ

-- What a bulkhead promises: a slot is taken only where one is free, and whoever gets an answer gives
-- its slot back at once, or never had one.
pub data SlotStep (a b : Slots) : Type 0 where
  stay :
      b.free ≡ a.free
      → b.taken ≡ a.taken
      → b.outputs ≡ a.outputs
      → b.errors ≡ a.errors
      → SlotStep a b
  take :
      suc b.free ≡ a.free
      → b.taken ≡ suc a.taken
      → b.outputs ≡ a.outputs
      → b.errors ≡ a.errors
      → SlotStep a b
  give :
      b.free ≡ suc a.free
      → suc b.taken ≡ a.taken
      → b.outputs ≡ suc a.outputs
      → b.errors ≡ a.errors
      → SlotStep a b
  expire :
      b.free ≡ suc a.free
      → suc b.taken ≡ a.taken
      → b.outputs ≡ a.outputs
      → b.errors ≡ suc a.errors
      → SlotStep a b
  abandon :
      b.free ≡ suc a.free
      → suc b.taken ≡ a.taken
      → b.outputs ≡ a.outputs
      → b.errors ≡ a.errors
      → SlotStep a b
  refuse :
      b.free ≡ a.free
      → b.taken ≡ a.taken
      → b.outputs ≡ a.outputs
      → b.errors ≡ suc a.errors
      → SlotStep a b

pub data Allowed (limit : ℕ) : Slots → Type 0 where
  fresh : Allowed limit (record { free = limit; taken = 0; outputs = 0; errors = 0 })
  and_then : {a b : Slots} → Allowed limit a → SlotStep a b → Allowed limit b

abbrev pub slots_of : World → Slots
slots_of w = record {
  free = w.bulkhead.permits;
  taken = total holds w.callers;
  outputs = total has_output w.callers;
  errors = total has_error w.callers;
}

abbrev pub alone : Bulkhead → Caller → Slots
alone b p = record {
  free = b.permits;
  taken = holds p;
  outputs = has_output p;
  errors = has_error p;
}

Move-SlotStep :
    (b b' : Bulkhead) (p p' : Caller) → Move b p b' p' → SlotStep (alone b p) (alone b' p')
unfolding checked
Move-SlotStep b b' p p' load_in_flight = stay refl refl refl refl
Move-SlotStep b b' p p' (load_queued {n}) = stay refl (ground arith) (ground arith) (ground arith)
Move-SlotStep b b' p p' count_refusal = refuse refl refl refl refl
Move-SlotStep b b' p p' enter_queue = stay refl refl refl refl
Move-SlotStep b b' p p' (acquire {needs = true} permits e) = take (sym e) refl refl refl
Move-SlotStep b b' p p' (acquire {needs = false} permits e) = take (sym e) refl refl refl
Move-SlotStep b b' p p' (find_closed {needs = true} e) = stay refl refl refl refl
Move-SlotStep b b' p p' (find_closed {needs = false} e) = stay refl refl refl refl
Move-SlotStep b b' p p' (wait_too_long {needs = true}) = stay refl refl refl refl
Move-SlotStep b b' p p' (wait_too_long {needs = false}) = stay refl refl refl refl
Move-SlotStep b b' p p' (leave_queue {result = none}) = stay refl refl refl refl
Move-SlotStep b b' p p' (leave_queue {result = some e}) = stay refl refl refl refl
Move-SlotStep b b' p p' count_in = stay refl refl refl refl
Move-SlotStep b b' p p' (run t) = stay refl refl refl refl
Move-SlotStep b b' p p' count_out = stay refl refl refl refl
Move-SlotStep b b' p p' count_completed = stay refl refl refl refl
Move-SlotStep b b' p p' count_timeout = stay refl refl refl refl
Move-SlotStep b b' p p' (release {in_time = true}) = give refl refl refl refl
Move-SlotStep b b' p p' (release {in_time = false}) = expire refl refl refl refl
Move-SlotStep b b' p p' (drop_acquiring {needs = true}) = stay refl refl refl refl
Move-SlotStep b b' p p' (drop_acquiring {needs = false}) = stay refl refl refl refl
Move-SlotStep b b' p p' drop_running = abandon refl refl refl refl

among :
    (b b' : Bulkhead) (xs ys : List Caller) (p p' : Caller)
    → SlotStep (alone b p) (alone b' p')
    → SlotStep
        (slots_of (record { bulkhead = b; callers = xs ++ (p ∷ ys) }))
        (slots_of (record { bulkhead = b'; callers = xs ++ (p' ∷ ys) }))
among b b' xs ys p p' s =
    let t = total-middle holds xs ys p p' in
    let o = total-middle has_output xs ys p p' in
    let e = total-middle has_error xs ys p p' in
    elim s [
      | stay f t' o' e' ↦ stay f (omega arith) (omega arith) (omega arith)
      | take f t' o' e' ↦ take f (omega arith) (omega arith) (omega arith)
      | give f t' o' e' ↦ give f (omega arith) (omega arith) (omega arith)
      | expire f t' o' e' ↦ expire f (omega arith) (omega arith) (omega arith)
      | abandon f t' o' e' ↦ abandon f (omega arith) (omega arith) (omega arith)
      | refuse f t' o' e' ↦ refuse f (omega arith) (omega arith) (omega arith)
    ]

Step-SlotStep : (v w : World) → Step v w → SlotStep (slots_of v) (slots_of w)
Step-SlotStep v w arrive = stay refl (omega arith) (omega arith) (omega arith)
Step-SlotStep v w (move xs ys p p' b e m) =
    subst
      (λ ps.
        SlotStep (slots_of (record { bulkhead = v.bulkhead; callers = ps }))
          (slots_of (record { bulkhead = b; callers = xs ++ (p' ∷ ys) })))
      (sym e) (among v.bulkhead b xs ys p p' (Move-SlotStep v.bulkhead b p p' m))

-- The bulkhead implements a counting semaphore of `max_concurrent` slots: whatever the order in which
-- callers load and change the counters, a run of it is a run of that specification, in which a slot is
-- taken only where one is free, and is given back with the output or the time out of its holder or
-- with the drop of it, while callers that are refused have none.
pub Reach-Allowed :
    (config : BulkheadConfig) (w : World)
    → Reach config w
    → Allowed config.max_concurrent (slots_of w)
Reach-Allowed config w here = fresh
Reach-Allowed config w (next {v} r st) = and_then (Reach-Allowed config v r) (Step-SlotStep v w st)
