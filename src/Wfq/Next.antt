-- ===== src/Wfq/Next.antt =====
-- `next_job` ends, by the credit that a waiting class gains.
use helix_router_adaptive_as.Common.{
  ℕ, zero, suc, ◌+◌, ◌-◌, ◌*◌, ◌%◌, ◌≤◌, ◌<◌, max, ◌≡◌, refl, inl, inr, String, false, List, [],
  ◌∷◌, Option, none, some, eqb, string_key, arith, Bool-cases,
}
use helix_router_adaptive_as.Common.Maps.{Map, get}
use helix_router_adaptive_as.Words.{u64_mod}
use helix_router_adaptive_as.Floats.{Floats}
use helix_router_adaptive_as.Types.{Job}
use helix_router_adaptive_as.Wfq.{
  QueueEntry, WfqQueue, WfqScheduler, drain_classes, drain_round, all_empty, next_of, next_loop,
  next_job,
}
use helix_router_adaptive_as.Wfq.Credit.{Listed, waiting, Waits, drain_classes-Rose}

module _ {fl : Floats} where
  -- Where a job is handed out.
  abbrev pub Found : Option (WfqScheduler fl × Option (Job fl)) → Type 0
  Found r = (t : WfqScheduler fl) × (job : Job fl) × (r ≡ some (t, some job))

  -- `g` is what the class gains in a visit, and `b` bounds its credit.
  module _ (wait : ℕ → ℕ) (k : String) (w : ℕ) (e : QueueEntry fl) (es : List (QueueEntry fl))
      (g b : ℕ) (fits : b + g < u64_mod) (covers : e.job.compute_cost ≤ b) where
    waits-all_empty :
        (d : ℕ) (m : Map String (WfqQueue fl))
        → get k m ≡ some (waiting w e es d)
        → all_empty m ≡ false
    unfolding get all_empty
    waits-all_empty d [] h = absurd cc
    waits-all_empty d ((j, q) ∷ m) h = ground (arith, waits-all_empty d m)

    -- One round, where the rounds that follow an idle one hand out a job.
    next_round :
        (now d : ℕ) (s : WfqScheduler fl)
        (later : WfqScheduler fl → Option (WfqScheduler fl × Option (Job fl))) (t : WfqScheduler fl)
        (jobs : List (Job fl))
        → (jobs ≡ [] → Found (later t) × (all_empty t.queues ≡ false))
        → Found (elim (next_of now t jobs) [ some r ↦ some r | none ↦ later t ])
    next_round now d s later t (job ∷ rest) h = (_, _, refl)
    next_round now d s later t [] h = rw (h refl).1 (h refl).0

    next_loop_lem :
        (fuel now d : ℕ) (s : WfqScheduler fl)
        → s.quantum * w % u64_mod ≡ g
        → 0 < g
        → Listed k s.class_order
        → d ≤ b
        → b - d < fuel
        → Waits k w e es d s
        → Found (next_loop fuel wait now s)
    unfolding next_loop drain_round
    next_loop_lem zero now d s eg pos l le enough h = absurd (omega arith)
    next_loop_lem (suc fuel) now d s eg pos l le enough h =
        let r = drain_classes wait s.class_order s in
        next_round now d s (λ t. next_loop fuel wait now t) r.0 r.1
          λ idle.
            let rose =
              drain_classes-Rose wait k w e es g b fits covers s.class_order d s eg le h idle in
            let share = rose.share l in
            (
              next_loop_lem fuel now rose.credit (drain_classes wait s.class_order s).0
                  (rw rose.gained.quantum_kept eg) pos (rw rose.gained.order_kept l) rose.at_most
                  (omega (arith, rose.at_most)) rose.gained.waits,
              waits-all_empty rose.credit r.0.queues rose.gained.waits,
            )

  -- While a registered class waits, `next_job` ends and hands out a job: the class gains its share in
  -- every round, so that as many rounds as its first job costs above the class's credit, and one,
  -- are enough. The share is positive and the credit does not overflow.
  pub next_job_lem :
      (wait : ℕ → ℕ) (now : ℕ) (s : WfqScheduler fl) (k : String) (w d : ℕ) (e : QueueEntry fl)
      (es : List (QueueEntry fl)) (fuel : ℕ)
      → Listed k s.class_order
      → Waits k w e es d s
      → 0 < s.quantum * w % u64_mod
      → max d e.job.compute_cost + s.quantum * w % u64_mod < u64_mod
      → e.job.compute_cost - d < fuel
      → Found (next_job fuel wait now s)
  unfolding next_job
  next_job_lem wait now s k w d e es fuel l h pos fits enough =
      let g = s.quantum * w % u64_mod in
      let b = max d e.job.compute_cost in
      let found =
        next_loop_lem wait k w e es g b fits (omega arith) fuel now d s refl pos l (omega arith)
          (omega arith) h in
      rw (waits-all_empty wait k w e es g b fits (omega arith) d s.queues h)
        (elim (Bool-cases (eqb s.total_enqueued s.total_dequeued)) [
          | inl y ↦ rw y found
          | inr n ↦ rw n found
        ])
