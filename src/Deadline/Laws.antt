-- ===== src/Deadline/Laws.antt =====
-- Which jobs a drain of the deadline scheduler runs, in which order, and how it accounts for them.
use helix_router_adaptive_as.Common.{
  ℕ, suc, false, min, ◌-◌, ◌++◌, ◌+◌, ◌%◌, ◌≡◌, Bool, true, ◌&&◌, List, [], ◌∷◌, none, some, ltb,
  leb, length, All, count_if,
}
use helix_router_adaptive_as.Words.{u64_mod}
use helix_router_adaptive_as.Floats.{Floats}
use helix_router_adaptive_as.Deadline.{
  DeadlineJob, DeadlineEvent, completed, dropped, missed, millis, slack_of, Scheduler, Dispatch,
  runs_first,
}

module _ {fl : Floats} where
  abbrev pub InOrder : List (DeadlineJob fl) → Type 0
  InOrder [] = Unit
  InOrder (d ∷ ds) = All (λ e. runs_first d e ≡ true) ds × InOrder ds

  -- The event of a job whose deadline has passed: by how much, and with which priority.
  abbrev pub miss_event : ℕ → DeadlineJob fl → DeadlineEvent fl
  miss_event now d = missed d.job.id (min (millis (now - d.deadline)) (u64_mod - 1)) d.priority

  -- What emptying the heap leaves, and the jobs that it finds ready.
  pub record Drained (now : ℕ) (s t : Scheduler fl) (jobs : List (DeadlineJob fl)) : Type 0 where
    pub emptied : t.queue ≡ []
    pub in_order : InOrder jobs
    pub exact :
        (p : DeadlineJob fl → Bool)
        → count_if p jobs ≡ count_if (λ d. ltb now d.deadline && p d) s.queue
    pub missed :
        t.miss_count % u64_mod
        ≡ (s.miss_count + count_if (λ d. leb d.deadline now) s.queue) % u64_mod
    pub reported :
        (p : DeadlineEvent fl → Bool)
        → count_if p t.events
          ≡ count_if p s.events + count_if (λ d. leb d.deadline now && p (miss_event now d)) s.queue
    pub others_kept : (t.completed_count ≡ s.completed_count) × (t.dropped_count ≡ s.dropped_count)

  -- The event that answers a job, by the reply of the router: completed with its outputs and the
  -- slack when the answer came, or dropped with the slack when the job was handed over.
  abbrev pub answer_event : DeadlineJob fl → Dispatch fl → DeadlineEvent fl
  answer_event d run = elim run.reply [
    | some outputs ↦ completed d.job.id outputs (slack_of d.deadline run.answered_at)
    | none ↦ dropped d.job.id (slack_of d.deadline run.dispatched_at)
  ]

  -- The events of jobs of which the `n`-th dispatch takes the first, the latest event first.
  unfoldable pub answer_events :
      (ℕ → Dispatch fl) → ℕ → List (DeadlineJob fl) → List (DeadlineEvent fl)
  answer_events runs n [] = []
  answer_events runs n (d ∷ ds) = answer_events runs (suc n) ds ++ (answer_event d (runs n) ∷ [])

  abbrev pub is_completed : DeadlineEvent fl → Bool
  is_completed (completed _ _ _) = true
  is_completed _ = false

  abbrev pub is_dropped : DeadlineEvent fl → Bool
  is_dropped (dropped _ _) = true
  is_dropped _ = false

  -- What running the jobs leaves, where `answers` are their events.
  pub record Ran (s t : Scheduler fl) (answers : List (DeadlineEvent fl)) : Type 0 where
    pub answered : t.events ≡ answers ++ s.events
    pub completed_counted :
        t.completed_count % u64_mod ≡ (s.completed_count + count_if is_completed answers) % u64_mod
    pub dropped_counted :
        t.dropped_count % u64_mod ≡ (s.dropped_count + count_if is_dropped answers) % u64_mod
    pub all_counted :
        (t.completed_count + t.dropped_count) % u64_mod
        ≡ (s.completed_count + s.dropped_count + length answers) % u64_mod
    pub missed_kept : t.miss_count ≡ s.miss_count
    pub queue_kept : t.queue ≡ s.queue
