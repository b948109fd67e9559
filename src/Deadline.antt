-- ===== src/Deadline.antt =====
-- src/deadline.rs: the scheduler that runs the job with the earliest deadline first. `pop` is the
-- heap's, instants are nanoseconds, and what the router answers to a job, and when, is an argument.
pub mod Laws
use helix_router_adaptive_as.Common.{
  ℕ, zero, suc, ◌+◌, ◌-◌, ◌/◌, min, Bool, true, false, ◌&&◌, ◌||◌, List, [], ◌∷◌, ◌++◌, Option,
  none, some, ltb, leb, eqb, length, if◌then◌else◌,
}
use helix_router_adaptive_as.Words.{add_u64, u64_mod}
use helix_router_adaptive_as.Floats.{Floats}
use helix_router_adaptive_as.Types.{Job, Output}

-- A job with its deadline and its priority; the heap's entry has the same fields.
pub record DeadlineJob (fl : Floats) : Type 0 where
  pub job : Job fl
  pub deadline : ℕ
  pub priority : ℕ

-- Milliseconds before a deadline, an `i64`: `over n` is `-n`.
pub data Slack : Type 0 where
  left : (ms : ℕ) → Slack
  over : (ms : ℕ) → Slack

pub data DeadlineEvent (fl : Floats) : Type 0 where
  completed : (job_id : ℕ) → (outputs : List (Output fl)) → (slack_ms : Slack) → DeadlineEvent fl
  dropped : (job_id : ℕ) → (slack_ms : Slack) → DeadlineEvent fl
  missed : (job_id : ℕ) → (overdue_ms : ℕ) → (priority : ℕ) → DeadlineEvent fl

-- `SchedulerInner`, with the events that were sent, the latest first.
pub record Scheduler (fl : Floats) : Type 0 where
  pub queue : List (DeadlineJob fl)
  pub events : List (DeadlineEvent fl)
  pub miss_count : ℕ
  pub completed_count : ℕ
  pub dropped_count : ℕ

-- What the router does with a job: when it gets it, when it answers, and the answer of `submit`.
pub record Dispatch (fl : Floats) : Type 0 where
  pub dispatched_at : ℕ
  pub answered_at : ℕ
  pub reply : Option (List (Output fl))

abbrev pub millis : ℕ → ℕ
millis ns = ns / 1_000_000

abbrev pub slack_of : ℕ → ℕ → Slack
slack_of deadline now =
    if leb now deadline then left (millis (deadline - now)) else over (millis (now - deadline))

module _ {fl : Floats} where
  abbrev pub new_scheduler : Scheduler fl
  new_scheduler = record {
    queue = [];
    events = [];
    miss_count = 0;
    completed_count = 0;
    dropped_count = 0;
  }

  -- `HeapEntry::cmp`: an earlier deadline is greater, then a higher priority.
  abbrev pub runs_first : DeadlineJob fl → DeadlineJob fl → Bool
  runs_first a b =
      ltb a.deadline b.deadline || (eqb a.deadline b.deadline && leb b.priority a.priority)

  abbrev pub push : DeadlineJob fl → Scheduler fl → Scheduler fl
  push job s = record s { queue = job ∷ s.queue }

  unfoldable pub miss : ℕ → DeadlineJob fl → Scheduler fl → Scheduler fl
  miss now d s = record s {
    miss_count = add_u64 s.miss_count 1;
    events = missed d.job.id (min (millis (now - d.deadline)) (u64_mod - 1)) d.priority ∷ s.events;
  }

  -- What `pop` gave: a job whose deadline has passed is missed, any other one is to run.
  unfoldable pub drain_next :
      ℕ
      → Scheduler fl
      → (Scheduler fl → Scheduler fl × List (DeadlineJob fl))
      → Option (DeadlineJob fl × List (DeadlineJob fl))
      → Scheduler fl × List (DeadlineJob fl)
  drain_next now s more none = (s, [])
  drain_next now s more (some (d, rest)) =
      let t = record s { queue = rest } in
      let (u, jobs) = more (if leb d.deadline now then miss now d t else t) in
      (u, if leb d.deadline now then jobs else d ∷ jobs)

  -- `while let Some(entry) = q.peek()`: the scheduler afterwards, and the jobs to run.
  unfoldable pub drain_heap :
      ℕ
      → (List (DeadlineJob fl) → Option (DeadlineJob fl × List (DeadlineJob fl)))
      → ℕ
      → Scheduler fl
      → Scheduler fl × List (DeadlineJob fl)
  drain_heap zero pop now s = (s, [])
  drain_heap (suc fuel) pop now s = drain_next now s (λ t. drain_heap fuel pop now t) (pop s.queue)

  abbrev pub note_reply :
      DeadlineJob fl → Dispatch fl → Option (List (Output fl)) → Scheduler fl → Scheduler fl
  note_reply d run (some outputs) s = record s {
    completed_count = add_u64 s.completed_count 1;
    events = completed d.job.id outputs (slack_of d.deadline run.answered_at) ∷ s.events;
  }
  note_reply d run none s = record s {
    dropped_count = add_u64 s.dropped_count 1;
    events = dropped d.job.id (slack_of d.deadline run.dispatched_at) ∷ s.events;
  }

  -- `for djob in to_run`, from the `n`-th dispatch on
  unfoldable pub dispatch :
      (ℕ → Dispatch fl) → ℕ → List (DeadlineJob fl) → Scheduler fl → Scheduler fl × ℕ
  dispatch runs n [] s = (s, n)
  dispatch runs n (d ∷ ds) s = dispatch runs (suc n) ds (note_reply d (runs n) (runs n).reply s)

  -- As no other task pushes meanwhile
  unfoldable pub drain_ready :
      (List (DeadlineJob fl) → Option (DeadlineJob fl × List (DeadlineJob fl)))
      → ℕ
      → (ℕ → Dispatch fl)
      → Scheduler fl
      → Scheduler fl × ℕ
  drain_ready pop now runs s =
      let (t, jobs) = drain_heap (length s.queue) pop now s in dispatch runs 0 jobs t

  unfoldable pub miss_rate : Scheduler fl → fl.F64
  miss_rate s =
      let total = add_u64 (add_u64 s.miss_count s.completed_count) s.dropped_count in
      if eqb total 0 then fl.lit64 0 else fl.div64 (fl.of_ℕ s.miss_count) (fl.of_ℕ total)
