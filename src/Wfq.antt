-- ===== src/Wfq.antt =====
-- src/wfq.rs: weighted fair queuing by deficit round robin. The clock is the function `wait`, from
-- the time at which an entry was enqueued to how long it has waited.
pub mod Laws
mod Credit
pub mod Next
use helix_router_adaptive_as.Common.{
  ℕ, zero, suc, ◌+◌, ◌-◌, ◌*◌, ◌%◌, ◌&&◌, eqb, ltb, String, Bool, true, false, List, [], ◌∷◌, ◌++◌,
  Option, none, some, leb, if◌then◌else◌, length, map, string_key,
}
use helix_router_adaptive_as.Common.Maps.{Map, get, insert, modify}
use helix_router_adaptive_as.Words.{add_u64, sub_u64, u64_mod}
use helix_router_adaptive_as.Floats.{Floats}
use helix_router_adaptive_as.Types.{Job, kind_to_string}

pub record WfqClass : Type 0 where
  pub name : String
  pub weight : ℕ

pub record WfqConfig : Type 0 where
  pub classes : List WfqClass
  pub quantum : ℕ

abbrev pub default_wfq : WfqConfig
default_wfq = record {
  classes =
      record { name = "hash_mix"; weight = 3 }
      ∷ record { name = "prime_count"; weight = 2 }
      ∷ record { name = "monte_carlo_risk"; weight = 1 }
      ∷ [];
  quantum = 1_000;
}

pub record ClassWfqStats (fl : Floats) : Type 0 where
  pub enqueued : ℕ
  pub dequeued : ℕ
  pub current_queue_len : ℕ
  pub avg_wait_ms : fl.F64
  pub total_wait_ms : fl.F64

pub record QueueEntry (fl : Floats) : Type 0 where
  pub job : Job fl
  pub enqueued_at : ℕ

pub record WfqQueue (fl : Floats) : Type 0 where
  pub weight : ℕ
  pub deficit : ℕ
  pub queue : List (QueueEntry fl)

pub record WfqScheduler (fl : Floats) : Type 0 where
  pub class_order : List String
  pub queues : Map String (WfqQueue fl)
  pub quantum : ℕ
  pub stats : Map String (ClassWfqStats fl)
  pub total_enqueued : ℕ
  pub total_dequeued : ℕ

-- What a visit to a class's queue leaves: the jobs served, the credit, and the entries.
pub record Visit (fl : Floats) : Type 0 where
  pub served : List (QueueEntry fl)
  pub credit : ℕ
  pub left : List (QueueEntry fl)

module _ {fl : Floats} where
  abbrev pub no_stats : ClassWfqStats fl
  no_stats = record {
    enqueued = 0;
    dequeued = 0;
    current_queue_len = 0;
    avg_wait_ms = fl.lit64 0;
    total_wait_ms = fl.lit64 0;
  }

  abbrev pub no_queue : ℕ → WfqQueue fl
  no_queue weight = record { weight = weight; deficit = 0; queue = [] }

  -- `WfqScheduler::new`: the loop over the classes, onto what the earlier ones made.
  unfoldable pub register : List WfqClass → WfqScheduler fl → WfqScheduler fl
  register [] s = s
  register (c ∷ cs) s = register cs (record s {
    class_order = s.class_order ++ (c.name ∷ []);
    queues = insert c.name (no_queue c.weight) s.queues;
    stats = insert c.name no_stats s.stats;
  })

  unfoldable pub new_scheduler : WfqConfig → WfqScheduler fl
  new_scheduler config = register config.classes (record {
    class_order = [];
    queues = [];
    quantum = config.quantum;
    stats = [];
    total_enqueued = 0;
    total_dequeued = 0;
  })

  abbrev pub class_for_job : Job fl → String
  class_for_job job = kind_to_string job.kind

  abbrev pub note_push : ℕ → ClassWfqStats fl → ClassWfqStats fl
  note_push len c = record c { enqueued = add_u64 c.enqueued 1; current_queue_len = len }

  abbrev pub pushed : WfqQueue fl → QueueEntry fl → WfqQueue fl
  pushed q e = record q { queue = q.queue ++ (e ∷ []) }

  abbrev pub entry_of : Job fl → ℕ → QueueEntry fl
  entry_of job now = record { job = job; enqueued_at = now }

  -- A job of no class is refused.
  abbrev pub enqueue_in :
      WfqScheduler fl → Job fl → ℕ → Option (WfqQueue fl) → WfqScheduler fl × Bool
  enqueue_in s job now none = (s, false)
  enqueue_in s job now (some q) = (
    record s {
      queues = insert (class_for_job job) (pushed q (entry_of job now)) s.queues;
      stats = modify (class_for_job job) (note_push (length q.queue + 1)) s.stats;
      total_enqueued = add_u64 s.total_enqueued 1;
    },
    true,
  )

  unfoldable pub enqueue : WfqScheduler fl → Job fl → ℕ → WfqScheduler fl × Bool
  enqueue s job now = enqueue_in s job now (get (class_for_job job) s.queues)

  -- `while let Some(entry) = queue.queue.front()`
  unfoldable pub drain_queue : ℕ → List (QueueEntry fl) → Visit fl
  drain_queue credit [] = record { served = []; credit = credit; left = [] }
  drain_queue credit (e ∷ es) =
      let rest = drain_queue (credit - e.job.compute_cost) es in
      if leb e.job.compute_cost credit
      then record rest { served = e ∷ rest.served }
      else record { served = []; credit = credit; left = e ∷ es }

  abbrev pub note_pop : ℕ → ℕ → ClassWfqStats fl → ClassWfqStats fl
  note_pop waited len c =
      let total = fl.add64 c.total_wait_ms (fl.of_ℕ waited) in
      let dequeued = add_u64 c.dequeued 1 in
      record c {
        dequeued = dequeued;
        total_wait_ms = total;
        avg_wait_ms = fl.div64 total (fl.of_ℕ dequeued);
        current_queue_len = len;
      }

  -- The statistics after the entries served, with `left` entries that stay.
  unfoldable pub note_pops :
      (ℕ → ℕ) → ℕ → List (QueueEntry fl) → ClassWfqStats fl → ClassWfqStats fl
  note_pops wait left [] c = c
  note_pops wait left (e ∷ es) c =
      note_pops wait left es (note_pop (wait e.enqueued_at) (length es + left) c)

  -- An emptied queue keeps no credit.
  abbrev pub kept_credit : ℕ → List (QueueEntry fl) → ℕ
  kept_credit credit [] = 0
  kept_credit credit (e ∷ es) = credit

  abbrev pub visit_of : WfqScheduler fl → WfqQueue fl → Visit fl
  visit_of s q = drain_queue (add_u64 q.deficit (s.quantum * q.weight % u64_mod)) q.queue

  abbrev pub visited : (ℕ → ℕ) → String → WfqScheduler fl → WfqQueue fl → Visit fl → WfqScheduler fl
  visited wait class s q v = record s {
    queues =
        insert class (record q { deficit = kept_credit v.credit v.left; queue = v.left }) s.queues;
    stats = modify class (note_pops wait (length v.left) v.served) s.stats;
    total_dequeued = add_u64 s.total_dequeued (length v.served);
  }

  abbrev pub jobs_of : List (QueueEntry fl) → List (Job fl)
  jobs_of = map (λ e. e.job)

  -- An empty queue loses its credit and is passed over.
  abbrev pub serve_queue :
      (ℕ → ℕ)
      → String
      → WfqScheduler fl
      → WfqQueue fl
      → List (QueueEntry fl)
      → WfqScheduler fl × List (Job fl)
  serve_queue wait class s q [] =
      (record s { queues = insert class (record q { deficit = 0 }) s.queues }, [])
  serve_queue wait class s q (_ ∷ _) =
      (visited wait class s q (visit_of s q), jobs_of (visit_of s q).served)

  abbrev pub serve_class :
      (ℕ → ℕ) → String → WfqScheduler fl → Option (WfqQueue fl) → WfqScheduler fl × List (Job fl)
  serve_class wait class s none = (s, [])
  serve_class wait class s (some q) = serve_queue wait class s q q.queue

  unfoldable pub drain_classes :
      (ℕ → ℕ) → List String → WfqScheduler fl → WfqScheduler fl × List (Job fl)
  drain_classes wait [] s = (s, [])
  drain_classes wait (class ∷ rest) s =
      let (t, jobs) = serve_class wait class s (get class s.queues) in
      let (u, more) = drain_classes wait rest t in (u, jobs ++ more)

  -- One round over all classes, in the order of their registration.
  unfoldable pub drain_round : (ℕ → ℕ) → WfqScheduler fl → WfqScheduler fl × List (Job fl)
  drain_round wait s = drain_classes wait s.class_order s

  abbrev pub waiting_in : Map String (WfqQueue fl) → ℕ
  waiting_in [] = 0
  waiting_in ((name, q) ∷ m) = length q.queue + waiting_in m

  abbrev pub len : WfqScheduler fl → ℕ
  len s = waiting_in s.queues

  abbrev pub deficit_of : WfqScheduler fl → String → Option ℕ
  deficit_of s class = elim (get class s.queues) [ none ↦ none | some q ↦ some q.deficit ]

  abbrev pub note_return : ℕ → ClassWfqStats fl → ClassWfqStats fl
  note_return len c = record c {
    dequeued = if ltb 0 c.dequeued then c.dequeued - 1 else c.dequeued;
    enqueued = add_u64 c.enqueued 1;
    current_queue_len = len;
  }

  -- A job that a round handed out, put back at the front of its class.
  abbrev pub put_back_in : Job fl → ℕ → WfqScheduler fl → Option (WfqQueue fl) → WfqScheduler fl
  put_back_in job now s none = s
  put_back_in job now s (some q) = record s {
    queues = insert (class_for_job job) (record q { queue = entry_of job now ∷ q.queue }) s.queues;
    stats = modify (class_for_job job) (note_return (length q.queue + 1)) s.stats;
    total_dequeued = sub_u64 s.total_dequeued 1;
    total_enqueued = add_u64 s.total_enqueued 1;
  }

  -- `rest.into_iter().rev()`: the last of the jobs first.
  unfoldable pub put_back : List (Job fl) → ℕ → WfqScheduler fl → WfqScheduler fl
  put_back [] now s = s
  put_back (job ∷ jobs) now s =
      let t = put_back jobs now s in put_back_in job now t (get (class_for_job job) t.queues)

  abbrev pub no_entries : List (QueueEntry fl) → Bool
  no_entries [] = true
  no_entries (_ ∷ _) = false

  unfoldable pub all_empty : Map String (WfqQueue fl) → Bool
  all_empty [] = true
  all_empty ((name, q) ∷ m) = no_entries q.queue && all_empty m

  -- A round's jobs: the first is returned, the others go back. Without one, `none` asks for another
  -- round.
  abbrev pub next_of :
      ℕ → WfqScheduler fl → List (Job fl) → Option (WfqScheduler fl × Option (Job fl))
  next_of now t [] = if all_empty t.queues then some (t, none) else none
  next_of now t (first ∷ rest) = some (put_back rest now t, some first)

  -- The loop, where `none` says that the fuel of rounds ran out.
  unfoldable pub next_loop :
      ℕ → (ℕ → ℕ) → ℕ → WfqScheduler fl → Option (WfqScheduler fl × Option (Job fl))
  next_loop zero wait now s = none
  next_loop (suc fuel) wait now s =
      let (t, jobs) = drain_round wait s in
      elim (next_of now t jobs) [ some r ↦ some r | none ↦ next_loop fuel wait now t ]

  unfoldable pub next_job :
      ℕ → (ℕ → ℕ) → ℕ → WfqScheduler fl → Option (WfqScheduler fl × Option (Job fl))
  next_job fuel wait now s =
      if eqb s.total_enqueued s.total_dequeued && all_empty s.queues
      then some (s, none)
      else next_loop fuel wait now s
