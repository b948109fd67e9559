-- ===== src/SlaQueue.antt =====
-- src/sla_queue.rs: the priority queue with urgency that grows by age. `std::collections::BinaryHeap`
-- is a list of its entries and the function `take_max`, which is what its `pop` does. The priorities
-- are `i64` in the code; they are never negative and reach their bound only after a job has waited
-- for 2^63 microseconds.
pub mod Laws
use helix_router_adaptive_as.Common.{
  ℕ, ◌+◌, ◌-◌, ◌*◌, ◌/◌, Bool, true, false, not, List, [], ◌∷◌, Option, none, some, ltb,
  if◌then◌else◌, length, map, retain,
}
use helix_router_adaptive_as.Words.{add_u64}
use helix_router_adaptive_as.Floats.{Floats}
use helix_router_adaptive_as.Types.{Job}

pub data SlaClass : Type 0 where
  critical high normal batch : SlaClass

abbrev pub sla_ms : SlaClass → ℕ
sla_ms SlaClass.critical = 50
sla_ms SlaClass.high = 200
sla_ms SlaClass.normal = 1_000
sla_ms SlaClass.batch = 10_000

abbrev pub base_priority : SlaClass → ℕ
base_priority SlaClass.critical = 4_000
base_priority SlaClass.high = 3_000
base_priority SlaClass.normal = 2_000
base_priority SlaClass.batch = 1_000

pub record SlaJob (fl : Floats) : Type 0 where
  pub job : Job fl
  pub sla_class : SlaClass
  pub enqueued_at : ℕ
  pub effective_priority : ℕ

pub record ClassStats : Type 0 where
  pub enqueued : ℕ
  pub dequeued : ℕ
  pub expired : ℕ

-- `HashMap<SlaClass, ClassStats>` with all four keys, which `new` inserts and nothing removes.
pub record PerClass : Type 0 where
  pub critical : ClassStats
  pub high : ClassStats
  pub normal : ClassStats
  pub batch : ClassStats

abbrev pub modify_class : SlaClass → (ClassStats → ClassStats) → PerClass → PerClass
modify_class SlaClass.critical f p = record p { critical = f p.critical }
modify_class SlaClass.high f p = record p { high = f p.high }
modify_class SlaClass.normal f p = record p { normal = f p.normal }
modify_class SlaClass.batch f p = record p { batch = f p.batch }

pub record SlaQueue (fl : Floats) : Type 0 where
  pub heap : List (SlaJob fl)
  pub total_enqueued : ℕ
  pub total_dequeued : ℕ
  pub total_expired : ℕ
  pub class_stats : PerClass

abbrev pub no_class_stats : ClassStats
no_class_stats = record { enqueued = 0; dequeued = 0; expired = 0 }

abbrev pub new_queue : {fl : Floats} → SlaQueue fl
new_queue = record {
  heap = [];
  total_enqueued = 0;
  total_dequeued = 0;
  total_expired = 0;
  class_stats = record {
    critical = no_class_stats;
    high = no_class_stats;
    normal = no_class_stats;
    batch = no_class_stats;
  };
}

abbrev pub note_enqueued : ClassStats → ClassStats
note_enqueued c = record c { enqueued = add_u64 c.enqueued 1 }

abbrev pub note_dequeued : ClassStats → ClassStats
note_dequeued c = record c { dequeued = add_u64 c.dequeued 1 }

abbrev pub note_expired : ClassStats → ClassStats
note_expired c = record c { expired = add_u64 c.expired 1 }

module _ {fl : Floats} where
  abbrev pub new_sla_job : Job fl → SlaClass → ℕ → SlaJob fl
  new_sla_job job class now = record {
    job = job;
    sla_class = class;
    enqueued_at = now;
    effective_priority = base_priority class;
  }

  -- `(elapsed_ms * 1_000) / sla_ms`, where no class has a deadline of 0.
  abbrev pub age_boost : ℕ → SlaJob fl → ℕ
  age_boost now sj =
      if ltb 0 (sla_ms sj.sla_class)
      then (now - sj.enqueued_at) * 1_000 / sla_ms sj.sla_class
      else 0

  unfoldable pub rescore : ℕ → SlaJob fl → SlaJob fl
  rescore now sj = record sj { effective_priority = base_priority sj.sla_class + age_boost now sj }

  abbrev pub is_expired : ℕ → SlaJob fl → Bool
  is_expired now sj = ltb (sla_ms sj.sla_class) (now - sj.enqueued_at)

  unfoldable pub push_job : SlaQueue fl → Job fl → SlaClass → ℕ → SlaQueue fl
  push_job q job class now = record q {
    heap = new_sla_job job class now ∷ q.heap;
    total_enqueued = add_u64 q.total_enqueued 1;
    class_stats = modify_class class note_enqueued q.class_stats;
  }

  -- The queue after `take_max`, which returns what the heap's `pop` returns and leaves.
  abbrev pub popped :
      SlaQueue fl → Option (SlaJob fl × List (SlaJob fl)) → Option (SlaJob fl) × SlaQueue fl
  popped q none = (none, q)
  popped q (some (sj, rest)) = (
    some sj,
    record q {
      heap = rest;
      total_dequeued = add_u64 q.total_dequeued 1;
      class_stats = modify_class sj.sla_class note_dequeued q.class_stats;
    },
  )

  -- Every entry is scored again before the greatest is taken.
  unfoldable pub pop_job :
      (List (SlaJob fl) → Option (SlaJob fl × List (SlaJob fl)))
      → SlaQueue fl
      → ℕ
      → Option (SlaJob fl) × SlaQueue fl
  pop_job take_max q now =
      let fresh = map (rescore now) q.heap in popped (record q { heap = fresh }) (take_max fresh)

  abbrev pub note_all_expired : List (SlaJob fl) → PerClass → PerClass
  note_all_expired [] p = p
  note_all_expired (sj ∷ sjs) p = note_all_expired sjs (modify_class sj.sla_class note_expired p)

  unfoldable pub drain_expired : SlaQueue fl → ℕ → List (SlaJob fl) × SlaQueue fl
  drain_expired q now =
      let gone = retain (is_expired now) q.heap in
      (
        gone,
        record q {
          heap = retain (λ sj. not (is_expired now sj)) q.heap;
          total_expired = add_u64 q.total_expired (length gone);
          class_stats = note_all_expired gone q.class_stats;
        },
      )
