-- ===== src/Tests/Heap.antt =====
-- The theorems on the SLA queue, with a selection from a list in place of the standard heap.
use mathlib.Core.Option.{some-injective}
use helix_router_adaptive_as.Common.{
  ℕ, ◌+◌, ◌-◌, ◌≤◌, ◌<◌, ◌≡◌, refl, subst, Bool, true, List, [], ◌∷◌, Option, none, some, ltb,
  if◌then◌else◌, length, map, count_if, All, arith,
}
use helix_router_adaptive_as.SlaQueue.{
  SlaClass, SlaJob, SlaQueue, sla_ms, rescore, push_job, pop_job, drain_expired, new_queue,
  new_sla_job,
}
use helix_router_adaptive_as.SlaQueue.Laws.{
  HeapLaws, pop_most_urgent, Accounted, operations-Accounted, drain_expired_lem,
}
use helix_router_adaptive_as.Tests.Data.{fixed, job_of}

abbrev Entries : Type 0
Entries = List (SlaJob fixed)

abbrev select : SlaJob fixed → Entries → SlaJob fixed × Entries
select x [] = (x, [])
select x (y ∷ ys) =
    let up = select y ys in
    let stay = select x ys in
    if ltb x.effective_priority y.effective_priority then (up.0, x ∷ up.1) else (stay.0, y ∷ stay.1)

abbrev take_max : Entries → Option (SlaJob fixed × Entries)
take_max [] = none
take_max (x ∷ xs) = some (select x xs)

abbrev AtMost : ℕ → Entries → Type 0
AtMost n = All (λ z. z.effective_priority ≤ n)

select-ge :
    (x : SlaJob fixed) (xs : Entries) → x.effective_priority ≤ (select x xs).0.effective_priority
select-ge x [] = omega arith
select-ge x (y ∷ ys) = ground (arith, select-ge x ys, select-ge y ys)

select-AtMost : (x : SlaJob fixed) (xs : Entries) → AtMost (select x xs).0.effective_priority xs
select-AtMost x [] = tt
select-AtMost x (y ∷ ys) =
    ground (arith, select-ge x ys, select-ge y ys, select-AtMost x ys, select-AtMost y ys)

select-count :
    (p : SlaJob fixed → Bool) (x : SlaJob fixed) (xs : Entries)
    → count_if p (x ∷ xs) ≡ count_if p ((select x xs).0 ∷ (select x xs).1)
select-count p x [] = refl
select-count p x (y ∷ ys) = ground (arith, select-count p x ys, select-count p y ys)

take_max-greatest :
    (xs : Entries) (y : SlaJob fixed) (ys : Entries)
    → take_max xs ≡ some (y, ys)
    → AtMost y.effective_priority xs
take_max-greatest [] y ys e = absurd cc
take_max-greatest (x ∷ xs) y ys e =
    subst (λ (r : SlaJob fixed × Entries). AtMost r.0.effective_priority (x ∷ xs))
      (some-injective (select x xs) (y, ys) e) (select-ge x xs, select-AtMost x xs)

take_max-count :
    (xs : Entries) (y : SlaJob fixed) (ys : Entries)
    → take_max xs ≡ some (y, ys)
    → (p : SlaJob fixed → Bool) → count_if p xs ≡ count_if p (y ∷ ys)
take_max-count [] y ys e p = absurd cc
take_max-count (x ∷ xs) y ys e p =
    subst (λ (r : SlaJob fixed × Entries). count_if p (x ∷ xs) ≡ count_if p (r.0 ∷ r.1))
      (some-injective (select x xs) (y, ys) e) (select-count p x xs)

take_max-HeapLaws : HeapLaws take_max
take_max-HeapLaws = record {
  empty = refl;
  takes = λ x xs. ((select x xs).0, (select x xs).1, refl);
  greatest = take_max-greatest;
  same_entries = take_max-count;
}

abbrev old_batch : SlaJob fixed
old_batch = new_sla_job (job_of 10 10) SlaClass.batch 0

abbrev fresh_high : SlaJob fixed
fresh_high = new_sla_job (job_of 20 10) SlaClass.high 9_990

abbrev queue : SlaQueue fixed
queue = record new_queue { heap = old_batch ∷ fresh_high ∷ []; total_enqueued = 2 }

pop_most_urgent_example :
    (sj : SlaJob fixed) × ((pop_job take_max queue 10_000).0 ≡ some sj)
    × All
        (λ z. (rescore 10_000 z).effective_priority ≤ sj.effective_priority)
        (old_batch ∷ fresh_high ∷ [])
    × (count_if (λ z. true) (map (rescore 10_000) (old_batch ∷ fresh_high ∷ []))
        ≡ count_if (λ z. true) (sj ∷ (pop_job take_max queue 10_000).1.heap))
pop_most_urgent_example =
    pop_most_urgent take_max queue 10_000 old_batch (fresh_high ∷ []) (λ z. true) take_max-HeapLaws
      refl

operations-Accounted_example :
    Accounted (push_job queue (job_of 30 10) SlaClass.normal 10_000)
    × Accounted (pop_job take_max queue 10_000).1
    × Accounted (drain_expired queue 10_000).1
operations-Accounted_example =
    operations-Accounted take_max queue (job_of 30 10) SlaClass.normal 10_000 take_max-HeapLaws refl

drain_expired_lem_example :
    let (gone, t) = drain_expired queue 10_001 in
    All (λ sj. sla_ms sj.sla_class < 10_001 - sj.enqueued_at) gone
    × All (λ sj. 10_001 - sj.enqueued_at ≤ sla_ms sj.sla_class) t.heap
    × (length gone + length t.heap ≡ 2)
drain_expired_lem_example = drain_expired_lem queue 10_001
