-- ===== src/SlaQueue/Laws.antt =====
-- What the SLA queue hands out, and that its counters account for every job.
use helix_router_adaptive_as.Common.{
  ℕ, ◌+◌, ◌-◌, ◌%◌, ◌≤◌, ◌<◌, ◌≡◌, refl, Bool, true, false, not, List, [], ◌∷◌, Option, none, some,
  length, map, retain, count_if, All, arith,
}
use helix_router_adaptive_as.Words.{u64_mod}
use helix_router_adaptive_as.Floats.{Floats}
use helix_router_adaptive_as.Types.{Job}
use helix_router_adaptive_as.SlaQueue.{
  SlaClass, SlaJob, SlaQueue, sla_ms, rescore, is_expired, push_job, popped, pop_job, drain_expired,
}

-- What the standard library documents of a max-heap's `pop`: it takes a greatest entry out, and
-- nothing exactly where there is no entry.
pub record HeapLaws {fl : Floats}
    (take_max : List (SlaJob fl) → Option (SlaJob fl × List (SlaJob fl))) : Type 0 where
  pub empty : take_max [] ≡ none
  pub takes :
      (x : SlaJob fl) (xs : List (SlaJob fl))
      → (y : SlaJob fl) × (ys : List (SlaJob fl)) × (take_max (x ∷ xs) ≡ some (y, ys))
  pub greatest :
      (xs : List (SlaJob fl)) (y : SlaJob fl) (ys : List (SlaJob fl))
      → take_max xs ≡ some (y, ys)
      → All (λ z. z.effective_priority ≤ y.effective_priority) xs
  pub same_entries :
      (xs : List (SlaJob fl)) (y : SlaJob fl) (ys : List (SlaJob fl))
      → take_max xs ≡ some (y, ys)
      → (p : SlaJob fl → Bool) → count_if p xs ≡ count_if p (y ∷ ys)

module _ {fl : Floats} where
  All-map :
      (P : SlaJob fl → Type 0) (f : SlaJob fl → SlaJob fl) (xs : List (SlaJob fl))
      → All P (map f xs)
      → All (λ x. P (f x)) xs
  All-map P f [] h = tt
  All-map P f (x ∷ xs) h = (h.0, All-map P f xs h.1)

  -- From a queue that is not empty `pop` returns an entry whose priority at that time no queued
  -- entry's exceeds, and what it returns and leaves is what was queued, scored at that time: any
  -- test passes as many entries of the one as of the other.
  pub pop_most_urgent :
      (take_max : List (SlaJob fl) → Option (SlaJob fl × List (SlaJob fl))) (q : SlaQueue fl)
      (now : ℕ) (x : SlaJob fl) (xs : List (SlaJob fl)) (p : SlaJob fl → Bool)
      → HeapLaws take_max
      → q.heap ≡ x ∷ xs
      → (sj : SlaJob fl) × ((pop_job take_max q now).0 ≡ some sj)
        × All (λ z. (rescore now z).effective_priority ≤ sj.effective_priority) (x ∷ xs)
        × (count_if p (map (rescore now) (x ∷ xs))
            ≡ count_if p (sj ∷ (pop_job take_max q now).1.heap))
  unfolding pop_job
  pop_most_urgent take_max q now x xs p h e =
      let (y, ys, t) = h.takes (rescore now x) (map (rescore now) xs) in
      let fresh = map (rescore now) (x ∷ xs) in
      (
        y,
        rw (e, t) refl,
        All-map (λ z. z.effective_priority ≤ y.effective_priority) (rescore now) (x ∷ xs)
            (h.greatest fresh y ys t),
        rw (e, t) (h.same_entries fresh y ys t p),
      )

  -- Every job that was pushed has been popped, has been drained as expired, or still waits.
  abbrev pub Accounted : SlaQueue fl → Type 0
  Accounted q =
      q.total_enqueued % u64_mod ≡ (q.total_dequeued + q.total_expired + length q.heap) % u64_mod

  length-split :
      (p : SlaJob fl → Bool) (xs : List (SlaJob fl))
      → length (retain p xs) + length (retain (λ x. not (p x)) xs) ≡ length xs
  length-split p [] = omega arith
  length-split p (x ∷ xs) = ground (arith, length-split p xs)

  length-count : (xs : List (SlaJob fl)) → count_if (λ x. true) xs ≡ length xs
  length-count [] = refl
  length-count (x ∷ xs) = omega (arith, length-count xs)

  length-rescored : (now : ℕ) (xs : List (SlaJob fl)) → length (map (rescore now) xs) ≡ length xs
  length-rescored now [] = refl
  length-rescored now (x ∷ xs) = omega (arith, length-rescored now xs)

  popped-Accounted :
      (take_max : List (SlaJob fl) → Option (SlaJob fl × List (SlaJob fl))) (q : SlaQueue fl)
      (taken : Option (SlaJob fl × List (SlaJob fl)))
      → HeapLaws take_max
      → take_max q.heap ≡ taken
      → Accounted q
      → Accounted (popped q taken).1
  popped-Accounted take_max q none h e a = a
  popped-Accounted take_max q (some (y, ys)) h e a =
      omega
        (arith, a, h.same_entries q.heap y ys e (λ x. true), length-count q.heap, length-count ys)

  -- Pushing, popping and draining keep the account, whatever the time.
  pub operations-Accounted :
      (take_max : List (SlaJob fl) → Option (SlaJob fl × List (SlaJob fl))) (q : SlaQueue fl)
      (job : Job fl) (class : SlaClass) (now : ℕ)
      → HeapLaws take_max
      → Accounted q
      → Accounted (push_job q job class now)
        × Accounted (pop_job take_max q now).1
        × Accounted (drain_expired q now).1
  unfolding push_job pop_job drain_expired
  operations-Accounted take_max q job class now h a =
      let fresh = map (rescore now) q.heap in
      (
        omega (arith, a),
        popped-Accounted take_max (record q { heap = fresh }) (take_max fresh) h refl
            (omega (arith, a, length-rescored now q.heap)),
        omega (arith, a, length-split (is_expired now) q.heap),
      )

  -- A drain takes out exactly the entries past their deadline: all that it returns are, none that it
  -- leaves is, and no entry is lost.
  pub drain_expired_lem :
      (q : SlaQueue fl) (now : ℕ)
      → let (gone, t) = drain_expired q now in
        All (λ sj. sla_ms sj.sla_class < now - sj.enqueued_at) gone
        × All (λ sj. now - sj.enqueued_at ≤ sla_ms sj.sla_class) t.heap
        × (length gone + length t.heap ≡ length q.heap)
  unfolding drain_expired
  drain_expired_lem q now =
      (gone_late q.heap, left_early q.heap, length-split (is_expired now) q.heap)
    where
      gone_late :
          (xs : List (SlaJob fl))
          → All (λ sj. sla_ms sj.sla_class < now - sj.enqueued_at) (retain (is_expired now) xs)
      gone_late [] = tt
      gone_late (x ∷ xs) = ground (arith, gone_late xs)

      left_early :
          (xs : List (SlaJob fl))
          → All
              (λ sj. now - sj.enqueued_at ≤ sla_ms sj.sla_class)
              (retain (λ sj. not (is_expired now sj)) xs)
      left_early [] = tt
      left_early (x ∷ xs) = ground (arith, left_early xs)

  -- A batch job that has not passed its deadline has a lower priority than any high job, however
  -- close the deadline is.
  pub batch_outranked :
      (now : ℕ) (a b : SlaJob fl)
      → a.sla_class ≡ SlaClass.batch
      → b.sla_class ≡ SlaClass.high
      → is_expired now a ≡ false
      → (rescore now a).effective_priority < (rescore now b).effective_priority
  unfolding rescore
  batch_outranked now a b ha hb early = rw (ha, hb) (ground arith)
