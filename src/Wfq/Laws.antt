-- ===== src/Wfq/Laws.antt =====
-- What a round of the scheduler serves, and that no job is lost or made.
use helix_router_adaptive_as.Common.{
  ℕ, ◌+◌, ◌-◌, ◌*◌, ◌%◌, ◌<◌, ◌≡◌, ◌∙◌, refl, ap, String, true, false, List, [], ◌∷◌, ◌++◌, Option,
  none, some, ◌⊎◌, inl, inr, length, string_key, arith, length-append, Bool, count_if,
  count_if-append,
}
use helix_router_adaptive_as.Common.Maps.{Map, get, insert}
use helix_router_adaptive_as.Words.{add_u64, u64_mod}
use helix_router_adaptive_as.Floats.{Floats}
use helix_router_adaptive_as.Types.{Job}
use helix_router_adaptive_as.Wfq.{
  QueueEntry, WfqQueue, WfqScheduler, enqueue, drain_queue, kept_credit, visit_of, visited, jobs_of,
  serve_queue, serve_class, enqueue_in, entry_of, drain_classes, drain_round, waiting_in, len,
  pushed, class_for_job,
}

module _ {fl : Floats} where
  abbrev pub cost_of : List (QueueEntry fl) → ℕ
  cost_of [] = 0
  cost_of (e ∷ es) = e.job.compute_cost + cost_of es

  -- The entry that a visit stops at costs more than the credit left.
  abbrev pub Unaffordable : ℕ → List (QueueEntry fl) → Type 0
  Unaffordable credit [] = Unit
  Unaffordable credit (e ∷ es) = credit < e.job.compute_cost

  -- A visit serves a prefix of the queue, pays for it from the credit, and stops only at the end or
  -- at an entry that the credit left does not cover.
  pub drain_queue_lem :
      (credit : ℕ) (es : List (QueueEntry fl))
      → let v = drain_queue credit es in
        (v.served ++ v.left ≡ es)
        × (cost_of v.served + v.credit ≡ credit)
        × Unaffordable v.credit v.left
  unfolding drain_queue
  drain_queue_lem credit [] = (refl, omega arith, tt)
  drain_queue_lem credit (e ∷ es) = ground (arith, drain_queue_lem (credit - e.job.compute_cost) es)

  -- How many of the waiting jobs have a property.
  unfoldable pub count_waiting : (Job fl → Bool) → Map String (WfqQueue fl) → ℕ
  count_waiting p [] = 0
  count_waiting p ((name, q) ∷ m) = count_if p (jobs_of q.queue) + count_waiting p m

  count_waiting-insert :
      (p : Job fl → Bool) (k : String) (q q' : WfqQueue fl) (m : Map String (WfqQueue fl))
      → get k m ≡ some q
      → count_waiting p (insert k q' m) + count_if p (jobs_of q.queue)
        ≡ count_waiting p m + count_if p (jobs_of q'.queue)
  unfolding get insert count_waiting
  count_waiting-insert p k q q' [] h = absurd cc
  count_waiting-insert p k q q' ((j, r) ∷ m) h = ground (arith, count_waiting-insert p k q q' m)

  count_jobs-append :
      (p : Job fl → Bool) (xs ys : List (QueueEntry fl))
      → count_if p (jobs_of (xs ++ ys)) ≡ count_if p (jobs_of xs) + count_if p (jobs_of ys)
  count_jobs-append p [] ys = omega arith
  count_jobs-append p (x ∷ xs) ys = ground (arith, count_jobs-append p xs ys)

  length-jobs : (es : List (QueueEntry fl)) → length (jobs_of es) ≡ length es
  length-jobs [] = refl
  length-jobs (e ∷ es) = omega (arith, length-jobs es)

  count_all_jobs : (es : List (QueueEntry fl)) → count_if (λ job. true) (jobs_of es) ≡ length es
  count_all_jobs [] = refl
  count_all_jobs (e ∷ es) = ground (arith, count_all_jobs es)

  count_all : (jobs : List (Job fl)) → count_if (λ job. true) jobs ≡ length jobs
  count_all [] = refl
  count_all (job ∷ jobs) = ground (arith, count_all jobs)

  len-count_waiting : (m : Map String (WfqQueue fl)) → count_waiting (λ job. true) m ≡ waiting_in m
  unfolding count_waiting
  len-count_waiting [] = refl
  len-count_waiting ((name, q) ∷ m) = omega (arith, count_all_jobs q.queue, len-count_waiting m)

  -- The jobs that wait and those handed out, and the count of the latter.
  pub record Conserves (s t : WfqScheduler fl) (jobs : List (Job fl)) : Type 0 where
    pub same_jobs :
        (p : Job fl → Bool) → count_waiting p t.queues + count_if p jobs ≡ count_waiting p s.queues
    pub counted : t.total_dequeued % u64_mod ≡ (s.total_dequeued + length jobs) % u64_mod
    pub order_kept : t.class_order ≡ s.class_order

  visited-Conserves :
      (wait : ℕ → ℕ) (class : String) (s : WfqScheduler fl) (q : WfqQueue fl)
      → get class s.queues ≡ some q
      → Conserves s (visited wait class s q (visit_of s q)) (jobs_of (visit_of s q).served)
  visited-Conserves wait class s q h =
      let v = visit_of s q in
      let q' : WfqQueue fl = record q { deficit = kept_credit v.credit v.left; queue = v.left } in
      let split =
        (drain_queue_lem (add_u64 q.deficit (s.quantum * q.weight % u64_mod)) q.queue).0 in
      record {
        same_jobs = λ p. omega (
          arith,
          count_waiting-insert p class q q' s.queues h,
          count_jobs-append p v.served v.left,
          ap (λ es. count_if p (jobs_of es)) split,
        );
        counted = omega (arith, length-jobs v.served);
        order_kept = refl;
      }

  reset-Conserves :
      (class : String) (s : WfqScheduler fl) (q : WfqQueue fl)
      → get class s.queues ≡ some q
      → Conserves s (record s { queues = insert class (record q { deficit = 0 }) s.queues }) []
  reset-Conserves class s q h = record {
    same_jobs =
        λ p. omega (arith, count_waiting-insert p class q (record q { deficit = 0 }) s.queues h);
    counted = omega arith;
    order_kept = refl;
  }

  serve_queue-Conserves :
      (wait : ℕ → ℕ) (class : String) (s : WfqScheduler fl) (q : WfqQueue fl)
      (es : List (QueueEntry fl))
      → get class s.queues ≡ some q
      → let (t, jobs) = serve_queue wait class s q es in Conserves s t jobs
  serve_queue-Conserves wait class s q [] h = reset-Conserves class s q h
  serve_queue-Conserves wait class s q (e ∷ es) h = visited-Conserves wait class s q h

  serve_class-Conserves :
      (wait : ℕ → ℕ) (class : String) (s : WfqScheduler fl) (found : Option (WfqQueue fl))
      → get class s.queues ≡ found
      → let (t, jobs) = serve_class wait class s found in Conserves s t jobs
  serve_class-Conserves wait class s none h = record {
    same_jobs = λ p. omega arith;
    counted = omega arith;
    order_kept = refl;
  }
  serve_class-Conserves wait class s (some q) h = serve_queue-Conserves wait class s q q.queue h

  join-Conserves :
      (s t u : WfqScheduler fl) (xs ys : List (Job fl))
      → Conserves s t xs
      → Conserves t u ys
      → Conserves s u (xs ++ ys)
  join-Conserves s t u xs ys h k = record {
    same_jobs = λ p. omega (arith, h.same_jobs p, k.same_jobs p, count_if-append p xs ys);
    counted = omega (arith, h.counted, k.counted, length-append xs ys);
    order_kept = k.order_kept ∙ h.order_kept;
  }

  drain_classes-Conserves :
      (wait : ℕ → ℕ) (classes : List String) (s : WfqScheduler fl)
      → let (t, jobs) = drain_classes wait classes s in Conserves s t jobs
  unfolding drain_classes
  drain_classes-Conserves wait [] s = record {
    same_jobs = λ p. omega arith;
    counted = omega arith;
    order_kept = refl;
  }
  drain_classes-Conserves wait (class ∷ rest) s =
      let (t, jobs) = serve_class wait class s (get class s.queues) in
      join-Conserves s t _ jobs _ (serve_class-Conserves wait class s (get class s.queues) refl)
        (drain_classes-Conserves wait rest t)

  -- A round neither loses nor makes a job: for every property of jobs, those with it that wait
  -- afterwards and those that the round hands out are together as many as those that waited before, so
  -- that each job is handed out once or still waits; and the count of dequeued jobs grows by the number
  -- of the jobs handed out, modulo 2^64.
  pub drain_round_conserves :
      (wait : ℕ → ℕ) (s : WfqScheduler fl)
      → let (t, jobs) = drain_round wait s in
        ((p : Job fl → Bool)
          → count_waiting p t.queues + count_if p jobs ≡ count_waiting p s.queues)
        × (len t + length jobs ≡ len s)
        × (t.total_dequeued % u64_mod ≡ (s.total_dequeued + length jobs) % u64_mod)
  unfolding drain_round
  drain_round_conserves wait s =
      let (t, jobs) = drain_classes wait s.class_order s in
      let c = drain_classes-Conserves wait s.class_order s in
      (
        c.same_jobs,
        omega (
          arith,
          c.same_jobs (λ job. true),
          count_all jobs,
          len-count_waiting t.queues,
          len-count_waiting s.queues,
        ),
        c.counted,
      )

  length-insert :
      (k : String) (q q' : WfqQueue fl) (m : Map String (WfqQueue fl))
      → get k m ≡ some q
      → waiting_in (insert k q' m) + length q.queue ≡ waiting_in m + length q'.queue
  unfolding get insert
  length-insert k q q' [] h = absurd cc
  length-insert k q q' ((j, p) ∷ m) h = ground (arith, length-insert k q q' m)

  enqueue_in_accounts :
      (s : WfqScheduler fl) (job : Job fl) (now : ℕ) (found : Option (WfqQueue fl))
      → get (class_for_job job) s.queues ≡ found
      → let (t, accepted) = enqueue_in s job now found in
        ((accepted ≡ true)
          × (len t ≡ len s + 1)
          × (t.total_enqueued ≡ (s.total_enqueued + 1) % u64_mod))
        ⊎ ((accepted ≡ false) × (t ≡ s))
  enqueue_in_accounts s job now none h = inr (refl, refl)
  enqueue_in_accounts s job now (some q) h =
      let e = entry_of job now in
      inl (
        refl,
        omega (
          arith,
          length-insert (class_for_job job) q (pushed q e) s.queues h,
          length-append q.queue (e ∷ []),
        ),
        refl,
      )

  -- `enqueue` returns true and puts one more job into the queues and into the count, or returns
  -- false and changes nothing.
  pub enqueue_accounts :
      (s : WfqScheduler fl) (job : Job fl) (now : ℕ)
      → let (t, accepted) = enqueue s job now in
        ((accepted ≡ true)
          × (len t ≡ len s + 1)
          × (t.total_enqueued ≡ (s.total_enqueued + 1) % u64_mod))
        ⊎ ((accepted ≡ false) × (t ≡ s))
  unfolding enqueue
  enqueue_accounts s job now = enqueue_in_accounts s job now (get (class_for_job job) s.queues) refl
