-- ===== src/Wfq/Credit.antt =====
-- A class that waits gains credit in every round, until its first job is served.
use helix_router_adaptive_as.Common.{
  ℕ, ◌+◌, ◌*◌, ◌%◌, ◌≤◌, ◌<◌, ◌≡◌, ◌⊎◌, ◌∙◌, refl, sym, ap, inl, inr, String, true, false, List, [],
  ◌∷◌, ◌++◌, Option, none, some, string_key, arith, ◌==◌, Bool-cases,
}
use mathlib.Core.Option.{some-injective}
use helix_router_adaptive_as.Common.Maps.{get, get-insert}
use helix_router_adaptive_as.Words.{add_u64, u64_mod}
use helix_router_adaptive_as.Floats.{Floats}
use helix_router_adaptive_as.Types.{Job}
use helix_router_adaptive_as.Wfq.{
  QueueEntry, WfqQueue, WfqScheduler, drain_queue, kept_credit, visit_of, jobs_of, serve_queue,
  serve_class, drain_classes,
}

abbrev pub Listed : String → List String → Type 0
Listed k [] = ⊥
Listed k (j ∷ js) = (j ≡ k) ⊎ Listed k js

module _ {fl : Floats} where
  -- The queue of a class that waits with `e` first, at a credit of `d`.
  abbrev pub waiting : ℕ → QueueEntry fl → List (QueueEntry fl) → ℕ → WfqQueue fl
  waiting w e es d = record { weight = w; deficit = d; queue = e ∷ es }

  abbrev pub Waits :
      String → ℕ → QueueEntry fl → List (QueueEntry fl) → ℕ → WfqScheduler fl → Type 0
  Waits k w e es d s = get k s.queues ≡ some (waiting w e es d)

  -- A visit serves nothing only where the first entry costs more than the credit.
  drain_queue-none :
      (credit : ℕ) (e : QueueEntry fl) (es : List (QueueEntry fl))
      → jobs_of (drain_queue credit (e ∷ es)).served ≡ []
      → (credit < e.job.compute_cost)
        × (drain_queue credit (e ∷ es) ≡ record { served = []; credit = credit; left = e ∷ es })
  unfolding drain_queue
  drain_queue-none credit e es h = ground arith

  -- What a visit that hands out nothing leaves of the waiting class.
  pub record Gained (k : String) (w : ℕ) (e : QueueEntry fl) (es : List (QueueEntry fl)) (d : ℕ)
      (s t : WfqScheduler fl) : Type 0 where
    pub waits : Waits k w e es d t
    pub quantum_kept : t.quantum ≡ s.quantum
    pub order_kept : t.class_order ≡ s.class_order

  serve_other :
      (wait : ℕ → ℕ) (j k : String) (w : ℕ) (e : QueueEntry fl) (es : List (QueueEntry fl)) (d : ℕ)
      (s : WfqScheduler fl) (q : WfqQueue fl) (l : List (QueueEntry fl))
      → (j == k) ≡ false
      → Waits k w e es d s
      → Gained k w e es d s (serve_queue wait j s q l).0
  serve_other wait j k w e es d s q [] n h = record {
    waits = rw (get-insert j k (record q { deficit = 0 }) s.queues, n) h;
    quantum_kept = refl;
    order_kept = refl;
  }
  serve_other wait j k w e es d s q (x ∷ l) n h =
      let v = visit_of s q in
      record {
        waits =
            rw
              (
                get-insert j k (record q { deficit = kept_credit v.credit v.left; queue = v.left })
                    s.queues,
                n,
              )
              h;
        quantum_kept = refl;
        order_kept = refl;
      }

  -- The class itself gains its share, and its first entry costs more.
  serve_own :
      (wait : ℕ → ℕ) (j k : String) (w : ℕ) (e : QueueEntry fl) (es : List (QueueEntry fl)) (d : ℕ)
      (s : WfqScheduler fl) (q : WfqQueue fl)
      → (j == k) ≡ true
      → q ≡ waiting w e es d
      → (serve_queue wait j s q q.queue).1 ≡ []
      → let c = add_u64 d (s.quantum * w % u64_mod) in
        (c < e.job.compute_cost) × Gained k w e es c s (serve_queue wait j s q q.queue).0
  serve_own wait j k w e es d s q y eq h =
      let c = add_u64 d (s.quantum * w % u64_mod) in
      let (costs, stays) = drain_queue-none c e es (rw eq at h) in
      (
        costs,
        rw eq record {
          waits = rw (stays, get-insert j k (waiting w e es c) s.queues, y) refl;
          quantum_kept = refl;
          order_kept = refl;
        },
      )

  nil-append : (l r : List (Job fl)) → l ++ r ≡ [] → (l ≡ []) × (r ≡ [])
  nil-append [] r h = (refl, h)
  nil-append (x ∷ l) r h = absurd cc

  -- `g` is what the class gains in a visit, and `b` bounds its credit.
  module _ (wait : ℕ → ℕ) (k : String) (w : ℕ) (e : QueueEntry fl) (es : List (QueueEntry fl))
      (g b : ℕ) (fits : b + g < u64_mod) (covers : e.job.compute_cost ≤ b) where
    pub record Rose (d : ℕ) (listed : Type 0) (s t : WfqScheduler fl) : Type 0 where
      pub credit : ℕ
      pub gained : Gained k w e es credit s t
      pub at_least : d ≤ credit
      pub at_most : credit ≤ b
      pub share : listed → d + g ≤ credit

    serve_own-Rose :
        (j : String) (d : ℕ) (s : WfqScheduler fl) (q : WfqQueue fl) {listed : Type 0}
        → s.quantum * w % u64_mod ≡ g
        → d ≤ b
        → (j == k) ≡ true
        → q ≡ waiting w e es d
        → (serve_queue wait j s q q.queue).1 ≡ []
        → Rose d listed s (serve_queue wait j s q q.queue).0
    serve_own-Rose j d s q eg le y eq r =
        let (costs, gained) = serve_own wait j k w e es d s q y eq r in
        record {
          credit = add_u64 d (s.quantum * w % u64_mod);
          gained = gained;
          at_least = omega arith;
          at_most = omega arith;
          share = λ _. omega arith;
        }

    Waits-queue :
        (j : String) (d : ℕ) (s : WfqScheduler fl) (q : WfqQueue fl)
        → get j s.queues ≡ some q
        → (j == k) ≡ true
        → Waits k w e es d s
        → q ≡ waiting w e es d
    Waits-queue j d s q f y h =
        let same : j ≡ k = (string_key.same_iff j k).0 y in
        some-injective q (waiting w e es d) (sym f ∙ ap (λ i. get i s.queues) same ∙ h)

    serve_class-Rose :
        (j : String) (d : ℕ) (s : WfqScheduler fl) (q : Option (WfqQueue fl))
        → get j s.queues ≡ q
        → s.quantum * w % u64_mod ≡ g
        → d ≤ b
        → Waits k w e es d s
        → (serve_class wait j s q).1 ≡ []
        → Rose d (j ≡ k) s (serve_class wait j s q).0
    serve_class-Rose j d s none f eg le h r = record {
      credit = d;
      gained = record { waits = h; quantum_kept = refl; order_kept = refl };
      at_least = omega arith;
      at_most = le;
      share = λ (y : j ≡ k). absurd cc;
    }
    serve_class-Rose j d s (some q) f eg le h r = elim (Bool-cases (j == k)) [
      | inl y ↦ serve_own-Rose j d s q eg le y (Waits-queue j d s q f y h) r
      | inr n ↦ record {
        credit = d;
        gained = serve_other wait j k w e es d s q q.queue n h;
        at_least = omega arith;
        at_most = le;
        share = λ (y : j ≡ k). absurd (ground (arith, string_key.same_iff j k));
      }
    ]

    pub drain_classes-Rose :
        (cs : List String) (d : ℕ) (s : WfqScheduler fl)
        → s.quantum * w % u64_mod ≡ g
        → d ≤ b
        → Waits k w e es d s
        → (drain_classes wait cs s).1 ≡ []
        → Rose d (Listed k cs) s (drain_classes wait cs s).0
    unfolding drain_classes
    drain_classes-Rose [] d s eg le h r = record {
      credit = d;
      gained = record { waits = h; quantum_kept = refl; order_kept = refl };
      at_least = omega arith;
      at_most = le;
      share = λ y. absurd y;
    }
    drain_classes-Rose (j ∷ cs) d s eg le h r =
        let t = (serve_class wait j s (get j s.queues)).0 in
        let (here, there) =
          nil-append (serve_class wait j s (get j s.queues)).1 (drain_classes wait cs t).1 r in
        let one = serve_class-Rose j d s (get j s.queues) refl eg le h here in
        let rest =
          drain_classes-Rose cs one.credit t (rw one.gained.quantum_kept eg) one.at_most
            one.gained.waits there in
        record {
          credit = rest.credit;
          gained = record {
            waits = rest.gained.waits;
            quantum_kept = rest.gained.quantum_kept ∙ one.gained.quantum_kept;
            order_kept = rest.gained.order_kept ∙ one.gained.order_kept;
          };
          at_least = omega (arith, one.at_least, rest.at_least);
          at_most = rest.at_most;
          share = λ y. elim y [
            | inl here ↦ omega (arith, one.share here, rest.at_least)
            | inr there ↦ omega (arith, rest.share there, one.at_least)
          ];
        }
