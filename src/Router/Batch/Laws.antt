-- ===== src/Router/Batch/Laws.antt =====
-- `flush_batch_kind`: which entries it answers, in which order, and what it leaves alone.
use helix_router_adaptive_as.Common.{
  ℕ, zero, suc, ◌≡◌, ◌≤◌, refl, sym, ◌∙◌, ap, List, [], ◌∷◌, ◌++◌, map, append-nil, append_assoc,
  length, take, drop, min, arith, take-append-drop,
}
use helix_router_adaptive_as.Floats.{Floats}
use helix_router_adaptive_as.Types.{JobKind, Strategy, Output}
use helix_router_adaptive_as.Strategies.{execute_job}
use helix_router_adaptive_as.Router.State.{
  Inner, PerKind, BatchEntry, Call, at_kind, put_kind, bump_kind,
}
use helix_router_adaptive_as.Router.Batch.{
  insert_by_seq, sort_by_seq, answer, flush_batch_kind, due, flush_due,
}

module _ {fl : Floats} where
  abbrev pub reply_of : BatchEntry fl → ℕ × List (Output fl)
  reply_of e = (e.seq, execute_job fl e.job)

  abbrev pub latency_of : (ℕ → ℕ) → BatchEntry fl → Call fl
  latency_of elapsed e = Call.record_latency Strategy.batch (elapsed e.seq)

  abbrev pub answered : (ℕ → ℕ) → List (BatchEntry fl) → Inner fl → Inner fl
  answered elapsed es s = record s {
    replies = s.replies ++ map reply_of es;
    calls = s.calls ++ map (latency_of elapsed) es;
  }

  pub answer-eq :
      (elapsed : ℕ → ℕ) (es : List (BatchEntry fl)) (s : Inner fl)
      → answer elapsed es s ≡ answered elapsed es s
  unfolding answer
  answer-eq elapsed [] s = simp append-nil
  answer-eq elapsed (e ∷ es) s =
      answer-eq elapsed es (answered elapsed (e ∷ []) s) ∙ simp append_assoc

  -- The whole effect of a flush that finds entries.
  abbrev pub flushed : (ℕ → ℕ) → JobKind → Inner fl → Inner fl
  flushed elapsed kind s = record s {
    batches = put_kind s.batches kind (
        drop (min (length (at_kind s.batches kind)) s.cfg.batch_max_size) (at_kind s.batches kind));
    batch_flushed = bump_kind s.batch_flushed kind (length (due s kind));
    replies = s.replies ++ map reply_of (due s kind);
    calls = s.calls ++ map (latency_of elapsed) (due s kind);
  }

  flush_due-eq :
      (elapsed : ℕ → ℕ) (kind : JobKind) (s : Inner fl)
      → flush_due elapsed kind s ≡ flushed elapsed kind s
  unfolding flush_due
  flush_due-eq elapsed kind s = answer-eq elapsed (due s kind) _

  pub flush_cases {ℓ} :
      (P : Inner fl → Type ℓ) (elapsed : ℕ → ℕ) (kind : JobKind) (s : Inner fl)
      → P s
      → P (flushed elapsed kind s)
      → P (flush_batch_kind elapsed kind s)
  unfolding flush_batch_kind
  flush_cases P elapsed kind s idle busy = go (at_kind s.batches kind)
    where
      go : (q : List (BatchEntry fl)) → P (elim q [ [] ↦ s | _ ∷ _ ↦ flush_due elapsed kind s ])
      go [] = idle
      go (e ∷ es) = rw (flush_due-eq elapsed kind s) busy

  -- Entries stand in the order in which they were numbered.
  abbrev pub InOrder : List (BatchEntry fl) → Type 0
  InOrder [] = Unit {0}
  InOrder (e ∷ []) = Unit {0}
  InOrder (e ∷ x ∷ xs) = (e.seq ≤ x.seq) × InOrder (x ∷ xs)

  insert-InOrder :
      (e : BatchEntry fl) (xs : List (BatchEntry fl)) → InOrder xs → InOrder (insert_by_seq e xs)
  unfolding insert_by_seq
  insert-InOrder e [] h = tt
  insert-InOrder e (x ∷ []) h = ground arith
  insert-InOrder e (x ∷ y ∷ xs) h = ground (arith, insert-InOrder e (y ∷ xs) h.1)

  -- Sorting puts any entries in the order of their numbers.
  pub sort-InOrder : (xs : List (BatchEntry fl)) → InOrder (sort_by_seq xs)
  unfolding sort_by_seq
  sort-InOrder [] = tt
  sort-InOrder (x ∷ xs) = insert-InOrder x (sort_by_seq xs) (sort-InOrder xs)

  insert_first :
      (e x : BatchEntry fl) (xs : List (BatchEntry fl))
      → e.seq ≤ x.seq
      → insert_by_seq e (x ∷ xs) ≡ e ∷ x ∷ xs
  unfolding insert_by_seq
  insert_first e x xs h = ground arith

  -- Sorting entries that are in order changes nothing.
  pub sort_of_InOrder : (xs : List (BatchEntry fl)) → InOrder xs → sort_by_seq xs ≡ xs
  unfolding sort_by_seq
  sort_of_InOrder [] h = refl
  sort_of_InOrder (x ∷ []) h = unfold insert_by_seq in refl
  sort_of_InOrder (x ∷ y ∷ xs) h =
      ap (insert_by_seq x) (sort_of_InOrder (y ∷ xs) h.1) ∙ insert_first x y xs h.0

  length-insert :
      (e : BatchEntry fl) (xs : List (BatchEntry fl))
      → length (insert_by_seq e xs) ≡ suc (length xs)
  unfolding insert_by_seq
  length-insert e [] = refl
  length-insert e (x ∷ xs) = ground (arith, length-insert e xs)

  pub length-sort : (xs : List (BatchEntry fl)) → length (sort_by_seq xs) ≡ length xs
  unfolding sort_by_seq
  length-sort [] = refl
  length-sort (x ∷ xs) = length-insert x (sort_by_seq xs) ∙ ap suc (length-sort xs)

  -- What a flush does for the oldest `batch_max_size` entries of a buffer.
  abbrev Answers : (ℕ → ℕ) → JobKind → Inner fl → Inner fl → Type 0
  Answers age kind s t =
      let oldest =
        take (min (length (at_kind s.batches kind)) s.cfg.batch_max_size)
          (at_kind s.batches kind) in
      (t.replies ≡ s.replies ++ map reply_of (sort_by_seq oldest))
      × (oldest ++ at_kind t.batches kind ≡ at_kind s.batches kind)

  at-put :
      (p : PerKind (List (BatchEntry fl))) (k : JobKind) (q : List (BatchEntry fl))
      → at_kind (put_kind p k q) k ≡ q
  at-put p JobKind.hash_mix q = refl
  at-put p JobKind.prime_count q = refl
  at-put p JobKind.monte_carlo_risk q = refl

  flushed-Answers :
      (age : ℕ → ℕ) (kind : JobKind) (s : Inner fl) → Answers age kind s (flushed age kind s)
  unfolding due
  flushed-Answers age kind s =
      let q = at_kind s.batches kind in
      let n = min (length q) s.cfg.batch_max_size in
      (refl, ap (λ r. take n q ++ r) (at-put s.batches kind (drop n q)) ∙ take-append-drop n q)

  take-nil : (n : ℕ) → take {A = BatchEntry fl} n [] ≡ []
  take-nil zero = refl
  take-nil (suc n) = refl

  idle-Answers :
      (age : ℕ → ℕ) (kind : JobKind) (s : Inner fl)
      → at_kind s.batches kind ≡ []
      → Answers age kind s s
  unfolding sort_by_seq
  idle-Answers age kind s e =
      rw (e, take-nil (min 0 s.cfg.batch_max_size)) (sym (append-nil s.replies), refl)

  flush-cases :
      (P : Inner fl → Type 0) (age : ℕ → ℕ) (kind : JobKind) (s : Inner fl)
      (q : List (BatchEntry fl))
      → at_kind s.batches kind ≡ q
      → (at_kind s.batches kind ≡ [] → P s)
      → P (flushed age kind s)
      → P (elim q [ [] ↦ s | _ ∷ _ ↦ flush_due age kind s ])
  flush-cases P age kind s [] e idle busy = idle e
  flush-cases P age kind s (x ∷ xs) e idle busy = rw (flush_due-eq age kind s) busy

  -- A flush answers the oldest entries of a buffer, at most `batch_max_size` of them, in the order
  -- of their numbers, each with the output of its job, and leaves the later entries in the buffer.
  pub flush_answers :
      (age : ℕ → ℕ) (kind : JobKind) (s : Inner fl)
      → let t = flush_batch_kind age kind s in
        let oldest =
          take
            (min (length (at_kind s.batches kind)) s.cfg.batch_max_size)
            (at_kind s.batches kind) in
        (t.replies ≡ s.replies ++ map reply_of (sort_by_seq oldest))
        × InOrder (sort_by_seq oldest)
        × (oldest ++ at_kind t.batches kind ≡ at_kind s.batches kind)
  unfolding flush_batch_kind
  flush_answers age kind s =
      let a =
        flush-cases (Answers age kind s) age kind s (at_kind s.batches kind) refl
          (idle-Answers age kind s) (flushed-Answers age kind s) in
      (a.0, sort-InOrder _, a.1)
