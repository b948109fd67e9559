-- ===== src/Router/Batch/Accounts.antt =====
-- Every entry that was enqueued has been flushed or still waits in its buffer.
use helix_router_adaptive_as.Common.{
  ℕ, ◌+◌, ◌%◌, ◌≡◌, [], ◌∷◌, arith, length, take, drop, min, length-append, length-take,
  length-drop,
}
use helix_router_adaptive_as.Words.{u64_mod}
use helix_router_adaptive_as.Floats.{Floats}
use helix_router_adaptive_as.Types.{JobKind}
use helix_router_adaptive_as.Router.State.{Inner, at_kind}
use helix_router_adaptive_as.Router.Batch.{flush_batch_kind, due}
use helix_router_adaptive_as.Router.Submit.{Env, Waiting, push_entry, enqueue_batch}
use helix_router_adaptive_as.Router.Submit.Laws.{flush_if_full_cases}
use helix_router_adaptive_as.Router.Batch.Laws.{flush_cases, flushed, length-sort}

module _ {fl : Floats} where
  abbrev pub Balanced : Inner fl → JobKind → Type 0
  Balanced s k =
      at_kind s.batch_enqueued k % u64_mod
      ≡ (at_kind s.batch_flushed k + length (at_kind s.batches k)) % u64_mod

  length-due :
      (s : Inner fl) (k : JobKind)
      → length (due s k)
          + length
              (drop (min (length (at_kind s.batches k)) s.cfg.batch_max_size) (at_kind s.batches k))
        ≡ length (at_kind s.batches k)
  unfolding due
  length-due s k =
      let q = at_kind s.batches k in
      let n = min (length q) s.cfg.batch_max_size in
      omega (arith, length-sort (take n q), length-take n q, length-drop n q)

  flushed-Balanced :
      (age : ℕ → ℕ) (j k : JobKind) (s : Inner fl) → Balanced s k → Balanced (flushed age j s) k
  flushed-Balanced age j k s b = ground (arith, length-due s j)

  -- A flush of any kind keeps the balance of every kind.
  pub flush-Balanced :
      (age : ℕ → ℕ) (j k : JobKind) (s : Inner fl)
      → Balanced s k
      → Balanced (flush_batch_kind age j s) k
  flush-Balanced age j k s b =
      flush_cases (λ t. Balanced t k) age j s b (flushed-Balanced age j k s b)

  pushed-Balanced :
      (k : JobKind) (s : Inner fl) (w : Waiting fl) → Balanced s k → Balanced (push_entry s w) k
  unfolding push_entry
  pushed-Balanced k s w b =
      ground (
        arith,
        length-append (at_kind s.batches k) (record { job = w.job; seq = s.batch_seq } ∷ []),
      )

  -- Enqueueing a job of any kind keeps the balance of every kind, whether or not its buffer is full
  -- and flushed.
  pub enqueue_batch-Balanced :
      (env : Env fl) (s : Inner fl) (w : Waiting fl) (k : JobKind)
      → Balanced s k
      → Balanced (enqueue_batch env s w).0 k
  unfolding enqueue_batch
  enqueue_batch-Balanced env s w k b =
      let p = pushed-Balanced k s w b in
      flush_if_full_cases (λ t. Balanced t k) env (push_entry s w) w.job.kind p
        (flushed-Balanced env.batch_age w.job.kind k (push_entry s w) p)
