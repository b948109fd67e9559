-- ===== src/Router/Batch.antt =====
-- src/router.rs: `flush_batch_kind`, which answers the oldest entries of a kind's buffer.
pub mod Laws
pub mod Accounts
use helix_router_adaptive_as.Common.{
  ℕ, List, [], ◌∷◌, ◌++◌, ltb, if◌then◌else◌, length, take, drop, min,
}
use helix_router_adaptive_as.Floats.{Floats}
use helix_router_adaptive_as.Types.{JobKind, Strategy}
use helix_router_adaptive_as.Strategies.{execute_job}
use helix_router_adaptive_as.Router.State.{
  Inner, BatchEntry, at_kind, put_kind, bump_kind, call, Call,
}

module _ {fl : Floats} where
  -- `sort_by_key(|e| e.seq)`, which is stable.
  unfoldable pub insert_by_seq : BatchEntry fl → List (BatchEntry fl) → List (BatchEntry fl)
  insert_by_seq e [] = e ∷ []
  insert_by_seq e (x ∷ xs) = if ltb x.seq e.seq then x ∷ insert_by_seq e xs else e ∷ x ∷ xs

  unfoldable pub sort_by_seq : List (BatchEntry fl) → List (BatchEntry fl)
  sort_by_seq [] = []
  sort_by_seq (e ∷ es) = insert_by_seq e (sort_by_seq es)

  -- Run each entry, send its reply, and record how long it took since it was enqueued.
  unfoldable pub answer : (ℕ → ℕ) → List (BatchEntry fl) → Inner fl → Inner fl
  answer elapsed [] s = s
  answer elapsed (e ∷ es) s =
      let out = execute_job fl e.job in
      let sent = record s { replies = s.replies ++ ((e.seq, out) ∷ []) } in
      answer elapsed es (call sent (Call.record_latency Strategy.batch (elapsed e.seq)))

  -- The entries that leave a buffer, in the order in which they are answered.
  unfoldable pub due : Inner fl → JobKind → List (BatchEntry fl)
  due s kind =
      let q = at_kind s.batches kind in sort_by_seq (take (min (length q) s.cfg.batch_max_size) q)

  unfoldable pub flush_due : (ℕ → ℕ) → JobKind → Inner fl → Inner fl
  flush_due elapsed kind s =
      let q = at_kind s.batches kind in
      answer elapsed (due s kind) (record s {
        batches = put_kind s.batches kind (drop (min (length q) s.cfg.batch_max_size) q);
        batch_flushed = bump_kind s.batch_flushed kind (length (due s kind));
      })

  -- `elapsed` gives the age in milliseconds of the entry with a sequence number.
  unfoldable pub flush_batch_kind : (ℕ → ℕ) → JobKind → Inner fl → Inner fl
  flush_batch_kind elapsed kind s = elim (at_kind s.batches kind) [
    | [] ↦ s
    | _ ∷ _ ↦ flush_due elapsed kind s
  ]
