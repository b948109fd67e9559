-- ===== src/Dedup/Laws.antt =====
-- src/dedup.rs: what an eviction, a submission and a completion leave, and who gets the result.
use helix_router_adaptive_as.Common.{
  ℕ, ◌≡◌, refl, ap, ◌∙◌, List, none, some, nat_key, ◌==◌, if◌then◌else◌,
}
use helix_router_adaptive_as.Common.Maps.{get, get-delete}
use helix_router_adaptive_as.Dedup.{
  DedupeEntry, JobDeduplicator, DedupDecision, drop_all, expired_keys, evict_expired, counted,
  submit_key, complete,
}
use helix_router_adaptive_as.Dedup.Entries.{unexpired, get-evict_expired}
use helix_router_adaptive_as.Dedup.Links.{
  Linked, Free, unlink, drop_all-Linked, drop_all-Free, joined, decided, join_or_add-Joined,
}

-- An eviction takes out the expired entries, and no others.
pub record Evicts (d : JobDeduplicator) (now : ℕ) (left : JobDeduplicator) : Type 0 where
  pub links : Linked left.entries left.id_to_key
  pub entries_are : (k : ℕ) → get k left.entries ≡ unexpired d now (get k d.entries)

-- A submission finds what an eviction leaves: it joins the entry of its key or makes one, and tells
-- the caller which.
pub record Submits (d : JobDeduplicator) (key job_id now tx : ℕ) (t : JobDeduplicator)
    (decision : DedupDecision) : Type 0 where
  pub links : Linked t.entries t.id_to_key
  pub decides : decision ≡ decided (unexpired d now (get key d.entries))
  pub entries_are :
      (k : ℕ)
      → get k t.entries ≡ (
          if key == k
          then some (joined job_id now tx (unexpired d now (get key d.entries)))
          else unexpired d now (get k d.entries))

-- The completion of an entry's job takes the entry out and sends to its waiters.
pub record Completes (d : JobDeduplicator) (key : ℕ) (e : DedupeEntry) (u : JobDeduplicator)
    (sent : List ℕ) : Type 0 where
  pub links : Linked u.entries u.id_to_key
  pub sends : sent ≡ e.waiters
  pub entries_are : (k : ℕ) → get k u.entries ≡ (if key == k then none else get k d.entries)

evict_expired-Evicts :
    (d : JobDeduplicator) (now : ℕ)
    → Linked d.entries d.id_to_key
    → Evicts d now (evict_expired d now)
unfolding evict_expired
evict_expired-Evicts d now l = record {
  links = drop_all-Linked (expired_keys d now) d l;
  entries_are = λ k. get-evict_expired d now k (get k d.entries) l.once refl;
}

submit_key-Submits :
    (d : JobDeduplicator) (key job_id now tx : ℕ)
    → Linked d.entries d.id_to_key
    → Free job_id key d.id_to_key
    → Submits d key job_id now tx
        (submit_key d key job_id now tx).0
        (submit_key d key job_id now tx).1
unfolding submit_key evict_expired
submit_key-Submits d key job_id now tx l free =
    let gone = drop_all (expired_keys d now) d in
    let j =
      join_or_add-Joined (counted gone) key job_id now tx (get key gone.entries) refl
        (drop_all-Free (expired_keys d now) d job_id key free)
        (drop_all-Linked (expired_keys d now) d l) in
    let left = (evict_expired-Evicts d now l).entries_are in
    record {
      links = j.links;
      decides = j.decides ∙ ap decided (left key);
      entries_are = λ k.
          j.entries_are k
          ∙ ap (λ o. if key == k then some (joined job_id now tx o) else get k gone.entries)
              (left key)
          ∙ ap
              (λ o.
                if key == k
                then some (joined job_id now tx (unexpired d now (get key d.entries)))
                else o)
              (left k);
    }

complete-Completes :
    (d : JobDeduplicator) (key : ℕ) (e : DedupeEntry)
    → Linked d.entries d.id_to_key
    → get key d.entries ≡ some e
    → Completes d key e (complete d e.original_job_id).0 (complete d e.original_job_id).1
unfolding complete
complete-Completes d key e l found =
    rw (l.to_key key e found, found)
      record {
        links = unlink d.entries d.id_to_key key e found l;
        sends = refl;
        entries_are = λ k. get-delete key k d.entries;
      }

-- Where the two maps of a deduplicator agree (a key has one entry, each entry's job leads back to its
-- key, and each job that leads to a key is that of the entry there), and no job in flight under another
-- key has the identifier of a submitted job, they agree after an eviction, a submission and the
-- completion of the job of any entry. An eviction takes out exactly the entries whose time to live has
-- passed. A submission does the same first; if its key has an entry left, the caller is told to wait
-- for the job of that entry, to whose waiters its channel is added at the end, and otherwise it is told
-- to run the job, for which an entry without waiters is made; the other entries stay. A completion
-- sends the result to each of the entry's waiters, in the order in which they came, and takes out this
-- entry only.
pub dedup_operations-Linked :
    (d : JobDeduplicator) (key job_id now tx done_key : ℕ) (done : DedupeEntry)
    → Linked d.entries d.id_to_key
    → Free job_id key d.id_to_key
    → get done_key d.entries ≡ some done
    → let (t, decision) = submit_key d key job_id now tx in
      let (u, sent) = complete d done.original_job_id in
      Evicts d now (evict_expired d now)
      × Submits d key job_id now tx t decision
      × Completes d done_key done u sent
dedup_operations-Linked d key job_id now tx done_key done l free found = (
  evict_expired-Evicts d now l,
  submit_key-Submits d key job_id now tx l free,
  complete-Completes d done_key done l found,
)
