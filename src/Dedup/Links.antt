-- ===== src/Dedup/Links.antt =====
-- src/dedup.rs: the two maps of the deduplicator agree whatever is put in or taken out.
use helix_router_adaptive_as.Common.{
  ℕ, true, ◌≡◌, refl, ap, sym, ◌∙◌, List, [], ◌∷◌, ◌++◌, Option, none, some, nat_key, arith, ◌==◌,
  ◌⊎◌, inl, inr, if◌then◌else◌, Bool-cases,
}
use mathlib.Core.Option.{some-injective}
use helix_router_adaptive_as.Common.Maps.{Map, get, insert, delete, keys, get-insert, get-delete}
use helix_router_adaptive_as.Common.Sets.{distinct}
use helix_router_adaptive_as.Dedup.{
  DedupeEntry, JobDeduplicator, DedupDecision, fresh, duplicate, drop_entry, drop_all, join_or_add,
}
use helix_router_adaptive_as.Dedup.Entries.{distinct-delete, distinct-insert}

-- A key has one entry, the job of every entry leads back to the entry's key, and every job that leads
-- to a key is that of an entry there.
pub record Linked (entries : Map ℕ DedupeEntry) (ids : Map ℕ ℕ) : Type 0 where
  pub once : distinct (keys entries) ≡ true
  pub to_key :
      (k : ℕ) (e : DedupeEntry) → get k entries ≡ some e → get e.original_job_id ids ≡ some k
  pub to_entry :
      (id k : ℕ)
      → get id ids ≡ some k
      → (e : DedupeEntry) × (get k entries ≡ some e) × (e.original_job_id ≡ id)

-- An entry taken out together with the key of its job
pub unlink :
    (entries : Map ℕ DedupeEntry) (ids : Map ℕ ℕ) (key : ℕ) (x : DedupeEntry)
    → get key entries ≡ some x
    → Linked entries ids
    → Linked (delete key entries) (delete x.original_job_id ids)
unlink entries ids key x h l = record {
  once = distinct-delete key entries l.once;
  to_key = λ k e f. ground (
    arith,
    get-delete key k entries,
    get-delete x.original_job_id e.original_job_id ids,
    l.to_key k e,
    l.to_key key x h,
    nat_key.same_iff x.original_job_id e.original_job_id,
    nat_key.same_iff key k,
    ap (λ i. get i ids),
    some-injective k key,
  );
  to_entry = λ id k f. elim (Bool-cases (x.original_job_id == id)) [
    | inl same ↦ absurd (ground (arith, get-delete x.original_job_id id ids))
    | inr other ↦
        let (e, here, own) =
          l.to_entry id k (sym (get-delete x.original_job_id id ids ∙ rw other refl) ∙ f) in
        elim (Bool-cases (key == k)) [
          | inl at ↦
              let is : x ≡ e =
                some-injective x e
                  (sym h ∙ ap (λ i. get i entries) ((nat_key.same_iff key k).0 at) ∙ here) in
              absurd (
                ground (
                  arith,
                  ap (λ (y : DedupeEntry). y.original_job_id) is,
                  nat_key.same_iff x.original_job_id id,
                ))
          | inr off ↦ (e, get-delete key k entries ∙ rw off here, own)
        ]
  ];
}

drop_entry-Linked :
    (d : JobDeduplicator) (key : ℕ) (o : Option DedupeEntry)
    → get key d.entries ≡ o
    → Linked d.entries d.id_to_key
    → Linked (drop_entry d key o).entries (drop_entry d key o).id_to_key
drop_entry-Linked d key none h l = l
drop_entry-Linked d key (some e) h l = unlink d.entries d.id_to_key key e h l

pub drop_all-Linked :
    (ks : List ℕ) (d : JobDeduplicator)
    → Linked d.entries d.id_to_key
    → Linked (drop_all ks d).entries (drop_all ks d).id_to_key
unfolding drop_all
drop_all-Linked [] d l = l
drop_all-Linked (key ∷ ks) d l =
    drop_all-Linked ks (drop_entry d key (get key d.entries))
      (drop_entry-Linked d key (get key d.entries) refl l)

-- No job in flight under another key has the identifier.
abbrev pub Free : ℕ → ℕ → Map ℕ ℕ → Type 0
Free id key ids = (get id ids ≡ none) ⊎ (get id ids ≡ some key)

drop_entry-Free :
    (d : JobDeduplicator) (j id key : ℕ) (o : Option DedupeEntry)
    → Free id key d.id_to_key
    → Free id key (drop_entry d j o).id_to_key
drop_entry-Free d j id key none h = h
drop_entry-Free d j id key (some e) h = elim (Bool-cases (e.original_job_id == id)) [
  | inl y ↦ inl (get-delete e.original_job_id id d.id_to_key ∙ rw y refl)
  | inr n ↦ rw (get-delete e.original_job_id id d.id_to_key, n) h
]

pub drop_all-Free :
    (ks : List ℕ) (d : JobDeduplicator) (id key : ℕ)
    → Free id key d.id_to_key
    → Free id key (drop_all ks d).id_to_key
unfolding drop_all
drop_all-Free [] d id key h = h
drop_all-Free (j ∷ ks) d id key h =
    drop_all-Free ks (drop_entry d j (get j d.entries)) id key
      (drop_entry-Free d j id key (get j d.entries) h)

-- A new entry under a key that has none
add-Linked :
    (entries : Map ℕ DedupeEntry) (ids : Map ℕ ℕ) (key : ℕ) (x : DedupeEntry)
    → get key entries ≡ none
    → Free x.original_job_id key ids
    → Linked entries ids
    → Linked (insert key x entries) (insert x.original_job_id key ids)
add-Linked entries ids key x h free l = record {
  once = distinct-insert key x entries l.once;
  to_key = λ k e f. ground (
    arith,
    get-insert key k x entries,
    get-insert x.original_job_id e.original_job_id key ids,
    l.to_key k e,
  );
  to_entry = λ id k f. elim (Bool-cases (x.original_job_id == id)) [
    | inl same ↦
        let at : key ≡ k =
          some-injective key k (sym (get-insert x.original_job_id id key ids ∙ rw same refl) ∙ f) in
        (
          x,
          get-insert key k x entries ∙ rw ((nat_key.same_iff key k).1 at) refl,
          (nat_key.same_iff x.original_job_id id).0 same,
        )
    | inr other ↦
        let (e, here, own) =
          l.to_entry id k (sym (get-insert x.original_job_id id key ids ∙ rw other refl) ∙ f) in
        elim (Bool-cases (key == k)) [
          | inl at ↦
              let gone = ap (λ i. get i entries) (sym ((nat_key.same_iff key k).0 at)) ∙ h in
              absurd (ground arith)
          | inr off ↦ (e, get-insert key k x entries ∙ rw off here, own)
        ]
  ];
}

-- An entry that keeps its job
grow-Linked :
    (entries : Map ℕ DedupeEntry) (ids : Map ℕ ℕ) (key : ℕ) (x y : DedupeEntry)
    → get key entries ≡ some x
    → y.original_job_id ≡ x.original_job_id
    → Linked entries ids
    → Linked (insert key y entries) ids
grow-Linked entries ids key x y h own l = record {
  once = distinct-insert key y entries l.once;
  to_key = λ k e f. elim (Bool-cases (key == k)) [
    | inl at ↦
        let is : y ≡ e = some-injective y e (sym (get-insert key k y entries ∙ rw at refl) ∙ f) in
        ap (λ i. get i ids) (ap (λ (z : DedupeEntry). z.original_job_id) (sym is) ∙ own)
        ∙ l.to_key key x h
        ∙ ap some ((nat_key.same_iff key k).0 at)
    | inr off ↦ l.to_key k e (sym (get-insert key k y entries ∙ rw off refl) ∙ f)
  ];
  to_entry = λ id k f.
      let (e, here, named) = l.to_entry id k f in
      elim (Bool-cases (key == k)) [
        | inl at ↦
            let is : x ≡ e =
              some-injective x e
                (sym h ∙ ap (λ i. get i entries) ((nat_key.same_iff key k).0 at) ∙ here) in
            (
              y,
              get-insert key k y entries ∙ rw at refl,
              own ∙ ap (λ (z : DedupeEntry). z.original_job_id) is ∙ named,
            )
        | inr off ↦ (e, get-insert key k y entries ∙ rw off here, named)
      ];
}

-- The entry of a submission: the caller waits for the job in flight, or its job is the one to run.
abbrev pub joined : ℕ → ℕ → ℕ → Option DedupeEntry → DedupeEntry
joined job_id now tx none = record { original_job_id = job_id; submitted_at = now; waiters = [] }
joined job_id now tx (some e) = record e { waiters = e.waiters ++ (tx ∷ []) }

abbrev pub decided : Option DedupeEntry → DedupDecision
decided none = fresh
decided (some e) = duplicate e.original_job_id

-- What a submission leaves of a deduplicator whose eviction leaves `d`.
pub record Joined (d t : JobDeduplicator) (key job_id now tx : ℕ) (decision : DedupDecision)
    : Type 0 where
  pub links : Linked t.entries t.id_to_key
  pub decides : decision ≡ decided (get key d.entries)
  pub entries_are :
      (k : ℕ)
      → get k t.entries
        ≡ (if key == k then some (joined job_id now tx (get key d.entries)) else get k d.entries)

pub join_or_add-Joined :
    (d : JobDeduplicator) (key job_id now tx : ℕ) (o : Option DedupeEntry)
    → get key d.entries ≡ o
    → Free job_id key d.id_to_key
    → Linked d.entries d.id_to_key
    → let (t, decision) = join_or_add d key job_id now tx o in Joined d t key job_id now tx decision
join_or_add-Joined d key job_id now tx none h free l =
    let made = joined job_id now tx none in
    record {
      links = add-Linked d.entries d.id_to_key key made h free l;
      decides = ap decided (sym h);
      entries_are = λ k. rw h (get-insert key k made d.entries);
    }
join_or_add-Joined d key job_id now tx (some x) h free l =
    let grown = joined job_id now tx (some x) in
    record {
      links = grow-Linked d.entries d.id_to_key key x grown h refl l;
      decides = ap decided (sym h);
      entries_are = λ k. rw h (get-insert key k grown d.entries);
    }
