-- ===== src/Dedup/Entries.antt =====
-- src/dedup.rs: which entries an eviction keeps, and that a key has one entry.
use helix_router_adaptive_as.Common.{
  ℕ, Bool, true, false, List, [], ◌∷◌, Option, none, some, ◌≡◌, refl, ap, sym, ◌∙◌, ◌==◌, inl, inr,
  if◌then◌else◌, map, retain, nat_key, arith, Bool-cases,
}
use helix_router_adaptive_as.Common.Maps.{Map, get, insert, delete, keys, keys-insert, get-delete}
use helix_router_adaptive_as.Common.Sets.{contains, distinct, distinct-concat}
use helix_router_adaptive_as.Dedup.{
  DedupeEntry, JobDeduplicator, is_expired, expired_keys, drop_entry, drop_all, evict_expired,
}

module _ {V : Type 0} where
  contains-delete :
      (k j : ℕ) (m : Map ℕ V) → contains j (keys (delete k m)) ≡ true → contains j (keys m) ≡ true
  unfolding delete contains
  contains-delete k j [] h = h
  contains-delete k j ((i, v) ∷ m) h = ground (arith, contains-delete k j m)

  pub distinct-delete :
      (k : ℕ) (m : Map ℕ V) → distinct (keys m) ≡ true → distinct (keys (delete k m)) ≡ true
  unfolding delete distinct
  distinct-delete k [] h = refl
  distinct-delete k ((i, v) ∷ m) h = ground (arith, distinct-delete k m, contains-delete k i m)

  keys-insert_old :
      (k : ℕ) (v : V) (m : Map ℕ V) → contains k (keys m) ≡ true → keys (insert k v m) ≡ keys m
  unfolding insert contains
  keys-insert_old k v [] h = absurd cc
  keys-insert_old k v ((i, w) ∷ m) h = elim (Bool-cases (i == k)) [
    | inl here ↦ rw here refl
    | inr other ↦ rw other (ap (λ ks. i ∷ ks) (keys-insert_old k v m (rw other at h)))
  ]

  pub distinct-insert :
      (k : ℕ) (v : V) (m : Map ℕ V)
      → distinct (keys m) ≡ true
      → distinct (keys (insert k v m)) ≡ true
  distinct-insert k v m h = elim (Bool-cases (contains k (keys m))) [
    | inl old ↦ rw (keys-insert_old k v m old) h
    | inr new ↦ rw (keys-insert k v m new) (distinct-concat k (keys m) new h)
  ]

  absent-retain :
      (p : ℕ × V → Bool) (k : ℕ) (m : Map ℕ V)
      → contains k (keys m) ≡ false
      → contains k (map (λ e. e.0) (retain p m)) ≡ false
  unfolding contains
  absent-retain p k [] h = refl
  absent-retain p k ((i, v) ∷ m) h = ground (arith, absent-retain p k m)

  -- Where a key has one entry, the keys of the entries with a property are those whose entry has it.
  pub contains-retain_entry :
      (p : V → Bool) (k : ℕ) (v : V) (m : Map ℕ V)
      → distinct (keys m) ≡ true
      → get k m ≡ some v
      → contains k (map (λ e. e.0) (retain (λ (e : ℕ × V). p e.1) m)) ≡ p v
  unfolding get contains distinct
  contains-retain_entry p k v [] once h = absurd cc
  contains-retain_entry p k v ((i, w) ∷ m) once h = ground (
    arith,
    contains-retain_entry p k v m,
    absent-retain (λ (e : ℕ × V). p e.1) k m,
    nat_key.same_iff i k,
  )

-- The entry that an eviction leaves under a key.
abbrev pub unexpired : JobDeduplicator → ℕ → Option DedupeEntry → Option DedupeEntry
unexpired d now none = none
unexpired d now (some e) = if is_expired d now e then none else some e

get-drop_entry :
    (d : JobDeduplicator) (key k : ℕ) (o : Option DedupeEntry)
    → get key d.entries ≡ o
    → get k (drop_entry d key o).entries ≡ (if key == k then none else get k d.entries)
get-drop_entry d key k none h = elim (Bool-cases (key == k)) [
  | inl same ↦ rw same (ap (λ i. get i d.entries) (sym ((nat_key.same_iff key k).0 same)) ∙ h)
  | inr other ↦ rw other refl
]
get-drop_entry d key k (some e) h = get-delete key k d.entries

get-drop_all :
    (ks : List ℕ) (d : JobDeduplicator) (k : ℕ)
    → get k (drop_all ks d).entries ≡ (if contains k ks then none else get k d.entries)
unfolding drop_all contains
get-drop_all [] d k = refl
get-drop_all (key ∷ ks) d k = ground (
  arith,
  get-drop_all ks (drop_entry d key (get key d.entries)) k,
  get-drop_entry d key k (get key d.entries) refl,
)

-- An eviction takes out the expired entries and no others.
pub get-evict_expired :
    (d : JobDeduplicator) (now k : ℕ) (o : Option DedupeEntry)
    → distinct (keys d.entries) ≡ true
    → get k d.entries ≡ o
    → get k (evict_expired d now).entries ≡ unexpired d now o
unfolding evict_expired
get-evict_expired d now k none once h = ground (arith, get-drop_all (expired_keys d now) d k)
get-evict_expired d now k (some e) once h = ground (
  arith,
  get-drop_all (expired_keys d now) d k,
  contains-retain_entry (is_expired d now) k e d.entries once h,
)
