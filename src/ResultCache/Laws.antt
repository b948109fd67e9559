-- ===== src/ResultCache/Laws.antt =====
-- What the operations of the result cache keep, and what a lookup finds.
use helix_router_adaptive_as.Common.{
  ℕ, ◌==◌, if◌then◌else◌, sym, ap, ◌∙◌, ◌-◌, ◌≤◌, ◌<◌, ◌≡◌, refl, String, List, [], ◌∷◌, ◌++◌,
  Option, none, some, eqb, leb, length, count_if-append, arith, nat_key, Bool-cases, inl, inr,
  if_cases,
}
use helix_router_adaptive_as.Common.Maps.{Map, get, insert, delete, get-insert}
use mathlib.Core.Option.{some-injective}
use helix_router_adaptive_as.Words.{add_u64}
use helix_router_adaptive_as.Floats.{Floats}
use helix_router_adaptive_as.Types.{Job}
use helix_router_adaptive_as.ResultCache.{
  CacheEntry, CachedResult, hit, ResultCache, promote, is_stale, answer, get_key, get_result,
  evict_lru, without_oldest, store, insert_key, insert_result, expired_keys, drop_keys,
  evict_expired, job_key, key_of,
}
use helix_router_adaptive_as.ResultCache.Keys.{
  occ, keys, occ-remove_first, occ-promote, occ-delete, occ-get-none, occ-insert_old,
  occ-insert_new, length-insert_old, length-insert_le, length-delete_le, get-delete-none,
}

-- The queue holds exactly the keys of the entries, each once.
abbrev pub Matches : List ℕ → Map ℕ CacheEntry → Type 0
Matches order m = (k : ℕ) → (occ k order ≡ occ k (keys m)) × (occ k order ≤ 1)

pub record Inv (c : ResultCache) : Type 0 where
  pub matched : Matches c.lru_order c.entries
  pub bounded : length c.entries ≤ c.config.max_entries

-- What the loop that makes room leaves.
record Evicted (c r : ResultCache) : Type 0 where
  kept : Matches r.lru_order r.entries
  same_config : r.config ≡ c.config
  room : length r.entries < c.config.max_entries

no_keys : (m : Map ℕ CacheEntry) → ((k : ℕ) → 0 ≡ occ k (keys m)) → length m ≡ 0
no_keys [] h = refl
no_keys ((i, e) ∷ m) h = absurd (ground (arith, h i))

delete-Matches :
    (j : ℕ) (order : List ℕ) (m : Map ℕ CacheEntry)
    → Matches (j ∷ order) m
    → Matches order (delete j m)
delete-Matches j order m h k = ground (arith, h k, occ-delete k j m)

evict_lru-Evicted :
    (c : ResultCache) (order : List ℕ)
    → Matches order c.entries
    → 0 < c.config.max_entries
    → Evicted c (evict_lru c order)
unfolding evict_lru
evict_lru-Evicted c [] h pos =
    let empty = no_keys c.entries (λ k. (h k).0) in
    record { kept = h; same_config = refl; room = omega (arith, empty) }
evict_lru-Evicted c (j ∷ order) h pos =
    elim (Bool-cases (leb c.config.max_entries (length c.entries))) [
      | inl e ↦ rw e (
          let r =
            evict_lru-Evicted (without_oldest c j) order (delete-Matches j order c.entries h) pos in
          record { kept = r.kept; same_config = r.same_config; room = r.room })
      | inr e ↦ rw e (record { kept = h; same_config = refl; room = ground arith })
    ]

evict_lru-none :
    (c : ResultCache) (order : List ℕ) (k : ℕ)
    → get k c.entries ≡ none
    → get k (evict_lru c order).entries ≡ none
unfolding evict_lru
evict_lru-none c [] k h = h
evict_lru-none c (j ∷ order) k h = elim (Bool-cases (leb c.config.max_entries (length c.entries))) [
  | inl e ↦ rw e (evict_lru-none (without_oldest c j) order k (get-delete-none k j c.entries h))
  | inr e ↦ rw e h
]

-- An entry changed in place, and its key promoted.
update-Matches :
    (key : ℕ) (e e' : CacheEntry) (order : List ℕ) (m : Map ℕ CacheEntry)
    → get key m ≡ some e
    → Matches order m
    → Matches (promote key order) (insert key e' m)
update-Matches key e e' order m g h k =
    omega (arith, h k, occ-promote k key order, occ-insert_old k key e e' m g)

answer-Inv :
    (c : ResultCache) (key now : ℕ) (found : Option CacheEntry)
    → get key c.entries ≡ found
    → Inv c
    → Inv (answer c key now found).0
answer-Inv c key now none g i = record { matched = i.matched; bounded = i.bounded }
answer-Inv c key now (some e) g i = elim (Bool-cases (is_stale c now e)) [
  | inl s ↦ rw s (record { matched = i.matched; bounded = i.bounded })
  | inr s ↦ rw s (record {
    matched = update-Matches key e _ c.lru_order c.entries g i.matched;
    bounded = omega (arith, i.bounded, length-insert_old key e _ c.entries g);
  })
]

add-Matches :
    (key : ℕ) (e : CacheEntry) (order : List ℕ) (m : Map ℕ CacheEntry)
    → get key m ≡ none
    → Matches order m
    → Matches (order ++ (key ∷ [])) (insert key e m)
add-Matches key e order m g h k = ground (
  arith,
  h k,
  occ-get-none key m g,
  occ-insert_new k key e m g,
  count_if-append (eqb k) order (key ∷ []),
)

store-Inv :
    (c : ResultCache) (key : ℕ) (result : String) (now : ℕ) (found : Option CacheEntry)
    → get key c.entries ≡ found
    → 0 < c.config.max_entries
    → Inv c
    → Inv (store c key result now found)
store-Inv c key result now (some e) g pos i = record {
  matched = update-Matches key e _ c.lru_order c.entries g i.matched;
  bounded = omega (arith, i.bounded, length-insert_old key e _ c.entries g);
}
store-Inv c key result now none g pos i =
    let r = evict_lru-Evicted c c.lru_order i.matched pos in
    let gone = evict_lru-none c c.lru_order key g in
    let entry : CacheEntry = record { result = result; computed_at = now; hits = 0 } in
    record {
      matched = add-Matches key entry _ _ gone r.kept;
      bounded =
          rw r.same_config
            (omega (arith, r.room, length-insert_le key entry (evict_lru c c.lru_order).entries));
    }

drop_keys-Inv : (ks : List ℕ) (c : ResultCache) → Inv c → Inv (drop_keys ks c)
unfolding drop_keys
drop_keys-Inv [] c i = i
drop_keys-Inv (key ∷ ks) c i = drop_keys-Inv ks _ (record {
  matched = λ k.
      ground (arith, i.matched k, occ-remove_first k key c.lru_order, occ-delete k key c.entries);
  bounded = omega (arith, i.bounded, length-delete_le key c.entries);
})

-- With a capacity above 0 every operation keeps the cache within it and the queue of keys in step
-- with the entries: looking up, inserting, whether or not the key is there or others must go, and
-- evicting what has expired.
pub cache_operations-Inv :
    {fl : Floats} (c : ResultCache) (job : Job fl) (result : String) (now : ℕ)
    → 0 < c.config.max_entries
    → Inv c
    → Inv (get_result c job now).0
      × Inv (insert_result c job result now)
      × Inv (evict_expired c now).0
unfolding get_result insert_result evict_expired get_key insert_key
cache_operations-Inv c job result now pos i = (
  answer-Inv c (job_key job) now (get (job_key job) c.entries) refl i,
  store-Inv c (job_key job) result now (get (job_key job) c.entries) refl pos i,
  drop_keys-Inv (expired_keys c now) c i,
)

evict_lru-config : (c : ResultCache) (order : List ℕ) → (evict_lru c order).config ≡ c.config
unfolding evict_lru
evict_lru-config c [] = refl
evict_lru-config c (j ∷ order) =
    if_cases (λ (r : ResultCache). r.config ≡ c.config)
      (leb c.config.max_entries (length c.entries)) (evict_lru-config (without_oldest c j) order)
      refl

-- The entry of a key was computed at `now` with this result, however often it was looked up since.
record Holds (key : ℕ) (result : String) (now ttl : ℕ) (c : ResultCache) : Type 0 where
  entry : CacheEntry
  there : get key c.entries ≡ some entry
  same_result : entry.result ≡ result
  same_time : entry.computed_at ≡ now
  same_ttl : c.config.ttl ≡ ttl

-- What a lookup finds: the result until the time to live has passed, and nothing afterwards.
abbrev pub found_until : ℕ → ℕ → ℕ → String → Option CachedResult
found_until ttl now later result =
    if leb (later - now) ttl then some (record { result = result; age = later - now }) else none

get_key-found :
    (key : ℕ) (result : String) (now ttl later : ℕ) (c : ResultCache)
    → Holds key result now ttl c
    → (get_key c key later).1 ≡ found_until ttl now later result
unfolding get_key
get_key-found key result now ttl later c h =
    rw (h.there, get_key) (ground (arith, h.same_result, h.same_time, h.same_ttl))

-- A lookup changes only how often an entry was found.
hit-Holds :
    (key : ℕ) (result : String) (now ttl j : ℕ) (c : ResultCache) (e : CacheEntry)
    → get j c.entries ≡ some e
    → Holds key result now ttl c
    → Holds key result now ttl (hit c j e)
hit-Holds key result now ttl j c e g h =
    let counted : CacheEntry = record e { hits = add_u64 e.hits 1 } in
    elim (Bool-cases (j == key)) [
      | inl same ↦
          let here = (nat_key.same_iff j key).0 same in
          let is : e ≡ h.entry =
            some-injective _ _ (sym g ∙ ap (λ k. get k c.entries) here ∙ h.there) in
          record {
            entry = counted;
            there = get-insert j key counted c.entries ∙ rw same refl;
            same_result = ap (λ (x : CacheEntry). x.result) is ∙ h.same_result;
            same_time = ap (λ (x : CacheEntry). x.computed_at) is ∙ h.same_time;
            same_ttl = h.same_ttl;
          }
      | inr other ↦ record {
        entry = h.entry;
        there = get-insert j key counted c.entries ∙ rw other h.there;
        same_result = h.same_result;
        same_time = h.same_time;
        same_ttl = h.same_ttl;
      }
    ]

answer-Holds :
    (key : ℕ) (result : String) (now ttl j t : ℕ) (c : ResultCache) (found : Option CacheEntry)
    → get j c.entries ≡ found
    → Holds key result now ttl c
    → Holds key result now ttl (answer c j t found).0
answer-Holds key result now ttl j t c none g h = record {
  entry = h.entry;
  there = h.there;
  same_result = h.same_result;
  same_time = h.same_time;
  same_ttl = h.same_ttl;
}
answer-Holds key result now ttl j t c (some e) g h = elim (Bool-cases (is_stale c t e)) [
  | inl s ↦ rw s (record {
    entry = h.entry;
    there = h.there;
    same_result = h.same_result;
    same_time = h.same_time;
    same_ttl = h.same_ttl;
  })
  | inr s ↦ rw s (hit-Holds key result now ttl j c e g h)
]

-- Lookups one after the other, each of a job and at a time.
unfoldable pub look_up_all : {fl : Floats} → List (Job fl × ℕ) → ResultCache → ResultCache
look_up_all [] c = c
look_up_all ((job, t) ∷ lookups) c = look_up_all lookups (get_result c job t).0

look_up_all-Holds :
    {fl : Floats} (lookups : List (Job fl × ℕ)) (key : ℕ) (result : String) (now ttl : ℕ)
    (c : ResultCache)
    → Holds key result now ttl c
    → Holds key result now ttl (look_up_all lookups c)
unfolding look_up_all get_result get_key
look_up_all-Holds [] key result now ttl c h = h
look_up_all-Holds ((job, t) ∷ lookups) key result now ttl c h =
    look_up_all-Holds lookups key result now ttl (get_result c job t).0
      (answer-Holds key result now ttl (job_key job) t c (get (job_key job) c.entries) refl h)

get-insert_same :
    (key : ℕ) (e : CacheEntry) (m : Map ℕ CacheEntry) → get key (insert key e m) ≡ some e
get-insert_same key e m = ground (arith, get-insert key key e m)

store-Holds :
    (c : ResultCache) (key now : ℕ) (result : String) (found : Option CacheEntry)
    → Holds key result now c.config.ttl (store c key result now found)
store-Holds c key now result (some e) = record {
  entry = record e { result = result; computed_at = now };
  there = get-insert_same key _ c.entries;
  same_result = refl;
  same_time = refl;
  same_ttl = refl;
}
store-Holds c key now result none = record {
  entry = record { result = result; computed_at = now; hits = 0 };
  there = get-insert_same key _ (evict_lru c c.lru_order).entries;
  same_result = refl;
  same_time = refl;
  same_ttl = rw (evict_lru-config c c.lru_order) refl;
}

-- After an insertion, with any lookups of any jobs in between and no other operation, a lookup by a job
-- of the same kind, inputs and cost, whatever its identifier, finds the result with its age if the
-- result is not older than the time to live, and finds nothing if it is.
pub get-insert_result :
    {fl : Floats} (c : ResultCache) (job job' : Job fl) (result : String) (now later : ℕ)
    (between : List (Job fl × ℕ))
    → job'.kind ≡ job.kind
    → job'.inputs ≡ job.inputs
    → job'.compute_cost ≡ job.compute_cost
    → (get_result (look_up_all between (insert_result c job result now)) job' later).1
      ≡ found_until c.config.ttl now later result
unfolding get_result insert_result insert_key job_key
get-insert_result c job job' result now later between ek ei ec =
    let key = key_of job.kind job.inputs job.compute_cost in
    rw (ek, ei, ec)
      (get_key-found key result now c.config.ttl later _ (
        look_up_all-Holds between key result now c.config.ttl _
          (store-Holds c key now result (get key c.entries))))
