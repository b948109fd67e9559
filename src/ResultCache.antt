-- ===== src/ResultCache.antt =====
-- src/result_cache.rs: the cache of results that `submit` consults, with its LRU queue and the time
-- to live of its entries. Times are in nanoseconds; the clock is read once per operation.
pub mod Keys
pub mod Laws
use helix_router_adaptive_as.Common.{
  ℕ, zero, suc, ◌+◌, ◌-◌, ◌*◌, ◌/◌, ◌%◌, ◌^◌, bit_xor, Bool, true, false, String, List, [], ◌∷◌,
  ◌++◌, Option, none, some, leb, ltb, eqb, if◌then◌else◌, length, map, retain, nat_key, ◌==◌,
}
use helix_router_adaptive_as.Common.Maps.{Map, get, insert, delete}
use helix_router_adaptive_as.Words.{add_u64, wrapping_mul}
use helix_router_adaptive_as.Floats.{Floats}
use helix_router_adaptive_as.Types.{Job, JobKind}

unfoldable pub fnv_loop : ℕ → List ℕ → ℕ
fnv_loop hash [] = hash
fnv_loop hash (byte ∷ bytes) = fnv_loop (wrapping_mul (bit_xor hash byte) 1_099_511_628_211) bytes

unfoldable pub fnv1a_64 : List ℕ → ℕ
fnv1a_64 bytes = fnv_loop 14_695_981_039_346_656_037 bytes

-- The bytes of `job.kind.to_string()`: hash_mix, prime_count, monte_carlo_risk.
abbrev pub kind_bytes : JobKind → List ℕ
kind_bytes JobKind.hash_mix = 104 ∷ 97 ∷ 115 ∷ 104 ∷ 95 ∷ 109 ∷ 105 ∷ 120 ∷ []
kind_bytes JobKind.prime_count = 112 ∷ 114 ∷ 105 ∷ 109 ∷ 101 ∷ 95 ∷ 99 ∷ 111 ∷ 117 ∷ 110 ∷ 116 ∷ []
kind_bytes JobKind.monte_carlo_risk =
    109 ∷ 111 ∷ 110 ∷ 116 ∷ 101 ∷ 95 ∷ 99 ∷ 97 ∷ 114 ∷ 108 ∷ 111 ∷ 95 ∷ 114 ∷ 105 ∷ 115 ∷ 107 ∷ []

-- The lowest `n` bytes, the least significant first.
unfoldable pub le_bytes : ℕ → ℕ → List ℕ
le_bytes zero v = []
le_bytes (suc n) v = (v % 256) ∷ le_bytes n (v / 256)

unfoldable pub input_bytes : List ℕ → List ℕ
input_bytes [] = []
input_bytes (v ∷ vs) = le_bytes 8 v ++ input_bytes vs

abbrev pub key_of : JobKind → List ℕ → ℕ → ℕ
key_of kind inputs cost = fnv1a_64 ((kind_bytes kind ++ input_bytes inputs) ++ le_bytes 8 cost)

unfoldable pub job_key : {fl : Floats} → Job fl → ℕ
job_key job = key_of job.kind job.inputs job.compute_cost

pub record CacheConfig : Type 0 where
  pub max_entries : ℕ
  pub ttl : ℕ

abbrev pub default_cache : CacheConfig
default_cache = record { max_entries = 1024; ttl = 300_000_000_000 }

pub record CacheEntry : Type 0 where
  pub result : String
  pub computed_at : ℕ
  pub hits : ℕ

pub record CachedResult : Type 0 where
  pub result : String
  pub age : ℕ

pub record ResultCache : Type 0 where
  pub config : CacheConfig
  pub entries : Map ℕ CacheEntry
  pub lru_order : List ℕ
  pub hits : ℕ
  pub misses : ℕ
  pub evictions : ℕ

abbrev pub new_cache : CacheConfig → ResultCache
new_cache config = record {
  config = config;
  entries = [];
  lru_order = [];
  hits = 0;
  misses = 0;
  evictions = 0;
}

abbrev pub is_stale : ResultCache → ℕ → CacheEntry → Bool
is_stale c now e = ltb c.config.ttl (now - e.computed_at)

-- `position` of a key and `remove` at it.
unfoldable pub remove_first : ℕ → List ℕ → List ℕ
remove_first key [] = []
remove_first key (k ∷ ks) = let rest = k ∷ remove_first key ks in if eqb k key then ks else rest

abbrev pub contains_key : ℕ → List ℕ → Bool
contains_key key [] = false
contains_key key (k ∷ ks) = if eqb k key then true else contains_key key ks

-- To the back of the queue, if it is there.
unfoldable pub promote : ℕ → List ℕ → List ℕ
promote key order = if contains_key key order then remove_first key order ++ (key ∷ []) else order

abbrev pub missed : ResultCache → ResultCache
missed c = record c { misses = add_u64 c.misses 1 }

abbrev pub hit : ResultCache → ℕ → CacheEntry → ResultCache
hit c key e = record c {
  entries = insert key (record e { hits = add_u64 e.hits 1 }) c.entries;
  hits = add_u64 c.hits 1;
  lru_order = promote key c.lru_order;
}

abbrev pub answer : ResultCache → ℕ → ℕ → Option CacheEntry → ResultCache × Option CachedResult
answer c key now none = (missed c, none)
answer c key now (some e) =
    if is_stale c now e
    then (missed c, none)
    else (hit c key e, some (record { result = e.result; age = now - e.computed_at }))

unfoldable pub get_key : ResultCache → ℕ → ℕ → ResultCache × Option CachedResult
get_key c key now = answer c key now (get key c.entries)

unfoldable pub get_result :
    {fl : Floats} → ResultCache → Job fl → ℕ → ResultCache × Option CachedResult
get_result c job now = get_key c (job_key job) now

abbrev pub without_oldest : ResultCache → ℕ → ResultCache
without_oldest c oldest = record c {
  entries = delete oldest c.entries;
  evictions = add_u64 c.evictions 1;
}

-- `while self.entries.len() >= self.config.max_entries`, oldest key first, until the queue is empty.
unfoldable pub evict_lru : ResultCache → List ℕ → ResultCache
evict_lru c [] = record c { lru_order = [] }
evict_lru c (oldest ∷ order) =
    let rest = evict_lru (without_oldest c oldest) order in
    if leb c.config.max_entries (length c.entries)
    then rest
    else record c { lru_order = oldest ∷ order }

abbrev pub added : ResultCache → ℕ → String → ℕ → ResultCache
added c key result now = record c {
  entries = insert key (record { result = result; computed_at = now; hits = 0 }) c.entries;
  lru_order = c.lru_order ++ (key ∷ []);
}

abbrev pub store : ResultCache → ℕ → String → ℕ → Option CacheEntry → ResultCache
store c key result now (some e) = record c {
  entries = insert key (record e { result = result; computed_at = now }) c.entries;
  lru_order = promote key c.lru_order;
}
store c key result now none = added (evict_lru c c.lru_order) key result now

unfoldable pub insert_key : ResultCache → ℕ → String → ℕ → ResultCache
insert_key c key result now = store c key result now (get key c.entries)

unfoldable pub insert_result : {fl : Floats} → ResultCache → Job fl → String → ℕ → ResultCache
insert_result c job result now = insert_key c (job_key job) result now

-- The keys whose entries are stale, and the cache without them.
abbrev pub expired_keys : ResultCache → ℕ → List ℕ
expired_keys c now = map (λ e. e.0) (retain (λ e. is_stale c now e.1) c.entries)

unfoldable pub drop_keys : List ℕ → ResultCache → ResultCache
drop_keys [] c = c
drop_keys (key ∷ keys) c = drop_keys keys (record c {
  entries = delete key c.entries;
  lru_order = remove_first key c.lru_order;
  evictions = add_u64 c.evictions 1;
})

unfoldable pub evict_expired : ResultCache → ℕ → ResultCache × ℕ
evict_expired c now = (drop_keys (expired_keys c now) c, length (expired_keys c now))

pub record CacheStats (fl : Floats) : Type 0 where
  pub entries : ℕ
  pub hits : ℕ
  pub misses : ℕ
  pub evictions : ℕ
  pub hit_rate : fl.F64

unfoldable pub stats : (fl : Floats) → ResultCache → CacheStats fl
stats fl c =
    let total = add_u64 c.hits c.misses in
    record {
      entries = length c.entries;
      hits = c.hits;
      misses = c.misses;
      evictions = c.evictions;
      hit_rate = if eqb total 0 then fl.lit64 0 else fl.div64 (fl.of_ℕ c.hits) (fl.of_ℕ total);
    }
