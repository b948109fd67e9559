-- ===== src/ConnectionPool.antt =====
-- src/connection_pool.rs: the pool of connections to one backend, and the manager of all pools.
-- The mutex makes each operation one step; the atomic counters wrap around.
pub mod Invariant
pub mod Leases
use helix_router_adaptive_as.Common.{
  ℕ, suc, ◌+◌, ◌-◌, ◌*◌, Bool, true, false, ◌&&◌, List, [], ◌∷◌, ◌++◌, Option, none, some, String,
  map, eqb, ltb, if◌then◌else◌, length, retain, count_if, string_key,
}
use helix_router_adaptive_as.Common.Maps.{Map, get, insert}
use helix_router_adaptive_as.Words.{add_u64}

pub data ConnectionState : Type 0 where
  idle : ConnectionState
  in_use : ConnectionState
  unhealthy : ConnectionState
  evicted : ConnectionState

abbrev pub is_idle : ConnectionState → Bool
is_idle idle = true
is_idle _ = false

abbrev pub is_in_use : ConnectionState → Bool
is_in_use in_use = true
is_in_use _ = false

abbrev pub is_unhealthy : ConnectionState → Bool
is_unhealthy unhealthy = true
is_unhealthy _ = false

pub record PooledConnection : Type 0 where
  pub id : ℕ
  pub backend : String
  pub state : ConnectionState
  pub created_at_ms : ℕ
  pub last_used_ms : ℕ
  pub use_count : ℕ
  pub error_count : ℕ

pub record PoolConfig : Type 0 where
  pub max_connections : ℕ
  pub min_idle : ℕ
  pub max_idle_ms : ℕ
  pub max_lifetime_ms : ℕ
  pub health_check_interval_ms : ℕ

abbrev pub default : PoolConfig
default = record {
  max_connections = 10;
  min_idle = 2;
  max_idle_ms = 60000;
  max_lifetime_ms = 300000;
  health_check_interval_ms = 30000;
}

pub record PoolStats : Type 0 where
  pub total : ℕ
  pub available : ℕ
  pub used : ℕ
  pub sick : ℕ
  pub evicted_total : ℕ
  pub acquired_total : ℕ

pub record ConnectionPool : Type 0 where
  pub connections : List PooledConnection
  pub config : PoolConfig
  pub backend : String
  pub next_id : ℕ
  pub total_acquired : ℕ
  pub total_released : ℕ
  pub evicted_total : ℕ

abbrev pub new : String → PoolConfig → ConnectionPool
new backend config = record {
  connections = [];
  config = config;
  backend = backend;
  next_id = 1;
  total_acquired = 0;
  total_released = 0;
  evicted_total = 0;
}

-- `iter().find`, and the same list with the connection found changed.
abbrev pub find : (PooledConnection → Bool) → List PooledConnection → Option PooledConnection
find p [] = none
find p (c ∷ cs) = let rest = find p cs in if p c then some c else rest

abbrev pub update_first :
    (PooledConnection → Bool)
    → (PooledConnection → PooledConnection)
    → List PooledConnection
    → List PooledConnection
update_first p f [] = []
update_first p f (c ∷ cs) = let rest = update_first p f cs in if p c then f c ∷ cs else c ∷ rest

abbrev pub check_out : ℕ → PooledConnection → PooledConnection
check_out now c = record c { state = in_use; last_used_ms = now; use_count = add_u64 c.use_count 1 }

abbrev pub opened : ConnectionPool → ℕ → PooledConnection
opened pool now = record {
  id = pool.next_id;
  backend = pool.backend;
  state = in_use;
  created_at_ms = now;
  last_used_ms = now;
  use_count = 1;
  error_count = 0;
}

abbrev pub free : PooledConnection → Bool
free c = is_idle c.state

abbrev pub open_new : ConnectionPool → ℕ → Option ℕ × ConnectionPool
open_new pool now =
    if ltb (length pool.connections) pool.config.max_connections
    then (
      some pool.next_id,
      record pool {
        connections = pool.connections ++ (opened pool now ∷ []);
        next_id = add_u64 pool.next_id 1;
        total_acquired = add_u64 pool.total_acquired 1;
      },
    )
    else (none, pool)

abbrev pub reuse_or_open : ConnectionPool → ℕ → Option PooledConnection → Option ℕ × ConnectionPool
reuse_or_open pool now (some c) = (
  some c.id,
  record pool {
    connections = update_first free (check_out now) pool.connections;
    total_acquired = add_u64 pool.total_acquired 1;
  },
)
reuse_or_open pool now none = open_new pool now

unfoldable pub acquire : ConnectionPool → ℕ → Option ℕ × ConnectionPool
acquire pool now = reuse_or_open pool now (find free pool.connections)

abbrev pub give_back : ℕ → Bool → PooledConnection → PooledConnection
give_back now true c = record c {
  state = unhealthy;
  last_used_ms = now;
  error_count = add_u64 c.error_count 1;
}
give_back now false c = record c { state = idle; last_used_ms = now }

abbrev pub has_id : ℕ → PooledConnection → Bool
has_id id c = eqb c.id id

unfoldable pub release : ConnectionPool → ℕ → ℕ → Bool → ConnectionPool
release pool conn_id now had_error = record pool {
  connections = update_first (has_id conn_id) (give_back now had_error) pool.connections;
  total_released = add_u64 pool.total_released 1;
}

-- Whether a sweep at `now` keeps a connection.
abbrev pub keeps : PoolConfig → ℕ → PooledConnection → Bool
keeps config now c = elim c.state [
  | unhealthy ↦ false
  | evicted ↦ false
  | idle ↦
      ltb (now - c.last_used_ms) config.max_idle_ms
      && ltb (now - c.created_at_ms) config.max_lifetime_ms
  | in_use ↦ ltb (now - c.created_at_ms) config.max_lifetime_ms
]

unfoldable pub evict_stale : ConnectionPool → ℕ → ℕ × ConnectionPool
evict_stale pool now =
    let kept = retain (keeps pool.config now) pool.connections in
    let count = length pool.connections - length kept in
    (count, record pool { connections = kept; evicted_total = add_u64 pool.evicted_total count })

-- Whether the check at `now` marks a connection.
abbrev pub ails : PoolConfig → ℕ → PooledConnection → Bool
ails config now c =
    is_idle c.state
    && (ltb config.health_check_interval_ms (now - c.last_used_ms) && ltb 3 c.error_count)

abbrev pub mark : PoolConfig → ℕ → PooledConnection → PooledConnection
mark config now c = if ails config now c then record c { state = unhealthy } else c

unfoldable pub health_check_all : ConnectionPool → ℕ → List ℕ × ConnectionPool
health_check_all pool now = (
  map (λ c. c.id) (retain (ails pool.config now) pool.connections),
  record pool { connections = map (mark pool.config now) pool.connections },
)

abbrev pub count_in : (ConnectionState → Bool) → ConnectionPool → ℕ
count_in p pool = count_if (λ c. p c.state) pool.connections

abbrev pub available_count : ConnectionPool → ℕ
available_count = count_in is_idle

abbrev pub in_use_count : ConnectionPool → ℕ
in_use_count = count_in is_in_use

abbrev pub total_count : ConnectionPool → ℕ
total_count pool = length pool.connections

unfoldable pub stats : ConnectionPool → PoolStats
stats pool = record {
  total = total_count pool;
  available = available_count pool;
  used = in_use_count pool;
  sick = count_in is_unhealthy pool;
  evicted_total = pool.evicted_total;
  acquired_total = pool.total_acquired;
}

-- The manager: each backend's pool by its name.
abbrev pub BackendPoolManager : Type 0
BackendPoolManager = Map String ConnectionPool

unfoldable pub register_backend : String → PoolConfig → BackendPoolManager → BackendPoolManager
register_backend backend config pools = insert backend (new backend config) pools

abbrev tagged : String → Option ℕ → Option (String × ℕ)
tagged backend none = none
tagged backend (some id) = some (backend, id)

unfoldable pub acquire_from :
    String → ℕ → BackendPoolManager → Option (String × ℕ) × BackendPoolManager
acquire_from backend now pools = elim (get backend pools) [
  | none ↦ (none, pools)
  | some pool ↦
      let (id, pool') = acquire pool now in (tagged backend id, insert backend pool' pools)
]
