-- ===== src/ConnectionPool/Leases.antt =====
-- Who holds which connection, and how the counts of a pool move.
use helix_router_adaptive_as.Common.{
  ℕ, ◌+◌, ◌-◌, ◌≤◌, ◌<◌, ◌≡◌, ◌≢◌, ◌↔◌, refl, sym, Bool, ◌&&◌, List, [], ◌∷◌, ◌++◌, Option, none,
  some, arith, eqb, ltb, length, retain, All, Bool-cases, inl, inr, length-retain-le, count_if,
  count_if-append,
}
use helix_router_adaptive_as.ConnectionPool.{
  PooledConnection, PoolConfig, ConnectionPool, check_out, opened, acquire, evict_stale, keeps,
  update_first, find, free, is_idle, is_in_use, is_unhealthy, in_use_count, reuse_or_open, open_new,
  count_in, available_count, total_count,
}
use helix_router_adaptive_as.ConnectionPool.Invariant.{Inv, ids, Distinct}

-- How many connections of an identifier are in use.
abbrev pub held : ℕ → PooledConnection → Bool
held id c = eqb c.id id && is_in_use c.state

abbrev pub holders : ℕ → List PooledConnection → ℕ
holders id = count_if (held id)

-- Nobody holds an identifier that no connection has.
holders-absent :
    (id : ℕ) (cs : List PooledConnection) → All (λ j. j ≢ id) (ids cs) → holders id cs ≡ 0
holders-absent id [] h = refl
holders-absent id (c ∷ cs) h = ground (arith, holders-absent id cs h.1, h.0)

find-other :
    (j : ℕ) (cs : List PooledConnection) (c : PooledConnection)
    → find free cs ≡ some c
    → All (λ i. i ≢ j) (ids cs)
    → c.id ≢ j
find-other j [] c e h = absurd cc
find-other j (x ∷ xs) c e h = ground (arith, find-other j xs c, h)

-- The idle connection found has no holder, and one once it is checked out.
found-holders :
    (now : ℕ) (cs : List PooledConnection) (c : PooledConnection)
    → Distinct (ids cs)
    → find free cs ≡ some c
    → (holders c.id cs ≡ 0) × (holders c.id (update_first free (check_out now) cs) ≡ 1)
found-holders now [] c d e = absurd cc
found-holders now (x ∷ xs) c d e =
    ground (arith, found-holders now xs c d.1, holders-absent x.id xs d.0, find-other x.id xs c)

-- Checking out an idle connection puts one more in use.
check_out-in_use :
    (now : ℕ) (cs : List PooledConnection) (c : PooledConnection)
    → find free cs ≡ some c
    → count_if (λ k. is_in_use k.state) (update_first free (check_out now) cs)
      ≡ count_if (λ k. is_in_use k.state) cs + 1
check_out-in_use now [] c e = absurd cc
check_out-in_use now (x ∷ xs) c e = ground (arith, check_out-in_use now xs c)

-- The connections of a pool by their states.
split_by_state :
    (cs : List PooledConnection)
    → count_if (λ c. is_idle c.state) cs
        + count_if (λ c. is_in_use c.state) cs
        + count_if (λ c. is_unhealthy c.state) cs
      ≤ length cs
split_by_state [] = omega arith
split_by_state (c ∷ cs) = ground (arith, split_by_state cs)

-- What an operation that hands out `id` does to a pool.
abbrev Leased : ConnectionPool → ℕ → ConnectionPool → Type 0
Leased pool id pool' =
    (holders id pool.connections ≡ 0)
    × (holders id pool'.connections ≡ 1)
    × (in_use_count pool' ≡ in_use_count pool + 1)

issued-other :
    (n : ℕ) (cs : List PooledConnection) → All (λ i. i < n) (ids cs) → All (λ i. i ≢ n) (ids cs)
issued-other n [] h = tt
issued-other n (c ∷ cs) h = ((λ e. omega (arith, h.0, e)), issued-other n cs h.1)

open-Leased :
    (pool pool' : ConnectionPool) (now : ℕ)
    → pool'.connections ≡ pool.connections ++ (opened pool now ∷ [])
    → Inv pool
    → Leased pool pool.next_id pool'
open-Leased pool pool' now e inv =
    let none_yet =
      holders-absent pool.next_id pool.connections
        (issued-other pool.next_id pool.connections inv.issued) in
    let held_now = count_if-append (held pool.next_id) pool.connections (opened pool now ∷ []) in
    let used_now =
      count_if-append (λ c. is_in_use c.state) pool.connections (opened pool now ∷ []) in
    (none_yet, rw e (ground (arith, none_yet, held_now)), rw e (omega (arith, used_now)))

reuse_or_open-Leased :
    (pool : ConnectionPool) (now id : ℕ) (found : Option PooledConnection)
    → find free pool.connections ≡ found
    → Inv pool
    → (reuse_or_open pool now found).0 ≡ some id
    → Leased pool id (reuse_or_open pool now found).1
reuse_or_open-Leased pool now id (some c) e inv h =
    let f = found-holders now pool.connections c inv.distinct e in
    let same : c.id ≡ id = cc in rw (sym same) (f.0, f.1, check_out-in_use now pool.connections c e)
reuse_or_open-Leased pool now id none e inv h =
    elim (Bool-cases (ltb (length pool.connections) pool.config.max_connections)) [
      | inr d ↦ absurd (ground arith)
      | inl d ↦
          let same : pool.next_id ≡ id = ground arith in
          rw (sym same) (open-Leased pool (open_new pool now).1 now (rw d refl) inv)
    ]

-- From a pool that satisfies the invariant, `acquire` hands out an identifier that nobody holds,
-- and that one caller holds afterwards: one more connection is in use.
pub acquire_exclusive :
    (pool : ConnectionPool) (now id : ℕ)
    → Inv pool
    → (acquire pool now).0 ≡ some id
    → let pool' = (acquire pool now).1 in
      (holders id pool.connections ≡ 0)
      × (holders id pool'.connections ≡ 1)
      × (in_use_count pool' ≡ in_use_count pool + 1)
unfolding acquire
acquire_exclusive pool now id = reuse_or_open-Leased pool now id (find free pool.connections) refl

find-none :
    (cs : List PooledConnection) → (find free cs ≡ none) ↔ (count_if (λ c. is_idle c.state) cs ≡ 0)
find-none [] = (λ h. refl, λ h. refl)
find-none (c ∷ cs) = ground (arith, find-none cs)

reuse_or_open-none_iff :
    (pool : ConnectionPool) (now : ℕ) (found : Option PooledConnection)
    → find free pool.connections ≡ found
    → (reuse_or_open pool now found ≡ (none, pool))
      ↔ ((available_count pool ≡ 0) × (pool.config.max_connections ≤ total_count pool))
reuse_or_open-none_iff pool now (some c) e = ground (arith, find-none pool.connections)
reuse_or_open-none_iff pool now none e = ground (arith, find-none pool.connections)

-- `acquire` hands out nothing and leaves the pool as it was exactly when no connection is idle and
-- the limit is reached.
pub acquire-none_iff :
    (pool : ConnectionPool) (now : ℕ)
    → (acquire pool now ≡ (none, pool))
      ↔ ((available_count pool ≡ 0) × (pool.config.max_connections ≤ total_count pool))
unfolding acquire
acquire-none_iff pool now = reuse_or_open-none_iff pool now (find free pool.connections) refl

keeps-usable :
    (config : PoolConfig) (now : ℕ) (cs : List PooledConnection)
    → count_if (λ c. is_unhealthy c.state) (retain (keeps config now) cs) ≡ 0
keeps-usable config now [] = refl
keeps-usable config now (c ∷ cs) = ground (arith, keeps-usable config now cs)

keeps-young :
    (config : PoolConfig) (now : ℕ) (cs : List PooledConnection)
    → All (λ c. now - c.created_at_ms < config.max_lifetime_ms) (retain (keeps config now) cs)
keeps-young config now [] = tt
keeps-young config now (c ∷ cs) = ground (arith, keeps-young config now cs)

-- A sweep counts what it takes out, and what it leaves is neither unhealthy nor past its lifetime.
pub evict_stale-sweeps :
    (pool : ConnectionPool) (now : ℕ)
    → let (count, pool') = evict_stale pool now in
      (total_count pool' + count ≡ total_count pool)
      × (count_in is_unhealthy pool' ≡ 0)
      × All (λ c. now - c.created_at_ms < pool.config.max_lifetime_ms) pool'.connections
unfolding evict_stale
evict_stale-sweeps pool now = (
  omega (arith, length-retain-le (keeps pool.config now) pool.connections),
  keeps-usable pool.config now pool.connections,
  keeps-young pool.config now pool.connections,
)
