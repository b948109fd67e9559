-- ===== src/ConnectionPool/Invariant.antt =====
-- What every operation of a connection pool keeps.
use helix_router_adaptive_as.Common.{
  ℕ, suc, ◌+◌, ◌^◌, ◌≤◌, ◌<◌, ◌≡◌, ◌≢◌, ◌∙◌, refl, sym, ap, Bool, true, false, List, [], ◌∷◌, ◌++◌,
  Option, none, some, arith, ltb, ltb→lt, length, retain, map, All, Bool-cases, inl, inr,
  length-append, length-retain-le,
}
use helix_router_adaptive_as.ConnectionPool.{
  PooledConnection, PoolConfig, ConnectionPool, check_out, opened, acquire, release, give_back,
  has_id, evict_stale, keeps, health_check_all, ails, mark, update_first, find, free, reuse_or_open,
}

abbrev pub ids : List PooledConnection → List ℕ
ids = map (λ c. c.id)

abbrev pub Distinct : List ℕ → Type 0
Distinct [] = Unit
Distinct (i ∷ is) = All (λ j. j ≢ i) is × Distinct is

-- No more connections than the configuration allows, all of different identifiers that were given
-- out already.
pub record Inv (pool : ConnectionPool) : Type 0 where
  pub bounded : length pool.connections ≤ pool.config.max_connections
  pub issued : All (λ i. i < pool.next_id) (ids pool.connections)
  pub distinct : Distinct (ids pool.connections)

pub ids-update_first :
    (p : PooledConnection → Bool) (f : PooledConnection → PooledConnection)
    → ((c : PooledConnection) → (f c).id ≡ c.id)
    → (cs : List PooledConnection) → ids (update_first p f cs) ≡ ids cs
ids-update_first p f h [] = refl
ids-update_first p f h (c ∷ cs) = ground (arith, ids-update_first p f h cs, h c)

length-ids : (cs : List PooledConnection) → length (ids cs) ≡ length cs
length-ids [] = refl
length-ids (c ∷ cs) = ap suc (length-ids cs)

-- A pool with the identifiers of one that satisfies the invariant, and its limits, satisfies it.
same_ids-Inv :
    (pool pool' : ConnectionPool)
    → ids pool'.connections ≡ ids pool.connections
    → pool'.config ≡ pool.config
    → pool'.next_id ≡ pool.next_id
    → Inv pool
    → Inv pool'
same_ids-Inv pool pool' e ec en inv =
    let l : length pool'.connections ≡ length pool.connections =
      sym (length-ids pool'.connections) ∙ ap length e ∙ length-ids pool.connections in
    record {
      bounded = rw (l, ec) inv.bounded;
      issued = rw (e, en) inv.issued;
      distinct = rw e inv.distinct;
    }

All-retain :
    (P : ℕ → Type 0) (p : PooledConnection → Bool) (cs : List PooledConnection)
    → All P (ids cs)
    → All P (ids (retain p cs))
All-retain P p [] h = tt
All-retain P p (c ∷ cs) h = elim (Bool-cases (p c)) [
  | inl e ↦ rw e (h.0, All-retain P p cs h.1)
  | inr e ↦ rw e (All-retain P p cs h.1)
]

Distinct-retain :
    (p : PooledConnection → Bool) (cs : List PooledConnection)
    → Distinct (ids cs)
    → Distinct (ids (retain p cs))
Distinct-retain p [] h = tt
Distinct-retain p (c ∷ cs) h = elim (Bool-cases (p c)) [
  | inl e ↦ rw e (All-retain (λ j. j ≢ c.id) p cs h.0, Distinct-retain p cs h.1)
  | inr e ↦ rw e (Distinct-retain p cs h.1)
]

-- A new connection takes the next identifier, which no other has.
issued-append :
    (next : ℕ) (cs : List PooledConnection) (c : PooledConnection)
    → c.id ≡ next
    → All (λ i. i < next) (ids cs)
    → All (λ i. i < next + 1) (ids (cs ++ (c ∷ [])))
issued-append next [] c e h = (omega arith, tt)
issued-append next (x ∷ xs) c e h = (omega (arith, h.0), issued-append next xs c e h.1)

other-append :
    (i : ℕ) (cs : List PooledConnection) (c : PooledConnection)
    → c.id ≢ i
    → All (λ j. j ≢ i) (ids cs)
    → All (λ j. j ≢ i) (ids (cs ++ (c ∷ [])))
other-append i [] c e h = (e, tt)
other-append i (x ∷ xs) c e h = (h.0, other-append i xs c e h.1)

Distinct-append :
    (next : ℕ) (cs : List PooledConnection) (c : PooledConnection)
    → c.id ≡ next
    → All (λ i. i < next) (ids cs)
    → Distinct (ids cs)
    → Distinct (ids (cs ++ (c ∷ [])))
Distinct-append next [] c e h d = (tt, tt)
Distinct-append next (x ∷ xs) c e h d =
    let fresh : c.id ≢ x.id = λ q. omega (arith, h.0, q, e) in
    (other-append x.id xs c fresh d.0, Distinct-append next xs c e h.1 d.1)

-- Opening a connection, below the limit and before the identifiers run out.
open-Inv :
    (pool pool' : ConnectionPool) (now : ℕ)
    → pool'.connections ≡ pool.connections ++ (opened pool now ∷ [])
    → pool'.config ≡ pool.config
    → pool'.next_id ≡ pool.next_id + 1
    → length pool.connections < pool.config.max_connections
    → Inv pool
    → Inv pool'
open-Inv pool pool' now e ec en lt inv = record {
  bounded = rw (e, ec, length-append pool.connections (opened pool now ∷ [])) (omega (arith, lt));
  issued =
      rw (e, en) (issued-append pool.next_id pool.connections (opened pool now) refl inv.issued);
  distinct = rw e (
      Distinct-append pool.next_id pool.connections (opened pool now) refl inv.issued inv.distinct);
}

reuse_or_open-Inv :
    (pool : ConnectionPool) (now : ℕ) (found : Option PooledConnection)
    → pool.next_id + 1 < 2 ^ 64
    → Inv pool
    → Inv (reuse_or_open pool now found).1
reuse_or_open-Inv pool now (some c) small inv =
    same_ids-Inv pool _ (ids-update_first free (check_out now) (λ c. refl) pool.connections) refl
      refl inv
reuse_or_open-Inv pool now none small inv =
    elim (Bool-cases (ltb (length pool.connections) pool.config.max_connections)) [
      | inr d ↦ rw d inv
      | inl d ↦ rw d (open-Inv pool _ now refl refl (omega (arith, small)) (ltb→lt _ _ d) inv)
    ]

-- Acquiring keeps the invariant, until the 64-bit identifiers run out.
pub acquire-Inv :
    (pool : ConnectionPool) (now : ℕ)
    → pool.next_id + 1 < 2 ^ 64
    → Inv pool
    → Inv (acquire pool now).1
unfolding acquire
acquire-Inv pool now = reuse_or_open-Inv pool now (find free pool.connections)

id-give_back : (now : ℕ) (b : Bool) (c : PooledConnection) → (give_back now b c).id ≡ c.id
id-give_back now true c = refl
id-give_back now false c = refl

pub release-Inv :
    (pool : ConnectionPool) (conn_id now : ℕ) (had_error : Bool)
    → Inv pool
    → Inv (release pool conn_id now had_error)
unfolding release
release-Inv pool conn_id now b inv =
    same_ids-Inv pool _
      (ids-update_first (has_id conn_id) (give_back now b) (id-give_back now b) pool.connections)
      refl refl inv

pub evict_stale-Inv : (pool : ConnectionPool) (now : ℕ) → Inv pool → Inv (evict_stale pool now).1
unfolding evict_stale
evict_stale-Inv pool now inv = record {
  bounded = omega (arith, length-retain-le (keeps pool.config now) pool.connections, inv.bounded);
  issued = All-retain (λ i. i < pool.next_id) (keeps pool.config now) pool.connections inv.issued;
  distinct = Distinct-retain (keeps pool.config now) pool.connections inv.distinct;
}

ids-mark :
    (config : PoolConfig) (now : ℕ) (cs : List PooledConnection)
    → ids (map (mark config now) cs) ≡ ids cs
ids-mark config now [] = refl
ids-mark config now (c ∷ cs) = elim (Bool-cases (ails config now c)) [
  | inl e ↦ rw e (ap (◌∷◌ c.id) (ids-mark config now cs))
  | inr e ↦ rw e (ap (◌∷◌ c.id) (ids-mark config now cs))
]

pub health_check_all-Inv :
    (pool : ConnectionPool) (now : ℕ) → Inv pool → Inv (health_check_all pool now).1
unfolding health_check_all
health_check_all-Inv pool now inv =
    same_ids-Inv pool _ (ids-mark pool.config now pool.connections) refl refl inv

-- Every operation of a pool keeps the invariant: acquiring, until the 64-bit identifiers run out,
-- releasing any identifier, with or without an error, sweeping, and checking the health.
pub operations-Inv :
    (pool : ConnectionPool) (now conn_id : ℕ) (had_error : Bool)
    → pool.next_id + 1 < 2 ^ 64
    → Inv pool
    → Inv (acquire pool now).1
      × Inv (release pool conn_id now had_error)
      × Inv (evict_stale pool now).1
      × Inv (health_check_all pool now).1
operations-Inv pool now conn_id had_error small inv = (
  acquire-Inv pool now small inv,
  release-Inv pool conn_id now had_error inv,
  evict_stale-Inv pool now inv,
  health_check_all-Inv pool now inv,
)
