-- ===== src/CircuitBreaker/Registry.antt =====
-- src/circuit_breaker_registry.rs: the registry of breakers by service.
use helix_router_adaptive_as.Common.{
  ℕ, ◌≤◌, ◌≡◌, refl, ap, String, Bool, true, false, List, [], ◌∷◌, Option, none, some, arith, ◌==◌,
  string_key, if◌then◌else◌, map,
}
use helix_router_adaptive_as.Common.Maps.{Map, get, insert, get-insert}
use helix_router_adaptive_as.CircuitBreaker.{
  CircuitState, closed, opened, CircuitConfig, CircuitBreaker, default_config, new, record_success,
  record_failure, can_pass, force_open, force_close,
}

abbrev pub Registry : Type 0
Registry = Map String CircuitBreaker

abbrev pub or_new : Option CircuitBreaker → CircuitConfig → CircuitBreaker
or_new none c = new c
or_new (some cb) c = cb

-- The breaker of a service, and the registry that now holds it.
unfoldable pub get_or_create : Registry → String → CircuitConfig → Registry × CircuitBreaker
get_or_create r id c = let cb = or_new (get id r) c in (insert id cb r, cb)

unfoldable pub outcome : CircuitBreaker → Bool → ℕ → CircuitBreaker
outcome cb success now = if success then record_success cb now else record_failure cb now

unfoldable pub record_call : Registry → String → Bool → ℕ → Registry
record_call r id success now = insert id (outcome (or_new (get id r) default_config) success now) r

opened_at : CircuitState → Option ℕ
opened_at (opened t) = some t
opened_at _ = none

unfoldable pub open_circuits : Registry → List (String × ℕ)
unfolding opened_at
open_circuits [] = []
open_circuits ((id, cb) ∷ r) =
    let rest = open_circuits r in
    elim (opened_at cb.state) [ none ↦ rest | some t ↦ (id, t) ∷ rest ]

is_closed : CircuitState → Bool
is_closed (closed n) = true
is_closed _ = false

unfoldable pub closed_circuits : Registry → List String
unfolding is_closed
closed_circuits [] = []
closed_circuits ((id, cb) ∷ r) =
    let rest = closed_circuits r in if is_closed cb.state then id ∷ rest else rest

unfoldable pub trip_all : Registry → Registry
trip_all [] = []
trip_all ((id, cb) ∷ r) = (id, force_open cb 0) ∷ trip_all r

unfoldable pub reset_all : Registry → Registry
reset_all [] = []
reset_all ((id, cb) ∷ r) = (id, force_close cb) ∷ reset_all r

abbrev pub names : Registry → List String
names = map (λ e. e.0)

-- A call of one service changes that service's breaker, as the outcome says, starting from a new
-- one where there was none, and no other service's.
pub get-record_call :
    (r : Registry) (id other : String) (success : Bool) (now : ℕ)
    → get other (record_call r id success now) ≡ (
        if id == other
        then some (outcome (or_new (get id r) default_config) success now)
        else get other r)
unfolding record_call
get-record_call r id other success now = get-insert id other _ r

-- After `reset_all` every service is closed and none is open.
pub reset_all-closed :
    (r : Registry) → (closed_circuits (reset_all r) ≡ names r) × (open_circuits (reset_all r) ≡ [])
unfolding reset_all closed_circuits open_circuits force_close
reset_all-closed [] = (refl, refl)
reset_all-closed ((id, cb) ∷ r) = (ap (◌∷◌ id) (reset_all-closed r).0, (reset_all-closed r).1)

-- After `trip_all` every service is open, since time 0, and none is closed.
pub trip_all-open :
    (r : Registry)
    → (open_circuits (trip_all r) ≡ map (λ e. (e.0, 0)) r) × (closed_circuits (trip_all r) ≡ [])
unfolding trip_all closed_circuits open_circuits force_open
trip_all-open [] = (refl, refl)
trip_all-open ((id, cb) ∷ r) = (ap (◌∷◌ (id, 0)) (trip_all-open r).0, (trip_all-open r).1)

get-trip_all :
    (r : Registry) (id : String) (cb : CircuitBreaker)
    → get id r ≡ some cb
    → get id (trip_all r) ≡ some (force_open cb 0)
unfolding get trip_all
get-trip_all [] id cb h = cc
get-trip_all ((j, x) ∷ r) id cb h = ground (arith, get-trip_all r id cb)

-- Whenever the clock is past a breaker's timeout, tripping it does not stop the next call.
pub trip_all-passes :
    (r : Registry) (id : String) (cb : CircuitBreaker) (now : ℕ)
    → get id r ≡ some cb
    → cb.timeout_ms ≤ now
    → (t : CircuitBreaker) × (get id (trip_all r) ≡ some t) × ((can_pass t now).1 ≡ true)
trip_all-passes r id cb now h late = (force_open cb 0, get-trip_all r id cb h, passes)
  where
    passes : (can_pass (force_open cb 0) now).1 ≡ true
    passes = unfold can_pass force_open in ground arith
