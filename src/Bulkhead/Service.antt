-- ===== src/Bulkhead/Service.antt =====
-- src/bulkhead.rs: `ServiceBulkheadManager`, a bulkhead for each service. A caller of `execute` that
-- has found its service moves as below, on the service's handle.
pub mod Safety
use helix_router_adaptive_as.Common.{
  ℕ, zero, suc, ◌+◌, ◌-◌, ◌%◌, ◌≡◌, ◌∙◌, refl, subst, leb, String, Bool, true, false, List, [], ◌∷◌,
  ◌++◌, Option, none, some, if◌then◌else◌, string_key, arith,
}
use helix_router_adaptive_as.Common.Maps.{Map, get, insert}
use helix_router_adaptive_as.Words.{add_u64, sub_u64, u64_mod}
use helix_router_adaptive_as.Bulkhead.Slots.{total, total-middle}

-- `timeout` in nanoseconds
pub record ServiceBulkheadConfig : Type 0 where
  pub max_concurrent : ℕ
  pub max_queue_size : ℕ
  pub timeout : ℕ

abbrev pub default_service : ServiceBulkheadConfig
default_service = record { max_concurrent = 10; max_queue_size = 20; timeout = 5_000_000_000 }

-- `BulkheadHandle`, with its semaphore's permits
pub record BulkheadHandle : Type 0 where
  pub service_name : String
  pub config : ServiceBulkheadConfig
  pub permits : ℕ
  pub closed : Bool
  pub queue_depth : ℕ
  pub total_executed : ℕ
  pub total_rejected : ℕ

abbrev pub new_handle : String → ServiceBulkheadConfig → BulkheadHandle
new_handle name config = record {
  service_name = name;
  config = config;
  permits = config.max_concurrent;
  closed = false;
  queue_depth = 0;
  total_executed = 0;
  total_rejected = 0;
}

pub data ServiceBulkheadError : Type 0 where
  service_not_registered queue_full timed_out acquire_error : ServiceBulkheadError

-- Where a caller of `execute` stands.
pub data Guest : Type 0 where
  arrived : Guest
  no_permits : Guest
  joining : Guest
  acquiring : Guest
  rejoining : (result : Option ServiceBulkheadError) → Guest
  refused : (e : ServiceBulkheadError) → Guest
  running : Guest
  counting : Guest
  leaving : Guest
  served : Guest
  failed : (e : ServiceBulkheadError) → Guest
  dropped_acquiring : Guest
  dropped_running : Guest

-- `current_queue >= handle.config.max_queue_size`
unfoldable pub queue_checked : ServiceBulkheadConfig → ℕ → Guest
queue_checked config queue = if leb config.max_queue_size queue then refused queue_full else joining

abbrev pub admitted_or : Option ServiceBulkheadError → Guest
admitted_or none = running
admitted_or (some e) = refused e

-- One access of the handle by one caller, or the end of what it waits for.
pub data GuestMove (h : BulkheadHandle) : Guest → BulkheadHandle → Guest → Type 0 where
  try_acquire :
      (permits : ℕ)
      → h.permits ≡ suc permits
      → GuestMove h arrived (record h { permits = permits }) running
  try_closed : h.closed ≡ true → GuestMove h arrived h (refused acquire_error)
  try_none : h.permits ≡ 0 → GuestMove h arrived h no_permits
  load_queue : GuestMove h no_permits h (queue_checked h.config h.queue_depth)
  join : GuestMove h joining (record h { queue_depth = add_u64 h.queue_depth 1 }) acquiring
  acquire :
      (permits : ℕ)
      → h.permits ≡ suc permits
      → GuestMove h acquiring (record h { permits = permits }) (rejoining none)
  find_closed : h.closed ≡ true → GuestMove h acquiring h (rejoining (some acquire_error))
  wait_too_long : GuestMove h acquiring h (rejoining (some timed_out))
  leave_queue :
      {result : Option ServiceBulkheadError}
      → GuestMove h
          (rejoining result)
          (record h { queue_depth = sub_u64 h.queue_depth 1 })
          (admitted_or result)
  count_refusal :
      {e : ServiceBulkheadError}
      → GuestMove h
          (refused e)
          (record h { total_rejected = add_u64 h.total_rejected 1 })
          (failed e)
  finish : GuestMove h running h counting
  count_executed :
      GuestMove h counting (record h { total_executed = add_u64 h.total_executed 1 }) leaving
  release : GuestMove h leaving (record h { permits = suc h.permits }) served
  drop_acquiring : GuestMove h acquiring h dropped_acquiring
  drop_running : GuestMove h running (record h { permits = suc h.permits }) dropped_running

pub record Service : Type 0 where
  pub handle : BulkheadHandle
  pub guests : List Guest

pub data ServiceStep (s : Service) : Service → Type 0 where
  arrive : ServiceStep s (record s { guests = arrived ∷ s.guests })
  move :
      (xs ys : List Guest) (p p' : Guest) (h : BulkheadHandle)
      → s.guests ≡ xs ++ (p ∷ ys)
      → GuestMove s.handle p h p'
      → ServiceStep s (record { handle = h; guests = xs ++ (p' ∷ ys) })

pub data ServiceReach (name : String) (config : ServiceBulkheadConfig) : Service → Type 0 where
  here : ServiceReach name config (record { handle = new_handle name config; guests = [] })
  next : {s t : Service} → ServiceReach name config s → ServiceStep s t → ServiceReach name config t

pub record ServiceBulkheadStats : Type 0 where
  pub active_count : ℕ
  pub queue_depth : ℕ
  pub total_executed : ℕ
  pub total_rejected : ℕ

-- In the code the difference is one of `usize`, which panics or wraps below 0.
unfoldable pub stats_of : BulkheadHandle → ServiceBulkheadStats
stats_of h = record {
  active_count = (h.config.max_concurrent + u64_mod - h.permits) % u64_mod;
  queue_depth = h.queue_depth;
  total_executed = h.total_executed;
  total_rejected = h.total_rejected;
}

abbrev pub stats_found : Option BulkheadHandle → Option ServiceBulkheadStats
stats_found none = none
stats_found (some h) = some (stats_of h)

unfoldable pub service_stats : Map String BulkheadHandle → String → Option ServiceBulkheadStats
service_stats services service = stats_found (get service services)

unfoldable pub register_service :
    String → ServiceBulkheadConfig → Map String BulkheadHandle → Map String BulkheadHandle
register_service name config services = insert name (new_handle name config) services

-- How `execute` begins: a service that is not registered is refused before anything is counted.
abbrev pub entry_of : Option BulkheadHandle → Guest
entry_of none = failed service_not_registered
entry_of (some h) = arrived
