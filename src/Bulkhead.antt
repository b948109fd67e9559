-- ===== src/Bulkhead.antt =====
-- src/bulkhead.rs: `Bulkhead` and its registry. Callers of `try_execute` interleave at every access of
-- a shared counter, and a caller's future may be dropped wherever it waits.
pub mod Slots
pub mod Safety
pub mod Refine
pub mod Service
use helix_router_adaptive_as.Common.{
  ℕ, zero, suc, ◌+◌, ◌≡◌, ◌&&◌, leb, eqb, String, Bool, true, false, List, [], ◌∷◌, ◌++◌, Option,
  none, some, if◌then◌else◌, string_key,
}
use helix_router_adaptive_as.Common.Maps.{Map, get, insert}
use helix_router_adaptive_as.Words.{add_u64, sub_u64}
use helix_router_adaptive_as.Floats.{Floats}

pub record BulkheadConfig : Type 0 where
  pub max_concurrent : ℕ
  pub max_queue_size : ℕ
  pub timeout_ms : ℕ

abbrev pub default_bulkhead : BulkheadConfig
default_bulkhead = record { max_concurrent = 10; max_queue_size = 20; timeout_ms = 5_000 }

-- The counters of `BulkheadState` and the semaphore, which no code closes.
pub record Bulkhead : Type 0 where
  pub config : BulkheadConfig
  pub in_flight : ℕ
  pub queued : ℕ
  pub total_rejected : ℕ
  pub total_completed : ℕ
  pub permits : ℕ
  pub closed : Bool

abbrev pub new_bulkhead : BulkheadConfig → Bulkhead
new_bulkhead config = record {
  config = config;
  in_flight = 0;
  queued = 0;
  total_rejected = 0;
  total_completed = 0;
  permits = config.max_concurrent;
  closed = false;
}

-- `BulkheadError`, a rejection with its reason
pub data BulkheadError : Type 0 where
  rejected : (reason : String) → BulkheadError
  timeout : BulkheadError

-- How a call ends: with the output of the future, or with an error.
pub data Answer : Type 0 where
  output : Answer
  failed : BulkheadError → Answer

-- Where a caller of `try_execute` stands, with the local variables that are live there.
pub data Caller : Type 0 where
  entered : Caller
  loaded : (in_flight : ℕ) → Caller
  refused : (e : BulkheadError) → Caller
  queueing : Caller
  acquiring : (needs_queue : Bool) → Caller
  unqueueing : (result : Option BulkheadError) → Caller
  admitted : Caller
  running : Caller
  finished : (in_time : Bool) → Caller
  counting : (in_time : Bool) → Caller
  leaving : (in_time : Bool) → Caller
  answered : (a : Answer) → Caller
  dropped_acquiring : (needs_queue : Bool) → Caller
  dropped_running : Caller

-- After both loads: rejection, the queue, or an acquisition that should not wait.
unfoldable pub checked : BulkheadConfig → ℕ → ℕ → Caller
checked config in_flight queued =
    if leb config.max_concurrent in_flight && leb config.max_queue_size queued
    then refused (BulkheadError.rejected "concurrency and queue limits both reached")
    else if leb config.max_concurrent in_flight
    then queueing
    else acquiring false

-- `match permit_result`, an error where there is no permit
abbrev pub after_queue : Option BulkheadError → Caller
after_queue none = admitted
after_queue (some e) = refused e

-- `if needs_queue`: the counter is left first.
abbrev pub acquired : Bool → Option BulkheadError → Caller
acquired true result = unqueueing result
acquired false result = after_queue result

abbrev pub answer_of : Bool → Answer
answer_of true = output
answer_of false = failed BulkheadError.timeout

-- One access of a shared variable by one caller, or the end of what it waits for.
pub data Move (b : Bulkhead) : Caller → Bulkhead → Caller → Type 0 where
  load_in_flight : Move b entered b (loaded b.in_flight)
  load_queued : {n : ℕ} → Move b (loaded n) b (checked b.config n b.queued)
  count_refusal :
      {e : BulkheadError}
      → Move b
          (refused e)
          (record b { total_rejected = add_u64 b.total_rejected 1 })
          (answered (failed e))
  enter_queue : Move b queueing (record b { queued = add_u64 b.queued 1 }) (acquiring true)
  acquire :
      {needs : Bool} (permits : ℕ)
      → b.permits ≡ suc permits
      → Move b (acquiring needs) (record b { permits = permits }) (acquired needs none)
  find_closed :
      {needs : Bool}
      → b.closed ≡ true
      → Move b
          (acquiring needs)
          b
          (acquired needs (some (BulkheadError.rejected "semaphore closed")))
  wait_too_long :
      {needs : Bool} → Move b (acquiring needs) b (acquired needs (some BulkheadError.timeout))
  leave_queue :
      {result : Option BulkheadError}
      → Move b (unqueueing result) (record b { queued = sub_u64 b.queued 1 }) (after_queue result)
  count_in : Move b admitted (record b { in_flight = add_u64 b.in_flight 1 }) running
  run : (in_time : Bool) → Move b running b (finished in_time)
  count_out :
      {in_time : Bool}
      → Move b
          (finished in_time)
          (record b { in_flight = sub_u64 b.in_flight 1 })
          (counting in_time)
  count_completed :
      Move b
        (counting true)
        (record b { total_completed = add_u64 b.total_completed 1 })
        (leaving true)
  count_timeout :
      Move b
        (counting false)
        (record b { total_rejected = add_u64 b.total_rejected 1 })
        (leaving false)
  release :
      {in_time : Bool}
      → Move b
          (leaving in_time)
          (record b { permits = suc b.permits })
          (answered (answer_of in_time))
  drop_acquiring : {needs : Bool} → Move b (acquiring needs) b (dropped_acquiring needs)
  drop_running : Move b running (record b { permits = suc b.permits }) dropped_running

pub record World : Type 0 where
  pub bulkhead : Bulkhead
  pub callers : List Caller

-- A new caller, or a move of one caller.
pub data Step (w : World) : World → Type 0 where
  arrive : Step w (record w { callers = entered ∷ w.callers })
  move :
      (xs ys : List Caller) (p p' : Caller) (b : Bulkhead)
      → w.callers ≡ xs ++ (p ∷ ys)
      → Move w.bulkhead p b p'
      → Step w (record { bulkhead = b; callers = xs ++ (p' ∷ ys) })

pub data Reach (config : BulkheadConfig) : World → Type 0 where
  here : Reach config (record { bulkhead = new_bulkhead config; callers = [] })
  next : {v w : World} → Reach config v → Step v w → Reach config w

pub record BulkheadStats (fl : Floats) : Type 0 where
  pub in_flight : ℕ
  pub queued : ℕ
  pub total_rejected : ℕ
  pub total_completed : ℕ
  pub rejection_rate : fl.F64

unfoldable pub stats : (fl : Floats) → Bulkhead → BulkheadStats fl
stats fl b =
    let total = add_u64 b.total_rejected b.total_completed in
    record {
      in_flight = b.in_flight;
      queued = b.queued;
      total_rejected = b.total_rejected;
      total_completed = b.total_completed;
      rejection_rate =
          if eqb total 0 then fl.lit64 0 else fl.div64 (fl.of_ℕ b.total_rejected) (fl.of_ℕ total);
    }

-- `BulkheadRegistry`: the latest registration of a category counts.
unfoldable pub register : String → BulkheadConfig → Map String Bulkhead → Map String Bulkhead
register category config m = insert category (new_bulkhead config) m

unfoldable pub registered : String → Map String Bulkhead → Option Bulkhead
registered category m = get category m
