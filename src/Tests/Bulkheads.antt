-- ===== src/Tests/Bulkheads.antt =====
-- The theorems on the bulkheads at concrete inputs.
use helix_router_adaptive_as.Common.{◌%◌, ◌≤◌, ◌≡◌, refl, false, [], ◌∷◌, string_key, arith}
use helix_router_adaptive_as.Bulkhead.{
  BulkheadConfig, Bulkhead, BulkheadError, new_bulkhead, Caller, entered, loaded, refused,
  acquiring, admitted, running, dropped_running, checked, load_in_flight, load_queued, acquire,
  count_in, drop_running, World, arrive, move, Reach, here, next,
}
use helix_router_adaptive_as.Bulkhead.Service.{
  ServiceBulkheadConfig, new_handle, arrived, running as guest_running, try_acquire, Service,
  ServiceReach, stats_of, arrive as guest_arrives, move as guest_moves, here as at_first,
  next as later,
}
use helix_router_adaptive_as.Bulkhead.Service.Safety.{stats_exact}
use helix_router_adaptive_as.Words.{u64_mod}
use helix_router_adaptive_as.Bulkhead.Safety.{Counted, Reach-Counted, dropped_shut}
use helix_router_adaptive_as.Bulkhead.Refine.{Allowed, slots_of, Reach-Allowed}

abbrev one_slot : BulkheadConfig
one_slot = record { max_concurrent = 1; max_queue_size = 0; timeout_ms = 10 }

abbrev alone : Bulkhead → Caller → World
alone b p = record { bulkhead = b; callers = p ∷ [] }

abbrev idle : Bulkhead
idle = new_bulkhead one_slot

abbrev taken : Bulkhead
taken = record idle { permits = 0 }

abbrev flying : Bulkhead
flying = record taken { in_flight = 1 }

-- The only caller was dropped while it ran: its permit is free again, its count stays.
abbrev shut : World
shut = alone (record flying { permits = 1 }) dropped_running

shut-Reach : Reach one_slot shut
unfolding checked
shut-Reach =
    let r1 : Reach one_slot (alone idle entered) = next here arrive in
    let r2 : Reach one_slot (alone idle (loaded 0)) =
      next r1 (move [] [] entered (loaded 0) idle refl load_in_flight) in
    let r3 : Reach one_slot (alone idle (acquiring false)) =
      next r2 (move [] [] (loaded 0) (acquiring false) idle refl load_queued) in
    let r4 : Reach one_slot (alone taken admitted) =
      next r3 (move [] [] (acquiring false) admitted taken refl (acquire 0 refl)) in
    let r5 : Reach one_slot (alone flying running) =
      next r4 (move [] [] admitted running flying refl count_in) in
    next r5 (move [] [] running dropped_running (record flying { permits = 1 }) refl drop_running)

Reach-Counted_example : Counted one_slot shut
Reach-Counted_example = Reach-Counted one_slot shut shut-Reach

Reach-Allowed_example : Allowed 1 (slots_of shut)
Reach-Allowed_example = Reach-Allowed one_slot shut shut-Reach

dropped_shut_example :
    checked one_slot 1 0
    ≡ refused (BulkheadError.rejected "concurrency and queue limits both reached")
dropped_shut_example =
    dropped_shut one_slot shut shut-Reach (omega arith) (omega arith) (omega arith)

abbrev one_guest : ServiceBulkheadConfig
one_guest = record { max_concurrent = 1; max_queue_size = 2; timeout = 5 }

abbrev busy_service : Service
busy_service = record {
  handle = record (new_handle "risk" one_guest) { permits = 0 };
  guests = guest_running ∷ [];
}

busy_service-ServiceReach : ServiceReach "risk" one_guest busy_service
busy_service-ServiceReach =
    let r1 : ServiceReach "risk" one_guest
        (record { handle = new_handle "risk" one_guest; guests = arrived ∷ [] }) =
      later at_first guest_arrives in
    later r1 (guest_moves [] [] arrived guest_running busy_service.handle refl (try_acquire 0 refl))

stats_exact_example :
    let stats = stats_of busy_service.handle in
    (stats.active_count ≡ 1)
    × (stats.active_count ≤ 1)
    × (stats.queue_depth % u64_mod ≡ 0)
    × (stats.total_executed % u64_mod ≡ 0)
    × (stats.total_rejected % u64_mod ≡ 0)
stats_exact_example =
    stats_exact "risk" one_guest busy_service (omega arith) busy_service-ServiceReach
