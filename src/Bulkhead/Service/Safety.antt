-- ===== src/Bulkhead/Service/Safety.antt =====
-- What holds of a service's bulkhead in every reachable state.
use helix_router_adaptive_as.Common.{
  ℕ, ◌+◌, ◌-◌, ◌%◌, ◌≤◌, ◌<◌, ◌≡◌, ◌∙◌, refl, subst, String, List, ◌∷◌, ◌++◌, none, some, arith,
}
use helix_router_adaptive_as.Words.{u64_mod}
use helix_router_adaptive_as.Bulkhead.Slots.{total, total-middle}
use helix_router_adaptive_as.Bulkhead.Service.{
  ServiceBulkheadConfig, BulkheadHandle, Guest, acquiring, rejoining, running, counting, leaving,
  served, failed, dropped_acquiring, queue_checked, GuestMove, try_acquire, try_closed, try_none,
  load_queue, join, acquire, find_closed, wait_too_long, leave_queue, count_refusal, finish,
  count_executed, release, drop_acquiring, drop_running, Service, ServiceStep, arrive, move,
  ServiceReach, here, next, stats_of,
}

abbrev pub holds : Guest → ℕ
holds (rejoining none) = 1
holds running = 1
holds counting = 1
holds leaving = 1
holds _ = 0

-- Dropped ones too
abbrev pub in_queue : Guest → ℕ
in_queue acquiring = 1
in_queue (rejoining r) = 1
in_queue dropped_acquiring = 1
in_queue _ = 0

abbrev pub was_executed : Guest → ℕ
was_executed leaving = 1
was_executed served = 1
was_executed _ = 0

abbrev pub was_rejected : Guest → ℕ
was_rejected (failed e) = 1
was_rejected _ = 0

record Balance (h h' : BulkheadHandle) (p p' : Guest) : Type 0 where
  permits : h'.permits + holds p' ≡ h.permits + holds p
  queue : (h'.queue_depth + in_queue p) % u64_mod ≡ (h.queue_depth + in_queue p') % u64_mod
  executed :
      (h'.total_executed + was_executed p) % u64_mod
      ≡ (h.total_executed + was_executed p') % u64_mod
  rejected :
      (h'.total_rejected + was_rejected p) % u64_mod
      ≡ (h.total_rejected + was_rejected p') % u64_mod
  config : h'.config ≡ h.config

GuestMove-Balance : (h h' : BulkheadHandle) (p p' : Guest) → GuestMove h p h' p' → Balance h h' p p'
unfolding queue_checked
GuestMove-Balance h h' p p' (try_acquire permits e) = ground arith
GuestMove-Balance h h' p p' (try_closed e) = ground arith
GuestMove-Balance h h' p p' (try_none e) = ground arith
GuestMove-Balance h h' p p' load_queue = ground arith
GuestMove-Balance h h' p p' join = ground arith
GuestMove-Balance h h' p p' (acquire permits e) = ground arith
GuestMove-Balance h h' p p' (find_closed e) = ground arith
GuestMove-Balance h h' p p' wait_too_long = ground arith
GuestMove-Balance h h' p p' (leave_queue {result = none}) = ground arith
GuestMove-Balance h h' p p' (leave_queue {result = some e}) = ground arith
GuestMove-Balance h h' p p' count_refusal = ground arith
GuestMove-Balance h h' p p' finish = ground arith
GuestMove-Balance h h' p p' count_executed = ground arith
GuestMove-Balance h h' p p' release = ground arith
GuestMove-Balance h h' p p' drop_acquiring = ground arith
GuestMove-Balance h h' p p' drop_running = ground arith

pub record Served (config : ServiceBulkheadConfig) (s : Service) : Type 0 where
  pub config_kept : s.handle.config ≡ config
  pub permits : s.handle.permits + total holds s.guests ≡ config.max_concurrent
  pub queue : s.handle.queue_depth % u64_mod ≡ total in_queue s.guests % u64_mod
  pub executed : s.handle.total_executed % u64_mod ≡ total was_executed s.guests % u64_mod
  pub rejected : s.handle.total_rejected % u64_mod ≡ total was_rejected s.guests % u64_mod

move-Served :
    (config : ServiceBulkheadConfig) (h h' : BulkheadHandle) (xs ys : List Guest) (p p' : Guest)
    → Balance h h' p p'
    → Served config (record { handle = h; guests = xs ++ (p ∷ ys) })
    → Served config (record { handle = h'; guests = xs ++ (p' ∷ ys) })
move-Served config h h' xs ys p p' m i = record {
  config_kept = m.config ∙ i.config_kept;
  permits = omega (arith, m.permits, i.permits, total-middle holds xs ys p p');
  queue = omega (arith, m.queue, i.queue, total-middle in_queue xs ys p p');
  executed = omega (arith, m.executed, i.executed, total-middle was_executed xs ys p p');
  rejected = omega (arith, m.rejected, i.rejected, total-middle was_rejected xs ys p p');
}

ServiceStep-Served :
    (config : ServiceBulkheadConfig) (s t : Service)
    → ServiceStep s t
    → Served config s
    → Served config t
ServiceStep-Served config s t arrive i = ground arith
ServiceStep-Served config s t (move xs ys p p' h e m) i =
    move-Served config s.handle h xs ys p p' (GuestMove-Balance s.handle h p p' m)
      (subst (λ ps. Served config (record { handle = s.handle; guests = ps })) e i)

ServiceReach-Served :
    (name : String) (config : ServiceBulkheadConfig) (s : Service)
    → ServiceReach name config s
    → Served config s
ServiceReach-Served name config s here = record {
  config_kept = refl;
  permits = omega arith;
  queue = refl;
  executed = refl;
  rejected = refl;
}
ServiceReach-Served name config s (next {s = r} before st) =
    ServiceStep-Served config r s st (ServiceReach-Served name config r before)

-- In every reachable state of a service's bulkhead its statistics are exact: the active count is
-- the number of the callers that hold a permit, never above `max_concurrent`, and the totals are the
-- numbers of the callers that were served or refused, modulo 2^64. The queue depth counts those that
-- wait and, for ever, those that were dropped while they waited. The limit is a word.
pub stats_exact :
    (name : String) (config : ServiceBulkheadConfig) (s : Service)
    → config.max_concurrent < u64_mod
    → ServiceReach name config s
    → let stats = stats_of s.handle in
      (stats.active_count ≡ total holds s.guests)
      × (stats.active_count ≤ config.max_concurrent)
      × (stats.queue_depth % u64_mod ≡ total in_queue s.guests % u64_mod)
      × (stats.total_executed % u64_mod ≡ total was_executed s.guests % u64_mod)
      × (stats.total_rejected % u64_mod ≡ total was_rejected s.guests % u64_mod)
unfolding stats_of
stats_exact name config s word r =
    let i = ServiceReach-Served name config s r in
    let exact : (s.handle.config.max_concurrent + u64_mod - s.handle.permits) % u64_mod
        ≡ total holds s.guests =
      rw i.config_kept (omega (arith, i.permits)) in
    (exact, omega (arith, i.permits), i.queue, i.executed, i.rejected)
