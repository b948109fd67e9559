-- ===== src/RateLimiter/Clients.antt =====
-- The limiters of the clients: each stays within its window, and a request touches one client only.
use helix_router_adaptive_as.Common.{
  ℕ, ◌+◌, ◌^◌, ◌≤◌, ◌<◌, ◌≡◌, refl, Bool, true, false, String, Option, none, some, All, arith,
  string_key, Bool-cases, inl, inr,
}
use helix_router_adaptive_as.Common.Maps.{get, All-insert, get-All}
use helix_router_adaptive_as.Floats.{Floats}
use helix_router_adaptive_as.RateLimiter.{
  Client, HybridLimiter, TokenBucketV2, RateLimiterV2, evict, fits, push_entry, needed, evicted,
  settle_hybrid, try_consume, try_allow_hybrid, tally, check_found, check, SlidingWindowLimiter,
}
use helix_router_adaptive_as.RateLimiter.Window.{
  plain_sum, plain_sum-append, plain_sum-evict, sum_counts-eq,
}

abbrev pub WindowWithin : SlidingWindowLimiter → Type 0
WindowWithin w = (w.max_count + 1 < 2 ^ 64) × (plain_sum w.entries ≤ w.max_count)

evict-Within : (w : SlidingWindowLimiter) (now : ℕ) → WindowWithin w → WindowWithin (evict w now)
evict-Within w now h = (h.0, omega (arith, h.1, plain_sum-evict w.window_ms now w.entries))

push-Within :
    (w : SlidingWindowLimiter) (now count : ℕ)
    → WindowWithin w
    → fits w count ≡ true
    → WindowWithin (push_entry w now count)
push-Within w now count h f = ground (
  arith,
  h,
  sum_counts-eq w.entries (omega (arith, h)),
  plain_sum-append w.entries (record { timestamp_ms = now; count = count }),
)

module _ {fl : Floats} where
  -- A client whose window holds at most its maximum.
  abbrev pub Within : Client fl → Type 0
  Within c = WindowWithin c.limiter.window

  settle-Within :
      (h : HybridLimiter fl) (now : ℕ) (tokens : fl.F64) (answer : TokenBucketV2 fl × Bool)
      → WindowWithin h.window
      → fits h.window (needed fl tokens) ≡ true
      → WindowWithin (settle_hybrid h now tokens answer).0.window
  settle-Within h now tokens (b, true) w f = push-Within h.window now (needed fl tokens) w f
  settle-Within h now tokens (b, false) w f = w

  try_allow_hybrid-Within :
      (h : HybridLimiter fl) (now : ℕ) (tokens : fl.F64)
      → WindowWithin h.window
      → WindowWithin (try_allow_hybrid h now tokens).0.window
  unfolding try_allow_hybrid
  try_allow_hybrid-Within h now tokens w =
      let kept = evict-Within h.window now w in
      elim (Bool-cases (fits (evict h.window now) (needed fl tokens))) [
        | inl e ↦
            rw e (settle-Within (evicted h now) now tokens (try_consume h.bucket now tokens) kept e)
        | inr e ↦ rw e kept
      ]

  tally-Within :
      (c : Client fl) (answer : HybridLimiter fl × Bool)
      → WindowWithin answer.0.window
      → Within (tally c answer)
  tally-Within c (h, true) w = w
  tally-Within c (h, false) w = w

  check_found-Within :
      (r : RateLimiterV2 fl) (id : String) (now : ℕ) (tokens : fl.F64) (found : Option (Client fl))
      → get id r.limiters ≡ found
      → All (λ e. Within e.1) r.limiters
      → All (λ e. Within e.1) (check_found r id now tokens found).0.limiters
  check_found-Within r id now tokens none e h = h
  check_found-Within r id now tokens (some c) e h =
      All-insert Within id _ r.limiters
        (tally-Within c (try_allow_hybrid c.limiter now tokens)
          (try_allow_hybrid-Within c.limiter now tokens (get-All Within id c r.limiters h e)))
        h

  -- Where every client's window holds at most its maximum, so it is after any request of any client.
  pub check-Within :
      (r : RateLimiterV2 fl) (id : String) (now : ℕ) (tokens : fl.F64)
      → All (λ e. Within e.1) r.limiters
      → All (λ e. Within e.1) (check r id now tokens).0.limiters
  unfolding check
  check-Within r id now tokens h = check_found-Within r id now tokens (get id r.limiters) refl h
