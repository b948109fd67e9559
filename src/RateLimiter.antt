-- ===== src/RateLimiter.antt =====
-- src/rate_limiter_v2.rs: a sliding window, a token bucket, both at once, and a limiter per client.
pub mod Window
pub mod Clients
use helix_router_adaptive_as.Common.{
  ℕ, ◌+◌, ◌-◌, Bool, true, false, ◌&&◌, String, List, [], ◌∷◌, ◌++◌, Option, none, some, leb, ltb,
  if◌then◌else◌, string_key,
}
use helix_router_adaptive_as.Common.Maps.{Map, get, insert}
use helix_router_adaptive_as.Words.{add_u64, saturating_add}
use helix_router_adaptive_as.Floats.{Floats}

pub data RateLimitAlgorithm : Type 0 where
  token_bucket sliding_window fixed_window hybrid : RateLimitAlgorithm

pub record WindowEntry : Type 0 where
  pub timestamp_ms : ℕ
  pub count : ℕ

pub record SlidingWindowLimiter : Type 0 where
  pub entries : List WindowEntry
  pub window_ms : ℕ
  pub max_count : ℕ

abbrev pub new_window : ℕ → ℕ → SlidingWindowLimiter
new_window window_ms max_count = record {
  entries = [];
  window_ms = window_ms;
  max_count = max_count;
}

-- `iter().map(|e| e.count).sum()`
unfoldable pub sum_counts : List WindowEntry → ℕ
sum_counts [] = 0
sum_counts (e ∷ es) = add_u64 e.count (sum_counts es)

-- The entries behind the expired ones at the front.
unfoldable pub evict_front : ℕ → ℕ → List WindowEntry → List WindowEntry
evict_front window_ms now [] = []
evict_front window_ms now (e ∷ es) =
    let rest = evict_front window_ms now es in
    if leb (saturating_add e.timestamp_ms window_ms) now then rest else e ∷ es

abbrev pub evict : SlidingWindowLimiter → ℕ → SlidingWindowLimiter
evict w now = record w { entries = evict_front w.window_ms now w.entries }

-- Whether `count` more fit into what the window holds.
abbrev pub fits : SlidingWindowLimiter → ℕ → Bool
fits w count = leb (saturating_add (sum_counts w.entries) count) w.max_count

abbrev pub push_entry : SlidingWindowLimiter → ℕ → ℕ → SlidingWindowLimiter
push_entry w now count = record w {
  entries = w.entries ++ (record { timestamp_ms = now; count = count } ∷ []);
}

unfoldable pub try_allow : SlidingWindowLimiter → ℕ → ℕ → SlidingWindowLimiter × Bool
try_allow w now count =
    if fits (evict w now) count
    then (push_entry (evict w now) now count, true)
    else (evict w now, false)

unfoldable pub current_count : SlidingWindowLimiter → ℕ → SlidingWindowLimiter × ℕ
current_count w now = (evict w now, sum_counts (evict w now).entries)

pub record TokenBucketV2 (fl : Floats) : Type 0 where
  pub capacity : fl.F64
  pub tokens : fl.F64
  pub refill_rate : fl.F64
  pub last_ms : ℕ

pub record HybridLimiter (fl : Floats) : Type 0 where
  pub bucket : TokenBucketV2 fl
  pub window : SlidingWindowLimiter

-- A client's limiter with its counts of allowed and rejected requests.
pub record Client (fl : Floats) : Type 0 where
  pub limiter : HybridLimiter fl
  pub allowed : ℕ
  pub rejected : ℕ

pub record RateLimiterV2 (fl : Floats) : Type 0 where
  pub limiters : Map String (Client fl)
  pub algorithm : RateLimitAlgorithm

pub record RateLimiterStats (fl : Floats) : Type 0 where
  pub client_id : String
  pub current_tokens : fl.F64
  pub window_count : ℕ
  pub allowed : ℕ
  pub rejected : ℕ

-- `tokens.ceil() as u64`
abbrev pub needed : (fl : Floats) → fl.F64 → ℕ
needed fl tokens = fl.to_u64 (fl.ceil64 tokens)

module _ {fl : Floats} where
  abbrev pub new_bucket : fl.F64 → fl.F64 → TokenBucketV2 fl
  new_bucket capacity refill_rate = record {
    capacity = capacity;
    tokens = capacity;
    refill_rate = refill_rate;
    last_ms = 0;
  }

  -- The refill for the time since the last one, up to the capacity.
  unfoldable pub refill : TokenBucketV2 fl → ℕ → TokenBucketV2 fl
  refill b now =
      if ltb b.last_ms now
      then record b {
        tokens =
            fl.min64
              (fl.add64 b.tokens
                (fl.mul64 b.refill_rate (fl.div64 (fl.of_ℕ (now - b.last_ms)) (fl.lit64 100_000))))
              b.capacity;
        last_ms = now;
      }
      else b

  abbrev pub spend : TokenBucketV2 fl → fl.F64 → TokenBucketV2 fl × Bool
  spend b tokens =
      if fl.le64 tokens b.tokens
      then (record b { tokens = fl.sub64 b.tokens tokens }, true)
      else (b, false)

  unfoldable pub try_consume : TokenBucketV2 fl → ℕ → fl.F64 → TokenBucketV2 fl × Bool
  try_consume b now tokens = spend (refill b now) tokens

  abbrev pub new_hybrid : fl.F64 → fl.F64 → ℕ → ℕ → HybridLimiter fl
  new_hybrid capacity refill_rate window_ms window_max = record {
    bucket = new_bucket capacity refill_rate;
    window = new_window window_ms window_max;
  }

  -- The bucket is asked only once the window has room, and the window records what both allow.
  abbrev pub settle_hybrid :
      HybridLimiter fl → ℕ → fl.F64 → TokenBucketV2 fl × Bool → HybridLimiter fl × Bool
  settle_hybrid h now tokens (b, true) =
      (record { bucket = b; window = push_entry h.window now (needed fl tokens) }, true)
  settle_hybrid h now tokens (b, false) = (record h { bucket = b }, false)

  abbrev pub evicted : HybridLimiter fl → ℕ → HybridLimiter fl
  evicted h now = record h { window = evict h.window now }

  unfoldable pub try_allow_hybrid : HybridLimiter fl → ℕ → fl.F64 → HybridLimiter fl × Bool
  try_allow_hybrid h now tokens =
      if fits (evict h.window now) (needed fl tokens)
      then settle_hybrid (evicted h now) now tokens (try_consume h.bucket now tokens)
      else (evicted h now, false)

  abbrev pub new_limiter : RateLimitAlgorithm → RateLimiterV2 fl
  new_limiter algorithm = record { limiters = []; algorithm = algorithm }

  unfoldable pub register_client :
      RateLimiterV2 fl → String → fl.F64 → fl.F64 → ℕ → ℕ → RateLimiterV2 fl
  register_client r client_id capacity refill_rate window_ms window_max = record r {
    limiters =
        insert client_id
          (record {
            limiter = new_hybrid capacity refill_rate window_ms window_max;
            allowed = 0;
            rejected = 0;
          })
          r.limiters;
  }

  abbrev pub tally : Client fl → HybridLimiter fl × Bool → Client fl
  tally c (h, true) = record c { limiter = h; allowed = add_u64 c.allowed 1 }
  tally c (h, false) = record c { limiter = h; rejected = add_u64 c.rejected 1 }

  abbrev pub check_found :
      RateLimiterV2 fl → String → ℕ → fl.F64 → Option (Client fl) → RateLimiterV2 fl × Bool
  check_found r client_id now tokens none = (r, false)
  check_found r client_id now tokens (some c) =
      let answer = try_allow_hybrid c.limiter now tokens in
      (record r { limiters = insert client_id (tally c answer) r.limiters }, answer.1)

  unfoldable pub check : RateLimiterV2 fl → String → ℕ → fl.F64 → RateLimiterV2 fl × Bool
  check r client_id now tokens = check_found r client_id now tokens (get client_id r.limiters)

  abbrev pub stats_found : String → Option (Client fl) → Option (RateLimiterStats fl)
  stats_found client_id none = none
  stats_found client_id (some c) = some (record {
    client_id = client_id;
    current_tokens = c.limiter.bucket.tokens;
    window_count = sum_counts c.limiter.window.entries;
    allowed = c.allowed;
    rejected = c.rejected;
  })

  unfoldable pub client_stats : RateLimiterV2 fl → String → Option (RateLimiterStats fl)
  client_stats r client_id = stats_found client_id (get client_id r.limiters)
