-- ===== src/RateLimiter/Window.antt =====
-- What passes the sliding window within any span of its length.
use helix_router_adaptive_as.Common.{
  ℕ, ◌+◌, ◌^◌, ◌≤◌, ◌<◌, ◌≡◌, ◌∙◌, refl, Bool, List, [], ◌∷◌, ◌++◌, ltb, All, arith, if◌then◌else◌,
  Bool-cases, inl, inr,
}
use helix_router_adaptive_as.RateLimiter.{
  WindowEntry, SlidingWindowLimiter, sum_counts, evict_front, try_allow, new_window,
}

-- The counts of the entries that lie within `window` before `t`.
abbrev pub spent : ℕ → ℕ → List WindowEntry → ℕ
spent window t [] = 0
spent window t (e ∷ es) =
    (if ltb t (e.timestamp_ms + window) then e.count else 0) + spent window t es

-- A run of requests, each a time and a count: the limiter after it, and the requests allowed.
unfoldable pub serve :
    SlidingWindowLimiter → List WindowEntry → SlidingWindowLimiter × List WindowEntry
serve w [] = (w, [])
serve w (r ∷ rs) =
    let (w1, ok) = try_allow w r.timestamp_ms r.count in
    let (w2, allowed) = serve w1 rs in (w2, if ok then r ∷ allowed else allowed)

abbrev pub plain_sum : List WindowEntry → ℕ
plain_sum [] = 0
plain_sum (e ∷ es) = e.count + plain_sum es

pub plain_sum-append :
    (xs : List WindowEntry) (e : WindowEntry) → plain_sum (xs ++ (e ∷ [])) ≡ plain_sum xs + e.count
plain_sum-append [] e = omega arith
plain_sum-append (x ∷ xs) e = omega (arith, plain_sum-append xs e)

spent-append :
    (window t : ℕ) (xs : List WindowEntry) (e : WindowEntry)
    → spent window t (xs ++ (e ∷ [])) ≡ spent window t xs + spent window t (e ∷ [])
spent-append window t [] e = omega arith
spent-append window t (x ∷ xs) e = omega (arith, spent-append window t xs e)

spent-le : (window t : ℕ) (xs : List WindowEntry) → spent window t xs ≤ plain_sum xs
spent-le window t [] = omega arith
spent-le window t (x ∷ xs) = ground (arith, spent-le window t xs)

pub sum_counts-eq : (xs : List WindowEntry) → plain_sum xs < 2 ^ 64 → sum_counts xs ≡ plain_sum xs
unfolding sum_counts
sum_counts-eq [] h = refl
sum_counts-eq (x ∷ xs) h = omega (arith, h, sum_counts-eq xs (omega arith))

pub plain_sum-evict :
    (window now : ℕ) (xs : List WindowEntry) → plain_sum (evict_front window now xs) ≤ plain_sum xs
unfolding evict_front
plain_sum-evict window now [] = omega arith
plain_sum-evict window now (x ∷ xs) = ground (arith, plain_sum-evict window now xs)

-- What is evicted counts no more, then and later.
spent-evict :
    (window now t : ℕ) (xs : List WindowEntry)
    → now ≤ t
    → t + 1 < 2 ^ 64
    → spent window t (evict_front window now xs) ≡ spent window t xs
unfolding evict_front
spent-evict window now t [] h k = refl
spent-evict window now t (x ∷ xs) h k = ground (arith, spent-evict window now t xs h k)

-- One request, allowed or not.
abbrev Served : ℕ → SlidingWindowLimiter → WindowEntry → SlidingWindowLimiter × Bool → Type 0
Served t w r (w', ok) =
    (plain_sum w'.entries ≤ w.max_count)
    × (w'.max_count ≡ w.max_count)
    × (w'.window_ms ≡ w.window_ms)
    × (spent w.window_ms t w'.entries
        ≡ spent w.window_ms t w.entries + (if ok then spent w.window_ms t (r ∷ []) else 0))

try_allow-Served :
    (t : ℕ) (w : SlidingWindowLimiter) (r : WindowEntry)
    → r.timestamp_ms ≤ t
    → t + 1 < 2 ^ 64
    → w.max_count + 1 < 2 ^ 64
    → plain_sum w.entries ≤ w.max_count
    → Served t w r (try_allow w r.timestamp_ms r.count)
unfolding try_allow
try_allow-Served t w r h k small room =
    let kept = evict_front w.window_ms r.timestamp_ms w.entries in
    let fewer = plain_sum-evict w.window_ms r.timestamp_ms w.entries in
    ground (
      arith,
      fewer,
      sum_counts-eq kept (omega (arith, fewer)),
      plain_sum-append kept r,
      spent-append w.window_ms t kept r,
      spent-evict w.window_ms r.timestamp_ms t w.entries h k,
    )

serve_bounded :
    (t window max_count : ℕ) (w : SlidingWindowLimiter) (rs : List WindowEntry)
    → w.window_ms ≡ window
    → w.max_count ≡ max_count
    → All (λ r. r.timestamp_ms ≤ t) rs
    → t + 1 < 2 ^ 64
    → max_count + 1 < 2 ^ 64
    → plain_sum w.entries ≤ max_count
    → spent window t w.entries + spent window t (serve w rs).1 ≤ max_count
unfolding serve
serve_bounded t window max_count w [] ew em h k small room =
    omega (arith, spent-le window t w.entries)
serve_bounded t window max_count w (r ∷ rs) ew em h k small room =
    let s = try_allow-Served t w r h.0 k (omega arith) (omega arith) in
    let w1 = (try_allow w r.timestamp_ms r.count).0 in
    let step : spent window t w1.entries
        ≡ spent window t w.entries
          + (if (try_allow w r.timestamp_ms r.count).1 then spent window t (r ∷ []) else 0) =
      rw (← ew) s.3 in
    let later =
      serve_bounded t window max_count w1 rs (s.2 ∙ ew) (s.1 ∙ em) h.1 k small
        (omega (arith, s.0, em)) in
    elim (Bool-cases (try_allow w r.timestamp_ms r.count).1) [
      | inl e ↦ rw e (omega (arith, later, (rw e at step)))
      | inr e ↦ rw e (omega (arith, later, (rw e at step)))
    ]

-- Whatever is requested of a new window up to a time `t`, in any order, the counts that it allows
-- within the window before `t` are at most its maximum, below the bounds of 64 bits.
pub allowed_bounded :
    (window_ms max_count t : ℕ) (rs : List WindowEntry)
    → All (λ r. r.timestamp_ms ≤ t) rs
    → t + 1 < 2 ^ 64
    → max_count + 1 < 2 ^ 64
    → spent window_ms t (serve (new_window window_ms max_count) rs).1 ≤ max_count
allowed_bounded window_ms max_count t rs h k small = omega (
  arith,
  serve_bounded t window_ms max_count (new_window window_ms max_count) rs refl refl h k small
      (omega arith),
)
