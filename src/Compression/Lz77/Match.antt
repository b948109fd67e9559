-- ===== src/Compression/Lz77/Match.antt =====
-- The matches that the LZ77 compressor finds are matches.
use helix_router_adaptive_as.Common.{
  ℕ, zero, suc, ◌+◌, ◌-◌, ◌%◌, ◌≤◌, ◌<◌, ◌≡◌, refl, ◌⊎◌, inl, inr, List, arith, length, min, ltb,
  leb, if◌then◌else◌, if_cases,
}
use helix_router_adaptive_as.Compression.Lz77.{byte, match_len, search_window, best_match}

-- The `n` bytes from `s` on agree with those from `p` on.
abbrev pub Agree : List ℕ → ℕ → ℕ → ℕ → Type 0
Agree bytes s p zero = Unit
Agree bytes s p (suc n) = (byte bytes s ≡ byte bytes p) × Agree bytes (s + 1) (p + 1) n

pub Agree-le : (bytes : List ℕ) (s p m n : ℕ) → m ≤ n → Agree bytes s p n → Agree bytes s p m
Agree-le bytes s p zero n h a = tt
Agree-le bytes s p (suc m) zero h a = absurd (omega arith)
Agree-le bytes s p (suc m) (suc n) h a = (a.0, Agree-le bytes (s + 1) (p + 1) m n (omega arith) a.1)

match_len-Agree :
    (fuel : ℕ) (bytes : List ℕ) (la_end pos s p : ℕ)
    → p ≤ la_end
    → Agree bytes s p (match_len fuel bytes la_end pos s p)
      × (p + match_len fuel bytes la_end pos s p ≤ la_end)
unfolding match_len
match_len-Agree zero bytes la_end pos s p h = (tt, omega arith)
match_len-Agree (suc fuel) bytes la_end pos s p h =
    ground (arith, match_len-Agree fuel bytes la_end pos (s + 1) (p + 1))

-- A candidate of the search at `pos`: nothing, or a true match at an offset that fits 16 bits.
abbrev pub Candidate : List ℕ → ℕ → ℕ → ℕ × ℕ → Type 0
Candidate bytes la_end pos best =
    (best.0 ≡ 0)
    ⊎ ((0 < best.1)
        × (best.1 ≤ pos)
        × (best.1 < 65536)
        × (pos + best.0 ≤ la_end)
        × Agree bytes (pos - best.1) pos best.0)

start-Candidate :
    (bytes : List ℕ) (la_end pos start : ℕ)
    → pos ≤ la_end
    → start < pos
    → pos - start < 65536
    → Candidate bytes la_end pos
        (match_len (la_end - pos) bytes la_end pos start pos, (pos - start) % 65536)
start-Candidate bytes la_end pos start h lt small =
    let m = match_len-Agree (la_end - pos) bytes la_end pos start pos h in
    let back : pos - (pos - start) % 65536 ≡ start = omega arith in
    inr (omega arith, omega arith, omega arith, m.1, rw back m.0)

search-Candidate :
    (count : ℕ) (bytes : List ℕ) (la_end pos start : ℕ) (best : ℕ × ℕ)
    → pos ≤ la_end
    → start + count ≡ pos
    → count < 65536
    → Candidate bytes la_end pos best
    → Candidate bytes la_end pos (search_window count bytes la_end pos start best)
unfolding search_window
search-Candidate zero bytes la_end pos start best h e small c = c
search-Candidate (suc count) bytes la_end pos start best h e small c =
    search-Candidate count bytes la_end pos (start + 1) _ h (omega arith) (omega arith) (
      if_cases (Candidate bytes la_end pos)
        (ltb best.0 (match_len (la_end - pos) bytes la_end pos start pos))
        (start-Candidate bytes la_end pos start h (omega arith) (omega arith)) c)

-- A match that the compressor can emit: it lies before `pos`, agrees with what follows, fits its
-- fields, and leaves a byte to come after it.
pub record Usable (bytes : List ℕ) (lookahead pos : ℕ) (best : ℕ × ℕ) : Type 0 where
  pub back : (0 < best.1) × (best.1 ≤ pos) × (best.1 < 65536)
  pub len_le : best.0 ≤ lookahead
  pub ends : pos + best.0 < length bytes
  pub agrees : Agree bytes (pos - best.1) pos best.0

abbrev trimmed : ℕ → ℕ → ℕ → ℕ
trimmed size pos n = if leb size (pos + n) then n - 1 else n

trimmed_bounds :
    (size pos n : ℕ)
    → 2 ≤ trimmed size pos n
    → pos + n ≤ size
    → (trimmed size pos n ≤ n) × (pos + trimmed size pos n < size)
trimmed_bounds size pos n h e = ground arith

trim-Usable :
    (bytes : List ℕ) (la_end lookahead pos n off : ℕ)
    → la_end ≤ pos + lookahead
    → la_end ≤ length bytes
    → Candidate bytes la_end pos (n, off)
    → 2 ≤ trimmed (length bytes) pos n
    → Usable bytes lookahead pos (trimmed (length bytes) pos n, off)
trim-Usable bytes la_end lookahead pos n off hl hb (inl e) two = absurd (ground arith)
trim-Usable bytes la_end lookahead pos n off hl hb (inr c) two =
    let t = trimmed_bounds (length bytes) pos n two (omega (arith, c.3)) in
    record {
      back = (c.0, c.1, c.2);
      len_le = omega (arith, t.0, c.3);
      ends = t.1;
      agrees = Agree-le bytes (pos - off) pos (trimmed (length bytes) pos n) n t.0 c.4;
    }

-- What `best_match` returns can be emitted, if it is long enough to be.
pub best_match-Usable :
    (bytes : List ℕ) (window lookahead pos : ℕ)
    → window < 65536
    → pos < length bytes
    → 2 ≤ (best_match bytes window lookahead pos).0
    → Usable bytes lookahead pos (best_match bytes window lookahead pos)
unfolding best_match
best_match-Usable bytes window lookahead pos small h two =
    let la_end = min (pos + lookahead) (length bytes) in
    trim-Usable bytes la_end lookahead pos _ _ (omega arith) (omega arith)
      (search-Candidate (pos - (pos - window)) bytes la_end pos (pos - window) (0, 0) (omega arith)
        (omega arith) (omega arith) (inl refl))
      two
