-- ===== src/Words.antt =====
-- `u64` arithmetic as the Rust standard library defines it.
use helix_router_adaptive_as.Common.{ℕ, ◌+◌, ◌-◌, ◌*◌, ◌/◌, ◌%◌, ◌^◌, ◌<◌, min, arith}

abbrev pub u64_mod : ℕ
u64_mod = 2 ^ 64

-- `fetch_add` of an atomic counter, and `wrapping_add`
abbrev pub add_u64 : ℕ → ℕ → ℕ
add_u64 a b = (a + b) % u64_mod

-- `fetch_sub` of an atomic counter
abbrev pub sub_u64 : ℕ → ℕ → ℕ
sub_u64 a b = (a + u64_mod - b) % u64_mod

-- `u32` addition; an overflow, which a debug build refuses, wraps.
abbrev pub add_u32 : ℕ → ℕ → ℕ
add_u32 a b = (a + b) % 2 ^ 32

abbrev pub saturating_add : ℕ → ℕ → ℕ
saturating_add a b = min (a + b) (u64_mod - 1)

abbrev pub wrapping_mul : ℕ → ℕ → ℕ
wrapping_mul a b = (a * b) % u64_mod

abbrev pub saturating_mul : ℕ → ℕ → ℕ
saturating_mul a b = min (a * b) (u64_mod - 1)

abbrev pub shr : ℕ → ℕ → ℕ
shr a k = a / 2 ^ k

abbrev pub shl : ℕ → ℕ → ℕ
shl a k = (a * 2 ^ k) % u64_mod

abbrev pub rotate_left : ℕ → ℕ → ℕ
rotate_left a k = shl a k + shr a (64 - k)

pub wrapping_mul-lt : (a b : ℕ) → wrapping_mul a b < u64_mod
wrapping_mul-lt a b = omega arith
