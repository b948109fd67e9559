-- ===== src/Strategies/Primes.antt =====
-- src/strategies.rs: `primecount` against trial division.
use native.Mathlib.Nat.{mul-mod_right, div-add-mod, mul-le-mul_left}
use helix_router_adaptive_as.Common.{
  ℕ, zero, suc, ◌+◌, ◌*◌, ◌/◌, ◌%◌, ◌≤◌, ◌<◌, ◌≡◌, ◌≢◌, refl, sym, ◌∙◌, ap, ap₂, inl, inr, Bool,
  true, false, not, ◌&&◌, ◌||◌, List, [], ◌∷◌, length, count_if, eqb, leb, ltb, if◌then◌else◌,
  arith, Bool-cases,
}
use helix_router_adaptive_as.Floats.{Floats}
use helix_router_adaptive_as.Types.{Job, u64}
use helix_router_adaptive_as.Strategies.{
  strike, sieve_loop, initial_flags, sieve, clamp, primecount,
}
use helix_router_adaptive_as.Strategies.Sieve.{
  flag, Prime, sieve_lem, length-strike, length-initial,
}

-- A factor of `k` from 2 on, below `m`
unfoldable pub has_factor : ℕ → ℕ → Bool
has_factor k zero = false
has_factor k (suc m) = (ltb 1 m && eqb (k % m) 0) || has_factor k m

-- Trial division
unfoldable pub is_prime : ℕ → Bool
is_prime k = ltb 1 k && not (has_factor k k)

-- How many of the `m` numbers from `i` on pass
abbrev pub count_range : (ℕ → Bool) → ℕ → ℕ → ℕ
count_range q i zero = 0
count_range q i (suc m) = (if q i then 1 else 0) + count_range q (suc i) m

found_factor : (k m : ℕ) → has_factor k m ≡ true → (d : ℕ) × (2 ≤ d) × (d < m) × (k % d ≡ 0)
unfolding has_factor
found_factor k zero h = absurd cc
found_factor k (suc m) h = elim (Bool-cases (ltb 1 m && eqb (k % m) 0)) [
  | inl y ↦ (m, ground arith, ground arith, ground arith)
  | inr n ↦ let (d, lo, hi, e) = found_factor k m (rw n at h) in (d, lo, omega arith, e)
]

no_factor : (k m : ℕ) → has_factor k m ≡ false → (a b : ℕ) → 2 ≤ a → a < m → a * b ≢ k
unfolding has_factor
no_factor k zero h a b lo hi x = absurd (omega arith)
no_factor k (suc m) h a b lo hi x = elim (Bool-cases (ltb a m)) [
  | inl y ↦ no_factor k m (ground arith) a b lo (ground arith) x
  | inr n ↦
      let e : a ≡ m = ground arith in
      let z : k % m ≡ 0 = ap (λ t. t % m) (sym x ∙ ap (λ t. t * b) e) ∙ mul-mod_right m b in
      ground arith
]

is_prime-Prime : (k : ℕ) → is_prime k ≡ true → Prime k
unfolding is_prime
is_prime-Prime k h = (
  ground arith,
  λ a b two_a two_b x.
      let more : a * 2 ≤ a * b = mul-le-mul_left a two_b in
      no_factor k k (ground arith) a b two_a (omega arith) x,
)

Prime-is_prime : (k : ℕ) → Prime k → is_prime k ≡ true
unfolding is_prime
Prime-is_prime k s = elim (Bool-cases (has_factor k k)) [
  | inl y ↦
      let (d, lo, hi, e) = found_factor k k y in
      absurd (elim (Bool-cases (leb 2 (k / d))) [
        | inl two ↦ s.1 d (k / d) lo (ground arith) (omega (arith, div-add-mod k d))
        | inr few ↦
            let least : d * (k / d) ≤ d * 1 = mul-le-mul_left d (ground arith) in
            omega (arith, div-add-mod k d)
      ])
  | inr n ↦ let two = s.0 in ground arith
]

count_flags :
    (q : ℕ → Bool) (i : ℕ) (bs : List Bool)
    → ((j : ℕ) → j < length bs → flag bs j ≡ q (i + j))
    → count_if (λ b. b) bs ≡ count_range q i (length bs)
count_flags q i [] h = refl
count_flags q i (b ∷ bs) h =
    let first : b ≡ q i = h 0 (omega arith) ∙ ap q (omega arith) in
    ap₂ (λ c r. (if c then 1 else 0) + r) first
      (count_flags q (suc i) bs λ j lt. h (suc j) (omega arith) ∙ ap q (omega arith))

length-sieve_loop : (fuel n p : ℕ) (bs : List Bool) → length (sieve_loop fuel n p bs) ≡ length bs
unfolding sieve_loop
length-sieve_loop zero n p bs = refl
length-sieve_loop (suc fuel) n p bs = elim (Bool-cases (leb (p * p) n)) [
  | inl y ↦ rw y (elim (Bool-cases (flag bs p)) [
    | inl f ↦
        rw f
          (length-sieve_loop fuel n (p + 1) (strike p (p * p) 0 bs) ∙ length-strike p (p * p) 0 bs)
    | inr f ↦ rw f (length-sieve_loop fuel n (p + 1) bs)
  ])
  | inr o ↦ rw o refl
]

length-sieve : (n : ℕ) → length (sieve n) ≡ n + 1
unfolding sieve
length-sieve n = length-sieve_loop n n 2 (initial_flags 0 (n + 1)) ∙ length-initial 0 (n + 1)

same_flag : (n k : ℕ) → k ≤ n → flag (sieve n) k ≡ is_prime k
same_flag n k le =
    let (sound, complete) = sieve_lem n k le in
    elim (Bool-cases (is_prime k)) [
      | inl y ↦ complete (is_prime-Prime k y) ∙ sym y
      | inr no_prime ↦ elim (Bool-cases (flag (sieve n) k)) [
        | inl set ↦ absurd (let p = Prime-is_prime k (sound set) in cc)
        | inr unset ↦ unset ∙ sym no_prime
      ]
    ]

count_sieve : (n : ℕ) → count_if (λ b. b) (sieve n) ≡ count_range is_prime 0 (n + 1)
count_sieve n =
    count_flags is_prime 0 (sieve n)
      (λ j lt. same_flag n j (omega (arith, length-sieve n)) ∙ ap is_prime (omega arith))
    ∙ ap (count_range is_prime 0) (length-sieve n)

-- `primecount` returns how many of the numbers up to its bound, `compute_cost` held between 10,000
-- and 250,000, trial division finds to be prime.
pub primecount_lem :
    (fl : Floats) (job : Job fl)
    → primecount fl job ≡ u64 (count_range is_prime 0 (clamp job.compute_cost 10_000 250_000 + 1))
unfolding primecount
primecount_lem fl job = ap u64 (count_sieve (clamp job.compute_cost 10_000 250_000))
