-- ===== src/Strategies/Sieve.antt =====
-- src/strategies.rs: the sieve of `primecount` marks exactly the primes.
use native.Mathlib.Nat.{
  mul-zero, mul-suc, mul_comm, mul_assoc, mul-add, mul-le-mul, le-mul_of_pos_right,
}
use helix_router_adaptive_as.Common.{
  ℕ, zero, suc, ◌+◌, ◌-◌, ◌*◌, ◌≤◌, ◌<◌, ◌≡◌, ◌≢◌, ◌↔◌, refl, sym, ◌∙◌, ap, inl, inr, Bool, true,
  false, List, [], ◌∷◌, length, get_elem?, eqb, leb, ltb, if◌then◌else◌, arith, Bool-cases,
}
use helix_router_adaptive_as.Strategies.{strike, is_set, sieve_loop, initial_flags, sieve}

abbrev pub flag : List Bool → ℕ → Bool
flag bs k = is_set (get_elem? bs k)

-- No product of two numbers from 2 on
abbrev pub Prime : ℕ → Type 0
Prime k = (2 ≤ k) × ((a b : ℕ) → 2 ≤ a → 2 ≤ b → a * b ≢ k)

-- No product whose smaller factor is below `p`
abbrev Sifted : ℕ → ℕ → Type 0
Sifted p k = (2 ≤ k) × ((a b : ℕ) → 2 ≤ a → a < p → a ≤ b → a * b ≢ k)

pub length-strike : (p k i : ℕ) (bs : List Bool) → length (strike p k i bs) ≡ length bs
unfolding strike
length-strike p k i [] = refl
length-strike p k i (b ∷ bs) = ap suc (length-strike p (if eqb i k then k + p else k) (suc i) bs)

next_multiple :
    (p k i j : ℕ) → k ≡ i → ((m : ℕ) → k + p + p * m ≢ suc i + j) → (m : ℕ) → k + p * m ≢ i + suc j
next_multiple p k i j e h zero x = absurd (omega (arith, mul-zero p))
next_multiple p k i j e h (suc m) x = h m (omega (arith, mul-suc p m))

-- A flag that stays set was set, and is on no multiple.
strike-kept :
    (p k i : ℕ) (bs : List Bool) (j : ℕ)
    → 0 < p
    → i ≤ k
    → flag (strike p k i bs) j ≡ true
    → (flag bs j ≡ true) × ((m : ℕ) → k + p * m ≢ i + j)
unfolding strike
strike-kept p k i [] j pos le h = absurd cc
strike-kept p k i (b ∷ bs) zero pos le h = ground arith
strike-kept p k i (b ∷ bs) (suc j) pos le h = elim (Bool-cases (eqb i k)) [
  | inl y ↦
      let ih = strike-kept p (k + p) (suc i) bs j pos (ground arith) (rw y at h) in
      (ih.0, next_multiple p k i j (ground arith) ih.1)
  | inr n ↦
      let ih = strike-kept p k (suc i) bs j pos (ground arith) (rw n at h) in
      (ih.0, λ m x. ih.1 m (omega arith))
]

strike-keeps :
    (p k i : ℕ) (bs : List Bool) (j : ℕ)
    → 0 < p
    → i ≤ k
    → flag bs j ≡ true
    → ((m : ℕ) → k + p * m ≢ i + j)
    → flag (strike p k i bs) j ≡ true
unfolding strike
strike-keeps p k i [] j pos le h off = absurd cc
strike-keeps p k i (b ∷ bs) zero pos le h off =
    let first : k ≢ i = λ e. off 0 (omega (arith, mul-zero p)) in ground arith
strike-keeps p k i (b ∷ bs) (suc j) pos le h off = elim (Bool-cases (eqb i k)) [
  | inl y ↦ rw y (
      strike-keeps p (k + p) (suc i) bs j pos (ground arith) h
        λ m x. off (suc m) (omega (arith, mul-suc p m)))
  | inr n ↦ rw n (strike-keeps p k (suc i) bs j pos (ground arith) h λ m x. off m (omega arith))
]

-- The flags after the factors below `p`
record Marked (n p : ℕ) (bs : List Bool) : Type 0 where
  pub long : length bs ≡ suc n
  pub set : (k : ℕ) → k ≤ n → flag bs k ≡ true → Sifted p k
  pub kept : (k : ℕ) → k ≤ n → Sifted p k → flag bs k ≡ true

pub length-initial : (i n : ℕ) → length (initial_flags i n) ≡ n
unfolding initial_flags
length-initial i zero = refl
length-initial i (suc n) = ap suc (length-initial (suc i) n)

flag-initial : (i n k : ℕ) → k < n → flag (initial_flags i n) k ≡ ltb 1 (i + k)
unfolding initial_flags
flag-initial i zero k h = absurd (omega arith)
flag-initial i (suc n) zero h = ground arith
flag-initial i (suc n) (suc k) h = flag-initial (suc i) n k (omega arith) ∙ ap (ltb 1) (omega arith)

initial-Marked : (n : ℕ) → Marked n 2 (initial_flags 0 (n + 1))
initial-Marked n = record {
  long = length-initial 0 (n + 1) ∙ omega arith;
  set =
      λ k le h. (ground (arith, flag-initial 0 (n + 1) k), λ a b lo hi up x. absurd (omega arith));
  kept = λ k le s. let two = s.0 in ground (arith, flag-initial 0 (n + 1) k);
}

-- One more factor
sift : (p k : ℕ) → Sifted p k → ((b : ℕ) → p ≤ b → p * b ≢ k) → Sifted (suc p) k
sift p k s off = (
  s.0,
  λ a b lo hi up x. elim (Bool-cases (ltb a p)) [
    | inl y ↦ s.1 a b lo (ground arith) up x
    | inr n ↦ let e : a ≡ p = ground arith in off b (omega arith) (ap (λ t. t * b) (sym e) ∙ x)
  ],
)

upto : (p b : ℕ) → p ≤ b → p + (b - p) ≡ b
upto p b up = omega arith

-- A number whose multiple is sifted is sifted.
skipped_prime : (p k b : ℕ) → 2 ≤ p → p ≤ b → Sifted p k → p * b ≡ k → Sifted p p
skipped_prime p k b two up s x = (
  two,
  λ a c lo hi le e.
      let more : c ≤ c * b = le-mul_of_pos_right c (omega arith) in
      s.1 a (c * b) lo hi (omega arith) (sym (mul_assoc a c b) ∙ ap (λ t. t * b) e ∙ x),
)

struck-Marked :
    (n p : ℕ) (bs : List Bool) → 2 ≤ p → Marked n p bs → Marked n (suc p) (strike p (p * p) 0 bs)
struck-Marked n p bs two m = record {
  long = length-strike p (p * p) 0 bs ∙ m.long;
  set = λ k le h.
      let r = strike-kept p (p * p) 0 bs k (omega arith) (omega arith) h in
      sift p k (m.set k le r.0) λ b up x.
        r.1 (b - p) (omega (arith, mul-add p p (b - p), ap (λ (t : ℕ). p * t) (upto p b up)));
  kept = λ k le s.
      strike-keeps p (p * p) 0 bs k (omega arith) (omega arith)
        (m.kept k le (s.0, λ a b lo hi up. s.1 a b lo (omega arith) up))
        λ j x. s.1 p (p + j) two (omega arith) (omega arith) (omega (arith, mul-add p p j));
}

skipped-Marked :
    (n p : ℕ) (bs : List Bool)
    → 2 ≤ p
    → p ≤ n
    → flag bs p ≡ false
    → Marked n p bs
    → Marked n (suc p) bs
skipped-Marked n p bs two le f m = record {
  long = m.long;
  set = λ k le' h.
      let s = m.set k le' h in
      sift p k s λ b up x. absurd (ground (arith, m.kept p le (skipped_prime p k b two up s x)));
  kept = λ k le s. m.kept k le (s.0, λ a b lo hi up. s.1 a b lo (omega arith) up);
}

-- Beyond the square root nothing is left to sift.
Sifted-Prime : (n p k : ℕ) → k ≤ n → n < p * p → Sifted p k → Prime k
Sifted-Prime n p k le over s = (
  s.0,
  λ a b two_a two_b x. elim (Bool-cases (leb a b)) [
    | inl y ↦ elim (Bool-cases (ltb a p)) [
      | inl lt ↦ s.1 a b two_a (ground arith) (ground arith) x
      | inr ge ↦ absurd (omega (arith, square p a b (ground arith) (ground arith)))
    ]
    | inr n ↦ elim (Bool-cases (ltb b p)) [
      | inl lt ↦ s.1 b a two_b (ground arith) (ground arith) (mul_comm b a ∙ x)
      | inr ge ↦ absurd (omega (arith, square p b a (ground arith) (ground arith), mul_comm a b))
    ]
  ],
)
  where
    square : (p a b : ℕ) → p ≤ a → a ≤ b → p * p ≤ a * b
    square p a b h g = mul-le-mul h (omega arith)

plus_one : (p : ℕ) → p + 1 ≡ suc p
plus_one p = omega arith

finished_sieve :
    (n p : ℕ) (bs : List Bool)
    → n < p * p
    → Marked n p bs
    → (k : ℕ) → k ≤ n
    → (flag bs k ≡ true) ↔ Prime k
finished_sieve n p bs over m k le = (
  λ h. Sifted-Prime n p k le over (m.set k le h),
  λ s. m.kept k le (s.0, λ a b lo hi up. s.1 a b lo (omega arith)),
)

-- The loop, which stops once `p * p` exceeds `n`, with fuel for every `p` up to there.
sieve_loop_lem :
    (fuel n p : ℕ) (bs : List Bool)
    → 2 ≤ p
    → n + 2 ≤ p + fuel
    → Marked n p bs
    → (k : ℕ) → k ≤ n
    → (flag (sieve_loop fuel n p bs) k ≡ true) ↔ Prime k
unfolding sieve_loop
sieve_loop_lem zero n p bs two enough m k le =
    let more : p ≤ p * p = le-mul_of_pos_right p (omega arith) in
    finished_sieve n p bs (omega arith) m k le
sieve_loop_lem (suc fuel) n p bs two enough m k le = elim (Bool-cases (leb (p * p) n)) [
  | inl y ↦ rw y (elim (Bool-cases (flag bs p)) [
    | inl f ↦
        rw (f, plus_one p)
          (sieve_loop_lem fuel n (suc p) (strike p (p * p) 0 bs) (omega arith) (omega arith)
            (struck-Marked n p bs two m) k le)
    | inr f ↦
        let more : p ≤ p * p = le-mul_of_pos_right p (omega arith) in
        rw (f, plus_one p)
          (sieve_loop_lem fuel n (suc p) bs (omega arith) (omega arith)
            (skipped-Marked n p bs two (ground arith) f m) k le)
  ])
  | inr o ↦ rw o (finished_sieve n p bs (ground arith) m k le)
]

-- The sieve up to `n` sets the flag of `k` exactly when `k` is a prime.
pub sieve_lem : (n k : ℕ) → k ≤ n → (flag (sieve n) k ≡ true) ↔ Prime k
unfolding sieve
sieve_lem n k le =
    sieve_loop_lem n n 2 (initial_flags 0 (n + 1)) (omega arith) (omega arith) (initial-Marked n) k
      le
