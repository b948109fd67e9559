-- ===== src/Strategies.antt =====
-- src/strategies.rs: the compute kernels.
pub mod Laws
pub mod Sieve
pub mod Primes
use helix_router_adaptive_as.Common.{
  ℕ, zero, suc, ◌+◌, ◌-◌, ◌*◌, ◌/◌, ◌≤◌, min, max, bit_xor, Bool, true, false, List, [], ◌∷◌, none,
  some, Option, leb, ltb, eqb, if◌then◌else◌, length, get_elem?, count_if,
}
use helix_router_adaptive_as.Words.{wrapping_mul, shr, shl, rotate_left, u64_mod}
use helix_router_adaptive_as.Floats.{Floats}
use helix_router_adaptive_as.Types.{Job, JobKind, Output, u64, f64}

-- One round of the cascade over `job.inputs`.
unfoldable pub mix_input : ℕ → ℕ → ℕ
mix_input x v =
    let x1 = wrapping_mul (bit_xor x v) 0x100_0000_01b3 in
    let x2 = wrapping_mul (bit_xor x1 (shr x1 33)) 0xff51_afd7_ed55_8ccd in
    let x3 = wrapping_mul (bit_xor x2 (shr x2 33)) 0xc4ce_b9fe_1a85_ec53 in bit_xor x3 (shr x3 33)

unfoldable pub mix_inputs : ℕ → List ℕ → ℕ
mix_inputs x [] = x
mix_inputs x (v ∷ vs) = mix_inputs (mix_input x v) vs

unfoldable pub mix_rounds : ℕ → ℕ → ℕ
mix_rounds zero t = t
mix_rounds (suc n) t =
    mix_rounds n
      (wrapping_mul (bit_xor (rotate_left t 7) 0x9e37_79b9_7f4a_7c15) 0xbf58_476d_1ce4_e5b9)

unfoldable pub clamp : ℕ → ℕ → ℕ → ℕ
clamp x lo hi = if ltb x lo then lo else if ltb hi x then hi else x

-- `is_prime[k] = false; k += p` while `k <= n`: the positions of a list from `i` on, where the
-- next multiple to strike is `k`.
unfoldable pub strike : ℕ → ℕ → ℕ → List Bool → List Bool
strike p k i [] = []
strike p k i (b ∷ bs) =
    let hit = eqb i k in (if hit then false else b) ∷ strike p (if hit then k + p else k) (suc i) bs

abbrev pub is_set : Option Bool → Bool
is_set none = false
is_set (some b) = b

-- `while p * p <= n`: the fuel bounds how often `p` can still grow.
unfoldable pub sieve_loop : ℕ → ℕ → ℕ → List Bool → List Bool
sieve_loop zero n p flags = flags
sieve_loop (suc fuel) n p flags =
    let rest =
      sieve_loop fuel n (p + 1)
        (if is_set (get_elem? flags p) then strike p (p * p) 0 flags else flags) in
    if leb (p * p) n then rest else flags

-- `vec![true; n + 1]` with 0 and 1 cleared, from index `i` on.
unfoldable pub initial_flags : ℕ → ℕ → List Bool
initial_flags i zero = []
initial_flags i (suc n) = ltb 1 i ∷ initial_flags (suc i) n

unfoldable pub sieve : ℕ → List Bool
sieve n = sieve_loop n n 2 (initial_flags 0 (n + 1))

module _ (fl : Floats) where
  unfoldable pub hashmix : Job fl → Output fl
  hashmix job =
      u64 (mix_rounds (max (job.compute_cost / 64) 1) (mix_inputs 0xcbf2_9ce4_8422_2325 job.inputs))

  unfoldable pub primecount : Job fl → Output fl
  primecount job = u64 (count_if (λ b. b) (sieve (clamp job.compute_cost 10_000 250_000)))

  -- One step of the xorshift64 generator.
  unfoldable pub next_seed : ℕ → ℕ
  next_seed s =
      let s1 = bit_xor s (shr s 12) in let s2 = bit_xor s1 (shl s1 25) in bit_xor s2 (shr s2 27)

  -- `v as f64 / u64::MAX as f64`
  abbrev pub unit_of : ℕ → fl.F64
  unit_of v = fl.div64 (fl.of_ℕ v) (fl.of_ℕ (u64_mod - 1))

  -- The mean and the volatility that `job.inputs` shift; `0.0001` is `1.0 / 10_000.0` here.
  unfoldable pub shift_inputs : fl.F64 → fl.F64 → List ℕ → fl.F64 × fl.F64
  shift_inputs mean vol [] = (mean, vol)
  shift_inputs mean vol (v ∷ vs) =
      shift_inputs (fl.add64 mean (fl.mul64 (unit_of v) fl.basis_point))
        (fl.add64 vol (fl.mul64 (fl.sub64 (unit_of (rotate_left v 13)) (fl.lit64 50)) (fl.lit64 1)))
        vs

  unfoldable pub sample : List ℕ → ℕ → fl.F64
  sample inputs seed =
      let r = wrapping_mul seed 0x2545_f491_4f6c_dd1d in
      let u = fl.sub64 (fl.mul64 (unit_of r) (fl.lit64 200)) (fl.lit64 100) in
      let base = fl.mul64 u (fl.lit64 5) in
      let (mean, vol) = shift_inputs (fl.lit64 0) (fl.lit64 100) inputs in
      fl.add64 mean (fl.mul64 base (fl.max64 vol (fl.lit64 10)))

  unfoldable pub samples : List ℕ → ℕ → ℕ → List fl.F64
  samples inputs zero seed = []
  samples inputs (suc n) seed = let s = next_seed seed in sample inputs s ∷ samples inputs n s

  -- `sort_by` with `partial_cmp`: a stable insertion sort.
  unfoldable pub insert_sample : fl.F64 → List fl.F64 → List fl.F64
  insert_sample x [] = x ∷ []
  insert_sample x (y ∷ ys) = if fl.lt64 y x then y ∷ insert_sample x ys else x ∷ y ∷ ys

  unfoldable pub sort_samples : List fl.F64 → List fl.F64
  sort_samples [] = []
  sort_samples (x ∷ xs) = insert_sample x (sort_samples xs)

  abbrev pub or_zero : Option fl.F64 → fl.F64
  or_zero none = fl.lit64 0
  or_zero (some x) = x

  -- `min` keeps the index in range: there are at least 5,000 samples.
  unfoldable pub montecarlo_risk : Job fl → Output fl
  montecarlo_risk job =
      let sims = clamp (job.compute_cost / 200) 5_000 50_000 in
      let sorted = sort_samples (samples job.inputs sims (bit_xor 0x1234_5678_9abc_def0 job.id)) in
      let idx = fl.to_u64 (fl.mul64 (fl.of_ℕ (length sorted)) (fl.lit64 5)) in
      f64 (or_zero (get_elem? sorted (min idx (length sorted - 1))))

  run_kernel : JobKind → Job fl → Output fl
  run_kernel JobKind.hash_mix = hashmix
  run_kernel JobKind.prime_count = primecount
  run_kernel JobKind.monte_carlo_risk = montecarlo_risk

  unfoldable pub execute_job : Job fl → List (Output fl)
  unfolding run_kernel
  execute_job job = run_kernel job.kind job ∷ []
