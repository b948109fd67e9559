-- ===== src/Strategies/Laws.antt =====
-- src/strategies.rs: the sieve.
use helix_router_adaptive_as.Common.{◌≡◌, refl, [], ◌∷◌, true, false}
use helix_router_adaptive_as.Strategies.{sieve, sieve_loop, initial_flags, strike}

sieve_small :
    sieve 12
    ≡ false ∷ false ∷ true ∷ true ∷ false ∷ true ∷ false ∷ true ∷ false ∷ false ∷ false ∷ true
      ∷ false ∷ []
unfolding sieve sieve_loop initial_flags strike
sieve_small = refl
