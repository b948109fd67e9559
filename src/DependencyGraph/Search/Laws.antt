-- ===== src/DependencyGraph/Search/Laws.antt =====
-- The searches of src/dependency_graph.rs: they end, and visit what they can reach.
use helix_router_adaptive_as.Common.{
  ℕ, suc, ◌+◌, ◌≤◌, String, Bool, true, false, List, [], ◌∷◌, length, string_key, ◌≡◌, refl, ◌↔◌,
  ◌⊎◌, inl, inr, Bool-cases, arith,
}
use helix_router_adaptive_as.Common.Sets.{
  contains, contains-append, contains_cons, distinct, distinct-concat, missing, missing-cons,
}
use helix_router_adaptive_as.DependencyGraph.Search.{Search, offer, scan}

-- What `put` does to the list of what waits.
pub record PutLaws (put : String → List String → List String) : Type 0 where
  pub holds :
      (w v : String) (xs : List String)
      → (contains w (put v xs) ≡ true) ↔ ((w ≡ v) ⊎ (contains w xs ≡ true))
  pub grows : (v : String) (xs : List String) → length (put v xs) ≡ suc (length xs)

-- The services that lead to one of `start` by links.
pub data Impacted (start : List String) (link : String → String → Bool) : String → Type 0 where
  hit : {x : String} → contains x start ≡ true → Impacted start link x
  via : {a b : String} → link a b ≡ true → Impacted start link b → Impacted start link a

-- Nothing is visited or found twice.
pub record Distinct (s : Search) : Type 0 where
  pub visits : distinct s.visited ≡ true
  pub finds : distinct s.found ≡ true
  pub among : (w : String) → contains w s.found ≡ true → contains w s.visited ≡ true

abbrev pub work : List String → Search → ℕ
work universe s = missing s.visited universe + length s.pending

module _ {put : String → List String → List String} (laws : PutLaws put) where
  pub visited-scan :
      (w : String) (s : Search) (deps : List String)
      → (contains w (scan put s deps).visited ≡ true)
        ↔ ((contains w s.visited ≡ true) ⊎ (contains w deps ≡ true))
  unfolding scan offer contains
  visited-scan w s [] = ground arith
  visited-scan w s (dep ∷ deps) = ground (
    arith,
    visited-scan w (offer put s dep) deps,
    contains_cons w dep deps,
    contains_cons w dep s.visited,
  )

  -- What a scan puts into the list of what waits is what it visits for the first time.
  pub pending-scan :
      (w : String) (s : Search) (deps : List String)
      → (contains w (scan put s deps).pending ≡ true) ↔ (
          (contains w s.pending ≡ true) ⊎ (contains w deps ≡ true) × (contains w s.visited ≡ false))
  unfolding scan offer contains
  pending-scan w s [] = ground arith
  pending-scan w s (dep ∷ deps) = ground (
    arith,
    pending-scan w (offer put s dep) deps,
    contains_cons w dep deps,
    contains_cons w dep s.visited,
    laws.holds w dep s.pending,
  )

  pub found-scan :
      (w : String) (s : Search) (deps : List String)
      → (contains w (scan put s deps).found ≡ true)
        ↔ ((contains w s.found ≡ true) ⊎ (contains w deps ≡ true) × (contains w s.visited ≡ false))
  unfolding scan offer contains
  found-scan w s [] = ground arith
  found-scan w s (dep ∷ deps) = ground (
    arith,
    found-scan w (offer put s dep) deps,
    contains_cons w dep deps,
    contains_cons w dep s.visited,
    contains-append w s.found (dep ∷ []),
    contains_cons w dep [],
  )

  pub work-scan :
      (universe : List String) (s : Search) (deps : List String)
      → ((w : String) → contains w deps ≡ true → contains w universe ≡ true)
      → work universe (scan put s deps) ≤ work universe s
  unfolding scan offer
  work-scan universe s [] h = omega arith
  work-scan universe s (dep ∷ deps) h =
      let rest =
        work-scan universe (offer put s dep) deps
          (λ w m. h w ((contains_cons w dep deps).1 (inr m))) in
      let here = h dep ((contains_cons dep dep deps).1 (inl refl)) in
      ground (arith, rest, here, missing-cons s.visited dep universe, laws.grows dep s.pending)

  Distinct-offer : (s : Search) (dep : String) → Distinct s → Distinct (offer put s dep)
  unfolding offer distinct contains
  Distinct-offer s dep h = elim (Bool-cases (contains dep s.visited)) [
    | inl old ↦ rw old h
    | inr new ↦ rw new (record {
      visits = ground (arith, h.visits);
      finds = distinct-concat dep s.found (ground (arith, h.among dep)) h.finds;
      among = λ w m. ground (
        arith,
        h.among w,
        contains-append w s.found (dep ∷ []),
        contains_cons w dep [],
        contains_cons w dep s.visited,
      );
    })
  ]

  pub Distinct-scan : (s : Search) (deps : List String) → Distinct s → Distinct (scan put s deps)
  unfolding scan
  Distinct-scan s [] h = h
  Distinct-scan s (dep ∷ deps) h = Distinct-scan (offer put s dep) deps (Distinct-offer s dep h)
