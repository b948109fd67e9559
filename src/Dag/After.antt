-- ===== src/Dag/After.antt =====
-- src/dag.rs: lists of nodes in which each comes after those that it depends on.
use helix_router_adaptive_as.Common.{
  ℕ, Bool, true, false, List, [], ◌∷◌, ◌++◌, some, inl, inr, retain, nat_key, ◌≡◌, refl, arith,
  Bool-cases,
}
use helix_router_adaptive_as.Common.Maps.{Map, get}
use helix_router_adaptive_as.Common.Sets.{contains, contains-append, contains_cons, contains-nil}
use helix_router_adaptive_as.Floats.{Floats}
use helix_router_adaptive_as.Dag.{DagNode}
use helix_router_adaptive_as.Dag.Order.{AfterDependencies}

module _ {fl : Floats} (nodes : Map ℕ (DagNode fl)) where
  -- With more before it a list stays in order.
  After-mono :
      (before before' vs : List ℕ)
      → ((w : ℕ) → contains w before ≡ true → contains w before' ≡ true)
      → AfterDependencies nodes before vs
      → AfterDependencies nodes before' vs
  After-mono before before' [] more sorted = tt
  After-mono before before' (v ∷ vs) more sorted = (
    λ node dep here m. more dep (sorted.0 node dep here m),
    After-mono (v ∷ before) (v ∷ before') vs
        (λ w m. ground (arith, more w, contains_cons w v before, contains_cons w v before'))
        sorted.1,
  )

  -- Two lists, the second after the first.
  pub After-append :
      (before xs ys : List ℕ)
      → AfterDependencies nodes before xs
      → AfterDependencies nodes (before ++ xs) ys
      → AfterDependencies nodes before (xs ++ ys)
  After-append before [] ys first second =
      After-mono (before ++ []) before ys
        (λ w m. ground (arith, contains-append w before [], contains-nil w)) second
  After-append before (x ∷ xs) ys first second = (
    first.0,
    After-append (x ∷ before) xs ys first.1 (
        After-mono (before ++ (x ∷ xs)) ((x ∷ before) ++ xs) ys
          (λ w m. ground (
            arith,
            contains-append w before (x ∷ xs),
            contains-append w (x ∷ before) xs,
            contains_cons w x xs,
            contains_cons w x before,
          ))
          second),
  )

  -- Those that do not pass the test are taken from a list and stand before it.
  pub After-retain :
      (p : ℕ → Bool) (before before' vs : List ℕ)
      → ((w : ℕ) → contains w before ≡ true → contains w before' ≡ true)
      → ((w : ℕ) → contains w vs ≡ true → p w ≡ false → contains w before' ≡ true)
      → AfterDependencies nodes before vs
      → AfterDependencies nodes before' (retain p vs)
  After-retain p before before' [] more taken sorted = tt
  After-retain p before before' (v ∷ vs) more taken sorted = elim (Bool-cases (p v)) [
    | inl stays ↦ rw stays (
      λ node dep here m. more dep (sorted.0 node dep here m),
      After-retain p (v ∷ before) (v ∷ before') vs
          (λ w m. ground (arith, more w, contains_cons w v before, contains_cons w v before'))
          (λ w m out.
            (contains_cons w v before').1 (inr (taken w ((contains_cons w v vs).1 (inr m)) out)))
          sorted.1,
    )
    | inr leaves ↦
        let here = taken v ((contains_cons v v vs).1 (inl refl)) leaves in
        rw leaves (
          After-retain p (v ∷ before) before' vs
            (λ w m. elim ((contains_cons w v before).0 m) [
              | inl same ↦ rw same here
              | inr old ↦ more w old
            ])
            (λ w m out. taken w ((contains_cons w v vs).1 (inr m)) out) sorted.1)
  ]

  -- Those whose dependencies are all met may come in any order.
  pub After-met :
      (before vs : List ℕ)
      → ((v : ℕ) (node : DagNode fl) (dep : ℕ)
          → contains v vs ≡ true
          → get v nodes ≡ some node
          → contains dep node.depends_on ≡ true
          → contains dep before ≡ true)
      → AfterDependencies nodes before vs
  After-met before [] met = tt
  After-met before (v ∷ vs) met = (
    λ node dep here m. met v node dep ((contains_cons v v vs).1 (inl refl)) here m,
    After-mono before (v ∷ before) vs (λ w m. (contains_cons w v before).1 (inr m))
        (After-met before vs
          (λ w node dep m here d. met w node dep ((contains_cons w v vs).1 (inr m)) here d)),
  )
