-- ===== src/Kahn/Count.antt =====
-- How many edges still lead to a key, which is what the degrees of Kahn's algorithm keep.
use helix_router_adaptive_as.Common.{
  ℕ, ◌+◌, ◌<◌, true, false, List, [], ◌∷◌, ◌++◌, Key, ◌==◌, if◌then◌else◌, count_if, ◌≡◌, refl, inl,
  inr, arith, Bool-cases, ap, ltb, ltb→lt,
}
use helix_router_adaptive_as.Common.Sets.{contains, contains-append, contains_cons, distinct}

module _ {ℓ} {K : Type ℓ} ⦃e : Key K⦄ where
  abbrev pub occ : K → List K → ℕ
  occ v xs = count_if (λ x. x == v) xs

  pub occ-contains : (v : K) (xs : List K) → 0 < occ v xs → contains v xs ≡ true
  unfolding contains
  occ-contains v [] h = ground arith
  occ-contains v (x ∷ xs) h = ground (arith, occ-contains v xs)

  module _ (out : K → List K) where
    -- The edges to `v` from those of `universe` that are not in `order`.
    unfoldable pub incoming : List K → List K → K → ℕ
    incoming [] order v = 0
    incoming (u ∷ universe) order v =
        (if contains u order then 0 else occ v (out u)) + incoming universe order v

    pub incoming-absent :
        (universe order : List K) (u v : K)
        → contains u universe ≡ false
        → incoming universe (order ++ (u ∷ [])) v ≡ incoming universe order v
    unfolding incoming contains
    incoming-absent [] order u v h = refl
    incoming-absent (x ∷ universe) order u v h = ground (
      arith,
      incoming-absent universe order u v,
      contains-append x order (u ∷ []),
      contains_cons x u [],
      e.same_iff x u,
    )

    pub incoming-concat :
        (universe order : List K) (u v : K)
        → distinct universe ≡ true
        → contains u universe ≡ true
        → contains u order ≡ false
        → incoming universe (order ++ (u ∷ [])) v + occ v (out u) ≡ incoming universe order v
    unfolding incoming contains distinct
    incoming-concat [] order u v once h new = absurd cc
    incoming-concat (x ∷ universe) order u v once h new = elim (Bool-cases (x == u)) [
      | inl same ↦
          let here : x ≡ u = (e.same_iff x u).0 same in
          ground (
            arith,
            contains-append x order (u ∷ []),
            contains_cons x u [],
            ap (λ y. occ v (out y)) here,
            ap (λ y. contains y order) here,
            ap (λ y. contains y universe) here,
            incoming-absent universe order u v,
          )
      | inr other ↦ ground (
        arith,
        incoming-concat universe order u v,
        contains-append x order (u ∷ []),
        contains_cons x u [],
        e.same_iff x u,
      )
    ]

    pub incoming-zero :
        (universe order : List K) (u v : K)
        → incoming universe order v ≡ 0
        → contains u universe ≡ true
        → 0 < occ v (out u)
        → contains u order ≡ true
    unfolding incoming contains
    incoming-zero [] order u v h m edge = absurd cc
    incoming-zero (x ∷ universe) order u v h m edge = elim (Bool-cases (x == u)) [
      | inl same ↦
          let here : x ≡ u = (e.same_iff x u).0 same in
          ground (arith, ap (λ y. occ v (out y)) here, ap (λ y. contains y order) here)
      | inr other ↦ ground (arith, incoming-zero universe order u v)
    ]

    later :
        (x : K) (universe order : List K) (v : K)
        → ((u : K) × (contains u universe ≡ true)
            × (contains u order ≡ false)
            × (0 < occ v (out u)))
        → (u : K) × (contains u (x ∷ universe) ≡ true)
          × (contains u order ≡ false)
          × (0 < occ v (out u))
    later x universe order v (u, inside, new, edge) =
        (u, (contains_cons u x universe).1 (inr inside), new, edge)

    pub incoming_pos :
        (universe order : List K) (v : K)
        → 0 < incoming universe order v
        → (u : K) × (contains u universe ≡ true) × (contains u order ≡ false) × (0 < occ v (out u))
    unfolding incoming
    incoming_pos [] order v h = absurd (omega arith)
    incoming_pos (x ∷ universe) order v h = elim (Bool-cases (contains x order)) [
      | inl old ↦ later x universe order v (incoming_pos universe order v (ground arith))
      | inr new ↦ elim (Bool-cases (ltb 0 (occ v (out x)))) [
        | inl edge ↦
            (x, (contains_cons x x universe).1 (inl refl), new, ltb→lt 0 (occ v (out x)) edge)
        | inr no_edge ↦ later x universe order v (incoming_pos universe order v (ground arith))
      ]
    ]
