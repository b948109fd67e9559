-- ===== src/Kahn/Release.antt =====
-- Kahn's algorithm, as src/dag.rs and src/dependency_graph.rs write it out: what is true while the
-- degrees of those that a key leads to fall.
use helix_router_adaptive_as.Common.{
  ℕ, ◌+◌, ◌-◌, ◌<◌, true, false, List, [], ◌∷◌, ◌++◌, Option, none, some, Key, append_assoc, ◌≡◌,
  refl, subst, ◌↔◌, ◌⊎◌, inl, inr, arith, Option-cases,
}
use helix_router_adaptive_as.Common.Maps.{Map, get, get-insert, keys}
use helix_router_adaptive_as.Common.Sets.{
  contains, contains-append, contains_cons, distinct, distinct-concat,
}
use helix_router_adaptive_as.Kahn.{Kahn, lowered, lower, release}
use helix_router_adaptive_as.Kahn.Count.{occ, incoming}

module _ {K : Type 0} ⦃e : Key K⦄ where
  module _ (out : K → List K) (universe : List K) where
    -- Each key of the list comes after all that lead to it, those of `before` included.
    abbrev pub InOrder : List K → List K → Type 0
    InOrder before [] = Unit
    InOrder before (v ∷ vs) =
        ((u : K) → contains u universe ≡ true → 0 < occ v (out u) → contains u before ≡ true)
        × InOrder (v ∷ before) vs

  -- What the algorithm relies on: `out` leads only from those of `universe`, the degrees count its
  -- edges, and those that it leads to have one, unless the code leaves the others alone.
  pub record IsCounted (absent : Option ℕ) (out : K → List K) (universe : List K) (degree : Map K ℕ)
      : Type 0 where
    pub keys_once : distinct (keys degree) ≡ true
    pub universe_once : distinct universe ≡ true
    pub outside : (u : K) → contains u universe ≡ false → out u ≡ []
    pub counted : (v : K) (d : ℕ) → get v degree ≡ some d → d ≡ incoming out universe [] v
    pub targets : (u v : K) → contains v (out u) ≡ true → get v degree ≡ none → absent ≡ none

  abbrev pub placed : Kahn K → List K
  placed s = s.order ++ s.queue

  module _ (absent : Option ℕ) (out : K → List K) (universe : List K) (degree : Map K ℕ)
      (graph : IsCounted absent out universe degree) where
    -- The state while those of `vs` still wait for their degree to fall.
    pub record During (vs : List K) (s : Kahn K) : Type 0 where
      pub exact :
          (v : K) (d : ℕ) → get v s.degree ≡ some d → d ≡ incoming out universe s.order v + occ v vs
      pub ready : (v : K) → (contains v (placed s) ≡ true) ↔ (get v s.degree ≡ some 0)
      pub once : distinct (placed s) ≡ true
      pub same : (v : K) → (get v s.degree ≡ none) ↔ (get v degree ≡ none)
      pub known : (v : K) → contains v vs ≡ true → get v degree ≡ none → absent ≡ none

    lower-none : (v : K) (s : Kahn K) → get v s.degree ≡ none → absent ≡ none → lower absent v s ≡ s
    unfolding lower lowered
    lower-none v s here skip = ground arith

    lower-some :
        (v : K) (s : Kahn K) (d : ℕ)
        → get v s.degree ≡ some d
        → lower absent v s ≡ lowered v s (some d)
    unfolding lower lowered
    lower-some v s d here = ground arith

    placed-lowered :
        (w v : K) (s : Kahn K) (d : ℕ)
        → (contains w (placed (lowered v s (some d))) ≡ true)
          ↔ ((contains w (placed s) ≡ true) ⊎ (w ≡ v) × (d - 1 ≡ 0))
    unfolding lowered contains
    placed-lowered w v s d = ground (
      arith,
      contains-append w s.order s.queue,
      contains-append w s.queue (v ∷ []),
      contains-append w s.order (s.queue ++ (v ∷ [])),
      contains_cons w v [],
    )

    distinct-lowered :
        (v : K) (s : Kahn K) (d : ℕ)
        → contains v (placed s) ≡ false
        → distinct (placed s) ≡ true
        → distinct (placed (lowered v s (some d))) ≡ true
    unfolding lowered
    distinct-lowered v s d new h =
        let added =
          subst (λ l. distinct l ≡ true) (append_assoc s.order s.queue (v ∷ []))
            (distinct-concat v (placed s) new h) in
        ground arith

    incoming-lowered :
        (w v : K) (s : Kahn K) (d : ℕ)
        → incoming out universe (lowered v s (some d)).order w ≡ incoming out universe s.order w
    unfolding lowered
    incoming-lowered w v s d = refl

    During-lowered :
        (v : K) (vs : List K) (s : Kahn K) (d : ℕ)
        → get v s.degree ≡ some d
        → During (v ∷ vs) s
        → During vs (lowered v s (some d))
    unfolding lowered contains
    During-lowered v vs s d here h =
        let waits = h.exact v d here in
        let here_new = get-insert v v (d - 1) s.degree in
        record {
          exact = λ w c m. ground (
            arith,
            waits,
            h.exact w c,
            get-insert v w (d - 1) s.degree,
            e.same_iff v w,
            e.same_iff v v,
          );
          ready = λ w. ground (
            arith,
            waits,
            placed-lowered w v s d,
            h.ready w,
            get-insert v w (d - 1) s.degree,
            e.same_iff v w,
            e.same_iff v v,
          );
          once = distinct-lowered v s d (ground (arith, waits, h.ready v, e.same_iff v v)) h.once;
          same = λ w. ground (arith, h.same w, get-insert v w (d - 1) s.degree, e.same_iff v w);
          known = λ w m. h.known w ((contains_cons w v vs).1 (inr m));
        }

    During-lower :
        (v : K) (vs : List K) (s : Kahn K) → During (v ∷ vs) s → During vs (lower absent v s)
    unfolding contains
    During-lower v vs s h = elim (Option-cases (get v s.degree)) [
      | inl here ↦
          let skip = h.known v ((contains_cons v v vs).1 (inl refl)) ((h.same v).0 here) in
          rw (lower-none v s here skip) (record {
            exact = λ w c m. ground (arith, h.exact w c m, e.same_iff v w);
            ready = h.ready;
            once = h.once;
            same = h.same;
            known = λ w m. h.known w ((contains_cons w v vs).1 (inr m));
          })
      | inr (d, here) ↦ rw (lower-some v s d here) (During-lowered v vs s d here h)
    ]

    pub During-release : (vs : List K) (s : Kahn K) → During vs s → During [] (release absent s vs)
    unfolding release
    During-release [] s h = h
    During-release (v ∷ vs) s h = During-release vs (lower absent v s) (During-lower v vs s h)
