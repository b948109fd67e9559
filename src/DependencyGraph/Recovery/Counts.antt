-- ===== src/DependencyGraph/Recovery/Counts.antt =====
-- src/dependency_graph.rs: the degrees of recovery_order count the edges to a service.
use helix_router_adaptive_as.Common.{
  ℕ, suc, ◌+◌, String, true, false, List, [], ◌∷◌, none, some, string_key, ◌≡◌, refl, ap, ◌∙◌,
  arith, Option-cases, inl, inr,
}
use mathlib.Core.Option
use helix_router_adaptive_as.Common.Maps.{
  Map, get, modify, get-modify, keys, get-here, get-later, get-keys,
}
use helix_router_adaptive_as.Common.Sets.{contains, distinct}
use helix_router_adaptive_as.Floats.{Floats}
use helix_router_adaptive_as.DependencyGraph.{
  DependencyEdge, DependencyGraph, or_empty, insert_sorted, sort_unstable,
}
use helix_router_adaptive_as.DependencyGraph.Recovery.{
  no_degrees, targets_of, count_edges, count_all, neighbours, in_degree,
}
use helix_router_adaptive_as.Kahn.Count.{occ, incoming}
use helix_router_adaptive_as.Kahn.Release.{IsCounted}

occ-insert_sorted : (v x : String) (xs : List String) → occ v (insert_sorted x xs) ≡ occ v (x ∷ xs)
unfolding insert_sorted
occ-insert_sorted v x [] = refl
occ-insert_sorted v x (y ∷ ys) = ground (arith, occ-insert_sorted v x ys)

pub occ-sort_unstable : (v : String) (xs : List String) → occ v (sort_unstable xs) ≡ occ v xs
unfolding sort_unstable
occ-sort_unstable v [] = refl
occ-sort_unstable v (x ∷ xs) =
    omega (arith, occ-insert_sorted v x (sort_unstable xs), occ-sort_unstable v xs)

get-no_degrees : (v : String) (d : ℕ) (ids : List String) → get v (no_degrees ids) ≡ some d → d ≡ 0
unfolding no_degrees get
get-no_degrees v d [] h = absurd cc
get-no_degrees v d (id ∷ ids) h = ground (arith, get-no_degrees v d ids)

keys-no_degrees : (ids : List String) → keys (no_degrees ids) ≡ ids
unfolding no_degrees
keys-no_degrees [] = refl
keys-no_degrees (id ∷ ids) = ap (λ l. id ∷ l) (keys-no_degrees ids)

keys-modify : (k : String) (m : Map String ℕ) → keys (modify k suc m) ≡ keys m
unfolding modify
keys-modify k [] = refl
keys-modify k ((j, d) ∷ m) = ground (arith, keys-modify k m)

module _ {fl : Floats} where
  keys-count_edges :
      (edges : List (DependencyEdge fl)) (m : Map String ℕ) → keys (count_edges edges m) ≡ keys m
  unfolding count_edges
  keys-count_edges [] m = refl
  keys-count_edges (edge ∷ edges) m =
      keys-count_edges edges (modify edge.to suc m) ∙ keys-modify edge.to m

  keys-count_all :
      (adjacency : Map String (List (DependencyEdge fl))) (m : Map String ℕ)
      → keys (count_all adjacency m) ≡ keys m
  unfolding count_all
  keys-count_all [] m = refl
  keys-count_all ((from, edges) ∷ adjacency) m =
      keys-count_all adjacency (count_edges edges m) ∙ keys-count_edges edges m

  -- How many edges of the adjacency lead to `v`.
  unfoldable edges_to : String → Map String (List (DependencyEdge fl)) → ℕ
  edges_to v [] = 0
  edges_to v ((from, edges) ∷ adjacency) = occ v (targets_of edges) + edges_to v adjacency

  get-count_edges :
      (v : String) (edges : List (DependencyEdge fl)) (m : Map String ℕ)
      → get v (count_edges edges m) ≡ Option.map (λ d. occ v (targets_of edges) + d) (get v m)
  unfolding count_edges
  get-count_edges v [] m = ground (arith, Option-cases (get v m))
  get-count_edges v (edge ∷ edges) m = ground (
    arith,
    get-count_edges v edges (modify edge.to suc m),
    get-modify edge.to v suc m,
    Option-cases (get v m),
  )

  get-count_all :
      (v : String) (adjacency : Map String (List (DependencyEdge fl))) (m : Map String ℕ)
      → get v (count_all adjacency m) ≡ Option.map (λ d. edges_to v adjacency + d) (get v m)
  unfolding count_all edges_to
  get-count_all v [] m = ground (arith, Option-cases (get v m))
  get-count_all v ((from, edges) ∷ adjacency) m = ground (
    arith,
    get-count_all v adjacency (count_edges edges m),
    get-count_edges v edges m,
    Option-cases (get v m),
  )

  incoming-neighbours :
      (v : String) (adjacency part : Map String (List (DependencyEdge fl)))
      → distinct (keys part) ≡ true
      → ((u : String) (edges : List (DependencyEdge fl))
          → get u part ≡ some edges
          → get u adjacency ≡ some edges)
      → incoming (neighbours adjacency) (keys part) [] v ≡ edges_to v part
  unfolding incoming edges_to contains distinct
  incoming-neighbours v adjacency [] once sub = refl
  incoming-neighbours v adjacency ((from, edges) ∷ part) once sub =
      let here = sub from edges (get-here from edges part) in
      let rest =
        incoming-neighbours v adjacency part (ground arith)
          (λ u es m. sub u es (get-later from u edges es part (ground arith) m)) in
      omega (
        arith,
        rest,
        occ-sort_unstable v (targets_of (or_empty (get from adjacency))),
        ap (λ o. occ v (targets_of (or_empty o))) here,
      )

  pub keys-in_degree : (g : DependencyGraph fl) → keys (in_degree g) ≡ keys g.nodes
  keys-in_degree g =
      keys-count_all g.adjacency (no_degrees (keys g.nodes)) ∙ keys-no_degrees (keys g.nodes)

  neighbours-nil :
      (adjacency : Map String (List (DependencyEdge fl))) (u : String)
      → contains u (keys adjacency) ≡ false
      → neighbours adjacency u ≡ []
  unfolding sort_unstable
  neighbours-nil adjacency u h = elim (Option-cases (get u adjacency)) [
    | inl gone ↦ rw gone refl
    | inr (edges, here) ↦ ground (arith, get-keys u edges adjacency here)
  ]

  in_degree_counts :
      (g : DependencyGraph fl) (v : String) (d : ℕ)
      → distinct (keys g.adjacency) ≡ true
      → get v (in_degree g) ≡ some d
      → d ≡ incoming (neighbours g.adjacency) (keys g.adjacency) [] v
  in_degree_counts g v d once h =
      let zeros = no_degrees (keys g.nodes) in
      let counted = incoming-neighbours v g.adjacency g.adjacency once (λ u es m. m) in
      let all = get-count_all v g.adjacency zeros in
      elim (Option-cases (get v zeros)) [
        | inl gone ↦ ground (arith, all)
        | inr (z, here) ↦ ground (arith, all, counted, get-no_degrees v z (keys g.nodes) here)
      ]

  pub in_degree-IsCounted :
      (g : DependencyGraph fl)
      → distinct (keys g.nodes) ≡ true
      → distinct (keys g.adjacency) ≡ true
      → IsCounted none (neighbours g.adjacency) (keys g.adjacency) (in_degree g)
  in_degree-IsCounted g nodes_once edges_once = record {
    keys_once = rw (keys-in_degree g) nodes_once;
    universe_once = edges_once;
    outside = λ u h. neighbours-nil g.adjacency u h;
    counted = λ v d h. in_degree_counts g v d edges_once h;
    targets = λ u v m gone. refl;
  }
