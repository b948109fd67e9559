-- ===== src/DependencyGraph/Recovery/Laws.antt =====
-- src/dependency_graph.rs: what recovery_order returns.
use helix_router_adaptive_as.Common.{
  ◌<◌, String, true, false, not, ◌&&◌, List, [], ◌∷◌, ◌++◌, some, none, length, retain, string_key,
  ◌==◌, ◌≡◌, ap, sym, subst, ◌↔◌, inl, inr, arith, Bool-cases,
}
use helix_router_adaptive_as.Common.Maps.{Map, get, get-here, get-later, get-keys, keys}
use helix_router_adaptive_as.Common.Sets.{
  contains, contains-append, contains-retain, distinct, distinct-appended, distinct-retain,
}
use helix_router_adaptive_as.Floats.{Floats}
use helix_router_adaptive_as.DependencyGraph.{
  DependencyEdge, DependencyGraph, or_empty, any, sort_unstable,
}
use helix_router_adaptive_as.DependencyGraph.Links.{leads_to, linked}
use helix_router_adaptive_as.DependencyGraph.Failures.Marks.{
  contains-sort_unstable, distinct-sort_unstable,
}
use helix_router_adaptive_as.DependencyGraph.Recovery.{
  targets_of, neighbours, in_degree, with_remaining, recovery_order,
}
use helix_router_adaptive_as.DependencyGraph.Recovery.Counts.{
  keys-in_degree, in_degree-IsCounted, occ-sort_unstable,
}
use helix_router_adaptive_as.Kahn.{free, kahn, start_of}
use helix_router_adaptive_as.Kahn.Count.{occ}
use helix_router_adaptive_as.Kahn.Release.{InOrder}
use helix_router_adaptive_as.Kahn.Laws.{kahn_orders, distinct-free}

module _ {fl : Floats} where
  occ-targets_of :
      (b : String) (edges : List (DependencyEdge fl))
      → (leads_to any b edges ≡ true) ↔ (0 < occ b (targets_of edges))
  unfolding leads_to
  occ-targets_of b [] = ground arith
  occ-targets_of b (edge ∷ edges) = ground (arith, occ-targets_of b edges)

  -- An edge stands in the list of its service.
  linked-get :
      (adjacency : Map String (List (DependencyEdge fl))) (a b : String)
      → linked any adjacency a b ≡ true
      → distinct (keys adjacency) ≡ true
      → (edges : List (DependencyEdge fl)) × (get a adjacency ≡ some edges)
        × (leads_to any b edges ≡ true)
  unfolding linked distinct
  linked-get [] a b h once = absurd cc
  linked-get ((from, edges) ∷ adjacency) a b h once =
      elim (Bool-cases (from == a && leads_to any b edges)) [
        | inl here ↦
            let this : from ≡ a = (string_key.same_iff from a).0 (ground arith) in
            (
              edges,
              subst (λ k. get k ((from, edges) ∷ adjacency) ≡ some edges) this
                  (get-here from edges adjacency),
              ground arith,
            )
        | inr other ↦
            let (es, there, leads) = linked-get adjacency a b (ground arith) (ground arith) in
            (es, get-later from a edges es adjacency (ground arith) there, leads)
      ]

  get-linked :
      (adjacency : Map String (List (DependencyEdge fl))) (a b : String)
      → 0 < occ b (targets_of (or_empty (get a adjacency)))
      → linked any adjacency a b ≡ true
  unfolding linked get
  get-linked [] a b h = ground arith
  get-linked ((from, edges) ∷ adjacency) a b h =
      ground (arith, get-linked adjacency a b, occ-targets_of b edges)

  module _ (g : DependencyGraph fl) where
    -- Each service of the list comes after all that have an edge to it, those of `before` included.
    abbrev pub AfterDependents : List String → List String → Type 0
    AfterDependents before [] = Unit
    AfterDependents before (v ∷ vs) =
        ((u : String) → linked any g.adjacency u v ≡ true → contains u before ≡ true)
        × AfterDependents (v ∷ before) vs

    -- The services without repetition: first those that the loop reaches, each after all that depend on
    -- it, and then those on which one depends that it does not reach.
    pub record Recovers (reached rest : List String) : Type 0 where
      pub once : distinct (reached ++ rest) ≡ true
      pub all_services :
          (v : String) → (contains v (reached ++ rest) ≡ true) ↔ (contains v (keys g.nodes) ≡ true)
      pub dependents_first : AfterDependents [] reached
      pub held_up :
          (v : String)
          → contains v rest ≡ true
          → (u : String) × (linked any g.adjacency u v ≡ true) × (contains u reached ≡ false)

    InOrder-AfterDependents :
        (before vs : List String)
        → distinct (keys g.adjacency) ≡ true
        → InOrder (neighbours g.adjacency) (keys g.adjacency) before vs
        → AfterDependents before vs
    InOrder-AfterDependents before [] once sorted = tt
    InOrder-AfterDependents before (v ∷ vs) once sorted = (
      λ u edge.
          let (edges, here, leads) = linked-get g.adjacency u v edge once in
          sorted.0 u (get-keys u edges g.adjacency here) (
            omega (
              arith,
              occ-sort_unstable v (targets_of (or_empty (get u g.adjacency))),
              ap (λ o. occ v (targets_of (or_empty o))) here,
              (occ-targets_of v edges).0 leads,
            )),
      InOrder-AfterDependents (v ∷ before) vs once sorted.1,
    )

    left_over : List String → List String
    left_over order = sort_unstable (retain (λ id. not (contains id order)) (keys g.nodes))

    contains-left_over :
        (order : List String) (v : String)
        → (contains v (left_over order) ≡ true)
          ↔ ((contains v (keys g.nodes) ≡ true) × (contains v order ≡ false))
    unfolding left_over
    contains-left_over order v = ground (
      arith,
      contains-sort_unstable v (retain (λ id. not (contains id order)) (keys g.nodes)),
      contains-retain (λ id. not (contains id order)) v (keys g.nodes),
    )

    -- On a graph whose services have different names and one list of edges each, recovery_order ends
    -- within its fuel and returns every registered service once. Those that its loop reaches come first,
    -- each after all services that depend on it, by edges of any type, and the others last: on each of
    -- them depends one that the loop does not reach.
    pub recovery_order_lem :
        distinct (keys g.nodes) ≡ true
        → distinct (keys g.adjacency) ≡ true
        → (reached : List String) × (rest : List String) × (recovery_order g
            ≡ some (reached ++ rest))
          × Recovers reached rest
    unfolding recovery_order with_remaining left_over
    recovery_order_lem nodes_once edges_once =
        let degree = in_degree g in
        let zero_once = distinct-free degree (rw (keys-in_degree g) nodes_once) in
        let (t, ends, once, sorted, among, left) =
          kahn_orders none (neighbours g.adjacency) (keys g.adjacency) degree
            (in_degree-IsCounted g nodes_once edges_once) (sort_unstable (free degree))
            (λ v. contains-sort_unstable v (free degree))
            (distinct-sort_unstable (free degree) zero_once) in
        let registered = λ (v : String) (m : contains v t.order ≡ true).
          subst (λ l. contains v l ≡ true) (keys-in_degree g) (among v m) in
        (
          t.order,
          left_over t.order,
          ap (with_remaining (keys g.nodes)) (
              subst
                (λ n.
                  kahn none (neighbours g.adjacency) n
                    (start_of (sort_unstable (free degree)) degree)
                  ≡ some t)
                (ap length (keys-in_degree g)) ends),
          record {
            once =
                distinct-appended t.order (left_over t.order) once
                  (distinct-sort_unstable (retain (λ id. not (contains id t.order)) (keys g.nodes))
                    (distinct-retain (λ id. not (contains id t.order)) (keys g.nodes) nodes_once))
                  (λ w m. ((contains-left_over t.order w).0 m).1);
            all_services = λ v. ground (
              arith,
              contains-append v t.order (left_over t.order),
              contains-left_over t.order v,
              registered v,
            );
            dependents_first = InOrder-AfterDependents [] t.order edges_once sorted;
            held_up = λ v m.
                let (inside, new) = (contains-left_over t.order v).0 m in
                let (u, here, u_new, edge) =
                  left v (subst (λ l. contains v l ≡ true) (sym (keys-in_degree g)) inside) new in
                (
                  u,
                  get-linked g.adjacency u v (
                      omega (
                        arith,
                        edge,
                        occ-sort_unstable v (targets_of (or_empty (get u g.adjacency))),
                      )),
                  u_new,
                );
          },
        )
