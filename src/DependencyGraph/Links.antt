-- ===== src/DependencyGraph/Links.antt =====
-- What the reverse adjacency of src/dependency_graph.rs holds, in terms of the edges.
use helix_router_adaptive_as.Common.{
  String, Bool, true, false, ◌&&◌, ◌||◌, List, [], ◌∷◌, ◌++◌, length, length-append, if◌then◌else◌,
  ◌==◌, string_key, ◌≡◌, ◌↔◌, ◌⊎◌, refl, arith,
}
use helix_router_adaptive_as.Common.Maps.{Map, get, get-insert}
use helix_router_adaptive_as.Common.Sets.{contains, contains-append, contains_cons}
use helix_router_adaptive_as.Floats.{Floats}
use helix_router_adaptive_as.DependencyGraph.{
  DependencyEdge, or_empty, push_at, reverse_edges, reverse_all, edge_count,
}

module _ {fl : Floats} where
  -- The service of each edge.
  unfoldable pub sources_of : String → List (DependencyEdge fl) → List String
  sources_of from [] = []
  sources_of from (edge ∷ edges) = from ∷ sources_of from edges

  unfoldable pub sources : Map String (List (DependencyEdge fl)) → List String
  sources [] = []
  sources ((from, edges) ∷ adjacency) = sources_of from edges ++ sources adjacency

  length-sources_of :
      (from : String) (edges : List (DependencyEdge fl))
      → length (sources_of from edges) ≡ length edges
  unfolding sources_of
  length-sources_of from [] = refl
  length-sources_of from (edge ∷ edges) = omega (arith, length-sources_of from edges)

  pub length-sources :
      (adjacency : Map String (List (DependencyEdge fl)))
      → length (sources adjacency) ≡ edge_count adjacency
  unfolding sources
  length-sources [] = refl
  length-sources ((from, edges) ∷ adjacency) = omega (
    arith,
    length-sources_of from edges,
    length-sources adjacency,
    length-append (sources_of from edges) (sources adjacency),
  )

module _ {fl : Floats} (wanted : DependencyEdge fl → Bool) where
  -- Whether one of the edges that are wanted leads to `b`.
  unfoldable pub leads_to : String → List (DependencyEdge fl) → Bool
  leads_to b [] = false
  leads_to b (edge ∷ edges) = wanted edge && edge.to == b || leads_to b edges

  -- Whether a wanted edge leads from `a` to `b`.
  unfoldable pub linked : Map String (List (DependencyEdge fl)) → String → String → Bool
  linked [] a b = false
  linked ((from, edges) ∷ adjacency) a b = from == a && leads_to b edges || linked adjacency a b

  -- Whether `a` is in the list of a reverse map at `b`.
  abbrev pub listed : String → String → Map String (List String) → Bool
  listed a b reverse = contains a (or_empty (get b reverse))

  listed-push_at :
      (a b k x : String) (m : Map String (List String))
      → (listed a b (push_at k x m) ≡ true) ↔ ((k == b && x == a ≡ true) ⊎ (listed a b m ≡ true))
  unfolding push_at contains
  listed-push_at a b k x m = ground (
    arith,
    get-insert k b (or_empty (get k m) ++ (x ∷ [])) m,
    string_key.same_iff k b,
    string_key.same_iff x a,
    contains-append a (or_empty (get k m)) (x ∷ []),
    contains_cons a x [],
  )

  listed-reverse_edges :
      (a b from : String) (edges : List (DependencyEdge fl)) (r : Map String (List String))
      → (listed a b (reverse_edges wanted from edges r) ≡ true)
        ↔ ((from == a && leads_to b edges ≡ true) ⊎ (listed a b r ≡ true))
  unfolding reverse_edges leads_to
  listed-reverse_edges a b from [] r = ground arith
  listed-reverse_edges a b from (edge ∷ edges) r = ground (
    arith,
    listed-push_at a b edge.to from r,
    listed-reverse_edges a b from edges (if wanted edge then push_at edge.to from r else r),
  )

  pub listed-reverse_all :
      (a b : String) (adjacency : Map String (List (DependencyEdge fl)))
      (r : Map String (List String))
      → (listed a b (reverse_all wanted adjacency r) ≡ true)
        ↔ ((linked adjacency a b ≡ true) ⊎ (listed a b r ≡ true))
  unfolding reverse_all linked
  listed-reverse_all a b [] r = ground arith
  listed-reverse_all a b ((from, edges) ∷ adjacency) r = ground (
    arith,
    listed-reverse_edges a b from edges r,
    listed-reverse_all a b adjacency (reverse_edges wanted from edges r),
  )

  contains-sources_of :
      (a b from : String) (edges : List (DependencyEdge fl))
      → from == a && leads_to b edges ≡ true
      → contains a (sources_of from edges) ≡ true
  unfolding leads_to sources_of contains
  contains-sources_of a b from [] h = ground arith
  contains-sources_of a b from (edge ∷ edges) h = ground arith

  pub contains-sources :
      (a b : String) (adjacency : Map String (List (DependencyEdge fl)))
      → linked adjacency a b ≡ true
      → contains a (sources adjacency) ≡ true
  unfolding linked sources
  contains-sources a b [] h = absurd cc
  contains-sources a b ((from, edges) ∷ adjacency) h = ground (
    arith,
    contains-sources_of a b from edges,
    contains-sources a b adjacency,
    contains-append a (sources_of from edges) (sources adjacency),
  )
