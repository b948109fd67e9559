-- ===== src/DependencyGraph/Recovery.antt =====
-- src/dependency_graph.rs: recovery_order.
mod Counts
pub mod Laws
use helix_router_adaptive_as.Common.{
  ℕ, suc, String, Bool, not, List, [], ◌∷◌, ◌++◌, Option, none, some, map, length, retain,
  string_key,
}
use helix_router_adaptive_as.Common.Maps.{Map, get, modify, keys}
use helix_router_adaptive_as.Common.Sets.{contains}
use helix_router_adaptive_as.Floats.{Floats}
use helix_router_adaptive_as.DependencyGraph.{
  ServiceNode, DependencyEdge, DependencyGraph, or_empty, sort_unstable,
}
use helix_router_adaptive_as.Kahn.{Kahn, free, kahn, start_of}

unfoldable pub no_degrees : List String → Map String ℕ
no_degrees [] = []
no_degrees (id ∷ ids) = (id, 0) ∷ no_degrees ids

-- The order of the loop, and after it the services that it has not reached.
unfoldable pub with_remaining : List String → Option (Kahn String) → Option (List String)
with_remaining node_ids none = none
with_remaining node_ids (some t) =
    some (t.order ++ sort_unstable (retain (λ id. not (contains id t.order)) node_ids))

module _ {fl : Floats} where
  abbrev pub targets_of : List (DependencyEdge fl) → List String
  targets_of = map (λ edge. edge.to)

  unfoldable pub count_edges : List (DependencyEdge fl) → Map String ℕ → Map String ℕ
  count_edges [] degree = degree
  count_edges (edge ∷ edges) degree = count_edges edges (modify edge.to suc degree)

  unfoldable pub count_all : Map String (List (DependencyEdge fl)) → Map String ℕ → Map String ℕ
  count_all [] degree = degree
  count_all ((from, edges) ∷ adjacency) degree = count_all adjacency (count_edges edges degree)

  -- The services to which those edges lead that start at `node`, sorted.
  abbrev pub neighbours : Map String (List (DependencyEdge fl)) → String → List String
  neighbours adjacency node = sort_unstable (targets_of (or_empty (get node adjacency)))

  abbrev pub in_degree : DependencyGraph fl → Map String ℕ
  in_degree g = count_all g.adjacency (no_degrees (keys g.nodes))

  -- The loop has fuel for one round for each service.
  unfoldable pub recovery_order : DependencyGraph fl → Option (List String)
  recovery_order g = with_remaining (keys g.nodes) (
      kahn none (neighbours g.adjacency) (length (keys g.nodes))
        (start_of (sort_unstable (free (in_degree g))) (in_degree g)))
