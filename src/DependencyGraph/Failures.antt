-- ===== src/DependencyGraph/Failures.antt =====
-- src/dependency_graph.rs: propagate_failures and impact_radius.
pub mod Marks
pub mod Laws
use helix_router_adaptive_as.Common.{
  ℕ, ◌+◌, ◌-◌, String, Bool, true, false, List, [], ◌∷◌, Option, none, some, length, if◌then◌else◌,
  string_key,
}
use helix_router_adaptive_as.Common.Maps.{Map, modify}
use helix_router_adaptive_as.Floats.{Floats}
use helix_router_adaptive_as.DependencyGraph.{
  ServiceNode, DependencyEdge, DependencyGraph, is_failed, fail_with, reverse_all, hard, any,
  edge_count, sort_unstable,
}
use helix_router_adaptive_as.DependencyGraph.Search.{Search, push_stack, push_queue, search}

-- The services that have failed, in the order of the map.
unfoldable pub failed_ids : Map String ServiceNode → List String
failed_ids [] = []
failed_ids ((id, node) ∷ nodes) =
    let rest = failed_ids nodes in if is_failed node.health then id ∷ rest else rest

unfoldable pub fail_all : List String → Map String ServiceNode → Map String ServiceNode
fail_all [] nodes = nodes
fail_all (id ∷ ids) nodes = fail_all ids (modify id (fail_with "propagated failure") nodes)

unfoldable pub count_visited : Option Search → Option ℕ
count_visited none = none
count_visited (some s) = some (length s.visited - 1)

module _ {fl : Floats} where
  -- What is done with the services that the search has found.
  unfoldable pub mark_found :
      DependencyGraph fl → Option Search → Option (DependencyGraph fl × List String)
  mark_found g none = none
  mark_found g (some s) =
      some (record g { nodes = fail_all s.found g.nodes }, sort_unstable s.found)

  unfoldable pub spread :
      DependencyGraph fl → List String → Option (DependencyGraph fl × List String)
  spread g [] = some (g, [])
  spread g (id ∷ ids) =
      let initially_failed = id ∷ ids in
      mark_found g (
        search push_stack (reverse_all hard g.adjacency [])
          (edge_count g.adjacency + length initially_failed)
          (record { visited = initially_failed; pending = initially_failed; found = [] }))

  -- The graph with the services marked, and their names. The fuel is the number of edges and of the
  -- services that have failed.
  unfoldable pub propagate_failures : DependencyGraph fl → Option (DependencyGraph fl × List String)
  propagate_failures g = spread g (failed_ids g.nodes)

  -- The source keeps no list of what is found here.
  unfoldable pub impact_radius : String → DependencyGraph fl → Option ℕ
  impact_radius service_id g =
      let from_here = service_id ∷ [] in
      count_visited (
        search push_queue (reverse_all any g.adjacency []) (edge_count g.adjacency + 1)
          (record { visited = from_here; pending = from_here; found = [] }))
