-- ===== src/DependencyGraph.antt =====
-- src/dependency_graph.rs: the graph of services, how a failure spreads in it, and orders of recovery.
-- The iteration order of a map is that of its list.
pub mod Search
pub mod Links
pub mod Failures
pub mod Recovery
use Prim.Native.String.{compare}
use text.Mathlib.Text.{is_le}
use helix_router_adaptive_as.Common.{
  ℕ, zero, suc, ◌+◌, ◌-◌, String, Bool, true, false, not, List, [], ◌∷◌, ◌++◌, Option, none, some,
  map, length, retain, if◌then◌else◌, ◌==◌, string_key,
}
use helix_router_adaptive_as.Common.Maps.{Map, get, insert, modify}
use helix_router_adaptive_as.Floats.{Floats}

pub data ServiceHealth : Type 0 where
  healthy unknown : ServiceHealth
  degraded failed : String → ServiceHealth

pub record ServiceNode : Type 0 where
  pub id : String
  pub name : String
  pub health : ServiceHealth
  pub criticality : ℕ

pub data EdgeType : Type 0 where
  hard_dependency soft_dependency fallback : EdgeType

pub record DependencyEdge (fl : Floats) : Type 0 where
  pub from : String
  pub to : String
  pub edge_type : EdgeType
  pub weight : fl.F64

pub record DependencyGraph (fl : Floats) : Type 0 where
  pub nodes : Map String ServiceNode
  pub adjacency : Map String (List (DependencyEdge fl))

abbrev pub or_empty {ℓ} : {A : Type ℓ} → Option (List A) → List A
or_empty none = []
or_empty (some xs) = xs

-- `entry(k).or_default().push(x)`
unfoldable pub push_at {ℓ} : {A : Type ℓ} → String → A → Map String (List A) → Map String (List A)
push_at k x m = insert k (or_empty (get k m) ++ (x ∷ [])) m

-- `sort_unstable` on strings, which are equal where the order does not tell them apart.
unfoldable pub insert_sorted : String → List String → List String
insert_sorted x [] = x ∷ []
insert_sorted x (y ∷ ys) =
    let rest = insert_sorted x ys in if is_le (compare x y) then x ∷ y ∷ ys else y ∷ rest

unfoldable pub sort_unstable : List String → List String
sort_unstable [] = []
sort_unstable (x ∷ xs) = insert_sorted x (sort_unstable xs)

abbrev pub is_hard : EdgeType → Bool
is_hard EdgeType.hard_dependency = true
is_hard EdgeType.soft_dependency = false
is_hard EdgeType.fallback = false

abbrev pub is_failed : ServiceHealth → Bool
is_failed (ServiceHealth.failed reason) = true
is_failed (ServiceHealth.degraded reason) = false
is_failed ServiceHealth.healthy = false
is_failed ServiceHealth.unknown = false

abbrev pub fail_with : String → ServiceNode → ServiceNode
fail_with reason node = record node { health = ServiceHealth.failed reason }

module _ {fl : Floats} where
  abbrev pub empty_graph : DependencyGraph fl
  empty_graph = record { nodes = []; adjacency = [] }

  abbrev pub add_service : ServiceNode → DependencyGraph fl → DependencyGraph fl
  add_service node g = record g { nodes = insert node.id node g.nodes }

  unfoldable pub add_dependency :
      String → String → EdgeType → fl.F64 → DependencyGraph fl → DependencyGraph fl
  add_dependency from to edge_type weight g =
      let edge : DependencyEdge fl = record {
        from = from;
        to = to;
        edge_type = edge_type;
        weight = weight;
      } in
      record g { adjacency = push_at from edge g.adjacency }

  unfoldable pub mark_failed : String → String → DependencyGraph fl → DependencyGraph fl
  mark_failed service_id reason g = record g {
    nodes = modify service_id (fail_with reason) g.nodes;
  }

  -- One list of edges, of the service `from`, put into the reverse adjacency.
  unfoldable pub reverse_edges :
      (DependencyEdge fl → Bool)
      → String
      → List (DependencyEdge fl)
      → Map String (List String)
      → Map String (List String)
  reverse_edges wanted from [] reverse = reverse
  reverse_edges wanted from (edge ∷ edges) reverse =
      reverse_edges wanted from edges
        (if wanted edge then push_at edge.to from reverse else reverse)

  -- For each service, those with an edge to it.
  unfoldable pub reverse_all :
      (DependencyEdge fl → Bool)
      → Map String (List (DependencyEdge fl))
      → Map String (List String)
      → Map String (List String)
  reverse_all wanted [] reverse = reverse
  reverse_all wanted ((from, edges) ∷ adjacency) reverse =
      reverse_all wanted adjacency (reverse_edges wanted from edges reverse)

  abbrev pub hard : DependencyEdge fl → Bool
  hard edge = is_hard edge.edge_type

  abbrev pub any : DependencyEdge fl → Bool
  any edge = true

  -- How many edges the adjacency has.
  abbrev pub edge_count : Map String (List (DependencyEdge fl)) → ℕ
  edge_count [] = 0
  edge_count ((from, edges) ∷ adjacency) = length edges + edge_count adjacency
