-- ===== src/Dag.antt =====
-- src/dag.rs: the graph of jobs, the search for cycles, and the topological order. A `NodeId` is its
-- number, and the iteration order of a map is that of its list.
pub mod Execute
pub mod Edges
pub mod Quiet
pub mod Linked
pub mod Finished
pub mod Acyclic
pub mod Fuel
pub mod Degrees
pub mod Order
pub mod Steps
pub mod Join
pub mod After
pub mod Waves
pub mod Loop
pub mod Laws
use helix_router_adaptive_as.Common.{
  ℕ, zero, suc, ◌+◌, Bool, true, false, not, List, [], ◌∷◌, ◌++◌, Option, none, some, ◌⊎◌, inl, inr,
  ◌==◌, eqb, if◌then◌else◌, length, map, retain, nat_key,
}
use helix_router_adaptive_as.Common.Maps.{Map, get, insert, modify, keys}
use helix_router_adaptive_as.Common.Sets.{contains, with_member}
use helix_router_adaptive_as.Words.{add_u64}
use helix_router_adaptive_as.Floats.{Floats}
use helix_router_adaptive_as.Types.{Job, Output}
use helix_router_adaptive_as.Kahn.{Kahn, free, kahn, start_of}

pub record DagNode (fl : Floats) : Type 0 where
  pub job : Job fl
  pub depends_on : List ℕ
  pub output : Option (List (Output fl))

pub record JobDag (fl : Floats) : Type 0 where
  pub nodes : Map ℕ (DagNode fl)
  pub next_id : ℕ

pub data DagError : Type 0 where
  cycle_detected : ℕ → ℕ → DagError
  unknown_node job_dropped task_failed : ℕ → DagError
  empty_dag : DagError

-- What the search for cycles has seen, and whether it has met one.
pub record Cycles : Type 0 where
  pub visited : List ℕ
  pub in_stack : List ℕ
  pub cyclic : Bool

abbrev pub entered : ℕ → Cycles → Cycles
entered node st = record st {
  visited = with_member node st.visited;
  in_stack = with_member node st.in_stack;
}

unfoldable pub any_cyclic : (ℕ → Cycles → Option Cycles) → List ℕ → Cycles → Option Cycles
any_cyclic dfs [] st = some (record st { cyclic = false })
any_cyclic dfs (start ∷ starts) st =
    let go_on = any_cyclic dfs starts in
    if contains start st.visited
    then go_on st
    else elim (dfs start st) [ none ↦ none | some st' ↦ if st'.cyclic then some st' else go_on st' ]

unfoldable pub answer_of : Option Cycles → Option Bool
answer_of none = none
answer_of (some st) = some st.cyclic

unfoldable pub complete_order : ℕ → Option (Kahn ℕ) → Option (List ℕ)
complete_order count none = none
complete_order count (some t) = if eqb (length t.order) count then some t.order else none

module _ {fl : Floats} where
  abbrev pub new_dag : JobDag fl
  new_dag = record { nodes = []; next_id = 0 }

  abbrev pub new_node : Job fl → DagNode fl
  new_node job = record { job = job; depends_on = []; output = none }

  -- The graph with the node, and its number.
  unfoldable pub add_node : Job fl → JobDag fl → JobDag fl × ℕ
  add_node job g = (
    record { nodes = insert g.next_id (new_node job) g.nodes; next_id = add_u64 g.next_id 1 },
    g.next_id,
  )

  -- The loop over all nodes, of which those that depend on `node` are searched by `dfs`. Nothing
  -- where that runs out of fuel.
  unfoldable pub dependents_cyclic :
      (ℕ → Cycles → Option Cycles) → ℕ → Map ℕ (DagNode fl) → Cycles → Option Cycles
  dependents_cyclic dfs node [] st =
      some (record st { in_stack = retain (λ n. not (n == node)) st.in_stack; cyclic = false })
  dependents_cyclic dfs node ((other_id, other_node) ∷ rest) st =
      let go_on = dependents_cyclic dfs node rest in
      if contains node other_node.depends_on
      then (if contains other_id st.visited
          then (if contains other_id st.in_stack
              then some (record st { cyclic = true })
              else go_on st)
          else elim (dfs other_id st) [
            | none ↦ none
            | some st' ↦ if st'.cyclic then some st' else go_on st'
          ])
      else go_on st

  unfoldable pub dfs_has_cycle : ℕ → Map ℕ (DagNode fl) → ℕ → Cycles → Option Cycles
  dfs_has_cycle zero nodes node st = none
  dfs_has_cycle (suc fuel) nodes node st =
      dependents_cyclic (dfs_has_cycle fuel nodes) node nodes (entered node st)

  -- Nothing where the recursion, which has the number of nodes as its fuel, runs out of it.
  unfoldable pub has_cycle : Map ℕ (DagNode fl) → Option Bool
  has_cycle nodes = answer_of (
      any_cyclic (dfs_has_cycle (length nodes) nodes) (keys nodes)
        (record { visited = []; in_stack = []; cyclic = false }))

  abbrev pub with_dependency : ℕ → DagNode fl → DagNode fl
  with_dependency from node = record node { depends_on = node.depends_on ++ (from ∷ []) }

  abbrev pub without_dependency : ℕ → DagNode fl → DagNode fl
  without_dependency from node = record node {
    depends_on = retain (λ n. not (n == from)) node.depends_on;
  }

  -- The graph after the check for cycles, and the error. The outer option is that of the fuel.
  unfoldable pub checked_edge :
      ℕ → ℕ → JobDag fl → Option Bool → Option (JobDag fl × Option DagError)
  checked_edge from to g none = none
  checked_edge from to g (some true) = some (
    record g { nodes = modify to (without_dependency from) g.nodes },
    some (DagError.cycle_detected from to),
  )
  checked_edge from to g (some false) = some (g, none)

  unfoldable pub linked_edge : ℕ → ℕ → JobDag fl → Option (JobDag fl × Option DagError)
  linked_edge from to g =
      let nodes = modify to (with_dependency from) g.nodes in
      checked_edge from to (record g { nodes = nodes }) (has_cycle nodes)

  unfoldable pub add_edge : ℕ → ℕ → JobDag fl → Option (JobDag fl × Option DagError)
  add_edge from to g = elim (get from g.nodes) [
    | none ↦ some (g, some (DagError.unknown_node from))
    | some from_node ↦ elim (get to g.nodes) [
      | none ↦ some (g, some (DagError.unknown_node to))
      | some to_node ↦ linked_edge from to g
    ]
  ]

  unfoldable pub in_degrees : Map ℕ (DagNode fl) → Map ℕ ℕ
  in_degrees [] = []
  in_degrees ((id, node) ∷ nodes) = (id, length node.depends_on) ∷ in_degrees nodes

  -- The nodes that depend on `id`, in the order of the map.
  unfoldable pub dependents : Map ℕ (DagNode fl) → ℕ → List ℕ
  dependents [] id = []
  dependents ((other_id, other_node) ∷ nodes) id =
      let rest = dependents nodes id in
      if contains id other_node.depends_on then other_id ∷ rest else rest

  -- `entry(other_id).or_insert(0)` takes 0 for the degree of a node that has none.
  -- `degree_order` is the order in which the map of degrees, a hash map of its own, gives its keys.
  abbrev pub kahn_of : (List ℕ → List ℕ) → Map ℕ (DagNode fl) → Option (Kahn ℕ)
  kahn_of degree_order nodes =
      kahn (some 0) (dependents nodes) (length nodes)
        (start_of (degree_order (free (in_degrees nodes))) (in_degrees nodes))

  -- The loop has fuel for one round for each node, which is enough.
  unfoldable pub topological_order : (List ℕ → List ℕ) → JobDag fl → Option (List ℕ)
  topological_order degree_order g = complete_order (length g.nodes) (kahn_of degree_order g.nodes)

  unfoldable pub non_leaves : Map ℕ (DagNode fl) → List ℕ
  non_leaves [] = []
  non_leaves ((id, node) ∷ nodes) = node.depends_on ++ non_leaves nodes

  unfoldable pub leaf_nodes : JobDag fl → List ℕ
  leaf_nodes g = retain (λ id. not (contains id (non_leaves g.nodes))) (keys g.nodes)
