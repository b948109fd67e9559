-- ===== src/Tests/Graphs.antt =====
-- The theorems on the graph of jobs and on the graph of services at concrete inputs.
use helix_router_adaptive_as.Common.{
  none, Option, ℕ, suc, ◌≡◌, refl, subst, inl, inr, true, false, String, List, [], ◌∷◌, ◌++◌, some,
  string_key, nat_key, length, arith,
}
use helix_router_adaptive_as.Common.Maps.{get, keys, insert, modify, get-some_cons, get-nil}
use helix_router_adaptive_as.Common.Sets.{contains, distinct}
use helix_router_adaptive_as.Types.{Job, u64}
use helix_router_adaptive_as.Dag.{
  DagNode, JobDag, DagError, new_node, add_edge, linked_edge, checked_edge, has_cycle,
  topological_order, complete_order, in_degrees, dependents, answer_of, any_cyclic, dfs_has_cycle,
  dependents_cyclic,
}
use helix_router_adaptive_as.Dag.Edges.{EdgeResult, add_edge_lem}
use helix_router_adaptive_as.Dag.Degrees.{IsDag}
use helix_router_adaptive_as.Dag.Execute.{execute_order, TaskOutcome, finished, DagResult, execute}
use helix_router_adaptive_as.Dag.Laws.{Executed, execute_lem}
use helix_router_adaptive_as.DependencyGraph.{
  ServiceHealth, ServiceNode, EdgeType, DependencyEdge, DependencyGraph, any, push_at,
  reverse_edges, reverse_all, sort_unstable, insert_sorted,
}
use helix_router_adaptive_as.DependencyGraph.Search.Laws.{Impacted}
use helix_router_adaptive_as.DependencyGraph.Links.{linked}
use helix_router_adaptive_as.DependencyGraph.Failures.{
  failed_ids, propagate_failures, impact_radius, count_visited,
}
use helix_router_adaptive_as.DependencyGraph.Failures.Laws.{
  Spreads, propagate_failures_lem, impact_radius_lem,
}
use helix_router_adaptive_as.DependencyGraph.Recovery.{
  recovery_order, with_remaining, no_degrees, count_edges, count_all,
}
use helix_router_adaptive_as.DependencyGraph.Search.{offer, scan, scan_found, expand, search}
use helix_router_adaptive_as.Kahn.{free, lowered, lower, release, visit, kahn}
use helix_router_adaptive_as.DependencyGraph.Recovery.Laws.{Recovers, recovery_order_lem}
use helix_router_adaptive_as.Tests.Data.{fixed, job_of}

abbrev node_after : List ℕ → DagNode fixed
node_after deps = record (new_node (job_of 7 7)) { depends_on = deps }

-- Node 2 depends on 1 and 0, and 1 on 0
abbrev diamond : JobDag fixed
diamond = record {
  nodes = (2, node_after (1 ∷ 0 ∷ [])) ∷ (1, node_after (0 ∷ [])) ∷ (0, node_after []) ∷ [];
  next_id = 3;
}

diamond-cases :
    (P : ℕ → DagNode fixed → Type 0) (id : ℕ) (node : DagNode fixed)
    → P 2 (node_after (1 ∷ 0 ∷ []))
    → P 1 (node_after (0 ∷ []))
    → P 0 (node_after [])
    → get id diamond.nodes ≡ some node
    → P id node
diamond-cases P id node two one zero_node h =
    elim (get-some_cons id 2 node (node_after (1 ∷ 0 ∷ [])) _ h) [
      | inl (at, same) ↦ subst (P id) same (subst (λ i. P i (node_after (1 ∷ 0 ∷ []))) at two)
      | inr (_, h1) ↦ elim (get-some_cons id 1 node (node_after (0 ∷ [])) _ h1) [
        | inl (at, same) ↦ subst (P id) same (subst (λ i. P i (node_after (0 ∷ []))) at one)
        | inr (_, h2) ↦ elim (get-some_cons id 0 node (node_after []) [] h2) [
          | inl (at, same) ↦ subst (P id) same (subst (λ i. P i (node_after [])) at zero_node)
          | inr (_, h3) ↦ absurd (get-nil id node h3)
        ]
      ]
    ]

diamond-IsDag : IsDag diamond.nodes
unfolding distinct contains
diamond-IsDag = record {
  once = refl;
  different =
      λ id node h. diamond-cases (λ i n. distinct n.depends_on ≡ true) id node refl refl refl h;
  inside = λ id node dep h m.
      diamond-cases
        (λ i n. contains dep n.depends_on ≡ true → contains dep (keys diamond.nodes) ≡ true) id node
        (λ d. ground arith) (λ d. ground arith) (λ d. cc) h m;
}

abbrev squares : ℕ → Job fixed → TaskOutcome fixed
squares id job = finished (u64 id ∷ [])

has_cycle-diamond : has_cycle diamond.nodes ≡ some false
unfolding has_cycle answer_of any_cyclic contains dfs_has_cycle dependents_cyclic
has_cycle-diamond = refl

execute_lem_example :
    (r : DagResult fixed) × (execute squares (λ jobs. jobs) (λ ks. ks) diamond ≡ some (inr r))
    × Executed diamond squares r
execute_lem_example =
    execute_lem diamond squares (λ id job h. cc) (λ jobs. jobs)
      (record { once = λ jobs h. h; each = λ jobs v h. refl }) (λ ks. ks)
      (record { members = λ ks v. (λ m. m, λ m. m); once = λ ks h. h }) diamond-IsDag
      has_cycle-diamond (λ h. cc)

-- An edge that is added twice is taken, and execute then finds a cycle that is not there
abbrev doubled : JobDag fixed
doubled = record { nodes = (1, node_after (0 ∷ 0 ∷ [])) ∷ (0, node_after []) ∷ []; next_id = 2 }

execute-doubled :
    (add_edge 0 1 (record doubled { nodes = (1, node_after (0 ∷ [])) ∷ (0, node_after []) ∷ [] })
      ≡ some (doubled, none))
    × (execute squares (λ jobs. jobs) (λ ks. ks) doubled ≡ some (inl (DagError.cycle_detected 0 0)))
unfolding add_edge get linked_edge checked_edge has_cycle answer_of any_cyclic modify contains
    dfs_has_cycle dependents_cyclic execute execute_order topological_order complete_order kahn free
    in_degrees visit release lower lowered insert dependents
execute-doubled = (refl, refl)

-- The edge from 2 to 0 would close a cycle
add_edge-diamond : add_edge 2 0 diamond ≡ some (diamond, some (DagError.cycle_detected 2 0))
unfolding add_edge get linked_edge checked_edge has_cycle answer_of any_cyclic modify contains
    dfs_has_cycle dependents_cyclic
add_edge-diamond = refl

add_edge_lem_example :
    (r : JobDag fixed × Option DagError) × (add_edge 2 0 diamond ≡ some r)
    × EdgeResult 2 0 diamond r
unfolding contains
add_edge_lem_example = add_edge_lem 2 0 diamond diamond-IsDag (λ node h.
    diamond-cases (λ i n. i ≡ 0 → contains 2 n.depends_on ≡ false) 0 node (λ z. cc) (λ z. cc)
      (λ z. refl) h refl)

abbrev service : String → ServiceHealth → String × ServiceNode
service id health = (id, record { id = id; name = id; health = health; criticality = 1 })

abbrev needs : String → String → EdgeType → DependencyEdge fixed
needs from to edge_type = record { from = from; to = to; edge_type = edge_type; weight = 100 }

-- web needs api, api needs db, and audit uses db if it can; db has failed
abbrev shop : DependencyGraph fixed
shop = record {
  nodes =
      service "web" ServiceHealth.healthy
      ∷ service "api" ServiceHealth.healthy
      ∷ service "db" (ServiceHealth.failed "disk")
      ∷ service "audit" ServiceHealth.unknown
      ∷ [];
  adjacency =
      ("web", needs "web" "api" EdgeType.hard_dependency ∷ [])
      ∷ ("api", needs "api" "db" EdgeType.hard_dependency ∷ [])
      ∷ ("audit", needs "audit" "db" EdgeType.soft_dependency ∷ [])
      ∷ [];
}

impact_radius-shop : impact_radius "db" shop ≡ some 3
unfolding impact_radius count_visited search expand scan_found get reverse_all reverse_edges push_at
    insert scan offer contains
impact_radius-shop = refl

-- The service on which the others depend comes last
recovery_order-shop : recovery_order shop ≡ some ("audit" ∷ "web" ∷ "api" ∷ "db" ∷ [])
unfolding recovery_order with_remaining kahn sort_unstable free count_all count_edges modify
    no_degrees insert_sorted visit release get lower lowered insert contains
recovery_order-shop = refl

propagate_failures_lem_example :
    (g : DependencyGraph fixed) × (ids : List String) × (propagate_failures shop ≡ some (g, ids))
    × Spreads shop (failed_ids shop.nodes) ids g
unfolding distinct contains
propagate_failures_lem_example = propagate_failures_lem shop refl

impact_radius_lem_example :
    (n : ℕ) × (impact_radius "db" shop ≡ some n)
    × (reached : List String) × (length reached ≡ suc n)
    × (distinct reached ≡ true)
    × ((w : String)
        → ((contains w reached ≡ true) → Impacted ("db" ∷ []) (linked any shop.adjacency) w)
          × (Impacted ("db" ∷ []) (linked any shop.adjacency) w → contains w reached ≡ true))
impact_radius_lem_example = impact_radius_lem shop "db"

recovery_order_lem_example :
    (reached : List String) × (rest : List String) × (recovery_order shop ≡ some (reached ++ rest))
    × Recovers shop reached rest
unfolding distinct contains
recovery_order_lem_example = recovery_order_lem shop refl refl
