-- ===== src/Dag/Laws.antt =====
-- src/dag.rs: DagExecutor::execute as a whole.
use helix_router_adaptive_as.Common.{
  ℕ, false, true, List, [], ◌∷◌, none, some, ◌⊎◌, inl, inr, if◌then◌else◌, length, count_if,
  nat_key, ◌≡◌, ◌≢◌, refl, ap, ◌∙◌, arith, List-cases, List-cases,
}
use helix_router_adaptive_as.Common.Maps.{Map, get, get_cons, get-keys, keys, length-keys}
use helix_router_adaptive_as.Common.Sets.{contains, contains-nil, distinct, distinct-among}
use helix_router_adaptive_as.Floats.{Floats}
use helix_router_adaptive_as.Types.{Job, Output}
use helix_router_adaptive_as.Dag.{DagNode, JobDag, has_cycle, topological_order, leaf_nodes}
use helix_router_adaptive_as.Dag.Acyclic.{has_cycle-IsRank}
use helix_router_adaptive_as.Dag.Degrees.{IsDag}
use helix_router_adaptive_as.Dag.Order.{IsOrder, IsRank, OrderLaws, topological_order-some}
use helix_router_adaptive_as.Dag.Steps.{outputs_from}
use helix_router_adaptive_as.Dag.Loop.{waves_lem}
use helix_router_adaptive_as.Dag.Join.{ArrivalLaws}
use helix_router_adaptive_as.Dag.Waves.{refused_at, Ran}
use helix_router_adaptive_as.Dag.Execute.{
  TaskOutcome, panicked, Progress, DagResult, waves, outputs_of_leaves, result_of, execute_order,
  execute,
}

-- What execute answers about the graph: every node ran, each after those that it depends on, with what
-- its task gave back.
module _ {fl : Floats} (g : JobDag fl) (outcome : ℕ → Job fl → TaskOutcome fl) where
  pub record Executed (r : DagResult fl) : Type 0 where
    pub order : IsOrder g.nodes (keys r.all_outputs)
    pub outputs :
        (v : ℕ) (node : DagNode fl)
        → get v g.nodes ≡ some node
        → get v r.all_outputs ≡ some (outputs_from (outcome v node.job))
    pub leaves :
        (v : ℕ)
        → get v r.leaf_outputs ≡ (if contains v (leaf_nodes g) then get v r.all_outputs else none)
    pub executed : r.nodes_executed ≡ length g.nodes
    pub dropped : r.nodes_dropped ≡ count_if (refused_at g.nodes outcome) (keys r.all_outputs)

  module _ (runs : (id : ℕ) (job : Job fl) → outcome id job ≢ panicked)
      (arrival : List (ℕ × Job fl) → List (ℕ × Job fl)) (arrives : ArrivalLaws arrival)
      (degree_order : List ℕ → List ℕ) (any_order : OrderLaws degree_order) where
    start-Ran :
        (order : List ℕ)
        → IsOrder g.nodes order
        → Ran g.nodes outcome
            (record { completed = []; nodes_map = g.nodes; nodes_dropped = 0 })
            order
    unfolding contains distinct
    start-Ran order topo = record {
      once = refl;
      sorted = tt;
      later = topo.sorted;
      different = topo.once;
      apart = λ v m. refl;
      kept = λ v m. refl;
      all_nodes = λ v. ground (arith, topo.all_nodes v);
      outputs = λ v node here m. cc;
      dropped = refl;
    }

    get-outputs_of_leaves :
        (leaf_set : List ℕ) (completed : Map ℕ (List (Output fl))) (v : ℕ)
        → get v (outputs_of_leaves leaf_set completed)
          ≡ (if contains v leaf_set then get v completed else none)
    unfolding outputs_of_leaves get
    get-outputs_of_leaves leaf_set [] v = ground arith
    get-outputs_of_leaves leaf_set ((id, o) ∷ completed) v = ground (
      arith,
      get-outputs_of_leaves leaf_set completed v,
      nat_key.same_iff id v,
      get_cons v id o completed,
      ap (λ k. contains k leaf_set),
    )

    execute-order :
        (order : List ℕ)
        → topological_order degree_order g ≡ some order
        → g.nodes ≢ []
        → execute outcome arrival degree_order g
          ≡ result_of (leaf_nodes g) (
              waves outcome arrival
                (length order)
                (record { completed = []; nodes_map = g.nodes; nodes_dropped = 0 })
                order)
    unfolding execute execute_order
    execute-order order sorts some_node = elim (List-cases g.nodes) [
      | inl empty ↦ absurd (some_node empty)
      | inr (n, ns, e) ↦ simp (e, sorts, execute, execute_order)
    ]

    result_of-some :
        (st : Progress fl)
        → result_of (leaf_nodes g) (some (inr st))
          ≡ some (
              inr (record {
                all_outputs = st.completed;
                leaf_outputs = outputs_of_leaves (leaf_nodes g) st.completed;
                nodes_executed = length st.completed;
                nodes_dropped = st.nodes_dropped;
              }))
    unfolding result_of
    result_of-some st = refl

    run_nodes :
        (v : ℕ) (all done : List ℕ)
        → (contains v all ≡ true → (contains v done ≡ true) ⊎ (contains v [] ≡ true))
        → contains v all ≡ true
        → contains v done ≡ true
    run_nodes v all done split m = elim (split m) [
      | inl here ↦ here
      | inr nowhere ↦ absurd (contains-nil v nowhere)
    ]

    Ran-Executed :
        (st : Progress fl)
        → IsDag g.nodes
        → Ran g.nodes outcome st []
        → Executed (record {
          all_outputs = st.completed;
          leaf_outputs = outputs_of_leaves (leaf_nodes g) st.completed;
          nodes_executed = length st.completed;
          nodes_dropped = st.nodes_dropped;
        })
    Ran-Executed st dag h =
        let all_run = λ (v : ℕ) (m : contains v (keys g.nodes) ≡ true).
          run_nodes v (keys g.nodes) (keys st.completed) (h.all_nodes v).0 m in
        let among =
          λ (v : ℕ) (m : contains v (keys st.completed) ≡ true). (h.all_nodes v).1 (inl m) in
        record {
          order = record {
            once = h.once;
            all_nodes = λ v. (among v, all_run v);
            sorted = h.sorted;
          };
          outputs = λ v node here. h.outputs v node here (all_run v (get-keys v node g.nodes here));
          leaves = get-outputs_of_leaves (leaf_nodes g) st.completed;
          executed = omega (
            arith,
            distinct-among (keys st.completed) (keys g.nodes) h.once among,
            distinct-among (keys g.nodes) (keys st.completed) dag.once all_run,
            length-keys g.nodes,
            length-keys st.completed,
          );
          dropped = h.dropped;
        }

    -- The execution of a graph with numbers that rise along its edges.
    execute_ranked :
        (rank : ℕ → ℕ)
        → IsDag g.nodes
        → IsRank g.nodes rank
        → g.nodes ≢ []
        → (r : DagResult fl) × (execute outcome arrival degree_order g ≡ some (inr r)) × Executed r
    execute_ranked rank dag falls some_node =
        let (order, sorts, topo) = topological_order-some degree_order g rank any_order dag falls in
        let (st, ends, ran) =
          waves_lem g.nodes outcome runs arrives (length order)
            (record { completed = []; nodes_map = g.nodes; nodes_dropped = 0 }) order
            (start-Ran order topo) (omega arith) in
        (
          record {
            all_outputs = st.completed;
            leaf_outputs = outputs_of_leaves (leaf_nodes g) st.completed;
            nodes_executed = length st.completed;
            nodes_dropped = st.nodes_dropped;
          },
          execute-order order sorts some_node
              ∙ ap (result_of (leaf_nodes g)) ends
              ∙ result_of-some st,
          Ran-Executed st dag ran,
        )

    -- On a graph in which nodes depend on different nodes of the graph, and in which the search for
    -- cycles finds none, execute ends within its fuel if there is a node and no task fails, in
    -- whatever order the tasks of a wave arrive and the map of degrees gives its keys. It runs every node once, each after those that it
    -- depends on have completed, and gives the outputs of each, those of the leaves by themselves, and
    -- how many jobs the router dropped.
    pub execute_lem :
        IsDag g.nodes
        → has_cycle g.nodes ≡ some false
        → g.nodes ≢ []
        → (r : DagResult fl) × (execute outcome arrival degree_order g ≡ some (inr r)) × Executed r
    execute_lem dag acyclic some_node =
        let (rank, falls) = has_cycle-IsRank g.nodes dag acyclic in
        execute_ranked rank dag falls some_node
