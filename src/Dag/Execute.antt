-- ===== src/Dag/Execute.antt =====
-- src/dag.rs: DagExecutor::execute. What the router and the tasks that are spawned do is a parameter:
-- the outcome of the task of each node, and the
-- order in which the tasks of a wave arrive.
use helix_router_adaptive_as.Common.{
  ℕ, zero, suc, ◌-◌, Bool, true, ◌&&◌, List, [], ◌∷◌, Option, none, some, ◌⊎◌, inl, inr,
  if◌then◌else◌, length, nat_key,
}
use helix_router_adaptive_as.Common.Maps.{Map, get, insert, delete, keys}
use helix_router_adaptive_as.Common.Sets.{contains}
use helix_router_adaptive_as.Words.{u64_mod}
use helix_router_adaptive_as.Floats.{Floats}
use helix_router_adaptive_as.Types.{Job, Output}
use helix_router_adaptive_as.Dag.{DagNode, JobDag, DagError, topological_order, leaf_nodes}

-- What a task gives back: the router's outputs, nothing where it dropped the job, or that it failed.
pub data TaskOutcome (fl : Floats) : Type 0 where
  finished : List (Output fl) → TaskOutcome fl
  refused panicked : TaskOutcome fl

pub record DagResult (fl : Floats) : Type 0 where
  pub all_outputs : Map ℕ (List (Output fl))
  pub leaf_outputs : Map ℕ (List (Output fl))
  pub nodes_executed : ℕ
  pub nodes_dropped : ℕ

-- The nodes whose dependencies are met, and the others.
pub record Split : Type 0 where
  pub wave : List ℕ
  pub next_remaining : List ℕ

pub record Progress (fl : Floats) : Type 0 where
  pub completed : Map ℕ (List (Output fl))
  pub nodes_map : Map ℕ (DagNode fl)
  pub nodes_dropped : ℕ

module _ {fl : Floats} where
  unfoldable pub all_deps_done : Map ℕ (List (Output fl)) → List ℕ → Bool
  all_deps_done completed [] = true
  all_deps_done completed (dep ∷ deps) =
      contains dep (keys completed) && all_deps_done completed deps

  unfoldable pub sorted_into :
      Map ℕ (List (Output fl)) → ℕ → Option (DagNode fl) → DagError ⊎ Split → DagError ⊎ Split
  sorted_into completed id none rest = inl (DagError.unknown_node id)
  sorted_into completed id (some node) (inl error) = inl error
  sorted_into completed id (some node) (inr rest) = inr (
      if all_deps_done completed node.depends_on
      then record rest { wave = id ∷ rest.wave }
      else record rest { next_remaining = id ∷ rest.next_remaining })

  unfoldable pub split_ready :
      Map ℕ (List (Output fl)) → Map ℕ (DagNode fl) → List ℕ → DagError ⊎ Split
  split_ready completed nodes [] = inr (record { wave = []; next_remaining = [] })
  split_ready completed nodes (id ∷ ids) =
      sorted_into completed id (get id nodes) (split_ready completed nodes ids)

  -- The jobs of a wave, which leave the map of nodes.
  unfoldable pub dispatch :
      Map ℕ (DagNode fl) → List ℕ → DagError ⊎ (Map ℕ (DagNode fl) × List (ℕ × Job fl))
  dispatch nodes [] = inr (nodes, [])
  dispatch nodes (id ∷ ids) = elim (get id nodes) [
    | none ↦ inl (DagError.unknown_node id)
    | some node ↦ elim (dispatch (delete id nodes) ids) [
      | inl error ↦ inl error
      | inr spawned ↦ inr (spawned.0, (id, node.job) ∷ spawned.1)
    ]
  ]

  unfoldable pub outputs_of_leaves : List ℕ → Map ℕ (List (Output fl)) → Map ℕ (List (Output fl))
  outputs_of_leaves leaf_set [] = []
  outputs_of_leaves leaf_set ((id, v) ∷ completed) =
      let rest = outputs_of_leaves leaf_set completed in
      if contains id leaf_set then (id, v) ∷ rest else rest

  unfoldable pub result_of :
      List ℕ → Option (DagError ⊎ Progress fl) → Option (DagError ⊎ DagResult fl)
  result_of leaf_set none = none
  result_of leaf_set (some (inl error)) = some (inl error)
  result_of leaf_set (some (inr st)) = some (
      inr (record {
        all_outputs = st.completed;
        leaf_outputs = outputs_of_leaves leaf_set st.completed;
        nodes_executed = length st.completed;
        nodes_dropped = st.nodes_dropped;
      }))

  module _ (outcome : ℕ → Job fl → TaskOutcome fl) where
    unfoldable pub join_next : Progress fl → List (ℕ × Job fl) → DagError ⊎ Progress fl
    join_next st [] = inr st
    join_next st ((id, job) ∷ jobs) = elim (outcome id job) [
      | finished outputs ↦ join_next (record st { completed = insert id outputs st.completed }) jobs
      | refused ↦
          join_next
            (record st {
              completed = insert id [] st.completed;
              nodes_dropped = suc st.nodes_dropped;
            })
            jobs
      | panicked ↦ inl (DagError.task_failed (u64_mod - 1))
    ]

    module _ (arrival : List (ℕ × Job fl) → List (ℕ × Job fl)) where
      -- Submit a wave and collect what its tasks give back.
      unfoldable pub run_wave : Progress fl → List ℕ → DagError ⊎ Progress fl
      run_wave st wave = elim (dispatch st.nodes_map wave) [
        | inl error ↦ inl error
        | inr spawned ↦ join_next (record st { nodes_map = spawned.0 }) (arrival spawned.1)
      ]

      -- One round, where `go_on` is the loop that follows.
      unfoldable pub next_wave :
          (Progress fl → List ℕ → Option (DagError ⊎ Progress fl))
          → Progress fl
          → DagError ⊎ Split
          → Option (DagError ⊎ Progress fl)
      next_wave go_on st (inl error) = some (inl error)
      next_wave go_on st (inr split) = elim split.wave [
        | [] ↦ elim split.next_remaining [ [] ↦ go_on st [] | _ ∷ _ ↦ some (inr st) ]
        | id ∷ ids ↦ elim (run_wave st (id ∷ ids)) [
          | inl error ↦ some (inl error)
          | inr st' ↦ go_on st' split.next_remaining
        ]
      ]

      -- Nothing where the fuel runs out.
      unfoldable pub waves : ℕ → Progress fl → List ℕ → Option (DagError ⊎ Progress fl)
      waves fuel st [] = some (inr st)
      waves zero st (id ∷ ids) = none
      waves (suc fuel) st (id ∷ ids) =
          next_wave (waves fuel) st (split_ready st.completed st.nodes_map (id ∷ ids))

      unfoldable pub execute_order : JobDag fl → Option (List ℕ) → Option (DagError ⊎ DagResult fl)
      execute_order dag none = some (inl (DagError.cycle_detected 0 0))
      execute_order dag (some topo) = result_of (leaf_nodes dag) (
          waves (length topo) (record { completed = []; nodes_map = dag.nodes; nodes_dropped = 0 })
            topo)

      -- The loop has fuel for one round for each node.
      unfoldable pub execute : (List ℕ → List ℕ) → JobDag fl → Option (DagError ⊎ DagResult fl)
      execute degree_order dag = elim dag.nodes [
        | [] ↦ some (inl DagError.empty_dag)
        | _ ∷ _ ↦ execute_order dag (topological_order degree_order dag)
      ]
