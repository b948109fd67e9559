-- ===== src/Dag/Edges.antt =====
-- src/dag.rs: what an edge leaves that is added, and what one that is refused.
use helix_router_adaptive_as.Common.{
  ℕ, ◌⊎◌, Bool, true, false, not, List, [], ◌∷◌, ◌++◌, Option, none, some, ◌==◌, retain, nat_key,
  ◌≡◌, refl, ap, arith, inl, inr, subst, Option-cases,
}
use mathlib.Core.Option.{some-injective}
use helix_router_adaptive_as.Common.Maps.{Map, get, modify, get-keys, modify-modify_undo}
use helix_router_adaptive_as.Common.Sets.{contains}
use helix_router_adaptive_as.Floats.{Floats}
use helix_router_adaptive_as.Dag.Fuel.{has_cycle-some}
use helix_router_adaptive_as.Dag.Degrees.{IsDag}
use helix_router_adaptive_as.Dag.Order.{IsRank}
use helix_router_adaptive_as.Dag.Acyclic.{has_cycle-IsRank}
use helix_router_adaptive_as.Dag.Quiet.{IsRank-has_cycle}
use helix_router_adaptive_as.Dag.Linked.{linked-IsDag}
use helix_router_adaptive_as.Dag.{
  DagNode, JobDag, DagError, has_cycle, with_dependency, without_dependency, checked_edge,
  linked_edge, add_edge,
}

retain-without :
    (from : ℕ) (deps : List ℕ)
    → contains from deps ≡ false
    → retain (λ n. not (n == from)) (deps ++ (from ∷ [])) ≡ deps
unfolding contains
retain-without from [] new = ground arith
retain-without from (d ∷ deps) new = ground (arith, retain-without from deps)

module _ {fl : Floats} where
  modify-twice :
      (to from : ℕ) (nodes : Map ℕ (DagNode fl))
      → ((node : DagNode fl) → get to nodes ≡ some node → contains from node.depends_on ≡ false)
      → modify to (without_dependency from) (modify to (with_dependency from) nodes) ≡ nodes
  modify-twice to from nodes new =
      modify-modify_undo to (with_dependency from) (without_dependency from) nodes (λ node h.
        ap (λ deps. record node { depends_on = deps })
          (retain-without from node.depends_on (new node h)))

  -- What add_edge leaves: the graph with the edge, whose nodes can be numbered along the edges, or the
  -- graph as it was and an error, which names a node that is missing, or tells that the nodes of the
  -- graph with the edge cannot be numbered so.
  abbrev pub EdgeResult : ℕ → ℕ → JobDag fl → JobDag fl × Option DagError → Type 0
  EdgeResult from to g (g', none) =
      (g' ≡ record g { nodes = modify to (with_dependency from) g.nodes })
      × (has_cycle g'.nodes ≡ some false)
      × IsDag g'.nodes
      × ((rank : ℕ → ℕ) × IsRank g'.nodes rank)
  EdgeResult from to g (g', some (DagError.unknown_node id)) =
      (g' ≡ g) × ((id ≡ from) ⊎ (id ≡ to)) × (get id g.nodes ≡ none)
  EdgeResult from to g (g', some (DagError.cycle_detected source target)) =
      (g' ≡ g)
      × (source ≡ from)
      × (target ≡ to)
      × ((rank : ℕ → ℕ) → ¬ IsRank (modify to (with_dependency from) g.nodes) rank)
  EdgeResult from to g (g', some error) = ⊥

  module _ (from to : ℕ) (g : JobDag fl) (dag : IsDag g.nodes)
      (new : (node : DagNode fl)
        → get to g.nodes ≡ some node
        → contains from node.depends_on ≡ false) where
    checked_edge-EdgeResult :
        (test : Option Bool) (r : JobDag fl × Option DagError)
        → IsDag (modify to (with_dependency from) g.nodes)
        → has_cycle (modify to (with_dependency from) g.nodes) ≡ test
        → checked_edge from to (record g { nodes = modify to (with_dependency from) g.nodes }) test
          ≡ some r
        → EdgeResult from to g r
    unfolding checked_edge
    checked_edge-EdgeResult none r shape e h = absurd cc
    checked_edge-EdgeResult (some false) r shape e h =
        subst (EdgeResult from to g) (some-injective _ _ h)
          (refl, e, shape, has_cycle-IsRank _ shape e)
    checked_edge-EdgeResult (some true) r shape e h =
        subst (EdgeResult from to g) (some-injective _ _ h) (
          ap (λ nodes. record g { nodes = nodes }) (modify-twice to from g.nodes new),
          refl,
          refl,
          λ rank ranked. IsRank-has_cycle rank _ shape.once ranked e,
        )

    unknown-EdgeResult :
        (id : ℕ) (r : JobDag fl × Option DagError)
        → (id ≡ from) ⊎ (id ≡ to)
        → get id g.nodes ≡ none
        → some (g, some (DagError.unknown_node id)) ≡ some r
        → EdgeResult from to g r
    unknown-EdgeResult id r is gone h =
        subst (EdgeResult from to g) (some-injective _ _ h) (refl, is, gone)

    add_edge-EdgeResult :
        (r : JobDag fl × Option DagError) → add_edge from to g ≡ some r → EdgeResult from to g r
    unfolding add_edge linked_edge
    add_edge-EdgeResult r h = elim (Option-cases (get from g.nodes)) [
      | inl gone ↦ unknown-EdgeResult from r (inl refl) gone (simp (gone, add_edge) at h)
      | inr (from_node, here) ↦ elim (Option-cases (get to g.nodes)) [
        | inl gone ↦ unknown-EdgeResult to r (inr refl) gone (simp (here, gone, add_edge) at h)
        | inr (to_node, there) ↦
            checked_edge-EdgeResult (has_cycle (modify to (with_dependency from) g.nodes)) r
              (linked-IsDag from to g.nodes dag (get-keys from from_node g.nodes here) new) refl
              (simp (here, there, add_edge, linked_edge) at h)
      ]
    ]

    checked_edge-some :
        (b : Bool) (g1 : JobDag fl)
        → (r : JobDag fl × Option DagError) × (checked_edge from to g1 (some b) ≡ some r)
    unfolding checked_edge
    checked_edge-some true g1 = (
      (
        record g1 { nodes = modify to (without_dependency from) g1.nodes },
        some (DagError.cycle_detected from to),
      ),
      refl,
    )
    checked_edge-some false g1 = ((g1, none), refl)

    add_edge-some : (r : JobDag fl × Option DagError) × (add_edge from to g ≡ some r)
    unfolding add_edge linked_edge
    add_edge-some = elim (Option-cases (get from g.nodes)) [
      | inl gone ↦ ((g, some (DagError.unknown_node from)), simp (gone, add_edge))
      | inr (from_node, here) ↦ elim (Option-cases (get to g.nodes)) [
        | inl gone ↦ ((g, some (DagError.unknown_node to)), simp (here, gone, add_edge))
        | inr (to_node, there) ↦
            let nodes = modify to (with_dependency from) g.nodes in
            let (found, ends) = has_cycle-some nodes in
            let (r, gives) = checked_edge-some found (record g { nodes = nodes }) in
            (r, simp (here, there, ends, add_edge, linked_edge) gives)
      ]
    ]

    -- In a graph whose nodes have different numbers and depend on different nodes of the graph, and
    -- where the edge is new, add_edge ends within its fuel. Without an error it leaves the graph with
    -- that edge and no other change, which has the same shape and no cycle: its nodes can be numbered
    -- such that each has a higher number than those it depends on. With an error it leaves the graph as
    -- it was: the error names one of the two nodes, which the graph does not have, or it is that of a
    -- cycle, and then the graph with the edge has one, as no such numbering exists.
    pub add_edge_lem :
        (r : JobDag fl × Option DagError) × (add_edge from to g ≡ some r) × EdgeResult from to g r
    add_edge_lem = let (r, ends) = add_edge-some in (r, ends, add_edge-EdgeResult r ends)
